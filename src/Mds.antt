-- ===== src/Mds.antt =====
-- The scanner of the metadata server's disk: `main` of new_scan_code/mds_src.c.
pub mod Attrs
pub mod Buffer
pub mod Inodes
pub mod Lov
pub mod Link
pub mod Main
pub mod Mismatch
pub mod Statements
pub mod Described
use dist_lfsck.Cypher.{
  mds, directory, file, lma, pfid, create, set_type, set_fid, set_ost_oid, merge_mds_parent,
}
use dist_lfsck.Disk.{Image, Memory, load, read_at}
use dist_lfsck.Flow.{Flow, next, exit, ◌>>=◌}
use dist_lfsck.Lustre.{
  lu_fid_at, fid_be_to_cpu, lustre_mdt_attrs_at, link_ea_header_at, sizeof_link_ea_header,
  link_ea_magic, lee_parent_fid, lee_name, lov_user_md_at, lmm_object_at,
}
use dist_lfsck.Prelude.{
  ltb, ℕ, zero, suc, ◌+◌, ◌*◌, ◌%◌, ◌^◌, true, false, Option, none, some, [], codes, ◌==◌,
  if◌then◌else◌,
}
use dist_lfsck.Report.{
  open_failed, not_ext4, connection_failed, inode_header, directory_found, file_found, entry_name,
  lma_fid, link_matched, parent_fid, link_mismatch, lov_metadata, ost_object, counts,
}
use dist_lfsck.Scan.Rounds.{for_inodes}
use dist_lfsck.Scan.Start.{started, s_magic, volume_of}
use dist_lfsck.Scan.Directory.{list_directory}
use dist_lfsck.Scan.{
  Machine, Volume, Scan, print, run, ext4_super_magic, attr_magic, base_offset, block_offset,
  block_size_of, i_mode, ihdr, ifirst, is_dir, is_reg, read_inode, value_of, rounds,
}
use dist_lfsck.Xattr.{entry_at, walk, begins}

-- `if (e_name begins with "lma")`: the inode's own FID.
unfoldable pub lma_part : ℕ → Memory → ℕ → Memory → Scan → Scan
lma_part i m p value s =
    let self = (lustre_mdt_attrs_at value 0).lma_self_fid in
    if begins m (p + 16) (codes "lma")
    then run (set_fid mds i lma self) (print (lma_fid self) s)
    else s

-- `if (e_name begins with "link")`: the parent's FID and the relation to it. A wrong magic number
-- ends the program.
unfoldable pub link_part : ℕ → Memory → ℕ → Memory → Scan → Flow Scan
link_part i m p value s =
    let lee = sizeof_link_ea_header in
    let parent = fid_be_to_cpu (lu_fid_at value (lee + lee_parent_fid)) in
    if begins m (p + 16) (codes "link")
    then if (link_ea_header_at value 0).leh_magic == link_ea_magic
      then next (
          run merge_mds_parent (
            run (set_fid mds i pfid parent)
              (print (parent_fid parent) (print (link_matched (lee + lee_name)) s))))
      else exit (print link_mismatch s) 0
    else next s

-- `for (l = 0; l < ost_numbers; l++)`, with `left` rounds to go.
unfoldable pub print_objects : ℕ → ℕ → Memory → Scan → Scan
print_objects zero l value s = s
print_objects (suc left) l value s =
    print_objects left (l + 1) value (print (ost_object l (lmm_object_at value 0 l)) s)

-- `(lum->lmm_stripe_count == 65535) ? 3 : lum->lmm_stripe_count`.
abbrev pub ost_numbers : ℕ → ℕ
ost_numbers stripe_count = if stripe_count == 65535 then 3 else stripe_count

-- `if (e_name begins with "lov")`: the layout, and the object of the first stripe. `%x` takes the
-- low 32 bits of the 64-bit object id.
unfoldable pub lov_part : ℕ → Memory → ℕ → Memory → Scan → Scan
unfolding print_objects
lov_part i m p value s =
    let lum = lov_user_md_at value 0 in
    let shown =
      print_objects (ost_numbers lum.lmm_stripe_count) 0 value (print (lov_metadata lum) s) in
    let first = (lmm_object_at value 0 0).l_ost_oi_id in
    if begins m (p + 16) (codes "lov") then run (set_ost_oid i (first % 2 ^ 32)) shown else s

-- The signal that ends a program which writes outside its stack, as a status.
abbrev pub segmentation_fault : ℕ
segmentation_fault = 128 + 11

-- The body of the loop over the entries. The array of the value is on the stack, with no check of
-- its size: where the stack has no room for it, clearing or filling it is a fault.
unfoldable pub mds_entry : Volume → ℕ → Memory → ℕ → Scan → Flow Scan
unfolding lma_part link_part lov_part
mds_entry v i m p s =
    let x = entry_at m p in
    let named = print (entry_name x.e_name) s in
    let value = value_of v i m p x in
    if ltb x.e_value_size v.stack
    then (link_part i m p value (lma_part i m p value named) >>= λ t. next (lov_part i m p value t))
    else exit named segmentation_fault

-- `if (S_ISDIR(...)) ... else if (S_ISREG(...)) ...`.
unfoldable pub mds_type : Volume → ℕ → Scan → Flow Scan
mds_type v i s =
    if is_dir (i_mode s.cur_inode)
    then list_directory v i (
        run (set_type mds i directory)
          (record (print (directory_found v.block_size) s) { dir_count = s.dir_count + 1 }))
    else if is_reg (i_mode s.cur_inode)
    then next
        (record (run (set_type mds i file) (print file_found s)) { file_count = s.file_count + 1 })
    else next s

-- The branch for an inode whose attribute header has the magic number.
unfoldable pub mds_attrs : Volume → ℕ → Scan → Flow Scan
unfolding mds_entry mds_type
mds_attrs v i s = mds_type v i (run (create mds i) (print (inode_header i) s)) >>= λ t.
    let m = t.cur_inode in
    walk v.fuel m (mds_entry v i m) (ifirst m) (record t { entry_count = t.entry_count + 1 })

-- The body of the loop over the inodes.
unfoldable pub mds_inode : Volume → ℕ → Scan → Flow Scan
unfolding mds_attrs read_inode
mds_inode v i s =
    let t = read_inode v i s in
    if load 4 t.cur_inode (ihdr t.cur_inode) == attr_magic then mds_attrs v i t else next t

-- The end of `main`: the totals, and `exit(0)`.
abbrev pub mds_finish : Volume → Scan → Flow Scan
mds_finish v s = exit (print (counts s.entry_count v.total_inodes s.file_count s.dir_count) s) 0

-- `main` behind the checks.
unfoldable pub mds_scan : Volume → Flow Scan
unfolding for_inodes mds_inode
mds_scan v =
    for_inodes (mds_inode v) (rounds v.total_inodes) 1 (started v.uninit.cur_inode) >>= mds_finish v

unfoldable pub mds_main : Machine → Flow Scan
unfolding mds_scan volume_of
mds_main machine =
    let s = started machine.uninit.cur_inode in
    elim machine.device [
      | none ↦ exit (print open_failed s) 1
      | some image ↦
          if s_magic machine image == ext4_super_magic
          then if machine.connected
            then mds_scan (volume_of machine image)
            else exit (print connection_failed s) 1
          else exit (print not_ext4 s) 1
    ]
