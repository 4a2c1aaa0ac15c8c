-- ===== src/Ost.antt =====
-- The scanner of an object server's disk: `main` of new_scan_code/ost_src.c.
pub mod Attrs
pub mod Described
pub mod Buffer
pub mod Inodes
pub mod Main
pub mod Statements
use dist_lfsck.Cypher.{
  oss, directory, file, lma, fid, create, set_type, set_fid, set_f_oid, merge_ost_child,
  merge_lov_parent,
}
use dist_lfsck.Disk.{Image, Memory, load, read_at}
use dist_lfsck.Flow.{Flow, next, exit, ◌>>=◌}
use dist_lfsck.Lustre.{
  lustre_mdt_attrs_at, sizeof_lustre_mdt_attrs, filter_fid_at, sizeof_filter_fid,
}
use dist_lfsck.Prelude.{
  ℕ, zero, suc, ◌+◌, true, false, Option, none, some, codes, ◌==◌, if◌then◌else◌,
}
use dist_lfsck.Report.{
  open_failed, not_ext4, connection_failed, inode_size_is, inode_header, directory_found,
  file_found, entry_name, lma_fid, filter_fid, xattr_counts,
}
use dist_lfsck.Scan.Rounds.{for_inodes}
use dist_lfsck.Scan.Start.{started, s_magic, volume_of}
use dist_lfsck.Scan.Directory.{list_directory}
use dist_lfsck.Scan.{
  Machine, Volume, Scan, print, run, ext4_super_magic, attr_magic, i_mode, ihdr, ifirst, is_dir,
  is_reg, read_inode, value_location, rounds,
}
use dist_lfsck.Xattr.{XattrEntry, entry_at, walk, begins}

-- `read(fd, &lma, sizeof(...))` at the entry's value: a structure of fixed size, whatever the
-- entry says its value's size is.
unfoldable pub struct_of : Volume → ℕ → Memory → ℕ → XattrEntry → ℕ → Memory
struct_of v i m p x size = read_at v.image (value_location v i m x) size (v.uninit.value i p)

-- `if (e_name begins with "lma")`: the object's own FID, and its object id once more.
unfoldable pub lma_part : Volume → ℕ → Memory → ℕ → Scan → Scan
lma_part v i m p s =
    let value = struct_of v i m p (entry_at m p) sizeof_lustre_mdt_attrs in
    let self = (lustre_mdt_attrs_at value 0).lma_self_fid in
    if begins m (p + 16) (codes "lma")
    then run (set_f_oid i self.f_oid) (run (set_fid oss i lma self) (print (lma_fid self) s))
    else s

-- `if (e_name begins with "fid")`: the FID of the file that the object belongs to.
unfoldable pub fid_part : Volume → ℕ → Memory → ℕ → Scan → Scan
fid_part v i m p s =
    let value = struct_of v i m p (entry_at m p) sizeof_filter_fid in
    let ff = filter_fid_at value 0 in
    if begins m (p + 16) (codes "fid")
    then run merge_ost_child (run (set_fid oss i fid ff.ff_parent) (print (filter_fid ff) s))
    else s

-- The body of the loop over the entries; it never leaves the program.
unfoldable pub ost_entry : Volume → ℕ → Memory → ℕ → Scan → Flow Scan
unfolding lma_part fid_part
ost_entry v i m p s =
    next (fid_part v i m p (lma_part v i m p (print (entry_name (entry_at m p).e_name) s)))

-- `if (S_ISDIR(...)) ... else if (S_ISREG(...)) ...`.
unfoldable pub ost_type : Volume → ℕ → Scan → Flow Scan
ost_type v i s =
    if is_dir (i_mode s.cur_inode)
    then list_directory v i
        (run (set_type oss i directory) (print (directory_found v.block_size) s))
    else if is_reg (i_mode s.cur_inode)
    then next (run (set_type oss i file) (print file_found s))
    else next s

-- The branch for an inode whose attribute header has the magic number.
unfoldable pub ost_attrs : Volume → ℕ → Scan → Flow Scan
unfolding ost_entry ost_type
ost_attrs v i s =
    ost_type v i
      (run (create oss i) (record (print (inode_header i) s) { entry_count = s.entry_count + 1 }))
    >>= λ t. let m = t.cur_inode in walk v.fuel m (ost_entry v i m) (ifirst m) t

-- The body of the loop over the inodes.
unfoldable pub ost_inode : Volume → ℕ → Scan → Flow Scan
unfolding ost_attrs read_inode
ost_inode v i s =
    let t = read_inode v i s in
    if load 4 t.cur_inode (ihdr t.cur_inode) == attr_magic then ost_attrs v i t else next t

-- `for (int j = 1; j <= mds_total_inodes; j++)`, with `left` rounds to go.
unfoldable pub relate : ℕ → ℕ → Scan → Scan
relate zero j s = s
relate (suc left) j s = relate left (j + 1) (run (merge_lov_parent j) s)

abbrev pub mds_total_inodes : ℕ
mds_total_inodes = 700

-- The end of `main`: the totals, the relations from the MDS nodes, and `exit(0)`.
unfoldable pub ost_finish : Volume → Scan → Flow Scan
unfolding relate
ost_finish v s =
    exit (relate mds_total_inodes 1 (print (xattr_counts v.total_inodes s.entry_count) s)) 0

-- `main` behind the checks.
unfoldable pub ost_scan : Volume → Flow Scan
unfolding for_inodes ost_inode ost_finish
ost_scan v =
    for_inodes (ost_inode v) (rounds v.total_inodes) 1
      (print (inode_size_is v.inode_size) (started v.uninit.cur_inode))
    >>= ost_finish v

unfoldable pub ost_main : Machine → Flow Scan
unfolding ost_scan volume_of
ost_main machine =
    let s = started machine.uninit.cur_inode in
    elim machine.device [
      | none ↦ exit (print open_failed s) 1
      | some image ↦
          if s_magic machine image == ext4_super_magic
          then if machine.connected
            then ost_scan (volume_of machine image)
            else exit (print connection_failed s) 1
          else exit (print not_ext4 s) 1
    ]
