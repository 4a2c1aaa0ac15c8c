-- ===== src/Mds/Buffer.antt =====
-- The statement buffer of mds_src.c, `char buffer[100]`, against the statements put into it.
use dist_lfsck.Cypher.Bounds.{length-render-lt_100}
use dist_lfsck.Cypher.{
  Stmt, mds, directory, file, lma, pfid, create, set_type, set_fid, set_ost_oid, merge_mds_parent,
  render,
}
use dist_lfsck.Disk.{Memory, IsByteMemory, load}
use dist_lfsck.Flow.{Leaves, Leaves-bind}
use dist_lfsck.Lustre.ByteOrder.{lu_fid_at-FidFits, fid_be_to_cpu-FidFits}
use dist_lfsck.Lustre.{
  lu_fid_at, fid_be_to_cpu, lustre_mdt_attrs_at, link_ea_header_at, link_ea_magic, lmm_object_at,
  lov_user_md_at,
}
use dist_lfsck.Mds.{
  lma_part, link_part, print_objects, lov_part, mds_entry, mds_type, mds_inode, mds_scan,
  ost_numbers,
}
use dist_lfsck.Prelude.{
  ltb, ℕ, zero, suc, ◌+◌, ◌%◌, ◌^◌, ◌<◌, refl, inl, inr, arith, codes, ◌==◌, Bool-cases, length,
}
use dist_lfsck.Report.{lov_metadata, directory_found, file_found}
use dist_lfsck.Scan.Rounds.{for_inodes, for_inodes-Leaves, rounds-lt}
use dist_lfsck.Scan.Start.{started}
use dist_lfsck.Scan.Bytes.{IsByteVolume, value_of-IsByteMemory}
use dist_lfsck.Scan.Sends.{
  SentAll, SentAll-print, SentAll-run, SentAll-count, walk-SentAll, list_directory-SentAll,
}
use dist_lfsck.Scan.{
  Volume, Scan, attr_magic, i_mode, ihdr, is_dir, is_reg, read_inode, value_of, rounds,
}
use dist_lfsck.Xattr.{entry_at, begins}

-- The statement and its final NUL fit the buffer.
abbrev pub FitsBuffer : Stmt → Type 0
FitsBuffer q = length (render q) < 100

module _ (v : Volume) (b : IsByteVolume v) (i : ℕ) (small : i < 2 ^ 31) where
  lma_part-fits :
      (m : Memory) (p : ℕ) (value : Memory) (s : Scan)
      → IsByteMemory value
      → SentAll FitsBuffer s
      → SentAll FitsBuffer (lma_part i m p value s)
  unfolding lma_part lustre_mdt_attrs_at
  lma_part-fits m p value s bytes h = elim (Bool-cases (begins m (p + 16) (codes "lma"))) [
    | inr other ↦ rw other h
    | inl is_lma ↦
        let fits =
          length-render-lt_100 (set_fid mds i lma (lu_fid_at value 8))
            (small, lu_fid_at-FidFits value 8 bytes) (λ j e. cc) in
        rw is_lma (SentAll-run FitsBuffer _ _ fits (SentAll-print FitsBuffer _ s h))
  ]

  link_part-fits :
      (m : Memory) (p : ℕ) (value : Memory) (s : Scan)
      → SentAll FitsBuffer s
      → Leaves (SentAll FitsBuffer) (link_part i m p value s)
  unfolding link_part link_ea_header_at
  link_part-fits m p value s h = elim (Bool-cases (begins m (p + 16) (codes "link"))) [
    | inr other ↦ rw other h
    | inl is_link ↦ elim (Bool-cases (load 4 value 0 == link_ea_magic)) [
      | inr wrong ↦ rw (is_link, wrong) (SentAll-print FitsBuffer _ s h)
      | inl magic ↦
          let parent = fid_be_to_cpu (lu_fid_at value 26) in
          let fits =
            length-render-lt_100 (set_fid mds i pfid parent)
              (small, fid_be_to_cpu-FidFits (lu_fid_at value 26)) (λ j e. cc) in
          let joins = length-render-lt_100 merge_mds_parent tt (λ j e. cc) in
          rw (is_link, magic)
            (SentAll-run FitsBuffer _ _ joins (
              SentAll-run FitsBuffer _ _ fits
                (SentAll-print FitsBuffer _ _ (SentAll-print FitsBuffer _ s h))))
    ]
  ]

  print_objects-fits :
      (left l : ℕ) (value : Memory) (s : Scan)
      → SentAll FitsBuffer s
      → SentAll FitsBuffer (print_objects left l value s)
  unfolding print_objects
  print_objects-fits zero l value s h = h
  print_objects-fits (suc left) l value s h =
      print_objects-fits left (l + 1) value _ (SentAll-print FitsBuffer _ s h)

  lov_part-fits :
      (m : Memory) (p : ℕ) (value : Memory) (s : Scan)
      → SentAll FitsBuffer s
      → SentAll FitsBuffer (lov_part i m p value s)
  unfolding lov_part
  lov_part-fits m p value s h = elim (Bool-cases (begins m (p + 16) (codes "lov"))) [
    | inr other ↦ rw other h
    | inl is_lov ↦
        let lum = lov_user_md_at value 0 in
        let oid = (lmm_object_at value 0 0).l_ost_oi_id % 2 ^ 32 in
        let fits = length-render-lt_100 (set_ost_oid i oid) (small, omega arith) (λ j e. cc) in
        rw is_lov (
          SentAll-run FitsBuffer (set_ost_oid i oid) _ fits (
            print_objects-fits (ost_numbers lum.lmm_stripe_count) 0 value _
              (SentAll-print FitsBuffer (lov_metadata lum) s h)))
  ]

  mds_entry-fits :
      (m : Memory) (p : ℕ) (s : Scan)
      → SentAll FitsBuffer s
      → Leaves (SentAll FitsBuffer) (mds_entry v i m p s)
  unfolding mds_entry
  mds_entry-fits m p s h =
      let value = value_of v i m p (entry_at m p) in
      let bytes = value_of-IsByteMemory v i m p (entry_at m p) b in
      let named = SentAll-print FitsBuffer _ s h in
      elim (Bool-cases (ltb (entry_at m p).e_value_size v.stack)) [
        | inr large ↦ rw large named
        | inl room ↦ rw room (
            Leaves-bind (SentAll FitsBuffer) (link_part i m p value _) _
              (link_part-fits m p value _ (lma_part-fits m p value _ bytes named))
              (λ t k. lov_part-fits m p value t k))
      ]

  mds_type-fits : (s : Scan) → SentAll FitsBuffer s → Leaves (SentAll FitsBuffer) (mds_type v i s)
  unfolding mds_type
  mds_type-fits s h = elim (Bool-cases (is_dir (i_mode s.cur_inode))) [
    | inl dir ↦
        let fits = length-render-lt_100 (set_type mds i directory) small (λ j e. cc) in
        rw dir (
          list_directory-SentAll FitsBuffer v i _ (
            SentAll-run FitsBuffer (set_type mds i directory) _ fits (
              SentAll-count FitsBuffer _ refl
                (SentAll-print FitsBuffer (directory_found v.block_size) s h))))
    | inr other ↦ elim (Bool-cases (is_reg (i_mode s.cur_inode))) [
      | inl reg ↦
          let fits = length-render-lt_100 (set_type mds i file) small (λ j e. cc) in
          rw (other, reg)
            (SentAll-count FitsBuffer _ refl (
              SentAll-run FitsBuffer (set_type mds i file) _ fits
                (SentAll-print FitsBuffer file_found s h)))
      | inr neither ↦ rw (other, neither) h
    ]
  ]

  mds_inode-fits : (s : Scan) → SentAll FitsBuffer s → Leaves (SentAll FitsBuffer) (mds_inode v i s)
  unfolding mds_inode
  mds_inode-fits s h =
      let t = read_inode v i s in
      elim (Bool-cases (load 4 t.cur_inode (ihdr t.cur_inode) == attr_magic)) [
        | inr unmarked ↦ rw unmarked (SentAll-count FitsBuffer t refl h)
        | inl marked ↦
            let fits = length-render-lt_100 (create mds i) small (λ j e. cc) in
            let made =
              SentAll-run FitsBuffer (create mds i) _ fits
                (SentAll-print FitsBuffer _ t (SentAll-count FitsBuffer t refl h)) in
            rw marked (
              Leaves-bind (SentAll FitsBuffer) (mds_type v i _) _ (mds_type-fits _ made) (λ u k.
                walk-SentAll FitsBuffer v.fuel u.cur_inode (mds_entry v i u.cur_inode) _ _
                  (λ p w g. mds_entry-fits u.cur_inode p w g) (SentAll-count FitsBuffer _ refl k)))
      ]

-- Whatever bytes stand on the device and in uninitialised memory, each statement that the MDS scan
-- has sent when it leaves the program, by its end or by an `exit`, fits `char buffer[100]` with
-- its final NUL.
pub mds_scan-fits : (v : Volume) → IsByteVolume v → Leaves (SentAll FitsBuffer) (mds_scan v)
unfolding mds_scan
mds_scan-fits v b =
    Leaves-bind (SentAll FitsBuffer)
      (for_inodes (mds_inode v) (rounds v.total_inodes) 1 (started v.uninit.cur_inode)) _
      (for_inodes-Leaves (SentAll FitsBuffer) (mds_inode v)
        (λ i s small h. mds_inode-fits v b i small s h) (rounds v.total_inodes) 1 _
        (rounds-lt v.total_inodes) (record { each_sent = tt }))
      (λ t k. SentAll-print FitsBuffer _ t k)
