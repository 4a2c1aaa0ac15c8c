-- ===== src/Ost/Buffer.antt =====
-- The statement buffer of ost_src.c, `char buffer[150]`, against the statements put into it.
use dist_lfsck.Cypher.Bounds.{length-render-lt_150}
use dist_lfsck.Cypher.{
  Stmt, oss, directory, file, lma, fid, create, set_type, set_fid, set_f_oid, merge_ost_child,
  merge_lov_parent, render,
}
use dist_lfsck.Disk.{Memory, IsByteMemory, load}
use dist_lfsck.Flow.{Leaves, Leaves-bind}
use dist_lfsck.Lustre.ByteOrder.{lu_fid_at-FidFits}
use dist_lfsck.Lustre.{
  lu_fid_at, lustre_mdt_attrs_at, filter_fid_at, sizeof_lustre_mdt_attrs, sizeof_filter_fid,
}
use dist_lfsck.Mds.Buffer as MdsBuffer
use dist_lfsck.Mds.{mds_scan}
use dist_lfsck.Ost.{
  struct_of, lma_part, fid_part, ost_entry, ost_type, ost_inode, relate, mds_total_inodes, ost_scan,
}
use dist_lfsck.Prelude.{
  ℕ, zero, suc, ◌+◌, ◌^◌, ◌<◌, ◌≤◌, refl, inl, inr, arith, codes, ◌==◌, Bool-cases, length,
}
use dist_lfsck.Report.{directory_found, file_found, inode_header, inode_size_is, xattr_counts}
use dist_lfsck.Scan.Bytes.{IsByteVolume, read_at-IsByteMemory}
use dist_lfsck.Scan.Rounds.{for_inodes, for_inodes-Leaves, rounds-lt}
use dist_lfsck.Scan.Sends.{
  SentAll, SentAll-print, SentAll-run, SentAll-count, walk-SentAll, list_directory-SentAll,
}
use dist_lfsck.Scan.Start.{started}
use dist_lfsck.Scan.{
  Volume, Scan, print, run, attr_magic, i_mode, ihdr, is_dir, is_reg, read_inode, rounds,
}
use dist_lfsck.Xattr.{entry_at, begins}

-- The statement and its final NUL fit the buffer.
abbrev pub FitsBuffer : Stmt → Type 0
FitsBuffer q = length (render q) < 150

module _ (v : Volume) (b : IsByteVolume v) (i : ℕ) (small : i < 2 ^ 31) where
  struct_of-IsByteMemory :
      (m : Memory) (p size : ℕ) → IsByteMemory (struct_of v i m p (entry_at m p) size)
  unfolding struct_of
  struct_of-IsByteMemory m p size =
      read_at-IsByteMemory v.image _ size (v.uninit.value i p) b.image (b.value i p)

  lma_part-fits :
      (m : Memory) (p : ℕ) (s : Scan)
      → SentAll FitsBuffer s
      → SentAll FitsBuffer (lma_part v i m p s)
  unfolding lma_part lustre_mdt_attrs_at
  lma_part-fits m p s h = elim (Bool-cases (begins m (p + 16) (codes "lma"))) [
    | inr other ↦ rw other h
    | inl is_lma ↦
        let self = lu_fid_at (struct_of v i m p (entry_at m p) sizeof_lustre_mdt_attrs) 8 in
        let fits = lu_fid_at-FidFits _ 8 (struct_of-IsByteMemory m p sizeof_lustre_mdt_attrs) in
        let named = length-render-lt_150 (set_fid oss i lma self) (small, fits) in
        let numbered = length-render-lt_150 (set_f_oid i self.f_oid) (small, fits.oid_fits) in
        rw is_lma (
          SentAll-run FitsBuffer _ _ numbered
            (SentAll-run FitsBuffer _ _ named (SentAll-print FitsBuffer _ s h)))
  ]

  fid_part-fits :
      (m : Memory) (p : ℕ) (s : Scan)
      → SentAll FitsBuffer s
      → SentAll FitsBuffer (fid_part v i m p s)
  unfolding fid_part filter_fid_at
  fid_part-fits m p s h = elim (Bool-cases (begins m (p + 16) (codes "fid"))) [
    | inr other ↦ rw other h
    | inl is_fid ↦
        let parent = lu_fid_at (struct_of v i m p (entry_at m p) sizeof_filter_fid) 0 in
        let fits = lu_fid_at-FidFits _ 0 (struct_of-IsByteMemory m p sizeof_filter_fid) in
        let named = length-render-lt_150 (set_fid oss i fid parent) (small, fits) in
        let joins = length-render-lt_150 merge_ost_child tt in
        rw is_fid (
          SentAll-run FitsBuffer _ _ joins
            (SentAll-run FitsBuffer _ _ named (SentAll-print FitsBuffer _ s h)))
  ]

  ost_entry-fits :
      (m : Memory) (p : ℕ) (s : Scan)
      → SentAll FitsBuffer s
      → Leaves (SentAll FitsBuffer) (ost_entry v i m p s)
  unfolding ost_entry
  ost_entry-fits m p s h =
      fid_part-fits m p _ (lma_part-fits m p _ (SentAll-print FitsBuffer _ s h))

  ost_type-fits : (s : Scan) → SentAll FitsBuffer s → Leaves (SentAll FitsBuffer) (ost_type v i s)
  unfolding ost_type
  ost_type-fits s h = elim (Bool-cases (is_dir (i_mode s.cur_inode))) [
    | inl dir ↦
        let fits = length-render-lt_150 (set_type oss i directory) small in
        rw dir (
          list_directory-SentAll FitsBuffer v i _ (
            SentAll-run FitsBuffer (set_type oss i directory) _ fits
              (SentAll-print FitsBuffer (directory_found v.block_size) s h)))
    | inr other ↦ elim (Bool-cases (is_reg (i_mode s.cur_inode))) [
      | inl reg ↦
          let fits = length-render-lt_150 (set_type oss i file) small in
          rw (other, reg)
            (SentAll-run FitsBuffer (set_type oss i file) _ fits
              (SentAll-print FitsBuffer file_found s h))
      | inr neither ↦ rw (other, neither) h
    ]
  ]

  ost_inode-fits : (s : Scan) → SentAll FitsBuffer s → Leaves (SentAll FitsBuffer) (ost_inode v i s)
  unfolding ost_inode
  ost_inode-fits s h =
      let t = read_inode v i s in
      let counted = record (print (inode_header i) t) { entry_count = t.entry_count + 1 } in
      let read = SentAll-count FitsBuffer t refl h in
      elim (Bool-cases (load 4 t.cur_inode (ihdr t.cur_inode) == attr_magic)) [
        | inr unmarked ↦ rw unmarked read
        | inl marked ↦
            let fits = length-render-lt_150 (create oss i) small in
            let begun =
              SentAll-count FitsBuffer counted refl
                (SentAll-print FitsBuffer (inode_header i) t read) in
            rw marked (
              Leaves-bind (SentAll FitsBuffer) (ost_type v i (run (create oss i) counted)) _
                (ost_type-fits _ (SentAll-run FitsBuffer (create oss i) _ fits begun))
                (λ u k.
                  walk-SentAll FitsBuffer v.fuel u.cur_inode (ost_entry v i u.cur_inode) _ u
                    (λ p w g. ost_entry-fits u.cur_inode p w g) k))
      ]

relate-fits :
    (left j : ℕ) (s : Scan)
    → left + j ≤ 2 ^ 31
    → SentAll FitsBuffer s
    → SentAll FitsBuffer (relate left j s)
unfolding relate
relate-fits zero j s small h = h
relate-fits (suc left) j s small h = relate-fits left (j + 1) _ (omega arith) (
    SentAll-run FitsBuffer (merge_lov_parent j) s
      (length-render-lt_150 (merge_lov_parent j) (omega arith)) h)

-- Whatever bytes stand on the device and in uninitialised memory, each statement that the OST scan
-- has sent when it leaves the program fits `char buffer[150]` with its final NUL.
ost_scan-fits : (v : Volume) → IsByteVolume v → Leaves (SentAll FitsBuffer) (ost_scan v)
unfolding ost_scan
ost_scan-fits v b =
    let begun = print (inode_size_is v.inode_size) (started v.uninit.cur_inode) in
    Leaves-bind (SentAll FitsBuffer) (for_inodes (ost_inode v) (rounds v.total_inodes) 1 begun) _
      (for_inodes-Leaves (SentAll FitsBuffer) (ost_inode v)
        (λ i s small h. ost_inode-fits v b i small s h) (rounds v.total_inodes) 1 begun
        (rounds-lt v.total_inodes)
        (SentAll-print FitsBuffer (inode_size_is v.inode_size) (started v.uninit.cur_inode)
          (record { each_sent = tt })))
      (λ t k.
        relate-fits mds_total_inodes 1 _ (omega arith)
          (SentAll-print FitsBuffer (xattr_counts v.total_inodes t.entry_count) t k))

-- Whatever bytes stand on the device and in uninitialised memory, each statement that a scan has
-- sent when it leaves the program fits its buffer with its final NUL: one of 100 bytes in
-- mds_src.c, and one of 150 bytes in ost_src.c.
pub scans-fit :
    (v : Volume)
    → IsByteVolume v
    → Leaves (SentAll MdsBuffer.FitsBuffer) (mds_scan v) × Leaves (SentAll FitsBuffer) (ost_scan v)
scans-fit v b = (MdsBuffer.mds_scan-fits v b, ost_scan-fits v b)
