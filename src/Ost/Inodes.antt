-- ===== src/Ost/Inodes.antt =====
-- The statements of an object's inode and of the whole scan of ost_src.c.
use dist_lfsck.Cypher.{Stmt, oss, directory, file, create, set_type, merge_lov_parent}
use dist_lfsck.Disk.{Memory, load}
use dist_lfsck.Flow.{next, exit}
use dist_lfsck.Ost.Statements.{OnDevice, entries_stmts, each-ost_entry-Adds}
use dist_lfsck.Ost.{ost_entry, ost_type, ost_attrs, ost_inode, relate, mds_total_inodes, ost_scan}
use dist_lfsck.Prelude.{
  ℕ, zero, suc, ◌+◌, ◌<◌, ◌≡◌, refl, sym, ap, ◌∙◌, inl, inr, true, List, [], ◌∷◌, ◌++◌,
  append_assoc, append-nil, ◌==◌, if◌then◌else◌, Bool-cases, All, length,
}
use dist_lfsck.Report.{
  statements, directory_found, file_found, inode_header, inode_size_is, xattr_counts,
}
use dist_lfsck.Scan.Adds.{Adds, Adds-refl, Adds-trans, Adds-print, Adds-run, Adds-count}
use dist_lfsck.Scan.Directory.Quiet.{ListsBlock, list_directory-Adds}
use dist_lfsck.Scan.Rounds.{Round, after_read, buffer_after, for_inodes-sends, rounds-le}
use dist_lfsck.Scan.Start.{started}
use dist_lfsck.Scan.{
  Volume, Scan, print, run, attr_magic, i_mode, ihdr, ifirst, is_dir, is_reg, read_inode, rounds,
}
use dist_lfsck.Xattr.Walk.{walk-each}
use dist_lfsck.Xattr.{walk, Chain}

-- A directory or a regular file gets its type.
abbrev pub type_stmts : ℕ → ℕ → List Stmt
type_stmts i mode =
    if is_dir mode
    then set_type oss i directory ∷ []
    else if is_reg mode
    then set_type oss i file ∷ []
    else []

-- The buffer `m` of round `i` can be read to the end: the attributes stand at the offsets `ps` up
-- to a terminator, their values lie on the device, and a directory's listing ends.
pub record Readable (v : Volume) (i : ℕ) (m : Memory) (ps : List ℕ) : Type 0 where
  pub end : ℕ
  pub chain : Chain m (ifirst m) ps end
  pub short : length ps < v.fuel
  pub values : All (OnDevice v i m) ps
  pub lists : is_dir (i_mode m) ≡ true → ListsBlock v i m

-- What round `i` sends for the buffer `m`.
abbrev pub inode_stmts : Volume → ℕ → Memory → List ℕ → List Stmt
inode_stmts v i m ps =
    if load 4 m (ihdr m) == attr_magic
    then create oss i ∷ (type_stmts i (i_mode m) ++ entries_stmts v i m ps)
    else []

abbrev pub Ready : Volume → (ℕ → List ℕ) → ℕ → Memory → Type 0
Ready v offsets i m = (load 4 m (ihdr m) == attr_magic) ≡ true → Readable v i m (offsets i)

ost_type-Adds :
    (v : Volume) (i : ℕ) (s : Scan)
    → (is_dir (i_mode s.cur_inode) ≡ true → ListsBlock v i s.cur_inode)
    → (t : Scan) × (ost_type v i s ≡ next t) × Adds (type_stmts i (i_mode s.cur_inode)) s t
unfolding ost_type
ost_type-Adds v i s lists = elim (Bool-cases (is_dir (i_mode s.cur_inode))) [
  | inl dir ↦
      let shown = print (directory_found v.block_size) s in
      let (t, e, a) = list_directory-Adds v i (run (set_type oss i directory) shown) (lists dir) in
      (
        t,
        rw dir e,
        rw dir (
            Adds-trans _ []
              (Adds-trans [] _ (Adds-print (directory_found v.block_size) s) (Adds-run _ shown)) a),
      )
  | inr other ↦ elim (Bool-cases (is_reg (i_mode s.cur_inode))) [
    | inl reg ↦ (
      run (set_type oss i file) (print file_found s),
      rw (other, reg),
      rw (other, reg)
          (Adds-trans [] _ (Adds-print file_found s) (Adds-run (set_type oss i file) _)),
    )
    | inr neither ↦ (s, rw (other, neither), rw (other, neither) (Adds-refl s))
  ]
]

ost_attrs-Adds :
    (v : Volume) (i : ℕ) (s : Scan) (ps : List ℕ)
    → Readable v i s.cur_inode ps
    → (t : Scan) × (ost_attrs v i s ≡ next t)
      × Adds
          (create oss i ∷ (type_stmts i (i_mode s.cur_inode) ++ entries_stmts v i s.cur_inode ps))
          s
          t
unfolding ost_attrs
ost_attrs-Adds v i s ps r =
    let counted = record (print (inode_header i) s) { entry_count = s.entry_count + 1 } in
    let begun = Adds-count [] counted (Adds-print (inode_header i) s) refl refl in
    let made = run (create oss i) counted in
    let (t, e, a) = ost_type-Adds v i made r.lists in
    let (u, f, c) = each-ost_entry-Adds v i s.cur_inode ps t r.values in
    let walked =
      walk-each s.cur_inode (ost_entry v i s.cur_inode) ps v.fuel (ifirst s.cur_inode) r.end t
        r.short r.chain in
    (
      u,
      rw e (ap (λ m. walk v.fuel m (ost_entry v i m) (ifirst m) t) a.buffer ∙ walked ∙ f),
      Adds-trans _ _ (Adds-trans _ _ (Adds-trans [] _ begun (Adds-run (create oss i) counted)) a) c,
    )

-- A round for a readable buffer goes on, and sends exactly the inode's statements: the node, its
-- type, and what each attribute says, in the order of the entries.
pub ost_inode-Round :
    (v : Volume) (offsets : ℕ → List ℕ) (i : ℕ) (s : Scan)
    → Ready v offsets i (after_read v i s.cur_inode)
    → (t : Scan) × (ost_inode v i s ≡ next t)
      × Round v i (inode_stmts v i (after_read v i s.cur_inode) (offsets i)) s t
unfolding ost_inode
ost_inode-Round v offsets i s ok =
    let t = read_inode v i s in
    elim (Bool-cases (load 4 t.cur_inode (ihdr t.cur_inode) == attr_magic)) [
      | inl marked ↦
          let (u, e, a) = ost_attrs-Adds v i t (offsets i) (ok marked) in
          (u, rw marked e, record { sent = rw marked a.sent; buffer = a.buffer })
      | inr unmarked ↦ (
        t,
        rw unmarked,
        record { sent = rw unmarked (sym (append-nil (statements s.events))); buffer = refl },
      )
    ]

-- What the rounds send, one inode after the other; `offsets` are those of the entries of a round.
abbrev pub volume_stmts : Volume → (ℕ → List ℕ) → ℕ → ℕ → List Stmt
volume_stmts v offsets zero k = []
volume_stmts v offsets (suc left) k =
    inode_stmts v (k + 1) (buffer_after v (suc k)) (offsets (k + 1))
    ++ volume_stmts v offsets left (suc k)

-- The relations from the MDS nodes j, j + 1, ...
unfoldable pub lov_stmts : ℕ → ℕ → List Stmt
lov_stmts zero j = []
lov_stmts (suc left) j = merge_lov_parent j ∷ lov_stmts left (j + 1)

relate-sends :
    (left j : ℕ) (s : Scan)
    → statements (relate left j s).events ≡ statements s.events ++ lov_stmts left j
unfolding relate lov_stmts
relate-sends zero j s = sym (append-nil (statements s.events))
relate-sends (suc left) j s =
    relate-sends left (j + 1) (run (merge_lov_parent j) s)
    ∙ ap (λ l. l ++ lov_stmts left (j + 1)) (Adds-run (merge_lov_parent j) s).sent
    ∙ append_assoc (statements s.events) (merge_lov_parent j ∷ []) _

-- When the attributes of every inode that has any are a chain of entries up to a terminator, fewer
-- than the tests granted to the loop, the values of the LMAs and filter FIDs lie on the device, and
-- the first block of each directory with attributes can be listed to its end, then the OST scan
-- terminates with status 0 and has sent, inode after inode, just the node, its type, and for each
-- entry in order the FID and the object id of an LMA, and the FID of a filter FID and the relation
-- to its file, as these stand on the device; and then the relations of the MDS nodes 1 to 700.
pub ost_scan-sends :
    (v : Volume) (offsets : ℕ → List ℕ)
    → ((k : ℕ) → k < v.total_inodes → Ready v offsets (k + 1) (buffer_after v (suc k)))
    → (t : Scan) × (ost_scan v ≡ exit t 0)
      × (statements t.events
          ≡ volume_stmts v offsets (rounds v.total_inodes) 0 ++ lov_stmts mds_total_inodes 1)
unfolding ost_scan
ost_scan-sends v offsets ok =
    let begun = print (inode_size_is v.inode_size) (started v.uninit.cur_inode) in
    let (t, e, sent, last) =
      for_inodes-sends v (ost_inode v) (λ i m. inode_stmts v i m (offsets i)) (Ready v offsets)
        (λ i s r. ost_inode-Round v offsets i s r) (rounds v.total_inodes) 0 v.total_inodes begun ok
        (rounds-le v.total_inodes) refl in
    let shown = print (xattr_counts v.total_inodes t.entry_count) t in
    (
      relate mds_total_inodes 1 shown,
      rw e refl,
      relate-sends mds_total_inodes 1 shown
          ∙ ap (λ l. l ++ lov_stmts mds_total_inodes 1)
              ((Adds-print _ t).sent ∙ append-nil _ ∙ sent),
    )
