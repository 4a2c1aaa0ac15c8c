-- ===== src/Mds/Inodes.antt =====
-- The statements of an inode and of the whole scan of mds_src.c.
use dist_lfsck.Cypher.{Stmt, mds, directory, file, create, set_type}
use dist_lfsck.Disk.{Memory, load}
use dist_lfsck.Flow.{next, exit}
use dist_lfsck.Mds.Statements.{entries_stmts, EntryOk, each-mds_entry-Adds}
use dist_lfsck.Mds.{mds_entry, mds_type, mds_attrs, mds_inode, mds_scan}
use dist_lfsck.Prelude.{
  ℕ, zero, suc, ◌+◌, ◌≡◌, ◌<◌, refl, ◌∙◌, sym, ap, inl, inr, true, List, [], ◌∷◌, ◌++◌, append-nil,
  ◌==◌, if◌then◌else◌, Bool-cases, All, length,
}
use dist_lfsck.Report.{
  printed, counts, statements-append, statements, directory_found, file_found, inode_header,
}
use dist_lfsck.Scan.Adds.{Adds, Adds-refl, Adds-trans, Adds-print, Adds-run, Adds-count}
use dist_lfsck.Scan.Bytes.{IsByteVolume}
use dist_lfsck.Scan.Rounds.{Round, after_read, buffer_after, for_inodes-sends, rounds-le}
use dist_lfsck.Scan.Start.{started}
use dist_lfsck.Scan.Directory.Quiet.{ListsBlock, list_directory-Adds}
use dist_lfsck.Scan.{
  Volume, Scan, print, run, attr_magic, i_mode, ihdr, ifirst, is_dir, is_reg, read_inode, rounds,
}
use dist_lfsck.Xattr.Walk.{walk-each}
use dist_lfsck.Xattr.{walk, Chain}

-- A directory or a regular file gets its type.
abbrev pub type_stmts : ℕ → ℕ → List Stmt
type_stmts i mode =
    if is_dir mode
    then set_type mds i directory ∷ []
    else if is_reg mode
    then set_type mds i file ∷ []
    else []

-- The inode's buffer starts an attribute area.
abbrev pub HasAttrs : Memory → Type 0
HasAttrs m = (load 4 m (ihdr m) == attr_magic) ≡ true

-- The buffer `m` of round `i` can be read to the end: the attributes stand at the offsets `ps` up
-- to a terminator, the stack has room for their values, each link EA has its magic number, and a
-- directory's listing ends.
pub record Readable (v : Volume) (i : ℕ) (m : Memory) (ps : List ℕ) : Type 0 where
  pub end : ℕ
  pub chain : Chain m (ifirst m) ps end
  pub short : length ps < v.fuel
  pub sound : All (EntryOk v i m) ps
  pub lists : is_dir (i_mode m) ≡ true → ListsBlock v i m

-- What round `i` sends for the buffer `m`.
abbrev pub inode_stmts : Volume → ℕ → Memory → List ℕ → List Stmt
inode_stmts v i m ps =
    if load 4 m (ihdr m) == attr_magic
    then create mds i ∷ (type_stmts i (i_mode m) ++ entries_stmts v i m ps)
    else []

pub mds_type-Adds :
    (v : Volume) (i : ℕ) (s : Scan)
    → (is_dir (i_mode s.cur_inode) ≡ true → ListsBlock v i s.cur_inode)
    → (t : Scan) × (mds_type v i s ≡ next t) × Adds (type_stmts i (i_mode s.cur_inode)) s t
unfolding mds_type
mds_type-Adds v i s lists = elim (Bool-cases (is_dir (i_mode s.cur_inode))) [
  | inl dir ↦
      let shown = print (directory_found v.block_size) s in
      let counted = record shown { dir_count = s.dir_count + 1 } in
      let before = Adds-count [] counted (Adds-print (directory_found v.block_size) s) refl refl in
      let (t, e, a) =
        list_directory-Adds v i (run (set_type mds i directory) counted) (lists dir) in
      (t, rw dir e, rw dir (Adds-trans _ [] (Adds-trans [] _ before (Adds-run _ counted)) a))
  | inr other ↦ elim (Bool-cases (is_reg (i_mode s.cur_inode))) [
    | inl reg ↦
        let typed = run (set_type mds i file) (print file_found s) in
        let sent = Adds-trans [] _ (Adds-print file_found s) (Adds-run (set_type mds i file) _) in
        (
          record typed { file_count = s.file_count + 1 },
          rw (other, reg),
          rw (other, reg) (Adds-count _ _ sent refl refl),
        )
    | inr neither ↦ (s, rw (other, neither), rw (other, neither) (Adds-refl s))
  ]
]

mds_attrs-Adds :
    (v : Volume) (i : ℕ) (s : Scan) (ps : List ℕ)
    → IsByteVolume v
    → Readable v i s.cur_inode ps
    → (t : Scan) × (mds_attrs v i s ≡ next t)
      × Adds
          (create mds i ∷ (type_stmts i (i_mode s.cur_inode) ++ entries_stmts v i s.cur_inode ps))
          s
          t
unfolding mds_attrs
mds_attrs-Adds v i s ps b r =
    let shown = print (inode_header i) s in
    let made = run (create mds i) shown in
    let (t, e, a) = mds_type-Adds v i made r.lists in
    let counted = record t { entry_count = t.entry_count + 1 } in
    let (u, f, c) = each-mds_entry-Adds v i s.cur_inode ps counted b r.sound in
    let walked =
      walk-each s.cur_inode (mds_entry v i s.cur_inode) ps v.fuel (ifirst s.cur_inode) r.end counted
        r.short r.chain in
    let before =
      Adds-trans _ _
        (Adds-trans [] _ (Adds-print (inode_header i) s) (Adds-run (create mds i) shown)) a in
    (
      u,
      rw e (ap (λ m. walk v.fuel m (mds_entry v i m) (ifirst m) counted) a.buffer ∙ walked ∙ f),
      Adds-trans _ _ (Adds-count _ counted before refl refl) c,
    )

-- The round's condition on the buffer it has read.
abbrev pub Ready : Volume → (ℕ → List ℕ) → ℕ → Memory → Type 0
Ready v offsets i m = HasAttrs m → Readable v i m (offsets i)

-- A round for a readable buffer goes on, and sends exactly the inode's statements: the node, its
-- type, and what each attribute says, in the order of the entries.
pub mds_inode-Round :
    (v : Volume) (offsets : ℕ → List ℕ) (i : ℕ) (s : Scan)
    → IsByteVolume v
    → Ready v offsets i (after_read v i s.cur_inode)
    → (t : Scan) × (mds_inode v i s ≡ next t)
      × Round v i (inode_stmts v i (after_read v i s.cur_inode) (offsets i)) s t
unfolding mds_inode
mds_inode-Round v offsets i s b ok =
    let t = read_inode v i s in
    elim (Bool-cases (load 4 t.cur_inode (ihdr t.cur_inode) == attr_magic)) [
      | inl marked ↦
          let (u, e, a) = mds_attrs-Adds v i t (offsets i) b (ok marked) in
          (u, rw marked e, record { sent = rw marked a.sent; buffer = a.buffer })
      | inr unmarked ↦ (
        t,
        rw unmarked,
        record { sent = rw unmarked (sym (append-nil (statements s.events))); buffer = refl },
      )
    ]

-- What the rounds send, one inode after the other; `offsets` are those of the entries of a round.
abbrev pub volume_stmts : Volume → (ℕ → List ℕ) → ℕ → ℕ → List Stmt
volume_stmts v offsets zero k = []
volume_stmts v offsets (suc left) k =
    inode_stmts v (k + 1) (buffer_after v (suc k)) (offsets (k + 1))
    ++ volume_stmts v offsets left (suc k)

-- When the attributes of every inode that has any are a chain of entries up to a terminator, fewer
-- than the tests granted to the loop, the stack has room for their values, each link EA has its
-- magic number, and the first block of each directory with attributes can be listed to its end,
-- then the MDS scan terminates with status 0 and has sent, inode after inode, just the node, its
-- type, and for each entry in order the FID of an LMA, the parent's FID of a link EA and the
-- relation to it, and the first object's id of a LOV EA, as these stand in the values that were
-- read.
pub mds_scan-sends :
    (v : Volume) (offsets : ℕ → List ℕ)
    → IsByteVolume v
    → ((k : ℕ) → k < v.total_inodes → Ready v offsets (k + 1) (buffer_after v (suc k)))
    → (t : Scan) × (mds_scan v ≡ exit t 0)
      × (statements t.events ≡ volume_stmts v offsets (rounds v.total_inodes) 0)
unfolding mds_scan
mds_scan-sends v offsets b ok =
    let (t, e, sent, last) =
      for_inodes-sends v (mds_inode v) (λ i m. inode_stmts v i m (offsets i)) (Ready v offsets)
        (λ i s r. mds_inode-Round v offsets i s b r) (rounds v.total_inodes) 0 v.total_inodes
        (started v.uninit.cur_inode) ok (rounds-le v.total_inodes) refl in
    let totals = counts t.entry_count v.total_inodes t.file_count t.dir_count in
    (print totals t, rw e, statements-append t.events (printed totals ∷ []) ∙ append-nil _ ∙ sent)
