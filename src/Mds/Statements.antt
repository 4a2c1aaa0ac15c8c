-- ===== src/Mds/Statements.antt =====
-- The statements of an inode, read off its attributes.
use dist_lfsck.Cypher.{Stmt, mds, lma, pfid, set_fid, set_ost_oid, merge_mds_parent}
use dist_lfsck.Disk.{Memory, load}
use dist_lfsck.Flow.{next, each}
use dist_lfsck.Lustre.ByteOrder.{fid_be_to_cpu-lu_fid_at}
use dist_lfsck.Lustre.{
  lu_fid_at, lu_fid_be_at, link_ea_header_at, link_ea_magic, lmm_object_at, lustre_mdt_attrs_at,
  lov_user_md_at,
}
use dist_lfsck.Mds.{lma_part, link_part, print_objects, lov_part, mds_entry, ost_numbers}
use dist_lfsck.Prelude.{
  ltb, arith, ◌<◌, ℕ, zero, suc, ◌+◌, ◌≡◌, refl, inl, inr, true, List, [], ◌∷◌, ◌++◌, codes, ==_iff,
  if◌then◌else◌, Bool-cases, All,
}
use dist_lfsck.Report.{parent_fid, link_matched, entry_name, lov_metadata}
use dist_lfsck.Scan.Adds.{Adds, Adds-refl, Adds-trans, Adds-print, Adds-run}
use dist_lfsck.Scan.Bytes.{IsByteVolume, value_of-IsByteMemory, load_low}
use dist_lfsck.Scan.{Volume, Scan, print, run, value_of}
use dist_lfsck.Xattr.{entry_at, begins}

-- The value of the entry at offset `p`, as the scanner reads it.
abbrev pub value_at : Volume → ℕ → Memory → ℕ → Memory
value_at v i m p = value_of v i m p (entry_at m p)

-- An LMA gives the FID at byte 8 of the value.
abbrev pub lma_stmts : Volume → ℕ → Memory → ℕ → List Stmt
lma_stmts v i m p =
    if begins m (p + 16) (codes "lma")
    then set_fid mds i lma (lu_fid_at (value_at v i m p) 8) ∷ []
    else []

-- A link EA gives the FID at byte 26, stored big-endian, and then the relation to the parent.
abbrev pub link_stmts : Volume → ℕ → Memory → ℕ → List Stmt
link_stmts v i m p =
    if begins m (p + 16) (codes "link")
    then set_fid mds i pfid (lu_fid_be_at (value_at v i m p) 26) ∷ merge_mds_parent ∷ []
    else []

-- A LOV EA gives the first four bytes of the first object's id.
abbrev pub lov_stmts : Volume → ℕ → Memory → ℕ → List Stmt
lov_stmts v i m p =
    if begins m (p + 16) (codes "lov")
    then set_ost_oid i (load 4 (value_at v i m p) 32) ∷ []
    else []

abbrev pub entry_stmts : Volume → ℕ → Memory → ℕ → List Stmt
entry_stmts v i m p = lma_stmts v i m p ++ (link_stmts v i m p ++ lov_stmts v i m p)

-- A link EA has its magic number; any other one ends the program.
abbrev pub LinkOk : Volume → ℕ → Memory → ℕ → Type 0
LinkOk v i m p =
    begins m (p + 16) (codes "link") ≡ true → load 4 (value_at v i m p) 0 ≡ link_ea_magic

-- And the stack has room for the value.
abbrev pub EntryOk : Volume → ℕ → Memory → ℕ → Type 0
EntryOk v i m p = ((entry_at m p).e_value_size < v.stack) × LinkOk v i m p

module _ (v : Volume) (i : ℕ) (m : Memory) (p : ℕ) where
  pub lma_part-Adds : (s : Scan) → Adds (lma_stmts v i m p) s (lma_part i m p (value_at v i m p) s)
  unfolding lma_part lustre_mdt_attrs_at
  lma_part-Adds s = elim (Bool-cases (begins m (p + 16) (codes "lma"))) [
    | inl is_lma ↦ rw is_lma (Adds-trans [] _ (Adds-print _ s) (Adds-run _ _))
    | inr other ↦ rw other (Adds-refl s)
  ]

  link_part-Adds :
      (s : Scan)
      → IsByteVolume v
      → LinkOk v i m p
      → (t : Scan) × (link_part i m p (value_at v i m p) s ≡ next t) × Adds (link_stmts v i m p) s t
  unfolding link_part link_ea_header_at
  link_part-Adds s b ok = elim (Bool-cases (begins m (p + 16) (codes "link"))) [
    | inl is_link ↦
        let value = value_at v i m p in
        let parent = lu_fid_be_at value 26 in
        let magic = (==_iff (load 4 value 0) link_ea_magic).1 (ok is_link) in
        let swapped =
          fid_be_to_cpu-lu_fid_at value 26 (value_of-IsByteMemory v i m p (entry_at m p) b) in
        let shown = print (parent_fid parent) (print (link_matched 42) s) in
        let sent = run (set_fid mds i pfid parent) shown in
        (
          run merge_mds_parent sent,
          rw (is_link, magic, swapped),
          rw is_link (
              Adds-trans _ _
                (Adds-trans [] _
                  (Adds-trans [] [] (Adds-print _ s) (Adds-print (parent_fid parent) _))
                  (Adds-run _ shown))
                (Adds-run _ sent)),
        )
    | inr other ↦ (s, rw other, rw other (Adds-refl s))
  ]

  print_objects-Adds :
      (left l : ℕ) (value : Memory) (s : Scan) → Adds [] s (print_objects left l value s)
  unfolding print_objects
  print_objects-Adds zero l value s = Adds-refl s
  print_objects-Adds (suc left) l value s =
      Adds-trans [] [] (Adds-print _ s) (print_objects-Adds left (l + 1) value _)

  lov_part-Adds :
      (s : Scan) → IsByteVolume v → Adds (lov_stmts v i m p) s (lov_part i m p (value_at v i m p) s)
  unfolding lov_part lmm_object_at
  lov_part-Adds s b = elim (Bool-cases (begins m (p + 16) (codes "lov"))) [
    | inl is_lov ↦
        let value = value_at v i m p in
        let low = load_low value 32 (value_of-IsByteMemory v i m p (entry_at m p) b) in
        let lum = lov_user_md_at value 0 in
        rw (is_lov, low)
          (Adds-trans [] _
            (Adds-trans [] [] (Adds-print (lov_metadata lum) s)
              (print_objects-Adds (ost_numbers lum.lmm_stripe_count) 0 value _))
            (Adds-run _ _))
    | inr other ↦ rw other (Adds-refl s)
  ]

  -- One round of the loop over the entries sends the entry's statements and goes on.
  pub mds_entry-Adds :
      (s : Scan)
      → IsByteVolume v
      → EntryOk v i m p
      → (t : Scan) × (mds_entry v i m p s ≡ next t) × Adds (entry_stmts v i m p) s t
  unfolding mds_entry
  mds_entry-Adds s b ok =
      let value = value_at v i m p in
      let named = print (entry_name (entry_at m p).e_name) s in
      let (t, e, a) = link_part-Adds (lma_part i m p value named) b ok.1 in
      let room : ltb (entry_at m p).e_value_size v.stack ≡ true = ground (arith, ok.0) in
      (
        lov_part i m p value t,
        rw (room, e),
        Adds-trans _ _ (Adds-trans [] _ (Adds-print _ s) (lma_part-Adds named))
            (Adds-trans _ _ a (lov_part-Adds t b)),
      )

-- The statements of the entries at these offsets, in order.
abbrev pub entries_stmts : Volume → ℕ → Memory → List ℕ → List Stmt
entries_stmts v i m [] = []
entries_stmts v i m (p ∷ ps) = entry_stmts v i m p ++ entries_stmts v i m ps

pub each-mds_entry-Adds :
    (v : Volume) (i : ℕ) (m : Memory) (ps : List ℕ) (s : Scan)
    → IsByteVolume v
    → All (EntryOk v i m) ps
    → (t : Scan) × (each (mds_entry v i m) ps s ≡ next t) × Adds (entries_stmts v i m ps) s t
unfolding each
each-mds_entry-Adds v i m [] s b ok = (s, refl, Adds-refl s)
each-mds_entry-Adds v i m (p ∷ ps) s b ok =
    let (t, e, a) = mds_entry-Adds v i m p s b ok.0 in
    let (u, f, c) = each-mds_entry-Adds v i m ps t b ok.1 in (u, rw e f, Adds-trans _ _ a c)
