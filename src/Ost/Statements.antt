-- ===== src/Ost/Statements.antt =====
-- The statements of an object's inode, read off the device.
use dist_lfsck.Cypher.{Stmt, oss, lma, fid, set_fid, set_f_oid, merge_ost_child}
use dist_lfsck.Disk.Transfer.{on_device, load-read_at}
use dist_lfsck.Disk.{Memory, load}
use dist_lfsck.Flow.{next, each}
use dist_lfsck.Lustre.{lu_fid_at, lustre_mdt_attrs_at, filter_fid_at}
use dist_lfsck.Ost.{struct_of, lma_part, fid_part, ost_entry}
use dist_lfsck.Prelude.{
  ℕ, ◌+◌, ◌≤◌, ◌≡◌, refl, inl, inr, true, List, [], ◌∷◌, ◌++◌, arith, codes, if◌then◌else◌,
  Bool-cases, All,
}
use dist_lfsck.Report.{entry_name, filter_fid}
use dist_lfsck.Scan.Adds.{Adds, Adds-refl, Adds-trans, Adds-print, Adds-run}
use dist_lfsck.Scan.{Volume, Scan, value_location}
use dist_lfsck.Xattr.{entry_at, begins}

-- The device from the value of the entry at offset `p` on.
abbrev pub value_on_device : Volume → ℕ → Memory → ℕ → Memory
value_on_device v i m p = on_device v.image (value_location v i m (entry_at m p))

-- An LMA gives the object's FID, at byte 8 of the value, and the object id in it.
abbrev pub lma_stmts : Volume → ℕ → Memory → ℕ → List Stmt
lma_stmts v i m p =
    if begins m (p + 16) (codes "lma")
    then set_fid oss i lma (lu_fid_at (value_on_device v i m p) 8)
      ∷ set_f_oid i (load 4 (value_on_device v i m p) 16)
      ∷ []
    else []

-- A filter FID gives the FID of the object's file, and the relation to it.
abbrev pub fid_stmts : Volume → ℕ → Memory → ℕ → List Stmt
fid_stmts v i m p =
    if begins m (p + 16) (codes "fid")
    then set_fid oss i fid (lu_fid_at (value_on_device v i m p) 0) ∷ merge_ost_child ∷ []
    else []

abbrev pub entry_stmts : Volume → ℕ → Memory → ℕ → List Stmt
entry_stmts v i m p = lma_stmts v i m p ++ fid_stmts v i m p

-- The structure that the scanner reads for the entry lies on the device.
pub record OnDevice (v : Volume) (i : ℕ) (m : Memory) (p : ℕ) : Type 0 where
  pub lma_inside :
      begins m (p + 16) (codes "lma") ≡ true
      → value_location v i m (entry_at m p) + 24 ≤ v.image.size
  pub fid_inside :
      begins m (p + 16) (codes "fid") ≡ true
      → value_location v i m (entry_at m p) + 52 ≤ v.image.size

module _ (v : Volume) (i : ℕ) (m : Memory) (p : ℕ) where
  -- A FID inside the structure is the FID on the device, whatever stood on the stack.
  lu_fid_at-struct_of :
      (size o : ℕ)
      → o + 16 ≤ size
      → value_location v i m (entry_at m p) + size ≤ v.image.size
      → lu_fid_at (struct_of v i m p (entry_at m p) size) o ≡ lu_fid_at (value_on_device v i m p) o
  unfolding lu_fid_at struct_of
  lu_fid_at-struct_of size o inside held =
      let off = value_location v i m (entry_at m p) in
      let field = λ (n q : ℕ) (fits : q + n ≤ size).
        load-read_at v.image off size (v.uninit.value i p) n q fits held in
      λ j. record {
        f_seq = field 8 o (omega arith) j;
        f_oid = field 4 (o + 8) (omega arith) j;
        f_ver = field 4 (o + 12) (omega arith) j;
      }

  lma_part-Adds : (s : Scan) → OnDevice v i m p → Adds (lma_stmts v i m p) s (lma_part v i m p s)
  unfolding lma_part lustre_mdt_attrs_at
  lma_part-Adds s d = elim (Bool-cases (begins m (p + 16) (codes "lma"))) [
    | inr other ↦ rw other (Adds-refl s)
    | inl is_lma ↦
        let same = lu_fid_at-struct_of 24 8 (omega arith) (d.lma_inside is_lma) in
        rw (is_lma, same)
          (unfold lu_fid_at in
            Adds-trans _ _ (Adds-trans [] _ (Adds-print _ s) (Adds-run _ _)) (Adds-run _ _))
  ]

  fid_part-Adds : (s : Scan) → OnDevice v i m p → Adds (fid_stmts v i m p) s (fid_part v i m p s)
  unfolding fid_part filter_fid_at
  fid_part-Adds s d = elim (Bool-cases (begins m (p + 16) (codes "fid"))) [
    | inr other ↦ rw other (Adds-refl s)
    | inl is_fid ↦
        let same = lu_fid_at-struct_of 52 0 (omega arith) (d.fid_inside is_fid) in
        let ff = filter_fid_at (struct_of v i m p (entry_at m p) 52) 0 in
        rw (is_fid, ← same)
          (Adds-trans _ _ (Adds-trans [] _ (Adds-print (filter_fid ff) s) (Adds-run _ _))
            (Adds-run _ _))
  ]

  -- One round of the loop over the entries sends the entry's statements and goes on.
  pub ost_entry-Adds :
      (s : Scan)
      → OnDevice v i m p
      → (t : Scan) × (ost_entry v i m p s ≡ next t) × Adds (entry_stmts v i m p) s t
  unfolding ost_entry
  ost_entry-Adds s d = (
    _,
    refl,
    Adds-trans _ _
        (Adds-trans [] _ (Adds-print (entry_name (entry_at m p).e_name) s) (lma_part-Adds _ d))
        (fid_part-Adds _ d),
  )

-- The statements of the entries at these offsets, in order.
abbrev pub entries_stmts : Volume → ℕ → Memory → List ℕ → List Stmt
entries_stmts v i m [] = []
entries_stmts v i m (p ∷ ps) = entry_stmts v i m p ++ entries_stmts v i m ps

pub each-ost_entry-Adds :
    (v : Volume) (i : ℕ) (m : Memory) (ps : List ℕ) (s : Scan)
    → All (OnDevice v i m) ps
    → (t : Scan) × (each (ost_entry v i m) ps s ≡ next t) × Adds (entries_stmts v i m ps) s t
unfolding each
each-ost_entry-Adds v i m [] s d = (s, refl, Adds-refl s)
each-ost_entry-Adds v i m (p ∷ ps) s d =
    let (t, e, a) = ost_entry-Adds v i m p s d.0 in
    let (u, f, c) = each-ost_entry-Adds v i m ps t d.1 in (u, rw e f, Adds-trans _ _ a c)
