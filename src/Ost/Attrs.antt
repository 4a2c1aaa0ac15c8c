-- ===== src/Ost/Attrs.antt =====
-- The attributes of an object's inode as Lustre writes them, and what ost_src.c reads of each.
use dist_lfsck.Cypher.{Stmt, oss, lma, fid, set_fid, set_f_oid, merge_ost_child}
use dist_lfsck.Disk.{Memory, load, Holds}
use dist_lfsck.Lustre.ByteOrder.{FidFits}
use dist_lfsck.Lustre.Written.{
  lma_bytes, IsLma, lma_read, length-lma_bytes, filter_bytes, parent_read, length-filter_bytes,
}
use dist_lfsck.Lustre.{LuFid, lu_fid_at, LustreMdtAttrs, FilterFid}
use dist_lfsck.Ost.Statements.{value_on_device, entry_stmts, OnDevice}
use dist_lfsck.Prelude.{
  ℕ, ◌+◌, ◌≤◌, ◌≡◌, refl, ap, Bool, true, false, some, List, [], ◌∷◌, arith, Bytes, codes, length,
}
use dist_lfsck.Scan.Written.{AttrKind}
use dist_lfsck.Scan.{Volume, value_location}
use dist_lfsck.Xattr.Names.{starts_with, begins-starts_with}
use dist_lfsck.Xattr.{entry_at, begins}

-- The object's own FID, the FID of its file, each with what more stands in the value, or another
-- attribute, whose name begins otherwise.
pub data Attr : Type 0 where
  own : LustreMdtAttrs → Bytes → Attr
  filed : FilterFid → Bytes → Attr
  other : Bytes → Bytes → Attr

abbrev pub attr_name : Attr → Bytes
attr_name (own d more) = codes "lma"
attr_name (filed f more) = codes "fid"
attr_name (other name value) = name

abbrev pub attr_value : Attr → Bytes
attr_value (own d more) = lma_bytes d more
attr_value (filed f more) = filter_bytes f more
attr_value (other name value) = value

-- What an attribute says of the node `i`.
abbrev pub attr_stmts : ℕ → Attr → List Stmt
attr_stmts i (own d more) = set_fid oss i lma d.lma_self_fid ∷ set_f_oid i d.lma_self_fid.f_oid ∷ []
attr_stmts i (filed f more) = set_fid oss i fid f.ff_parent ∷ merge_ost_child ∷ []
attr_stmts i (other name value) = []

-- The fields are in the ranges of their types, and another attribute's name begins like neither
-- of the two.
abbrev pub IsAttr : Attr → Type 0
IsAttr (own d more) = IsLma d
IsAttr (filed f more) = FidFits f.ff_parent
IsAttr (other name value) =
    (starts_with (codes "lma") name ≡ some false) × (starts_with (codes "fid") name ≡ some false)

-- The attributes that the scanner tells apart.
abbrev pub attr_kind : AttrKind
attr_kind = record { Attr = Attr; attr_name = attr_name; attr_value = attr_value; IsAttr = IsAttr }

module _ (v : Volume) (i : ℕ) (m : Memory) (p : ℕ) where
  -- The name is held behind the entry, and the value stands on the device where the scanner reads.
  pub record Shown (a : Attr) : Type 0 where
    pub named : Holds m (p + 16) (attr_name a)
    pub valued : Holds (value_on_device v i m p) 0 (attr_value a)
    pub inside : value_location v i m (entry_at m p) + length (attr_value a) ≤ v.image.size
    pub valid : IsAttr a

  test :
      (a : Attr) (text : Bytes) (b : Bool)
      → Shown a
      → starts_with text (attr_name a) ≡ some b
      → begins m (p + 16) text ≡ b
  test a text b shown e = begins-starts_with m (p + 16) text (attr_name a) b shown.named e

  -- The scanner sends what the attribute says, and reads no further than the device goes.
  pub entry_stmts-attr :
      (a : Attr) → Shown a → (entry_stmts v i m p ≡ attr_stmts i a) × OnDevice v i m p
  entry_stmts-attr (own d more) shown =
      let a = own d more in
      let is_lma = test a (codes "lma") true shown refl in
      let no_fid = test a (codes "fid") false shown refl in
      let self = lma_read (value_on_device v i m p) d more shown.valid shown.valued in
      let object : load 4 (value_on_device v i m p) 16 ≡ d.lma_self_fid.f_oid =
        unfold lu_fid_at in ap (λ (f : LuFid). f.f_oid) self in
      (
        rw (is_lma, no_fid, object, self) refl,
        record {
          lma_inside = λ h. omega (arith, length-lma_bytes d more, shown.inside);
          fid_inside = λ h. cc;
        },
      )
  entry_stmts-attr (filed f more) shown =
      let a = filed f more in
      let no_lma = test a (codes "lma") false shown refl in
      let is_fid = test a (codes "fid") true shown refl in
      let parent = parent_read (value_on_device v i m p) f more shown.valid shown.valued in
      (
        rw (no_lma, is_fid, parent) refl,
        record {
          lma_inside = λ h. cc;
          fid_inside = λ h. omega (arith, length-filter_bytes f more, shown.inside);
        },
      )
  entry_stmts-attr (other name value) shown =
      let a = other name value in
      let no_lma = test a (codes "lma") false shown shown.valid.0 in
      let no_fid = test a (codes "fid") false shown shown.valid.1 in
      (rw (no_lma, no_fid) refl, record { lma_inside = λ h. cc; fid_inside = λ h. cc })
