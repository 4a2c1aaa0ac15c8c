-- ===== src/Mds/Attrs.antt =====
-- The attributes of an inode as Lustre writes them, and what mds_src.c reads of each.
use dist_lfsck.Cypher.{Stmt, mds, lma, pfid, set_fid, set_ost_oid, merge_mds_parent}
use dist_lfsck.Disk.{Memory, Holds}
use dist_lfsck.Lustre.ByteOrder.{FidFits}
use dist_lfsck.Lustre.Written.{lma_bytes, IsLma, lma_read}
use dist_lfsck.Lustre.{
  LustreMdtAttrs, LinkEaHeader, link_ea_header_at, link_ea_magic, LovUserMd, LovUserOstData,
  lmm_object_at,
}
use dist_lfsck.Mds.Link
use dist_lfsck.Mds.Link.{HardLink, IsHeader, link_bytes, parent_read}
use dist_lfsck.Mds.Lov
use dist_lfsck.Mds.Lov.{IsObject, IsLayout, lov_bytes, object_read}
use dist_lfsck.Mds.Statements.{value_at, entry_stmts, LinkOk}
use dist_lfsck.Prelude.{
  ℕ, ◌+◌, ◌%◌, ◌^◌, ◌<◌, ◌≡◌, refl, sym, ap, ◌∙◌, Bool, true, false, some, List, [], ◌∷◌, Bytes,
  codes, length,
}
use dist_lfsck.Scan.Bytes.{IsByteVolume, value_of-IsByteMemory, load_low}
use dist_lfsck.Scan.Written.{AttrKind}
use dist_lfsck.Scan.{Volume}
use dist_lfsck.Xattr.Names.{starts_with, begins-starts_with}
use dist_lfsck.Xattr.{entry_at, begins}

-- The inode's own FID, its hard links, its plain layout with one or more objects, or another
-- attribute, whose name begins otherwise.
pub data Attr : Type 0 where
  own : LustreMdtAttrs → Attr
  linked : LinkEaHeader → HardLink → List HardLink → Attr
  striped : LovUserMd → LovUserOstData → List LovUserOstData → Attr
  other : Bytes → Bytes → Attr

abbrev pub attr_name : Attr → Bytes
attr_name (own d) = codes "lma"
attr_name (linked h l ls) = codes "link"
attr_name (striped d o os) = codes "lov"
attr_name (other name value) = name

abbrev pub attr_value : Attr → Bytes
attr_value (own d) = lma_bytes d []
attr_value (linked h l ls) = link_bytes h (l ∷ ls)
attr_value (striped d o os) = lov_bytes d (o ∷ os)
attr_value (other name value) = value

-- What an attribute says of the node `i`.
abbrev pub attr_stmts : ℕ → Attr → List Stmt
attr_stmts i (own d) = set_fid mds i lma d.lma_self_fid ∷ []
attr_stmts i (linked h l ls) = set_fid mds i pfid l.parent ∷ merge_mds_parent ∷ []
attr_stmts i (striped d o os) = set_ost_oid i (o.l_ost_oi_id % 2 ^ 32) ∷ []
attr_stmts i (other name value) = []

-- The fields are in the ranges of their types, and another attribute's name begins like none of
-- the three.
abbrev pub IsAttr : Attr → Type 0
IsAttr (own d) = IsLma d
IsAttr (linked h l ls) =
    IsHeader h × (h.leh_magic ≡ link_ea_magic) × FidFits l.parent × (length l.name < 65518)
IsAttr (striped d o os) = IsLayout d × IsObject o
IsAttr (other name value) =
    (starts_with (codes "lma") name ≡ some false)
    × (starts_with (codes "link") name ≡ some false)
    × (starts_with (codes "lov") name ≡ some false)

-- The attributes that the scanner tells apart.
abbrev pub attr_kind : AttrKind
attr_kind = record { Attr = Attr; attr_name = attr_name; attr_value = attr_value; IsAttr = IsAttr }

module _ (v : Volume) (i : ℕ) (m : Memory) (p : ℕ) where
  -- The name is held behind the entry, and the value is what the scanner reads for it.
  pub record Shown (a : Attr) : Type 0 where
    pub named : Holds m (p + 16) (attr_name a)
    pub valued : Holds (value_at v i m p) 0 (attr_value a)
    pub valid : IsAttr a

  test :
      (a : Attr) (text : Bytes) (b : Bool)
      → Shown a
      → starts_with text (attr_name a) ≡ some b
      → begins m (p + 16) text ≡ b
  test a text b shown e = begins-starts_with m (p + 16) text (attr_name a) b shown.named e

  -- The scanner sends what the attribute says, and is not stopped by it.
  pub entry_stmts-attr :
      (a : Attr)
      → IsByteVolume v
      → Shown a
      → (entry_stmts v i m p ≡ attr_stmts i a) × LinkOk v i m p
  unfolding link_ea_header_at lmm_object_at
  entry_stmts-attr (own d) b shown =
      let is_lma = test (own d) (codes "lma") true shown refl in
      let no_link = test (own d) (codes "link") false shown refl in
      let no_lov = test (own d) (codes "lov") false shown refl in
      let self = lma_read (value_at v i m p) d [] shown.valid shown.valued in
      (rw (is_lma, no_link, no_lov, self) refl, λ h. cc)
  entry_stmts-attr (linked h l ls) b shown =
      let a = linked h l ls in
      let no_lma = test a (codes "lma") false shown refl in
      let is_link = test a (codes "link") true shown refl in
      let no_lov = test a (codes "lov") false shown refl in
      let (header, rest) =
        Link.header_read (value_at v i m p) h (l ∷ ls) shown.valid.0 shown.valued in
      let parent = parent_read (value_at v i m p) l ls shown.valid.2 shown.valid.3 rest in
      (
        rw (no_lma, is_link, no_lov, parent) refl,
        λ e. ap (λ (z : LinkEaHeader). z.leh_magic) header ∙ shown.valid.1,
      )
  entry_stmts-attr (striped d o os) b shown =
      let a = striped d o os in
      let value = value_at v i m p in
      let no_lma = test a (codes "lma") false shown refl in
      let no_link = test a (codes "link") false shown refl in
      let is_lov = test a (codes "lov") true shown refl in
      let (header, rest) = Lov.header_read value d (o ∷ os) shown.valid.0 shown.valued in
      let (first, _) = object_read value 0 o os shown.valid.1 rest in
      let low = load_low value 32 (value_of-IsByteMemory v i m p (entry_at m p) b) in
      let id = sym low ∙ ap (λ (z : LovUserOstData). z.l_ost_oi_id % 2 ^ 32) first in
      (rw (no_lma, no_link, is_lov, id) refl, λ h. cc)
  entry_stmts-attr (other name value) b shown =
      let a = other name value in
      let no_lma = test a (codes "lma") false shown shown.valid.0 in
      let no_link = test a (codes "link") false shown shown.valid.1 in
      let no_lov = test a (codes "lov") false shown shown.valid.2 in
      (rw (no_lma, no_link, no_lov) refl, λ h. cc)
