-- ===== src/Cypher/Reading.antt =====
-- The statements read back from the texts that `sprintf` makes of them.
use dist_lfsck.Cypher.FidText.{quote, read_hex, read_hex-hex, fid_of, fid_of-fid_text}
use dist_lfsck.Cypher.{
  Label, mds, oss, Kind, directory, file, FidField, lma, pfid, fid, Stmt, create, set_type, set_fid,
  set_ost_oid, set_f_oid, merge_mds_parent, merge_ost_child, merge_lov_parent, label_text,
  kind_text, field_text, fid_text, match_node, render,
}
use dist_lfsck.Lustre.{LuFid}
use dist_lfsck.Prelude.{
  ℕ, ◌<◌, ◌≡◌, ◌≢◌, refl, sym, ap, ◌∙◌, inl, ◌∷◌, ◌++◌, ◌==◌, if◌then◌else◌, arith, Bytes, codes,
}
use dist_lfsck.Text.Cut.{before, behind, before-append, behind-append, char_at, drop}
use dist_lfsck.Text.Digits.{value-dec, dec-Lacks}
use dist_lfsck.Text.{digit, dec, hex, value}

-- The number in decimal up to the character `c`.
unfoldable pub read_dec : ℕ → Bytes → ℕ
unfolding before value
read_dec c s = value 10 0 (before c s)

module _ (c n : ℕ) (rest : Bytes) (no : (d : ℕ) → d < 16 → digit d ≢ c) where
  read_dec-dec : read_dec c (dec n ++ c ∷ rest) ≡ n
  unfolding read_dec
  read_dec-dec = ap (value 10 0) (before-append c (dec n) rest (dec-Lacks c n no)) ∙ value-dec n

  behind-dec : behind c (dec n ++ c ∷ rest) ≡ rest
  behind-dec = behind-append c (dec n) rest (dec-Lacks c n no)

abbrev space : ℕ
space = 32

abbrev brace : ℕ
brace = 125

no_space : (d : ℕ) → d < 16 → digit d ≢ space
no_space d h = ground arith

no_brace : (d : ℕ) → d < 16 → digit d ≢ brace
no_brace d h = ground arith

label_of : ℕ → Label
label_of c = if c == b'M' then mds else oss

kind_of : ℕ → Kind
kind_of c = if c == b'd' then directory else file

field_of : ℕ → FidField
field_of c = if c == b'l' then lma else if c == b'p' then pfid else fid

-- What stands behind "set n." tells the statements that set a property apart.
setter : Label → ℕ → Bytes → Stmt
unfolding kind_of field_of char_at behind drop
setter l i s =
    let c = char_at 0 s in
    if c == b'i'
    then set_type l i (kind_of (char_at 12 s))
    else if c == b'o'
    then set_ost_oid i (read_hex quote (drop 9 s))
    else if char_at 1 s == b'_'
    then set_f_oid i (read_hex quote (drop 7 s))
    else set_fid l i (field_of c) (fid_of (behind quote s))

-- A statement is known by a few characters at fixed places.
pub read_stmt : Bytes → Stmt
unfolding label_of char_at behind drop
read_stmt s =
    if char_at 0 s == b'C'
    then create (label_of (char_at 10 s)) (read_dec brace (drop 28 s))
    else if char_at 5 s == space
    then (if char_at 9 s == b'M' then merge_mds_parent else merge_ost_child)
    else if char_at 12 s == b','
    then merge_lov_parent (read_dec space (drop 42 s))
    else setter (label_of (char_at 8 s)) (read_dec space (drop 34 s))
        (drop 6 (behind space (drop 34 s)))

read_create : (l : Label) (i : ℕ) → read_stmt (render (create l i)) ≡ create l i
unfolding read_stmt render
read_create mds i = ap (create mds) (read_dec-dec brace i _ no_brace)
read_create oss i = ap (create oss) (read_dec-dec brace i _ no_brace)

module _ (i : ℕ) (s : Bytes) where
  -- A statement that sets a property of a node.
  read_set : (l : Label) → read_stmt (match_node l i ++ (codes " set n." ++ s)) ≡ setter l i s
  unfolding read_stmt match_node label_text
  read_set mds = simp (read_dec-dec space i _ no_space, behind-dec space i _ no_space)
  read_set oss = simp (read_dec-dec space i _ no_space, behind-dec space i _ no_space)

  -- What stands behind the name and the opening quote is the FID.
  read_fid :
      (l : Label) (p : FidField) (f : LuFid)
      → setter l i (field_text p ++ (codes "='" ++ (fid_text f ++ quote ∷ s))) ≡ set_fid l i p f
  unfolding setter field_text
  read_fid l lma f = ap (set_fid l i lma) (fid_of-fid_text f s)
  read_fid l pfid f = ap (set_fid l i pfid) (fid_of-fid_text f s)
  read_fid l fid f = ap (set_fid l i fid) (fid_of-fid_text f s)

  read_kind :
      (l : Label) (k : Kind)
      → setter l i (codes "inode_type='" ++ (kind_text k ++ s)) ≡ set_type l i k
  unfolding setter kind_text
  read_kind l directory = refl
  read_kind l file = refl

  read_ost_oid :
      (oid : ℕ) → setter mds i (codes "ost_oid='" ++ (hex oid ++ quote ∷ s)) ≡ set_ost_oid i oid
  unfolding setter
  read_ost_oid oid = ap (set_ost_oid i) (read_hex-hex quote oid s (inl (omega arith)))

  read_f_oid :
      (oid : ℕ) → setter oss i (codes "f_oid='" ++ (hex oid ++ quote ∷ s)) ≡ set_f_oid i oid
  unfolding setter
  read_f_oid oid = ap (set_f_oid i) (read_hex-hex quote oid s (inl (omega arith)))

-- Every statement is read back from its text.
pub read_stmt-render : (s : Stmt) → read_stmt (render s) ≡ s
unfolding render read_stmt
read_stmt-render (create l i) = read_create l i
read_stmt-render (set_type l i k) = read_set i _ l ∙ read_kind i _ l k
read_stmt-render (set_fid l i p f) = read_set i _ l ∙ read_fid i _ l p f
read_stmt-render (set_ost_oid i oid) = read_set i _ mds ∙ read_ost_oid i _ oid
read_stmt-render (set_f_oid i oid) = read_set i _ oss ∙ read_f_oid i _ oid
read_stmt-render merge_mds_parent = refl
read_stmt-render merge_ost_child = refl
read_stmt-render (merge_lov_parent j) = ap merge_lov_parent (read_dec-dec space j _ no_space)

-- Two statements that `sprintf` makes the same text of are the same: the text says which statement
-- it is, of which node, and with which type, FID, object id or inode number.
pub render_injective : (s t : Stmt) → render s ≡ render t → s ≡ t
render_injective s t h = sym (read_stmt-render s) ∙ ap read_stmt h ∙ read_stmt-render t
