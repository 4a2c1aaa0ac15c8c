-- ===== src/Cypher/Bounds.antt =====
-- The lengths of the statements, against the buffers that `sprintf` writes to.
use dist_lfsck.Cypher.{
  Label, mds, oss, Kind, directory, file, FidField, lma, pfid, fid, Stmt, create, set_type, set_fid,
  set_ost_oid, set_f_oid, merge_mds_parent, merge_ost_child, merge_lov_parent, label_text,
  kind_text, field_text, render,
}
use dist_lfsck.Lustre.ByteOrder.{FidFits}
use dist_lfsck.Lustre.{LuFid}
use dist_lfsck.Prelude.{ℕ, ◌^◌, ◌<◌, ◌≤◌, ◌≡◌, ◌≢◌, refl, arith, length, length-append}
use dist_lfsck.Text.Digits.{length-dec, length-hex}

-- The numbers of the statement are in the range of their C types.
abbrev pub InRange : Stmt → Type 0
InRange (create l i) = i < 2 ^ 31
InRange (set_type l i k) = i < 2 ^ 31
InRange (set_fid l i p f) = (i < 2 ^ 31) × FidFits f
InRange (set_ost_oid i oid) = (i < 2 ^ 31) × (oid < 2 ^ 32)
InRange (set_f_oid i oid) = (i < 2 ^ 31) × (oid < 2 ^ 32)
InRange merge_mds_parent = Unit {0}
InRange merge_ost_child = Unit {0}
InRange (merge_lov_parent j) = j < 2 ^ 31

length-label_text : (l : Label) → length (label_text l) ≡ 3
unfolding label_text
length-label_text mds = refl
length-label_text oss = refl

length-kind_text : (k : Kind) → length (kind_text k) ≤ 9
unfolding kind_text
length-kind_text directory = omega arith
length-kind_text file = omega arith

length-field_text : (p : FidField) → length (field_text p) ≤ 4
unfolding field_text
length-field_text lma = omega arith
length-field_text pfid = omega arith
length-field_text fid = omega arith

-- The longest property and the longest numbers leave just the byte that the text's end takes.
render-fits_set_fid :
    (l : Label) (i : ℕ) (p : FidField) (f : LuFid)
    → i < 2 ^ 31
    → FidFits f
    → length (render (set_fid l i p f)) < 100
unfolding render
render-fits_set_fid l i p f h k = simp length-append (
    omega (
      arith,
      length-label_text l,
      length-field_text p,
      length-dec i (omega arith),
      length-hex 15 f.f_seq (omega arith),
      length-hex 7 f.f_oid (omega arith),
      length-hex 7 f.f_ver (omega arith),
    ))

-- Every statement that runs while the MDS inodes are scanned fits `char buffer[100]`, its final
-- NUL included. The one statement that does not is left to the OST scanner.
pub length-render-lt_100 :
    (s : Stmt) → InRange s → ((j : ℕ) → s ≢ merge_lov_parent j) → length (render s) < 100
unfolding render
length-render-lt_100 (set_fid l i p f) h other = render-fits_set_fid l i p f h.0 h.1
length-render-lt_100 (create l i) h other =
    simp length-append (omega (arith, length-label_text l, length-dec i (omega arith)))
length-render-lt_100 (set_type l i k) h other =
    simp length-append
      (omega (arith, length-label_text l, length-kind_text k, length-dec i (omega arith)))
length-render-lt_100 (set_ost_oid i oid) h other = simp length-append (
    omega
      (arith, length-label_text mds, length-dec i (omega arith), length-hex 7 oid (omega arith)))
length-render-lt_100 (set_f_oid i oid) h other = simp length-append (
    omega
      (arith, length-label_text oss, length-dec i (omega arith), length-hex 7 oid (omega arith)))
length-render-lt_100 merge_mds_parent h other = omega arith
length-render-lt_100 merge_ost_child h other = omega arith
length-render-lt_100 (merge_lov_parent j) h other = absurd (other j refl)

render-fits_merge_lov_parent : (j : ℕ) → j < 2 ^ 31 → length (render (merge_lov_parent j)) < 150
unfolding render
render-fits_merge_lov_parent j h = simp length-append (omega (arith, length-dec j (omega arith)))

-- Every statement of the OST scanner fits its `char buffer[150]`, the final NUL included.
pub length-render-lt_150 : (s : Stmt) → InRange s → length (render s) < 150
length-render-lt_150 (merge_lov_parent j) h = render-fits_merge_lov_parent j h
length-render-lt_150 s h = omega (arith, length-render-lt_100 s h (λ j e. cc))
