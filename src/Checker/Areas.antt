-- ===== src/Checker/Areas.antt =====
-- An attribute area with fewer entries than ext4_checker.c looks for, and zeros behind them.
use dist_lfsck.Checker.Quiet.{IsZeroed, terminated, names_space, Shows, attr_rounds-quiet}
use dist_lfsck.Checker.Entries.{
  info_of, text_of, further_lines, attr_round-shows, entry_info_at-Laid, cur_ind_of-xattr_len,
}
use dist_lfsck.Checker.{
  first_attribute, further_attribute, Told, Cursor, cur_ind_of, entry_info_at, attr_rounds,
  show_all,
}
use dist_lfsck.Disk.Load.{Holds-append}
use dist_lfsck.Disk.Transfer.{on_device, read_at_inside}
use dist_lfsck.Disk.{Image, Holds, read_at}
use dist_lfsck.Prelude.{
  ℕ, zero, suc, ◌+◌, ◌*◌, ◌≤◌, ◌≡◌, ◌≢◌, ap, ◌∙◌, arith, List, [], ◌∷◌, ◌++◌, append_assoc, All,
  length, length-append,
}
use dist_lfsck.Xattr.Encode.{
  Fits, encode_entry, encode_entries, encode_entry-Laid, length-encode_entry,
}
use dist_lfsck.Xattr.{XattrEntry, xattr_len}

module _ (image : Image) (first : ℕ) (value_at : ℕ → ℕ) where
  -- The entries `xs`, and zeros behind them for the `left` rounds that are over.
  attr_rounds-Shows :
      (m : ℕ) (xs : List XattrEntry) (left j o n : ℕ) (c : Cursor)
      → m ≡ length xs + left
      → c.ientry 0 ≡ n
      → 16 * (j + 1) + c.prev_ind + cur_ind_of n ≡ o
      → All Fits xs
      → All (λ x. x.e_value_size ≢ 0) xs
      → Holds (on_device image first) o (encode_entries xs)
      → IsZeroed image first (o + length (encode_entries xs)) (20 * left)
      → first + o + length (encode_entries xs) + 20 * left ≤ image.size
      → Shows c
          (attr_rounds image first value_at m (j + 1) c)
          (further_lines image first value_at j n xs)
          (length xs)
          (names_space n xs left)
  unfolding attr_rounds
  attr_rounds-Shows m [] left j o n c total len at f filled h zeroed held =
      let all : m ≡ left = omega arith in
      rw all (
        attr_rounds-quiet image first value_at left j o n c len at
          (terminated image first o (20 * left) h zeroed) (omega arith))
  attr_rounds-Shows zero (x ∷ xs) left j o n c total len at f filled h zeroed held =
      absurd (omega arith)
  attr_rounds-Shows (suc m) (x ∷ xs) left j o n c total len at f filled h zeroed held =
      let (front, back) =
        Holds-append (on_device image first) o (encode_entry x) (encode_entries xs) h in
      let laid = encode_entry-Laid (on_device image first) o x f.0 front in
      let whole = length-append (encode_entry x) (encode_entries xs) in
      let long = length-encode_entry x in
      let behind : Holds (on_device image first) (o + xattr_len (length x.e_name))
          (encode_entries xs) =
        rw long at back in
      let e =
        attr_round-shows image first value_at j o n c x len at laid (omega (arith, whole, long))
          filled.0 in
      let d : Cursor = record {
        ientry = read_at image (first + o) 16 c.ientry;
        prev_ind = c.prev_ind + cur_ind_of n;
        count = c.count + 1;
        told =
            c.told
            ++ further_attribute (j + 2) (cur_ind_of n) (info_of x) (text_of image first value_at x)
              ∷ [];
      } in
      let name : d.ientry 0 ≡ length x.e_name =
        read_at_inside image (first + o) 16 c.ientry 0 (omega arith) (omega (arith, whole, long))
        ∙ ap image.byte (omega arith)
        ∙ laid.name_len in
      let step = cur_ind_of-xattr_len (length x.e_name) f.0.named in
      let rest =
        attr_rounds-Shows m xs left (j + 1) (o + xattr_len (length x.e_name)) (length x.e_name) d
          (omega arith) name (omega (arith, step)) f.1 filled.1 behind
          (λ k from upto. zeroed k (omega (arith, whole, long)) (omega (arith, whole, long)))
          (omega (arith, whole, long)) in
      let q = ap (attr_rounds image first value_at m (j + 1 + 1)) e in
      record {
        lines = ap (λ z. z.told) q ∙ rest.lines ∙ append_assoc c.told _ _;
        counted = ap (λ z. z.count) q ∙ omega (arith, rest.counted);
        moved = ap (λ z. z.prev_ind) q ∙ omega (arith, rest.moved);
      }

  -- The lines of an area's entries.
  abbrev pub area_lines : XattrEntry → List XattrEntry → List Told
  area_lines x xs =
      first_attribute (info_of x) (text_of image first value_at x)
      ∷ further_lines image first value_at 0 (length x.e_name) xs

  -- An area of the entries `x` and `xs`, and zeros behind them.
  pub record IsArea (x : XattrEntry) (xs : List XattrEntry) (left : ℕ) : Type 0 where
    pub fits : All Fits (x ∷ xs)
    pub filled : All (λ y. y.e_value_size ≢ 0) xs
    pub laid : Holds (on_device image first) 0 (encode_entries (x ∷ xs))
    pub zeroed : IsZeroed image first (length (encode_entries (x ∷ xs))) (20 * left)
    pub held : first + length (encode_entries (x ∷ xs)) + 20 * left ≤ image.size

  pub show_all-Shows :
      (m : ℕ) (x : XattrEntry) (xs : List XattrEntry) (left : ℕ) (c : Cursor)
      → m ≡ length xs + left
      → c.prev_ind ≡ 0
      → IsArea x xs left
      → Shows c
          (show_all image first value_at m c)
          (area_lines x xs)
          (length xs)
          (names_space (length x.e_name) xs left)
  unfolding show_all
  show_all-Shows m x xs left c total start a =
      let (front, back) =
        Holds-append (on_device image first) 0 (encode_entry x) (encode_entries xs) a.laid in
      let laid = encode_entry-Laid (on_device image first) 0 x a.fits.0 front in
      let whole = length-append (encode_entry x) (encode_entries xs) in
      let long = length-encode_entry x in
      let step = cur_ind_of-xattr_len (length x.e_name) a.fits.0.named in
      let at_first : first + 0 ≡ first = omega arith in
      let behind : Holds (on_device image first) (0 + xattr_len (length x.e_name))
          (encode_entries xs) =
        rw long at back in
      let seen : entry_info_at (read_at image first 16 c.ientry) ≡ info_of x =
        rw at_first at
          (entry_info_at-Laid image first 0 c.ientry x laid (omega (arith, whole, long, a.held))) in
      let d : Cursor = record c {
        ientry = read_at image first 16 c.ientry;
        told = c.told ++ first_attribute (info_of x) (text_of image first value_at x) ∷ [];
      } in
      let name : d.ientry 0 ≡ length x.e_name =
        read_at_inside image first 16 c.ientry 0 (omega arith) (omega (arith, whole, long, a.held))
        ∙ laid.name_len in
      let rest =
        attr_rounds-Shows m xs left 0 (0 + xattr_len (length x.e_name)) (length x.e_name) d total
          name (omega (arith, step)) a.fits.1 a.filled behind
          (λ k from upto. a.zeroed k (omega (arith, whole, long)) (omega (arith, whole, long)))
          (omega (arith, whole, long, a.held)) in
      rw seen (record {
        lines = rest.lines ∙ append_assoc c.told _ _;
        counted = rest.counted;
        moved = rest.moved;
      })
