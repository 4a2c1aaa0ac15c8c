-- ===== src/Checker/Entries.antt =====
-- The attributes that ext4_checker.c prints, against the entries on the device.
use dist_lfsck.Checker.{
  EntryInfo, entry_info_at, Told, further_attribute, Cursor, value_text, cur_ind_of, attr_round,
}
use dist_lfsck.Disk.Transfer.{on_device, read_at_inside, load-read_at}
use dist_lfsck.Disk.{Image, Memory, load, read_at}
use dist_lfsck.Prelude.{
  ℕ, zero, suc, ◌+◌, ◌*◌, ◌<◌, ◌≤◌, ◌≡◌, ◌≢◌, refl, ap, ◌∙◌, arith, List, [], ◌∷◌, ◌++◌, length,
  Bytes, false, ◌==◌,
}
use dist_lfsck.Xattr.Encode.{Laid}
use dist_lfsck.Xattr.{XattrEntry, xattr_len}

-- The fixed part of an entry.
abbrev pub info_of : XattrEntry → EntryInfo
info_of x = record {
  e_name_len = length x.e_name;
  e_name_index = x.e_name_index;
  e_value_offs = x.e_value_offs;
  e_value_block = x.e_value_block;
  e_value_size = x.e_value_size;
  e_hash = x.e_hash;
}

pub load_shift :
    (image : Image) (a b n k : ℕ)
    → load n (on_device image (a + b)) k ≡ load n (on_device image a) (b + k)
unfolding load
load_shift image a b zero k = refl
load_shift image a b (suc n) k =
    let next : b + (k + 1) ≡ b + k + 1 = omega arith in
    let here : image.byte (a + b + k) ≡ image.byte (a + (b + k)) = ap image.byte (omega arith) in
    let rest = load_shift image a b n (k + 1) ∙ ap (load n (on_device image a)) next in
    λ i. here i + 256 * rest i

-- The entry at offset `o` of the area at `first`, as the scanner reads its fixed part.
pub entry_info_at-Laid :
    (image : Image) (first o : ℕ) (buf : Memory) (x : XattrEntry)
    → Laid (on_device image first) o x
    → first + o + 16 ≤ image.size
    → entry_info_at (read_at image (first + o) 16 buf) ≡ info_of x
unfolding entry_info_at
entry_info_at-Laid image first o buf x l held =
    let field = λ (n k : ℕ) (fits : k + n ≤ 16).
      load-read_at image (first + o) 16 buf n k fits held ∙ load_shift image first o n k in
    let byte =
      λ (k : ℕ) (fits : k < 16). read_at_inside image (first + o) 16 buf k fits (omega arith) in
    let at_zero : first + o + 0 ≡ first + o = omega arith in
    let at_one : first + o + 1 ≡ first + (o + 1) = omega arith in
    let len = byte 0 (omega arith) ∙ ap image.byte at_zero ∙ l.name_len in
    let index = byte 1 (omega arith) ∙ ap image.byte at_one ∙ l.index in
    let offs = field 2 2 (omega arith) ∙ l.offs in
    let block = field 4 4 (omega arith) ∙ l.block in
    let size = field 4 8 (omega arith) ∙ l.size in
    let hash = field 4 12 (omega arith) ∙ l.hash in
    λ i. record {
      e_name_len = len i;
      e_name_index = index i;
      e_value_offs = offs i;
      e_value_block = block i;
      e_value_size = size i;
      e_hash = hash i;
    }

-- The step of the scanner over a name is the one of EXT4_XATTR_LEN.
pub cur_ind_of-xattr_len : (n : ℕ) → 0 < n → 16 + cur_ind_of n ≡ xattr_len n
cur_ind_of-xattr_len n pos = omega arith

module _ (image : Image) (first : ℕ) (value_at : ℕ → ℕ) where
  -- The text that is printed for the value of an entry.
  abbrev pub text_of : XattrEntry → Bytes
  text_of x = value_text image (value_at x.e_value_offs) (info_of x)

  -- The lines for the entries of number j + 1, j + 2, ..., the first of which stands behind a name
  -- of length `n`.
  abbrev pub further_lines : ℕ → ℕ → List XattrEntry → List Told
  further_lines j n [] = []
  further_lines j n (x ∷ xs) =
      further_attribute (j + 2) (cur_ind_of n) (info_of x) (text_of x)
      ∷ further_lines (j + 1) (length x.e_name) xs

  -- A round that reads the entry laid out at offset `o` prints it and counts it.
  pub attr_round-shows :
      (j o n : ℕ) (c : Cursor) (x : XattrEntry)
      → c.ientry 0 ≡ n
      → 16 * (j + 1) + c.prev_ind + cur_ind_of n ≡ o
      → Laid (on_device image first) o x
      → first + o + 16 ≤ image.size
      → x.e_value_size ≢ 0
      → attr_round image first value_at (j + 1) c ≡ record {
        ientry = read_at image (first + o) 16 c.ientry;
        prev_ind = c.prev_ind + cur_ind_of n;
        count = c.count + 1;
        told = c.told ++ further_attribute (j + 2) (cur_ind_of n) (info_of x) (text_of x) ∷ [];
      }
  unfolding attr_round
  attr_round-shows j o n c x len at laid held some_bytes =
      let place : first + 16 * (j + 1) + c.prev_ind + cur_ind_of n ≡ first + o = omega arith in
      let number : j + 1 + 1 ≡ j + 2 = omega arith in
      let seen = entry_info_at-Laid image first o c.ientry x laid held in
      let filled : (x.e_value_size == 0) ≡ false = ground arith in
      rw (len, place, seen, filled, number)
