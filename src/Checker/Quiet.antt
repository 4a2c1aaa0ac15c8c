-- ===== src/Checker/Quiet.antt =====
-- The rounds of ext4_checker.c over zeros, behind the last entry of an attribute area.
use dist_lfsck.Checker.Entries.{load_shift}
use dist_lfsck.Checker.{Told, Cursor, cur_ind_of, entry_info_at, attr_round, attr_rounds}
use dist_lfsck.Disk.Transfer.{on_device, read_at_inside, load-read_at}
use dist_lfsck.Disk.{Image, Memory, Holds, load, read_at, store}
use dist_lfsck.Prelude.{
  ℕ, zero, suc, ◌+◌, ◌*◌, ◌<◌, ◌≤◌, ◌≡◌, refl, sym, ap, ◌∙◌, arith, List, [], ◌∷◌, ◌++◌, append-nil,
  All, length, ◌==◌, ==_iff, Bytes, Bool-cases, inl, inr, ltb, ltb→lt,
}
use dist_lfsck.Xattr.Encode.{encode_entries}
use dist_lfsck.Xattr.{XattrEntry}

-- The device has zeros from offset `o` of the area, `n` bytes long.
abbrev pub IsZeroed : Image → ℕ → ℕ → ℕ → Type 0
IsZeroed image first o n = (k : ℕ) → o ≤ k → k < o + n → image.byte (first + k) ≡ 0

load_zeros : (n : ℕ) (m : Memory) (o : ℕ) → ((k : ℕ) → o ≤ k → k < o + n → m k ≡ 0) → load n m o ≡ 0
unfolding load
load_zeros zero m o h = refl
load_zeros (suc n) m o h =
    let first = h o (omega arith) (omega arith) in
    let rest = load_zeros n m (o + 1) (λ k from upto. h k (omega arith) (omega arith)) in
    omega arith

Holds-zero :
    (bs : Bytes) (m : Memory) (o k : ℕ)
    → Holds m o bs
    → All (λ b. b ≡ 0) bs
    → o ≤ k
    → k < o + length bs
    → m k ≡ 0
Holds-zero [] m o k h z from upto = absurd (omega arith)
Holds-zero (b ∷ bs) m o k h z from upto = elim (Bool-cases (o == k)) [
  | inl here ↦ ap m (sym ((==_iff o k).0 here)) ∙ h.0 ∙ z.0
  | inr other ↦ Holds-zero bs m (o + 1) k h.1 z.1 (ground arith) (omega arith)
]

-- The terminator, and the zeros behind it.
pub terminated :
    (image : Image) (first o n : ℕ)
    → Holds (on_device image first) o (encode_entries [])
    → IsZeroed image first (o + length (encode_entries [])) n
    → IsZeroed image first o n
unfolding store
terminated image first o n h zeroed k from upto = elim (Bool-cases (ltb k (o + 4))) [
  | inl near ↦
      Holds-zero (encode_entries []) (on_device image first) o k h (omega arith) from
        (omega (arith, ltb→lt k (o + 4) near))
  | inr far ↦ zeroed k (ground arith) (omega arith)
]

-- What `left` rounds over zeros add to the index, behind a name of length `n`.
abbrev pub quiet_space : ℕ → ℕ → ℕ
quiet_space zero n = 0
quiet_space (suc left) n = cur_ind_of n + quiet_space left 0

-- What the rounds behind a name of length `n` add, over the entries `xs` and then zeros.
abbrev pub names_space : ℕ → List XattrEntry → ℕ → ℕ
names_space n [] left = quiet_space left n
names_space n (x ∷ xs) left = cur_ind_of n + names_space (length x.e_name) xs left

-- What `c` has become in `d` when entries have been shown: the lines, the count, and the index,
-- which has grown.
pub record Shows (c d : Cursor) (ls : List Told) (shown grown : ℕ) : Type 0 where
  pub lines : d.told ≡ c.told ++ ls
  pub counted : d.count ≡ c.count + shown
  pub moved : d.prev_ind ≡ c.prev_ind + grown

module _ (image : Image) (first : ℕ) (value_at : ℕ → ℕ) where
  -- A round that reads zeros prints nothing.
  attr_round-quiet :
      (j o n : ℕ) (c : Cursor)
      → c.ientry 0 ≡ n
      → 16 * (j + 1) + c.prev_ind + cur_ind_of n ≡ o
      → IsZeroed image first o 16
      → first + o + 16 ≤ image.size
      → attr_round image first value_at (j + 1) c ≡ record {
        ientry = read_at image (first + o) 16 c.ientry;
        prev_ind = c.prev_ind + cur_ind_of n;
        count = c.count;
        told = c.told;
      }
  unfolding attr_round entry_info_at
  attr_round-quiet j o n c len at zeroed held =
      let place : first + 16 * (j + 1) + c.prev_ind + cur_ind_of n ≡ first + o = omega arith in
      let size : load 4 (read_at image (first + o) 16 c.ientry) 8 ≡ 0 =
        load-read_at image (first + o) 16 c.ientry 4 8 (omega arith) held
        ∙ load_shift image first o 4 8
        ∙ load_zeros 4 (on_device image first) (o + 8)
            (λ k from upto. zeroed k (omega arith) (omega arith)) in
      rw (len, place, size) refl

  pub attr_rounds-quiet :
      (left j o n : ℕ) (c : Cursor)
      → c.ientry 0 ≡ n
      → 16 * (j + 1) + c.prev_ind + cur_ind_of n ≡ o
      → IsZeroed image first o (20 * left)
      → first + o + 20 * left ≤ image.size
      → Shows c (attr_rounds image first value_at left (j + 1) c) [] 0 (quiet_space left n)
  unfolding attr_rounds
  attr_rounds-quiet zero j o n c len at zeroed held = record {
    lines = sym (append-nil c.told);
    counted = omega arith;
    moved = omega arith;
  }
  attr_rounds-quiet (suc left) j o n c len at zeroed held =
      let e =
        attr_round-quiet j o n c len at (λ k from upto. zeroed k from (omega arith))
          (omega arith) in
      let d : Cursor = record {
        ientry = read_at image (first + o) 16 c.ientry;
        prev_ind = c.prev_ind + cur_ind_of n;
        count = c.count;
        told = c.told;
      } in
      let name : d.ientry 0 ≡ 0 =
        read_at_inside image (first + o) 16 c.ientry 0 (omega arith) (omega arith)
        ∙ ap image.byte (omega arith)
        ∙ zeroed o (omega arith) (omega arith) in
      let rest =
        attr_rounds-quiet left (j + 1) (o + 20) 0 d name (omega arith)
          (λ k from upto. zeroed k (omega arith) (omega arith)) (omega arith) in
      let q = ap (attr_rounds image first value_at left (j + 1 + 1)) e in
      record {
        lines = ap (λ z. z.told) q ∙ rest.lines;
        counted = ap (λ z. z.count) q ∙ rest.counted;
        moved = ap (λ z. z.prev_ind) q ∙ omega (arith, rest.moved);
      }
