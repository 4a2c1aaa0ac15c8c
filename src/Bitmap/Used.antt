-- ===== src/Bitmap/Used.antt =====
-- The numbers of the set bits of a bitmap, and the loops over bytes and bits.
use dist_lfsck.Bitmap.{is_used, for_bits, for_bytes}
use dist_lfsck.Disk.{Memory}
use dist_lfsck.Flow.{Flow, ◌>>=◌, each, bind_cong, bind_assoc}
use dist_lfsck.Prelude.{
  ℕ, zero, suc, ◌+◌, ◌*◌, ◌/◌, ◌%◌, ◌≤◌, ◌≡◌, refl, sym, ◌∙◌, inl, inr, arith, Bool, List, [], ◌∷◌,
  Bool-cases, if◌then◌else◌,
}

-- Bit k of a bitmap, as ext4 numbers the bits.
abbrev pub bit : Memory → ℕ → Bool
bit bitmap k = is_used (bitmap (k / 8)) (k % 8)

-- The set bits among the `left` ones from `k` on.
pub used_from : Memory → ℕ → ℕ → List ℕ
used_from bitmap zero k = []
used_from bitmap (suc left) k =
    if bit bitmap k then k ∷ used_from bitmap left (k + 1) else used_from bitmap left (k + 1)

-- Bitmaps that agree from byte `start` on have the same set bits there.
pub used_from_cong :
    (a b : Memory) (left k start : ℕ)
    → 8 * start ≤ k
    → ((i : ℕ) → start ≤ i → a i ≡ b i)
    → used_from a left k ≡ used_from b left k
unfolding used_from
used_from_cong a b zero k start low same = refl
used_from_cong a b (suc left) k start low same =
    rw (same (k / 8) (omega (arith, low)), used_from_cong a b left (k + 1) start (omega arith) same)
      refl

module _ {ℓ} {S : Type ℓ} (body : ℕ → ℕ → S → Flow S) where
  -- The body at the bit of this number.
  abbrev pub at_bit : ℕ → S → Flow S
  at_bit k s = body (k / 8) (k % 8) s

  for_bits-each :
      (bitmap : Memory) (left i j : ℕ) (s : S) (rest : S → Flow S)
      → left + j ≤ 8
      → (for_bits body left j i (bitmap i) s >>= rest)
        ≡ (each at_bit (used_from bitmap left (8 * i + j)) s >>= rest)
  unfolding for_bits each used_from
  for_bits-each bitmap zero i j s rest h = refl
  for_bits-each bitmap (suc left) i j s rest h =
      let byte : (8 * i + j) / 8 ≡ i = omega arith in
      let index : (8 * i + j) % 8 ≡ j = omega arith in
      let here : at_bit (8 * i + j) s ≡ body i j s = rw (byte, index) in
      let number : 8 * i + (j + 1) ≡ 8 * i + j + 1 = omega arith in
      elim (Bool-cases (is_used (bitmap i) j)) [
        | inl set ↦
            rw (set, byte, index, set, here)
              (bind_assoc (body i j s) _ _
                ∙ bind_cong (body i j s) _ _
                    (λ t. rw number at (for_bits-each bitmap left i (j + 1) t rest (omega arith)))
                ∙ sym (bind_assoc (body i j s) _ _))
        | inr clear ↦
            rw (clear, byte, index, clear)
              (rw number at (for_bits-each bitmap left i (j + 1) s rest (omega arith)))
      ]

  pub each-used_from :
      (bitmap : Memory) (left more k : ℕ) (s : S)
      → each at_bit (used_from bitmap (left + more) k) s ≡ (
          each at_bit (used_from bitmap left k) s
          >>= each at_bit (used_from bitmap more (k + left)))
  unfolding each used_from
  each-used_from bitmap zero more k s =
      let a : zero + more ≡ more = omega arith in let b : k + zero ≡ k = omega arith in rw (a, b)
  each-used_from bitmap (suc left) more k s =
      let a : suc left + more ≡ suc (left + more) = omega arith in
      let b : k + suc left ≡ k + 1 + left = omega arith in
      elim (Bool-cases (bit bitmap k)) [
        | inl set ↦
            rw (a, b, set)
              (bind_cong (at_bit k s) _ _ (λ t. each-used_from bitmap left more (k + 1) t)
                ∙ sym (bind_assoc (at_bit k s) _ _))
        | inr clear ↦ rw (a, b, clear) (each-used_from bitmap left more (k + 1) s)
      ]

  -- The two loops run their body once for each set bit of the first `left` bytes, in the order of
  -- the bits, and for no other.
  pub for_bytes-each :
      (bitmap : Memory) (left i : ℕ) (s : S)
      → for_bytes body left i bitmap s ≡ each at_bit (used_from bitmap (8 * left) (8 * i)) s
  unfolding for_bytes each used_from
  for_bytes-each bitmap zero i s = refl
  for_bytes-each bitmap (suc left) i s =
      let a : 8 * suc left ≡ 8 + 8 * left = omega arith in
      let b : 8 * (i + 1) ≡ 8 * i + 8 = omega arith in
      let c : 8 * i + 0 ≡ 8 * i = omega arith in
      rw a (
        for_bits-each bitmap 8 i 0 s _ (omega arith)
        ∙ rw c (
            bind_cong (each at_bit (used_from bitmap 8 (8 * i)) s) _ _
              (λ t. rw b at (for_bytes-each bitmap left (i + 1) t)))
        ∙ sym (each-used_from bitmap 8 (8 * left) (8 * i) s))
