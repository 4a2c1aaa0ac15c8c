-- ===== src/Text/Digits.antt =====
-- The printed digits: how many there are, which characters they are, and that they can be read back.
use native.Mathlib.Nat.{pow-suc, pow-zero, div-lt_self, div-add-mod', div-lt_iff_lt-mul, mod-lt}
use dist_lfsck.Prelude.{
  ℕ, zero, suc, ◌+◌, ◌*◌, ◌/◌, ◌%◌, ◌^◌, ◌<◌, ◌≤◌, ◌≡◌, ◌≢◌, refl, ap, sym, ◌∙◌, inl, inr, [], ◌∷◌,
  ◌++◌, ltb, lt→ltb, ltb→lt, List, ◌⊎◌, arith, Bool-cases, Bytes, length, length-append, All,
}
use dist_lfsck.Text.{digit, digit_value, digits, dec, hex, value}

value-append :
    (base acc : ℕ) (xs : Bytes) (c : ℕ)
    → value base acc (xs ++ c ∷ []) ≡ value base acc xs * base + digit_value c
unfolding value
value-append base acc [] c = refl
value-append base acc (x ∷ xs) c = value-append base (acc * base + digit_value x) xs c

digit_value-digit : (d : ℕ) → d < 16 → digit_value (digit d) ≡ d
digit_value-digit d h = ground arith

-- With fuel above the number, the digits stand for it.
value-digits :
    (base fuel n : ℕ) → 1 < base → base ≤ 16 → n < fuel → value base 0 (digits base fuel n) ≡ n
unfolding digits value
value-digits base zero n b b16 h = absurd (omega arith)
value-digits base (suc fuel) n b b16 h = elim (Bool-cases (ltb n base)) [
  | inl small ↦
      rw (small, digits) (omega (arith, digit_value-digit n (omega (arith, ltb→lt n base small))))
  | inr big ↦
      let pos : 0 < n = ground arith in
      let below : n / base < fuel = omega (arith, div-lt_self pos b) in
      let last : n % base < base = mod-lt n (omega arith) in
      rw (big, digits)
        (value-append base 0 (digits base fuel (n / base)) (digit (n % base))
          ∙ rw
              (
                value-digits base fuel (n / base) b b16 below,
                digit_value-digit (n % base) (omega arith),
              )
              (div-add-mod' n base))
]

-- A number below base ^ w has at most w digits.
length-digits :
    (base w fuel n : ℕ) → 1 < base → n < base ^ suc w → length (digits base fuel n) ≤ suc w
unfolding digits
length-digits base w zero n b h = omega arith
length-digits base zero (suc fuel) n b h =
    let small : n < base =
      omega (arith, pow-suc base 0, ap (λ (t : ℕ). t * base) (pow-zero base)) in
    rw (lt→ltb n base small, digits) (omega arith)
length-digits base (suc w) (suc fuel) n b h = elim (Bool-cases (ltb n base)) [
  | inl small ↦ rw (small, digits) (omega arith)
  | inr big ↦
      let pos : 0 < base = omega arith in
      let fewer : n / base < base ^ suc w =
        (div-lt_iff_lt-mul pos).1 (rw (pow-suc base (suc w)) at h) in
      rw (big, digits)
        (omega (
          arith,
          length-append (digits base fuel (n / base)) (digit (n % base) ∷ []),
          length-digits base w fuel (n / base) b fewer,
        ))
]

-- An int of at most ten digits, a __u32 in at most eight and a __u64 in at most sixteen.
pub length-dec : (n : ℕ) → n < 10 ^ 10 → length (dec n) ≤ 10
unfolding dec
length-dec n h = length-digits 10 9 (suc n) n (omega arith) h

pub length-dec_pow : (w n : ℕ) → n < 10 ^ suc w → length (dec n) ≤ suc w
unfolding dec
length-dec_pow w n h = length-digits 10 w (suc n) n (omega arith) h

pub length-hex : (w n : ℕ) → n < 16 ^ suc w → length (hex n) ≤ suc w
unfolding hex
length-hex w n h = length-digits 16 w (suc n) n (omega arith) h

pub value-dec : (n : ℕ) → value 10 0 (dec n) ≡ n
unfolding dec
value-dec n = value-digits 10 (suc n) n (omega arith) (omega arith) (omega arith)

pub value-hex : (n : ℕ) → value 16 0 (hex n) ≡ n
unfolding hex
value-hex n = value-digits 16 (suc n) n (omega arith) (omega arith) (omega arith)

-- Different numbers are printed differently.
pub hex_injective : (a b : ℕ) → hex a ≡ hex b → a ≡ b
hex_injective a b h = sym (value-hex a) ∙ ap (value 16 0) h ∙ value-hex b

-- No digit is this character.
abbrev pub Lacks : ℕ → Bytes → Type 0
Lacks c = All (λ x. x ≢ c)

pub All-append {ℓ κ} :
    {A : Type ℓ} (P : A → Type κ) (xs ys : List A) → All P xs → All P ys → All P (xs ++ ys)
All-append P [] ys hx hy = hy
All-append P (x ∷ xs) ys hx hy = (hx.0, All-append P xs ys hx.1 hy)

digit-ne : (d c : ℕ) → d < 16 → (c < b'0') ⊎ (b'9' < c) × (c < b'a') → digit d ≢ c
digit-ne d c h out = ground arith

digits-All {ℓ} :
    (P : ℕ → Type ℓ) (base fuel n : ℕ)
    → 1 < base
    → base ≤ 16
    → ((d : ℕ) → d < 16 → P (digit d))
    → All P (digits base fuel n)
unfolding digits
digits-All P base zero n b b16 each = tt
digits-All P base (suc fuel) n b b16 each = elim (Bool-cases (ltb n base)) [
  | inl small ↦ rw (small, digits) (each n (omega (arith, ltb→lt n base small)), tt)
  | inr big ↦
      let last : n % base < base = mod-lt n (omega arith) in
      rw (big, digits)
        (All-append P (digits base fuel (n / base)) (digit (n % base) ∷ [])
          (digits-All P base fuel (n / base) b b16 each) (each (n % base) (omega arith), tt))
]

-- A printed number has no spaces.
pub dec-IsGraphic : (n : ℕ) → All (λ c. 33 ≤ c) (dec n)
unfolding dec
dec-IsGraphic n =
    digits-All (λ c. 33 ≤ c) 10 (suc n) n (omega arith) (omega arith) (λ d h. ground arith)

pub hex-Lacks : (c n : ℕ) → (c < b'0') ⊎ (b'9' < c) × (c < b'a') → Lacks c (hex n)
unfolding hex
hex-Lacks c n out =
    digits-All (λ x. x ≢ c) 16 (suc n) n (omega arith) (omega arith) (λ d h. digit-ne d c h out)

pub dec-Lacks : (c n : ℕ) → ((d : ℕ) → d < 16 → digit d ≢ c) → Lacks c (dec n)
unfolding dec
dec-Lacks c n = digits-All (λ x. x ≢ c) 10 (suc n) n (omega arith) (omega arith)
