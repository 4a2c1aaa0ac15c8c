-- ===== src/Text.antt =====
-- `sprintf`: the conversions %d, %x and %llx of the statements that the scanners send.
pub mod Digits
pub mod Cut
use dist_lfsck.Prelude.{
  ℕ, zero, suc, ◌+◌, ◌-◌, ◌*◌, ◌/◌, ◌%◌, true, false, [], ◌∷◌, ◌++◌, ltb, leb, if◌then◌else◌, Bytes,
}

-- The character of a digit below 16, and back.
abbrev pub digit : ℕ → ℕ
digit d = if ltb d 10 then b'0' + d else b'a' + d - 10

abbrev pub digit_value : ℕ → ℕ
digit_value c = if ltb c b'a' then c - b'0' else c + 10 - b'a'

-- The digits of `n`, most significant first; `fuel` above `n` is enough.
unfoldable pub digits : ℕ → ℕ → ℕ → Bytes
digits base zero n = []
digits base (suc fuel) n = elim (ltb n base) [
  | true ↦ digit n ∷ []
  | false ↦ digits base fuel (n / base) ++ digit (n % base) ∷ []
]

-- %d of an `int` that is not negative.
unfoldable pub dec : ℕ → Bytes
unfolding digits
dec n = digits 10 (suc n) n

-- %x and %llx.
unfoldable pub hex : ℕ → Bytes
unfolding digits
hex n = digits 16 (suc n) n

-- What a text of digits stands for.
unfoldable pub value : ℕ → ℕ → Bytes → ℕ
value base acc [] = acc
value base acc (c ∷ cs) = value base (acc * base + digit_value c) cs
