-- ===== src/Text/Cut.antt =====
-- Cutting a text at a character, to read back what stands on both sides of it.
use dist_lfsck.Prelude.{ℕ, zero, suc, ◌≡◌, [], ◌∷◌, ◌++◌, ◌==◌, if◌then◌else◌, arith, Bytes}
use dist_lfsck.Text.Digits.{Lacks}

-- The text up to the first `c`, and what stands behind it.
unfoldable pub before : ℕ → Bytes → Bytes
before c [] = []
before c (x ∷ xs) = if x == c then [] else x ∷ before c xs

unfoldable pub behind : ℕ → Bytes → Bytes
behind c [] = []
behind c (x ∷ xs) = if x == c then xs else behind c xs

pub before-append : (c : ℕ) (xs rest : Bytes) → Lacks c xs → before c (xs ++ c ∷ rest) ≡ xs
unfolding before
before-append c [] rest h = ground arith
before-append c (x ∷ xs) rest h = ground (arith, before-append c xs rest h.1)

pub behind-append : (c : ℕ) (xs rest : Bytes) → Lacks c xs → behind c (xs ++ c ∷ rest) ≡ rest
unfolding behind
behind-append c [] rest h = ground arith
behind-append c (x ∷ xs) rest h = ground (arith, behind-append c xs rest h.1)

-- The character at a place, zero behind the end.
unfoldable pub char_at : ℕ → Bytes → ℕ
char_at i [] = 0
char_at zero (x ∷ xs) = x
char_at (suc i) (x ∷ xs) = char_at i xs

unfoldable pub drop : ℕ → Bytes → Bytes
drop zero xs = xs
drop (suc n) [] = []
drop (suc n) (x ∷ xs) = drop n xs
