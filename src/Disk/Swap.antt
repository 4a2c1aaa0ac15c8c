-- ===== src/Disk/Swap.antt =====
-- Swapping the bytes of a little-endian load gives the big-endian value.
use native.Mathlib.Nat.{pow-suc, pow-zero}
use dist_lfsck.Disk.{Memory, load, load_be, swab, IsByteMemory}
use dist_lfsck.Prelude.{ℕ, zero, suc, ◌+◌, ◌*◌, ◌%◌, ◌/◌, ◌^◌, ◌≤◌, ◌<◌, ◌≡◌, refl, ap, arith}

pub swab-load :
    (acc n : ℕ) (m : Memory) (o : ℕ) → IsByteMemory m → swab acc n (load n m o) ≡ load_be acc n m o
unfolding swab load load_be
swab-load acc zero m o h = refl
swab-load acc (suc n) m o h =
    let digit : (m o + 256 * load n m (o + 1)) % 256 ≡ m o = omega (arith, h o) in
    let rest : (m o + 256 * load n m (o + 1)) / 256 ≡ load n m (o + 1) = omega (arith, h o) in
    rw (digit, rest) (swab-load (acc * 256 + m o) n m (o + 1) h)

digit_bound : (d p : ℕ) → d ≤ 255 → d * p ≤ 255 * p
digit_bound d p h = grind arith

swab-bound : (n acc x : ℕ) → swab acc n x < (acc + 1) * 256 ^ n
unfolding swab
swab-bound zero acc x = omega (arith, ap (λ (t : ℕ). (acc + 1) * t) (pow-zero 256))
swab-bound (suc n) acc x = omega (
  arith,
  swab-bound n (acc * 256 + x % 256) (x / 256),
  digit_bound (x % 256) (256 ^ n) (omega arith),
  ap (λ (t : ℕ). (acc + 1) * t) (pow-suc 256 n),
)

-- A swapped field of n bytes is below 256 ^ n, whatever was swapped.
pub swab-lt : (n x : ℕ) → swab 0 n x < 256 ^ n
swab-lt n x = omega (arith, swab-bound n 0 x)
