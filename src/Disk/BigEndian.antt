-- ===== src/Disk/BigEndian.antt =====
-- Fields whose most significant byte comes first.
use native.Mathlib.Nat.{pow-suc}
use dist_lfsck.Disk.{Memory, load_be, Holds}
use dist_lfsck.Prelude.{
  ℕ, zero, suc, ◌+◌, ◌*◌, ◌/◌, ◌%◌, ◌^◌, ◌<◌, ◌≡◌, refl, [], ◌∷◌, ◌++◌, append_assoc, arith, Bytes,
}

-- The bytes that hold `x`, the most significant one first.
unfoldable pub store_be : ℕ → ℕ → Bytes
store_be zero x = []
store_be (suc n) x = store_be n (x / 256) ++ (x % 256) ∷ []

load_be-suc :
    (acc n : ℕ) (m : Memory) (o : ℕ) → load_be acc (suc n) m o ≡ load_be acc n m o * 256 + m (o + n)
unfolding load_be
load_be-suc acc zero m o = let e : o + 0 ≡ o = omega arith in rw e refl
load_be-suc acc (suc n) m o =
    let e : o + suc n ≡ o + 1 + n = omega arith in rw e (load_be-suc (acc * 256 + m o) n m (o + 1))

-- The field at the front of what memory holds, and what stands behind it.
pub read_field_be :
    (n : ℕ) (m : Memory) (o x : ℕ) (rest : Bytes)
    → x < 256 ^ n
    → Holds m o (store_be n x ++ rest)
    → (load_be 0 n m o ≡ x) × Holds m (o + n) rest
unfolding store_be
read_field_be zero m o x rest small h =
    let e : o + 0 ≡ o = omega arith in (unfold load_be in omega arith, rw e h)
read_field_be (suc n) m o x rest small h =
    let (high, behind) =
      read_field_be n m o (x / 256) ((x % 256) ∷ rest) (omega (arith, pow-suc 256 n))
        (rw (append_assoc (store_be n (x / 256)) ((x % 256) ∷ []) rest) at h) in
    let e : o + suc n ≡ o + n + 1 = omega arith in
    (rw (load_be-suc 0 n m o, high, behind.0) (omega arith), rw e behind.1)
