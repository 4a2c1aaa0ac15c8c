-- ===== src/Disk/Load.antt =====
-- Loads read back what was stored, and are bounded by their width.
use native.Mathlib.Nat.{pow-suc}
use dist_lfsck.Disk.{Memory, load, store, Holds, IsByteMemory}
use dist_lfsck.Prelude.{
  ℕ, zero, suc, ◌+◌, ◌/◌, ◌^◌, ◌<◌, ◌≡◌, refl, [], ◌∷◌, ◌++◌, arith, Bytes, length,
}

-- A field of n bytes is below 256 ^ n.
pub load-lt : (n : ℕ) (m : Memory) (o : ℕ) → IsByteMemory m → load n m o < 256 ^ n
unfolding load
load-lt zero m o h = omega arith
load-lt (suc n) m o h = omega (arith, pow-suc 256 n, h o, load-lt n m (o + 1) h)

pub load_stored :
    (n : ℕ) (m : Memory) (o x : ℕ) → x < 256 ^ n → Holds m o (store n x) → load n m o ≡ x
unfolding load store
load_stored zero m o x h s = omega arith
load_stored (suc n) m o x h s =
    omega
      (arith, pow-suc 256 n, load_stored n m (o + 1) (x / 256) (omega (arith, pow-suc 256 n)) s.1)

pub length-store : (n x : ℕ) → length (store n x) ≡ n
unfolding store
length-store zero x = refl
length-store (suc n) x = omega (arith, length-store n (x / 256))

-- Two pieces that stand one behind the other.
pub Holds-append :
    (m : Memory) (o : ℕ) (xs ys : Bytes)
    → Holds m o (xs ++ ys)
    → Holds m o xs × Holds m (o + length xs) ys
Holds-append m o [] ys h =
    let e : o + 0 ≡ o = omega arith in let there : Holds m (o + 0) ys = rw e h in (tt, there)
Holds-append m o (x ∷ xs) ys h =
    let (front, back) = Holds-append m (o + 1) xs ys h.1 in
    let e : o + suc (length xs) ≡ o + 1 + length xs = omega arith in
    let there : Holds m (o + suc (length xs)) ys = rw e back in ((h.0, front), there)

-- A field at the front of what memory holds, and what stands behind it.
pub read_field :
    (n : ℕ) (m : Memory) (o x : ℕ) (rest : Bytes)
    → x < 256 ^ n
    → Holds m o (store n x ++ rest)
    → (load n m o ≡ x) × Holds m (o + n) rest
read_field n m o x rest small h =
    let (field, behind) = Holds-append m o (store n x) rest h in
    (load_stored n m o x small field, rw (length-store n x) at behind)
