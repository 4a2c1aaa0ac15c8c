-- ===== src/Scan/Location.antt =====
-- Where the scanners look for an inode, against where ext4 keeps it.
use native.Mathlib.Nat.{eq_of_mul-eq-mul_right}
use dist_lfsck.Prelude.{ℕ, ◌+◌, ◌-◌, ◌*◌, ◌^◌, ◌<◌, ◌≡◌, ◌↔◌, sym, ◌∙◌, arith}
use dist_lfsck.Scan.{Volume, inode_location}

-- Inode number n, counted from 1, stands at index n - 1 of the table.
abbrev pub ext4_location : Volume → ℕ → ℕ
ext4_location v n = v.inode_table * v.block_size + (n - 1) * v.inode_size

-- Index i of the table, in any arithmetic.
abbrev pub slot : Volume → ℕ → ℕ
slot v i = v.inode_table * v.block_size + i * v.inode_size

inode_location_exact : (v : Volume) (i : ℕ) → (inode_location v i ≡ slot v i) ↔ (slot v i < 2 ^ 32)
unfolding inode_location
inode_location_exact v i = (λ h. omega arith, λ h. omega arith)

slot-eq_iff :
    (v : Volume) (i n : ℕ) → 0 < v.inode_size → 0 < n → (slot v i ≡ ext4_location v n) ↔ (n ≡ i + 1)
slot-eq_iff v i n size pos = (
  λ e. omega (arith, eq_of_mul-eq-mul_right v.inode_size size i (n - 1) (omega arith)),
  λ e. let index : n - 1 ≡ i = omega arith in rw index (omega arith),
)

-- The offset of the round that reports inode i, computed in 32 bits, is that of index i of the
-- table exactly where this lies below 4 GiB; and where it does, the round has read the table's
-- inode number i + 1, as ext4 counts them from 1, and no other.
pub inode_location_iff :
    (v : Volume) (i n : ℕ)
    → 0 < v.inode_size
    → 0 < n
    → ((inode_location v i ≡ slot v i) ↔ (slot v i < 2 ^ 32))
      × ((inode_location v i ≡ slot v i) × (inode_location v i ≡ ext4_location v n)
          ↔ (slot v i < 2 ^ 32) × (n ≡ i + 1))
inode_location_iff v i n size pos =
    let exact = inode_location_exact v i in
    let place = slot-eq_iff v i n size pos in
    (
      exact,
      (λ h. (exact.0 h.0, place.0 (sym h.0 ∙ h.1)), λ h. (exact.1 h.0, exact.1 h.0 ∙ place.1 h.1)),
    )
