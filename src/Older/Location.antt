-- ===== src/Older/Location.antt =====
-- Where the older scanners look for the inode of a bit of the inode bitmap.
use native.Mathlib.Nat.{add-mul, mul_assoc, mul-le-mul_right}
use mathlib.Core.Path.{subst}
use dist_lfsck.Older.{bit_location}
use dist_lfsck.Prelude.{ℕ, ◌+◌, ◌*◌, ◌/◌, ◌%◌, ◌^◌, ◌<◌, ◌≤◌, ◌≡◌, ◌↔◌, ◌∙◌, sym, arith}

bit_location-fits :
    (block_size base size i j : ℕ)
    → (base + i) * block_size + j * size < 2 ^ 32
    → bit_location block_size base size i j ≡ base * block_size + (i * block_size + j * size)
unfolding bit_location
bit_location-fits block_size base size i j h = omega (arith, add-mul base i block_size)

eight_split : (size k : ℕ) → k / 8 * (8 * size) + k % 8 * size ≡ k * size
eight_split size k =
    let whole : k / 8 * 8 + k % 8 ≡ k = omega arith in
    let products = add-mul (k / 8 * 8) (k % 8) size in
    let assoc = mul_assoc (k / 8) 8 size in
    sym (
      subst (λ x. x * size ≡ k / 8 * 8 * size + k % 8 * size) whole products ∙ omega (arith, assoc))

-- Among the first n bits, which go beyond one byte, every inode is found where ext4 keeps it
-- exactly when a block holds eight inodes, as long as the offsets fit 32 bits.
pub bit_location_iff :
    (block_size base size n : ℕ)
    → 8 < n
    → (base + n) * block_size + 7 * size < 2 ^ 32
    → ((k : ℕ)
        → k < n
        → bit_location block_size base size (k / 8) (k % 8) ≡ base * block_size + k * size)
      ↔ (block_size ≡ 8 * size)
bit_location_iff block_size base size n more h =
    let blocks : (i : ℕ) → i ≤ n → (base + i) * block_size ≤ (base + n) * block_size =
      λ i le. mul-le-mul_right block_size (omega arith) in
    let slots : (j : ℕ) → j ≤ 7 → j * size ≤ 7 * size = λ j le. mul-le-mul_right size le in
    let fits = λ (k : ℕ) (small : k < n).
      bit_location-fits block_size base size (k / 8) (k % 8)
        (omega (arith, blocks (k / 8) (omega arith), slots (k % 8) (omega arith))) in
    (
      λ e. omega (arith, fits 8 more, e 8 more),
      λ e k small. fits k small ∙ rw e (omega (arith, eight_split size k)),
    )
