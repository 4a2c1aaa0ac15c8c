-- ===== src/Disk.antt =====
-- The disk image and the buffers of the scanners: `open`, `lseek`, `read` and the loads of
-- little-endian fields (new_scan_code/mds_src.c, ost_src.c and the older scanners read so).
pub mod Load
pub mod Swap
pub mod BigEndian
pub mod Transfer
use dist_lfsck.Prelude.{
  ℕ, zero, suc, ◌+◌, ◌-◌, ◌*◌, ◌%◌, ◌/◌, ◌<◌, min, ◌≡◌, [], ◌∷◌, ltb, if◌then◌else◌, Bytes,
}

-- A device: its length, and the byte at each offset below the length.
pub record Image : Type 0 where
  pub size : ℕ
  pub byte : ℕ → ℕ

-- A buffer, seen from its first byte; what lies behind it in memory is at the higher offsets.
abbrev pub Memory : Type 0
Memory = ℕ → ℕ

-- `lseek(fd, off, SEEK_SET); read(fd, buf, n)`: a short read leaves the tail of the buffer alone.
unfoldable pub read_at : Image → ℕ → ℕ → Memory → Memory
read_at image off n buf =
    λ k. if ltb k (min n (image.size - off)) then image.byte (off + k) else buf k

-- A field of n bytes at offset `o`, on a little-endian machine.
unfoldable pub load : ℕ → Memory → ℕ → ℕ
load zero m o = 0
load (suc n) m o = m o + 256 * load n m (o + 1)

-- The same bytes with the first as the most significant, behind the digits `acc`.
unfoldable pub load_be : ℕ → ℕ → Memory → ℕ → ℕ
load_be acc zero m o = acc
load_be acc (suc n) m o = load_be (acc * 256 + m o) n m (o + 1)

-- `__swab64` and `__swab32` at n = 8 and n = 4: the bytes of `x` in the other order.
unfoldable pub swab : ℕ → ℕ → ℕ → ℕ
swab acc zero x = acc
swab acc (suc n) x = swab (acc * 256 + x % 256) n (x / 256)

-- The bytes that hold `x`, in either order.
unfoldable pub store : ℕ → ℕ → Bytes
store zero x = []
store (suc n) x = (x % 256) ∷ store n (x / 256)

-- Memory holds these bytes from offset `o` on.
abbrev pub Holds : Memory → ℕ → Bytes → Type 0
Holds m o [] = Unit {0}
Holds m o (b ∷ bs) = (m o ≡ b) × Holds m (o + 1) bs

abbrev pub IsByteMemory : Memory → Type 0
IsByteMemory m = (k : ℕ) → m k < 256
