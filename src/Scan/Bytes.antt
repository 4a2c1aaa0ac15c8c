-- ===== src/Scan/Bytes.antt =====
-- Buffers of bytes: what is read from a device of bytes into a buffer of bytes is one again.
use dist_lfsck.Disk.{Image, Memory, load, read_at, IsByteMemory}
use dist_lfsck.Prelude.{
  ℕ, ◌+◌, ◌%◌, ◌^◌, ◌<◌, ◌≡◌, inl, inr, true, false, ltb, if◌then◌else◌, arith, Bool-cases, min,
  ◌-◌, ◌⊎◌,
}
use dist_lfsck.Scan.{Volume, value_of}
use dist_lfsck.Xattr.{XattrEntry}

-- The device and the uninitialised memory hold bytes.
pub record IsByteVolume (v : Volume) : Type 0 where
  pub image : (k : ℕ) → v.image.byte k < 256
  pub cur_inode : IsByteMemory v.uninit.cur_inode
  pub block_buf : (i : ℕ) → IsByteMemory (v.uninit.block_buf i)
  pub value : (i p : ℕ) → IsByteMemory (v.uninit.value i p)

pub read_at-IsByteMemory :
    (image : Image) (off n : ℕ) (buf : Memory)
    → ((k : ℕ) → image.byte k < 256)
    → IsByteMemory buf
    → IsByteMemory (read_at image off n buf)
unfolding read_at
read_at-IsByteMemory image off n buf h b k = elim (Bool-cases (ltb k (min n (image.size - off)))) [
  | inl inside ↦ rw inside (h (off + k))
  | inr outside ↦ rw outside (b k)
]

pub value_of-IsByteMemory :
    (v : Volume) (i : ℕ) (m : Memory) (p : ℕ) (x : XattrEntry)
    → IsByteVolume v
    → IsByteMemory (value_of v i m p x)
unfolding value_of
value_of-IsByteMemory v i m p x b =
    read_at-IsByteMemory v.image _ x.e_value_size _ b.image (λ k. cleared k (Bool-cases _))
  where
    cleared :
        (k : ℕ)
        → (ltb k ((x.e_value_size + 1) % 2 ^ 32) ≡ true)
          ⊎ (ltb k ((x.e_value_size + 1) % 2 ^ 32) ≡ false)
        → (if ltb k ((x.e_value_size + 1) % 2 ^ 32) then 0 else v.uninit.value i p k) < 256
    cleared k (inl inside) = rw inside (omega arith)
    cleared k (inr outside) = rw outside (b.value i p k)

-- The low half of a field of eight bytes is the field of its first four.
pub load_low : (m : Memory) (o : ℕ) → IsByteMemory m → load 8 m o % 2 ^ 32 ≡ load 4 m o
unfolding load
load_low m o h = omega (arith, h o, h (o + 1), h (o + 1 + 1), h (o + 1 + 1 + 1))
