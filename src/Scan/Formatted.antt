-- ===== src/Scan/Formatted.antt =====
-- The superblock and the first group descriptor as ext4 keeps them on a device, and the volume that
-- the `main` of both scanners takes from them.
use dist_lfsck.Disk.Transfer.{load-read_at, on_device}
use dist_lfsck.Disk.{Image, load}
use dist_lfsck.Prelude.{ℕ, zero, suc, ◌+◌, ◌^◌, ◌<◌, ◌≤◌, ◌≡◌, refl, ◌∙◌, arith}
use dist_lfsck.Scan.Start.{super_of, s_magic, volume_of}
use dist_lfsck.Scan.{Machine, Volume, block_offset, block_size_of}

-- What the scanners take from the two structures.
pub record Format : Type 0 where
  pub log_block_size : ℕ
  pub inode_table : ℕ
  pub total_inodes : ℕ
  pub inode_size : ℕ

-- The superblock stands at byte 1024 and the descriptor in block 1, as it does where a block has
-- 2048 bytes or more.
pub record IsFormatted (image : Image) (f : Format) : Type 0 where
  pub magic : load 2 (on_device image 1024) 56 ≡ 0xEF53
  pub log : load 4 (on_device image 1024) 24 ≡ f.log_block_size
  pub total : load 4 (on_device image 1024) 0 ≡ f.total_inodes
  pub size : load 2 (on_device image 1024) 88 ≡ f.inode_size
  pub table : load 4 (on_device image (2 ^ (10 + f.log_block_size))) 8 ≡ f.inode_table
  pub large : 0 < f.log_block_size
  pub small : f.log_block_size ≤ 6
  pub room : 2 ^ (10 + f.log_block_size) + 64 ≤ image.size

-- The volume with these numbers.
abbrev pub volume_with : Machine → Image → Format → Volume
volume_with machine image f = record {
  image = image;
  block_size = 2 ^ (10 + f.log_block_size);
  inode_table = f.inode_table;
  total_inodes = f.total_inodes;
  inode_size = f.inode_size;
  uninit = machine.uninit;
  stack = machine.stack;
  fuel = machine.fuel;
}

-- Blocks of 2048 to 65536 bytes: the power is exact, and it is the offset of block 1.
block_sizes :
    (log : ℕ)
    → 0 < log
    → log ≤ 6
    → (block_size_of log ≡ 2 ^ (10 + log))
      × (block_offset (2 ^ (10 + log)) 1 ≡ 2 ^ (10 + log))
      × (2048 ≤ 2 ^ (10 + log))
block_sizes zero low high = absurd (omega arith)
block_sizes (suc zero) low high = (refl, refl, omega arith)
block_sizes (suc (suc zero)) low high = (refl, refl, omega arith)
block_sizes (suc (suc (suc zero))) low high = (refl, refl, omega arith)
block_sizes (suc (suc (suc (suc zero)))) low high = (refl, refl, omega arith)
block_sizes (suc (suc (suc (suc (suc zero))))) low high = (refl, refl, omega arith)
block_sizes (suc (suc (suc (suc (suc (suc zero)))))) low high = (refl, refl, omega arith)
block_sizes (suc (suc (suc (suc (suc (suc (suc log))))))) low high = absurd (omega arith)

module _ (machine : Machine) (image : Image) (f : Format) (h : IsFormatted image f) where
  abbrev sizes :
      (block_size_of f.log_block_size ≡ 2 ^ (10 + f.log_block_size))
      × (block_offset (2 ^ (10 + f.log_block_size)) 1 ≡ 2 ^ (10 + f.log_block_size))
      × (2048 ≤ 2 ^ (10 + f.log_block_size))
  sizes = block_sizes f.log_block_size h.large h.small

  super_field :
      (n o : ℕ) → o + n ≤ 1024 → load n (super_of machine image) o ≡ load n (on_device image 1024) o
  super_field n o fits =
      load-read_at image 1024 1024 machine.uninit.super n o fits (omega (arith, h.room, sizes.2))

  -- The magic number is found, and the volume is the one that the device describes.
  pub s_magic-IsFormatted : s_magic machine image ≡ 0xEF53
  s_magic-IsFormatted = super_field 2 56 (omega arith) ∙ h.magic

  pub volume_of-IsFormatted : volume_of machine image ≡ volume_with machine image f
  unfolding volume_of
  volume_of-IsFormatted =
      let log = super_field 4 24 (omega arith) ∙ h.log in
      let total = super_field 4 0 (omega arith) ∙ h.total in
      let size = super_field 2 88 (omega arith) ∙ h.size in
      let group =
        load-read_at image (2 ^ (10 + f.log_block_size)) 64 machine.uninit.group 4 8 (omega arith)
          h.room
        ∙ h.table in
      rw (log, sizes.0, sizes.1, group, total, size) refl
