-- ===== src/Lsfsck/Early.antt =====
-- Where lsfsck.c reads: one block before the ones that the group descriptor names.
use dist_lfsck.Disk.{Image, Memory, read_at}
use dist_lfsck.Disk.Transfer.{on_device, read_at_inside}
use dist_lfsck.Lsfsck.{
  Headers, Host, Shown, bitmap_title, bitmap_row, inode_title, Ending, exits, crashes, block_offset,
  bits, bitmap_rows, block_size_of, inode_shown, group_shown, show_inode, main_body, main,
}
use dist_lfsck.Prelude.{
  ℕ, zero, suc, ◌+◌, ◌-◌, ◌*◌, ◌/◌, ◌%◌, ◌^◌, ◌<◌, ◌≤◌, ◌≡◌, refl, ap, ◌∙◌, Option, none, some,
  List, [], ◌∷◌, ◌++◌, arith, ==_iff,
}
use dist_lfsck.Scan.{base_offset, ext4_super_magic}

-- Block b of a device.
abbrev pub block_of : Image → ℕ → ℕ → Memory
block_of image block_size b = on_device image (b * block_size)

-- The bits of a byte, from the least.
abbrev pub byte_bits : ℕ → List ℕ
byte_bits x =
    x % 2
    ∷ x / 2 % 2
    ∷ x / 4 % 2
    ∷ x / 8 % 2
    ∷ x / 16 % 2
    ∷ x / 32 % 2
    ∷ x / 64 % 2
    ∷ x / 128 % 2
    ∷ []

-- The rows of the block's bytes from k on.
abbrev pub rows_of : ℕ → ℕ → Memory → List Shown
rows_of zero k block = []
rows_of (suc left) k block = bitmap_row (byte_bits (block k)) ∷ rows_of left (k + 1) block

bits-byte_bits : (x : ℕ) → bits 8 0 x ≡ byte_bits x
unfolding bits
bits-byte_bits x = let whole : x / 1 ≡ x = omega arith in rw whole refl

block_offset_lem :
    (block_size b : ℕ)
    → 0 < b
    → b < 2 ^ 32
    → (b - 1) * block_size < 2 ^ 32
    → block_offset block_size b ≡ (b - 1) * block_size
unfolding block_offset
block_offset_lem block_size b pos small fits =
    let one : (b + 2 ^ 32 - 1) % 2 ^ 32 ≡ b - 1 = omega arith in rw one (omega arith)

bitmap_rows-rows_of :
    (left k : ℕ) (bitmap block : Memory)
    → ((i : ℕ) → k ≤ i → i < k + left → bitmap i ≡ block i)
    → bitmap_rows left k bitmap ≡ rows_of left k block
unfolding bitmap_rows
bitmap_rows-rows_of zero k bitmap block same = refl
bitmap_rows-rows_of (suc left) k bitmap block same =
    let here = same k (omega arith) (omega arith) in
    let rest =
      bitmap_rows-rows_of left (k + 1) bitmap block
        (λ i from upto. same i (omega arith) (omega arith)) in
    rw (here, bits-byte_bits (block k), rest) refl

module _ (h : Headers) (host : Host) (image : Image) where
  abbrev pub super_of : Memory
  super_of = read_at image base_offset h.sizeof_super_block host.super

  abbrev pub size_of : ℕ
  size_of = block_size_of (h.s_log_block_size super_of)

  abbrev pub group_of : Memory
  group_of = read_at image size_of h.sizeof_group_desc host.group

  -- The block in front of block b, which the descriptor names, starts below 4 GiB.
  abbrev pub IsBehindFirst : ℕ → Type 0
  IsBehindFirst b = (0 < b) × (b < 2 ^ 32) × ((b - 1) * size_of < 2 ^ 32)

  -- The device opens and has the magic number, blocks have ten bytes, and the device has those of
  -- the block in front of the bitmap.
  pub record IsShown : Type 0 where
    pub opened : host.device ≡ some image
    pub magic : h.s_magic super_of ≡ ext4_super_magic
    pub bitmap : IsBehindFirst (h.bg_block_bitmap group_of)
    pub table : IsBehindFirst (h.bg_inode_table group_of)
    pub ten : 10 ≤ size_of
    pub held : (h.bg_block_bitmap group_of - 1) * size_of + 10 ≤ image.size

  -- The lines of the bitmap, and the ones behind them for an inode.
  abbrev pub early_bitmap : List Shown
  early_bitmap =
      bitmap_title ∷ rows_of 10 0 (block_of image size_of (h.bg_block_bitmap group_of - 1))

  abbrev pub early_inode : Memory → List Shown
  early_inode old =
      inode_shown h (read_at image ((h.bg_inode_table group_of - 1) * size_of) 256 old)
      ∷ group_shown h group_of
      ∷ []

  abbrev pub early_ending : Option Memory → Ending
  early_ending none = crashes (early_bitmap ++ inode_title ∷ [])
  early_ending (some old) = exits 0 (early_bitmap ++ inode_title ∷ early_inode old)

  IsBehindFirst-block_offset :
      (b : ℕ) → IsBehindFirst b → block_offset size_of b ≡ (b - 1) * size_of
  IsBehindFirst-block_offset b (pos, small, fits) = block_offset_lem size_of b pos small fits

  bitmap_shown :
      IsShown
      → bitmap_rows 10 0
          (read_at image (block_offset size_of (h.bg_block_bitmap group_of)) size_of host.bitmap)
        ≡ rows_of 10 0 (block_of image size_of (h.bg_block_bitmap group_of - 1))
  bitmap_shown s =
      let start = (h.bg_block_bitmap group_of - 1) * size_of in
      rw (IsBehindFirst-block_offset (h.bg_block_bitmap group_of) s.bitmap) (
        bitmap_rows-rows_of 10 0 (read_at image start size_of host.bitmap) _ (λ k from upto.
          read_at_inside image start size_of host.bitmap k (omega (arith, s.ten))
            (omega (arith, s.held))))

  show_inode-early :
      IsShown
      → (o : Option Memory) → show_inode h image size_of group_of early_bitmap o ≡ early_ending o
  unfolding show_inode
  show_inode-early s none = refl
  show_inode-early s (some old) =
      rw (IsBehindFirst-block_offset (h.bg_inode_table group_of) s.table) refl

  main_body-early : IsShown → main_body h host image size_of ≡ early_ending host.test_inode
  unfolding main_body
  main_body-early s =
      ap (λ z. show_inode h image size_of group_of (bitmap_title ∷ z) host.test_inode)
        (bitmap_shown s)
      ∙ show_inode-early s host.test_inode

-- When the device opens and has the magic number, blocks have ten bytes or more, the device holds
-- those in front of the bitmap, and the blocks in front of the bitmap and of the
-- inode table start below 4 GiB, lsfsck.c shows as bitmap the bits of the first ten bytes of the
-- block in front of the bitmap's, each byte from its least bit. Then it is killed, if the pointer
-- test_inode, which is never set, points to nothing that may be written; or else it shows as inode
-- what a read of 256 bytes at the start of the block in front of the inode table gives, and the
-- group descriptor, and exits with status 0.
pub lsfsck_shows_early :
    (h : Headers) (host : Host) (image : Image)
    → IsShown h host image
    → main h host ≡ early_ending h host image host.test_inode
unfolding main
lsfsck_shows_early h host image shown =
    rw
      (
        shown.opened,
        main,
        (==_iff (h.s_magic (super_of h host image)) ext4_super_magic).1 shown.magic,
      )
      (main_body-early h host image shown)
