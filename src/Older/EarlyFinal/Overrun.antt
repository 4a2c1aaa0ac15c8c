-- ===== src/Older/EarlyFinal/Overrun.antt =====
-- The scan of the earlier mds_final.c, which goes through more bytes than the bitmap has.
use dist_lfsck.Bitmap.{for_bytes}
use dist_lfsck.Bitmap.Used.{used_from, at_bit, for_bytes-each, each-used_from, used_from_cong}
use dist_lfsck.Disk.{Image, Memory, read_at}
use dist_lfsck.Flow.{Flow, exit, ◌>>=◌, each}
use dist_lfsck.Older.Counts.{for_bytes-count_block, for_bytes-count_inode_bit}
use dist_lfsck.Older.EarlyFinal.{early_bit, early_final_body}
use dist_lfsck.Older.Visits.{block_size_at, group_at, bits_at}
use dist_lfsck.Older.{
  Host, Pass, show, block_bitmap_at, used_blocks, inode_bitmap_at, active_inodes, group_information,
  super_information, super_info_at, totals, phases,
}
use dist_lfsck.Prelude.{ℕ, ◌+◌, ◌-◌, ◌*◌, ◌≤◌, ◌≡◌, refl, ap, ◌∙◌, arith, length}

-- A read of n bytes leaves what lies behind them.
read_at-behind :
    (image : Image) (off n : ℕ) (buf : Memory) (k : ℕ) → n ≤ k → read_at image off n buf k ≡ buf k
unfolding read_at
read_at-behind image off n buf k behind = ground arith

-- The loop over 25600 bytes goes over the bits of the buffer and over those behind it.
scan_overruns :
    (body : ℕ → ℕ → Pass → Flow Pass) (bitmap behind : Memory) (size : ℕ) (s : Pass)
    → size ≤ 25600
    → ((k : ℕ) → size ≤ k → bitmap k ≡ behind k)
    → for_bytes body 25600 0 bitmap s ≡ (
        each (at_bit body) (used_from bitmap (8 * size) 0) s
        >>= each (at_bit body) (used_from behind (8 * (25600 - size)) (8 * size)))
scan_overruns body bitmap behind size s small same =
    let whole : 8 * 25600 ≡ 8 * size + 8 * (25600 - size) = omega (arith, small) in
    let split = each-used_from body bitmap (8 * size) (8 * (25600 - size)) 0 s in
    let first : 0 + 8 * size ≡ 8 * size = omega arith in
    for_bytes-each body bitmap 25600 0 s
    ∙ ap (λ n. each (at_bit body) (used_from bitmap n 0) s) whole
    ∙ split
    ∙ ap
        (λ k.
          each (at_bit body) (used_from bitmap (8 * size) 0) s
          >>= each (at_bit body) (used_from bitmap (8 * (25600 - size)) k))
        first
    ∙ ap (λ bits. each (at_bit body) (used_from bitmap (8 * size) 0) s >>= each (at_bit body) bits)
        (used_from_cong bitmap behind (8 * (25600 - size)) (8 * size) size (omega arith) same)

-- The counts of `main`, and its scan: over the set bits of the block that holds the bitmap, and
-- then over those of the memory behind the buffer, up to byte 25600.
abbrev pub EarlyOverruns : Host → Image → Memory → Pass → Type 0
EarlyOverruns host image super s =
    (t : Pass) × (t.inode_bitmap_count
      ≡ s.inode_bitmap_count
        + length (
            bits_at image super (group_at host image super).bg_inode_bitmap host.inode_bitmap 2560))
    × (early_final_body host image super s ≡ (
        each
          (at_bit
            (early_bit host image (block_size_at super) (group_at host image super).bg_inode_table))
          (bits_at image super (group_at host image super).bg_inode_bitmap host.scan_bitmap
            (block_size_at super))
          t
        >>= each
            (at_bit (
              early_bit host image (block_size_at super)
                (group_at host image super).bg_inode_table))
            (used_from host.scan_bitmap (8 * (25600 - block_size_at super))
              (8 * block_size_at super))
        >>= λ u. exit (show (totals u.int_count u.inode_bitmap_count) u) 0))

-- Behind the check of the magic number, with a block of at most 25600 bytes, `main` of the earlier
-- mds_final.c counts the set bits of the first 2560 bytes of the inode bitmap. Then it runs the body
-- of its scan for each set bit of the whole block, in order, and after them for each set bit of the
-- memory that lies behind the buffer, up to byte 25600, whatever it holds; it exits with status 0
-- if no round returns -EIO.
pub early_final_body_overruns :
    (host : Host) (image : Image) (super : Memory) (s : Pass)
    → block_size_at super ≤ 25600
    → EarlyOverruns host image super s
unfolding early_final_body phases
early_final_body_overruns host image super s small =
    let group = group_at host image super in
    let size = block_size_at super in
    let told =
      show (block_bitmap_at group.bg_block_bitmap)
        (show (group_information group) (show (super_information (super_info_at super)) s)) in
    let blocks = length (bits_at image super group.bg_block_bitmap host.block_bitmap 1600) in
    let a = record told { block_bitmap_count = s.block_bitmap_count + blocks } in
    let listed =
      show (inode_bitmap_at group.bg_inode_bitmap) (show (used_blocks a.block_bitmap_count) a) in
    let inodes = length (bits_at image super group.bg_inode_bitmap host.inode_bitmap 2560) in
    let b = record listed { inode_bitmap_count = s.inode_bitmap_count + inodes } in
    let begun = show (active_inodes b.inode_bitmap_count) b in
    let bitmap = read_at image (group.bg_inode_bitmap * size) size host.scan_bitmap in
    (
      begun,
      refl,
      rw (for_bytes-count_block, for_bytes-count_inode_bit)
          (ap (λ m. m >>= λ u. exit (show (totals u.int_count u.inode_bitmap_count) u) 0)
            (scan_overruns (early_bit host image size group.bg_inode_table) bitmap host.scan_bitmap
              size begun small
              (λ k h.
                read_at-behind image (group.bg_inode_bitmap * size) size host.scan_bitmap k h))),
    )
