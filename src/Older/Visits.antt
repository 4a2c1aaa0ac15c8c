-- ===== src/Older/Visits.antt =====
-- The inodes that the scans of the older scanners look at: those whose bits are set.
use dist_lfsck.Bitmap.Used.{used_from, at_bit, for_bytes-each}
use dist_lfsck.Disk.{Image, Memory, load, read_at}
use dist_lfsck.Flow.{exit, ◌>>=◌, each}
use dist_lfsck.Older.Counts.{for_bytes-count_block, for_bytes-count_inode_bit}
use dist_lfsck.Older.MdsFinal.{mds_bit, mds_final_body}
use dist_lfsck.Older.OssFinal.{total_block, oss_bit, oss_final_body}
use dist_lfsck.Older.{
  Host, Pass, GroupInfo, show, block_bitmap_at, used_blocks, active_blocks, inode_bitmap_at,
  active_inodes, group_information, super_information, super_info_at, totals, group_info_at,
  shifted_block_size, phases,
}
use dist_lfsck.Prelude.{ℕ, ◌+◌, ◌*◌, ◌≡◌, refl, length, List}
use dist_lfsck.Scan.{block_offset}

-- What the superblock and the first descriptor say.
abbrev pub block_size_at : Memory → ℕ
block_size_at super = shifted_block_size (load 4 super 24)

abbrev pub group_at : Host → Image → Memory → GroupInfo
group_at host image super =
    group_info_at (read_at image (block_offset (block_size_at super) 1) 64 host.group)

-- The set bits of the bitmap in this block, read over what `buf` held.
abbrev pub bits_at : Image → Memory → ℕ → Memory → ℕ → List ℕ
bits_at image super block buf bytes =
    used_from (read_at image (block * block_size_at super) (block_size_at super) buf) (8 * bytes) 0

-- The counts of `main` of mds_final.c, and its scan over the set bits.
abbrev pub MdsVisits : Host → Image → Memory → Pass → Type 0
MdsVisits host image super s =
    (t : Pass) × (t.block_bitmap_count
      ≡ s.block_bitmap_count
        + length (
            bits_at image super (group_at host image super).bg_block_bitmap host.block_bitmap 1600))
    × (t.inode_bitmap_count
        ≡ s.inode_bitmap_count
          + length (
              bits_at image super (group_at host image super).bg_inode_bitmap host.inode_bitmap
                2560))
    × (t.inode_count ≡ s.inode_count)
    × (t.int_count ≡ s.int_count)
    × (mds_final_body host image super s ≡ (
        each
          (at_bit
            (mds_bit host image (block_size_at super) (group_at host image super).bg_inode_table))
          (bits_at image super (group_at host image super).bg_inode_bitmap host.scan_bitmap 2560) t
        >>= λ u. exit (show (totals u.int_count u.inode_bitmap_count) u) 0))

-- Behind the check of the magic number, `main` of mds_final.c counts the set bits of the first 1600
-- bytes of the block bitmap and of the first 2560 bytes of the inode bitmap. Then it runs the body of
-- its scan once for each set bit of the inode bitmap in that range, in ascending order, and exits
-- with status 0 if no round returns -EIO.
pub mds_final_body_visits :
    (host : Host) (image : Image) (super : Memory) (s : Pass) → MdsVisits host image super s
unfolding mds_final_body phases
mds_final_body_visits host image super s =
    let group = group_at host image super in
    let told =
      show (block_bitmap_at group.bg_block_bitmap)
        (show (group_information group) (show (super_information (super_info_at super)) s)) in
    let blocks = length (bits_at image super group.bg_block_bitmap host.block_bitmap 1600) in
    let a = record told { block_bitmap_count = s.block_bitmap_count + blocks } in
    let listed =
      show (inode_bitmap_at group.bg_inode_bitmap) (show (used_blocks a.block_bitmap_count) a) in
    let inodes = length (bits_at image super group.bg_inode_bitmap host.inode_bitmap 2560) in
    let b = record listed { inode_bitmap_count = s.inode_bitmap_count + inodes } in
    (
      show (active_inodes b.inode_bitmap_count) b,
      refl,
      refl,
      refl,
      refl,
      rw (for_bytes-count_block, for_bytes-count_inode_bit, for_bytes-each),
    )

-- The counts of `main` of oss_final.c, and its scan over the set bits.
abbrev pub OssVisits : Host → Image → Memory → Pass → Type 0
OssVisits host image super s =
    (t : Pass) × (t.block_bitmap_count
      ≡ s.block_bitmap_count
        + length (
            bits_at image super (group_at host image super).bg_block_bitmap host.block_bitmap 3200))
    × (t.inode_bitmap_count
        ≡ s.inode_bitmap_count
          + length (
              bits_at image super (group_at host image super).bg_inode_bitmap host.inode_bitmap
                3200))
    × (t.inode_count ≡ s.inode_count)
    × (t.int_count ≡ s.int_count)
    × (oss_final_body host image super s ≡ (
        each
          (at_bit
            (oss_bit host image (block_size_at super) (group_at host image super).bg_inode_table))
          (bits_at image super (group_at host image super).bg_inode_bitmap host.scan_bitmap 3200) t
        >>= λ u. exit (show (totals u.int_count u.inode_count) u) 0))

-- Behind the check of the magic number, `main` of oss_final.c counts the set bits of the first 3200
-- bytes of the block bitmap and of the first 3200 bytes of the inode bitmap. Then it runs the body of
-- its scan once for each set bit of the inode bitmap in that range, in ascending order, and exits
-- with status 0 if no round returns -EIO.
pub oss_final_body_visits :
    (host : Host) (image : Image) (super : Memory) (s : Pass) → OssVisits host image super s
unfolding oss_final_body phases
oss_final_body_visits host image super s =
    let group = group_at host image super in
    let told =
      show (block_bitmap_at group.bg_block_bitmap)
        (show (group_information group) (show (super_information (super_info_at super)) s)) in
    let blocks = length (bits_at image super group.bg_block_bitmap host.block_bitmap 3200) in
    let a = record told { block_bitmap_count = s.block_bitmap_count + blocks } in
    let listed = show (inode_bitmap_at group.bg_inode_bitmap) (
      show (active_blocks a.block_bitmap_count total_block)
        (show (used_blocks a.block_bitmap_count) a)) in
    let inodes = length (bits_at image super group.bg_inode_bitmap host.inode_bitmap 3200) in
    let b = record listed { inode_bitmap_count = s.inode_bitmap_count + inodes } in
    (
      show (active_inodes b.inode_bitmap_count) b,
      refl,
      refl,
      refl,
      refl,
      rw (for_bytes-count_block, for_bytes-count_inode_bit, for_bytes-each),
    )
