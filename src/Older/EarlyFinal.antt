-- ===== src/Older/EarlyFinal.antt =====
-- `main` of the earlier mds_final.c, under intergrate/scanning codes + libraries/.
pub mod Overrun
use dist_lfsck.Bitmap.{for_bytes}
use dist_lfsck.Disk.{Image, Memory, load, read_at}
use dist_lfsck.Flow.{Flow, next}
use dist_lfsck.Older.MdsFinal.{mds_inode_size_value, file_mode}
use dist_lfsck.Older.{
  Host, Pass, phases, show, super_information, group_information, block_bitmap_at, used_blocks,
  inode_bitmap_at, active_inodes, inode_information, name_of_entry, totals, count_block,
  count_inode_bit, older_main, super_info_at, group_info_at, shifted_block_size, end_of_attrs,
  bit_location, inode_info, is_filled, shown_name, advance, show_attrs, has_header,
}
use dist_lfsck.Prelude.{ℕ, ◌+◌, ◌*◌, not, ◌&&◌, ◌==◌, if◌then◌else◌}
use dist_lfsck.Scan.{block_offset, i_mode}

-- The body of the loop over the names; LOV attributes are not marked yet.
unfoldable pub early_name : Memory → ℕ → ℕ → Pass → Flow Pass
early_name m limit p s = advance m limit p (show (name_of_entry (shown_name m p)) s)

-- The body of the loop over the bits of the inode bitmap.
unfoldable pub early_bit : Host → Image → ℕ → ℕ → ℕ → ℕ → Pass → Flow Pass
unfolding early_name show_attrs bit_location
early_bit host image block_size base i j s =
    let location = bit_location block_size base mds_inode_size_value i j in
    let m = read_at image location mds_inode_size_value s.test_inode in
    let t = record s { test_inode = m } in
    if is_filled m && not (i_mode m == file_mode)
    then (let info = show (inode_information (inode_info m location j)) t in
        if has_header m
        then show_attrs (early_name m) host image (end_of_attrs mds_inode_size_value) m info
        else next info)
    else next t

-- The counts go over 1600 and 2560 bytes of the bitmaps, the scan over 25600.
unfoldable pub early_final_body : Host → Image → Memory → Pass → Flow Pass
early_final_body host image super s =
    let block_size = shifted_block_size (load 4 super 24) in
    let group = group_info_at (read_at image (block_offset block_size 1) 64 host.group) in
    let bitmap_at =
      λ (block : ℕ) (buf : Memory). read_at image (block * block_size) block_size buf in
    let told = show (group_information group) (show (super_information (super_info_at super)) s) in
    phases
      (for_bytes count_block 1600 0 (bitmap_at group.bg_block_bitmap host.block_bitmap)
        (show (block_bitmap_at group.bg_block_bitmap) told))
      (λ t.
        for_bytes count_inode_bit 2560 0 (bitmap_at group.bg_inode_bitmap host.inode_bitmap) (
          show (inode_bitmap_at group.bg_inode_bitmap) (show (used_blocks t.block_bitmap_count) t)))
      (λ t.
        for_bytes (early_bit host image block_size group.bg_inode_table) 25600 0
          (bitmap_at group.bg_inode_bitmap host.scan_bitmap)
          (show (active_inodes t.inode_bitmap_count) t))
      (λ t. (show (totals t.int_count t.inode_bitmap_count) t))

unfoldable pub early_final_main : Host → Flow Pass
unfolding older_main early_final_body
early_final_main host = older_main (early_final_body host) host
