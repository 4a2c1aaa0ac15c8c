-- ===== src/Older/OssFinal.antt =====
-- `main` of oss_final.c: the first group, of inodes of 512 bytes.
use dist_lfsck.Bitmap.{for_bytes}
use dist_lfsck.Disk.{Image, Memory, load, read_at}
use dist_lfsck.Flow.{Flow, next}
use dist_lfsck.Older.{
  Host, Pass, phases, show, super_information, group_information, block_bitmap_at, used_blocks,
  active_blocks, inode_bitmap_at, active_inodes, inode_information, name_of_entry, totals,
  count_block, count_inode_bit, older_main, super_info_at, group_info_at, shifted_block_size,
  end_of_attrs, bit_location, inode_info, is_filled, shown_name, advance, show_attrs, has_header,
}
use dist_lfsck.Prelude.{ℕ, ◌+◌, ◌*◌, if◌then◌else◌}
use dist_lfsck.Scan.{block_offset}

abbrev pub oss_inode_size_value : ℕ
oss_inode_size_value = 512

-- The constant `total_block`, which is printed as the number of blocks of the group.
abbrev pub total_block : ℕ
total_block = 25600

-- The name loop's body.
unfoldable pub oss_name : Memory → ℕ → ℕ → Pass → Flow Pass
oss_name m limit p s = advance m limit p (show (name_of_entry (shown_name m p)) s)

-- The body of the loop over the bits of the inode bitmap. The information is printed for a filled
-- inode, and the attributes are looked at whether it is filled or not.
unfoldable pub oss_bit : Host → Image → ℕ → ℕ → ℕ → ℕ → Pass → Flow Pass
unfolding oss_name show_attrs bit_location
oss_bit host image block_size base i j s =
    let location = bit_location block_size base oss_inode_size_value i j in
    let m = read_at image location oss_inode_size_value s.test_inode in
    let t = record s { test_inode = m; inode_count = s.inode_count + 1 } in
    let info = if is_filled m then show (inode_information (inode_info m location j)) t else t in
    if has_header m
    then show_attrs (oss_name m) host image (end_of_attrs oss_inode_size_value) m info
    else next info

-- The superblock's information, the group's, the counts of both bitmaps, and the scan of the
-- inodes whose bits are set.
unfoldable pub oss_final_body : Host → Image → Memory → Pass → Flow Pass
oss_final_body host image super s =
    let block_size = shifted_block_size (load 4 super 24) in
    let group = group_info_at (read_at image (block_offset block_size 1) 64 host.group) in
    let bitmap_at =
      λ (block : ℕ) (buf : Memory). read_at image (block * block_size) block_size buf in
    let told = show (group_information group) (show (super_information (super_info_at super)) s) in
    phases
      (for_bytes count_block 3200 0 (bitmap_at group.bg_block_bitmap host.block_bitmap)
        (show (block_bitmap_at group.bg_block_bitmap) told))
      (λ t. for_bytes count_inode_bit 3200 0 (bitmap_at group.bg_inode_bitmap host.inode_bitmap) (
        show (inode_bitmap_at group.bg_inode_bitmap) (
          show (active_blocks t.block_bitmap_count total_block)
            (show (used_blocks t.block_bitmap_count) t))))
      (λ t.
        for_bytes (oss_bit host image block_size group.bg_inode_table) 3200 0
          (bitmap_at group.bg_inode_bitmap host.scan_bitmap)
          (show (active_inodes t.inode_bitmap_count) t))
      (λ t. (show (totals t.int_count t.inode_count) t))

unfoldable pub oss_final_main : Host → Flow Pass
unfolding older_main oss_final_body
oss_final_main host = older_main (oss_final_body host) host
