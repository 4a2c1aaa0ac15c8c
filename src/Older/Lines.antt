-- ===== src/Older/Lines.antt =====
-- What the older scanners print: the information of the superblock, the group and an inode, and
-- the lines, by their format strings.
use dist_lfsck.Disk.{Memory, load}
use dist_lfsck.Prelude.{ℕ, Bytes}

-- The fields of the superblock that are printed.
pub record SuperInfo : Type 0 where
  pub s_reserved_gdt_blocks : ℕ
  pub s_blocks_count_lo : ℕ
  pub s_free_blocks_count_lo : ℕ
  pub s_blocks_per_group : ℕ
  pub s_inodes_count : ℕ
  pub s_free_inodes_count : ℕ
  pub s_inodes_per_group : ℕ
  pub s_inode_size : ℕ
  pub s_block_group_nr : ℕ
  pub s_state : ℕ

unfoldable pub super_info_at : Memory → SuperInfo
super_info_at super = record {
  s_reserved_gdt_blocks = load 2 super 206;
  s_blocks_count_lo = load 4 super 4;
  s_free_blocks_count_lo = load 4 super 12;
  s_blocks_per_group = load 4 super 32;
  s_inodes_count = load 4 super 0;
  s_free_inodes_count = load 4 super 16;
  s_inodes_per_group = load 4 super 40;
  s_inode_size = load 2 super 88;
  s_block_group_nr = load 2 super 90;
  s_state = load 2 super 58;
}

-- The fields of the first group descriptor that are used.
pub record GroupInfo : Type 0 where
  pub bg_flags : ℕ
  pub bg_block_bitmap : ℕ
  pub bg_inode_bitmap : ℕ
  pub bg_inode_table : ℕ
  pub bg_free_blocks_count : ℕ
  pub bg_free_inodes_count : ℕ
  pub bg_used_dirs_count : ℕ

unfoldable pub group_info_at : Memory → GroupInfo
group_info_at group = record {
  bg_flags = load 2 group 18;
  bg_block_bitmap = load 4 group 0;
  bg_inode_bitmap = load 4 group 4;
  bg_inode_table = load 4 group 8;
  bg_free_blocks_count = load 2 group 12;
  bg_free_inodes_count = load 2 group 14;
  bg_used_dirs_count = load 2 group 16;
}

-- What is printed of an inode.
pub record InodeInfo : Type 0 where
  pub block_number : ℕ
  pub index : ℕ
  pub extra_isize : ℕ
  pub acl_lo : ℕ
  pub acl_high : ℕ
  pub uid : ℕ
  pub blocks_lo : ℕ
  pub flags : ℕ
  pub mode : ℕ

-- The lines, by their format strings.
pub data Shown : Type 0 where
  open_refused : Shown
  foreign_magic : Shown
  super_information : SuperInfo → Shown
  group_information : GroupInfo → Shown
  block_bitmap_at : ℕ → Shown
  used_blocks : ℕ → Shown
  active_blocks : ℕ → ℕ → Shown
  inode_bitmap_at : ℕ → Shown
  active_inodes : ℕ → Shown
  inode_information : InodeInfo → Shown
  header_matches : Shown
  first_entry_name : ℕ → Bytes → Shown
  names_begin : Shown
  name_of_entry : Bytes → Shown
  lov_exists : Shown
  names_completed : Shown
  value_of_entry : ℕ → Bytes → Shown
  totals : ℕ → ℕ → Shown
