-- ===== src/Checker/Lines.antt =====
-- What ext4_checker.c prints: an entry's fields, an inode's, and the lines by their format strings.
use dist_lfsck.Disk.{Memory, load}
use dist_lfsck.Older.{SuperInfo, GroupInfo}
use dist_lfsck.Prelude.{ℕ, List, Bytes}

-- The fixed part of an attribute's entry, `struct ext4_xattr_entry`.
pub record EntryInfo : Type 0 where
  pub e_name_len : ℕ
  pub e_name_index : ℕ
  pub e_value_offs : ℕ
  pub e_value_block : ℕ
  pub e_value_size : ℕ
  pub e_hash : ℕ

unfoldable pub entry_info_at : Memory → EntryInfo
entry_info_at m = record {
  e_name_len = m 0;
  e_name_index = m 1;
  e_value_offs = load 2 m 2;
  e_value_block = load 4 m 4;
  e_value_size = load 4 m 8;
  e_hash = load 4 m 12;
}

-- What is printed of an inode whose size is not zero.
pub record InodeSeen : Type 0 where
  pub extra_isize : ℕ
  pub acl_lo : ℕ
  pub acl_high : ℕ
  pub block_number : ℕ
  pub index : ℕ
  pub size_lo : ℕ
  pub uid : ℕ
  pub blocks_lo : ℕ
  pub flags : ℕ
  pub mode : ℕ

-- The lines, by their format strings.
pub data Told : Type 0 where
  not_opened : Told
  no_ext4 : Told
  flex_group_size : ℕ → Told
  super_told : SuperInfo → Told
  group_told : GroupInfo → Told
  flex_number : ℕ → Told
  bitmap_range : ℕ → ℕ → Told
  bitmap_address : ℕ → Told
  block_bitmap_title : Told
  inode_bitmap_title : Told
  bitmap_row : List ℕ → Told
  inode_told : InodeSeen → Told
  internal_header : ℕ → ℕ → Told
  external_header : ℕ → ℕ → ℕ → ℕ → ℕ → Told
  first_attribute : EntryInfo → Bytes → Told
  further_attribute : ℕ → ℕ → EntryInfo → Bytes → Told
  attribute_counts : ℕ → ℕ → Told
  inodes_counted : ℕ → Told
