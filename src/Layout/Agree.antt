-- ===== src/Layout/Agree.antt =====
-- The offsets of the scanners' loads, against the declarations.
use dist_lfsck.Disk.{Memory}
use dist_lfsck.Layout.{
  ext4_inode, ext4_super_block, ext4_group_desc, ext4_dir_entry_2, read_field, sizeof,
}
use dist_lfsck.Layout.Values.{
  ValueFieldsAgree, ValueSizesAgree, value_fields_agree, value_sizes_agree,
}
use dist_lfsck.Older.{inode_info, i_flags, super_info_at, group_info_at}
use dist_lfsck.Prelude.{ℕ, ◌%◌, ◌^◌, ◌/◌, ◌≡◌, refl}
use dist_lfsck.Scan.Directory.{ed_inode, ed_rec_len}
use dist_lfsck.Scan.{i_mode, i_block_first, i_extra_isize}

-- The equations for one of the structures' readers.
abbrev pub InodeFieldsAgree : Memory → Type 0
InodeFieldsAgree m =
    (i_mode m ≡ read_field m ext4_inode "i_mode")
    × (i_block_first m ≡ read_field m ext4_inode "i_block")
    × (i_extra_isize m ≡ read_field m ext4_inode "i_extra_isize")
    × (i_flags m ≡ read_field m ext4_inode "i_flags")
    × (ed_inode m 0 ≡ read_field m ext4_dir_entry_2 "inode")
    × (ed_rec_len m 0 ≡ read_field m ext4_dir_entry_2 "rec_len")

inode_fields_agree : (m : Memory) → InodeFieldsAgree m
inode_fields_agree m = (refl, refl, refl, refl, refl, refl)

-- The equations for one of the structures' readers.
abbrev pub PrintedFieldsAgree : Memory → ℕ → ℕ → Type 0
PrintedFieldsAgree m location j =
    (inode_info m location j ≡ record {
      block_number = location / 4096;
      index = j;
      extra_isize = read_field m ext4_inode "i_extra_isize";
      acl_lo = read_field m ext4_inode "i_file_acl_lo";
      acl_high = read_field m ext4_inode "l_i_file_acl_high";
      uid = read_field m ext4_inode "i_uid";
      blocks_lo = read_field m ext4_inode "i_blocks_lo";
      flags = read_field m ext4_inode "i_flags" % 2 ^ 16;
      mode = read_field m ext4_inode "i_mode";
    })
    × (super_info_at m ≡ record {
      s_reserved_gdt_blocks = read_field m ext4_super_block "s_reserved_gdt_blocks";
      s_blocks_count_lo = read_field m ext4_super_block "s_blocks_count_lo";
      s_free_blocks_count_lo = read_field m ext4_super_block "s_free_blocks_count_lo";
      s_blocks_per_group = read_field m ext4_super_block "s_blocks_per_group";
      s_inodes_count = read_field m ext4_super_block "s_inodes_count";
      s_free_inodes_count = read_field m ext4_super_block "s_free_inodes_count";
      s_inodes_per_group = read_field m ext4_super_block "s_inodes_per_group";
      s_inode_size = read_field m ext4_super_block "s_inode_size";
      s_block_group_nr = read_field m ext4_super_block "s_block_group_nr";
      s_state = read_field m ext4_super_block "s_state";
    })
    × (group_info_at m ≡ record {
      bg_flags = read_field m ext4_group_desc "bg_flags";
      bg_block_bitmap = read_field m ext4_group_desc "bg_block_bitmap";
      bg_inode_bitmap = read_field m ext4_group_desc "bg_inode_bitmap";
      bg_inode_table = read_field m ext4_group_desc "bg_inode_table";
      bg_free_blocks_count = read_field m ext4_group_desc "bg_free_blocks_count";
      bg_free_inodes_count = read_field m ext4_group_desc "bg_free_inodes_count";
      bg_used_dirs_count = read_field m ext4_group_desc "bg_used_dirs_count";
    })

printed_fields_agree : (m : Memory) (location : ℕ) (j : ℕ) → PrintedFieldsAgree m location j
unfolding super_info_at group_info_at
printed_fields_agree m location j = (refl, refl, refl)

-- What the scanners take from an inode and from a directory entry, the information that the older
-- ones print of an inode, of the superblock and of the group descriptor, and what is read of the
-- LMA, the header of the link EA, the two LOV layouts and the filter FID are the fields of these
-- names in the field lists, at the offsets that the rules of C give them.
pub fields_agree :
    (m : Memory) (location j : ℕ)
    → InodeFieldsAgree m × PrintedFieldsAgree m location j × ValueFieldsAgree m × ValueSizesAgree
fields_agree m location j = (
  inode_fields_agree m,
  printed_fields_agree m location j,
  value_fields_agree m,
  value_sizes_agree,
)

super_size : sizeof ext4_super_block ≡ 1024
super_size = refl

group_size : sizeof ext4_group_desc ≡ 64
group_size = refl

inode_size : sizeof ext4_inode ≡ 156
inode_size = refl
