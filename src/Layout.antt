-- ===== src/Layout.antt =====
-- The structures on the disk, as ext4_checker.h and xattr_sk.h declare them, with the offsets that
-- the rules of C give their fields.
pub mod Agree
pub mod Values
use dist_lfsck.Disk.{Memory, load}
use dist_lfsck.Prelude.{
  ℕ, ◌+◌, ◌-◌, ◌*◌, ◌/◌, Bool, true, false, ◌&&◌, Option, none, some, List, [], ◌∷◌, Bytes, codes,
  ltb, ◌==◌, if◌then◌else◌,
}
use Prim.Native.String.{String}

-- A field: its name, the size of its type, and the length of the array, 1 for a single one.
pub record CField : Type 0 where
  pub name : Bytes
  pub width : ℕ
  pub count : ℕ

abbrev pub one : String → ℕ → CField
one name width = record { name = codes name; width = width; count = 1 }

abbrev pub array : String → ℕ → ℕ → CField
array name width count = record { name = codes name; width = width; count = count }

-- The next multiple of the type's size.
abbrev pub aligned : ℕ → ℕ → ℕ
aligned width o = (o + width - 1) / width * width

abbrev pub same_text : Bytes → Bytes → Bool
same_text [] [] = true
same_text (x ∷ xs) (y ∷ ys) = x == y && same_text xs ys
same_text _ _ = false

-- The place and the size of the field of this name, in a structure whose fields start at `o`.
abbrev pub place : ℕ → List CField → Bytes → Option (ℕ × ℕ)
place o [] name = none
place o (f ∷ fs) name =
    if same_text f.name name
    then some (aligned f.width o, f.width)
    else place (aligned f.width o + f.width * f.count) fs name

abbrev pub read_field : Memory → List CField → String → ℕ
read_field m fs name = elim (place 0 fs (codes name)) [
  | none ↦ 0
  | some (o, width) ↦ load width m o
]

-- The same in a structure that is packed: no field is aligned.
abbrev pub packed_place : ℕ → List CField → Bytes → Option (ℕ × ℕ)
packed_place o [] name = none
packed_place o (f ∷ fs) name =
    if same_text f.name name
    then some (o, f.width)
    else packed_place (o + f.width * f.count) fs name

abbrev pub read_packed : Memory → List CField → String → ℕ
read_packed m fs name = elim (packed_place 0 fs (codes name)) [
  | none ↦ 0
  | some (o, width) ↦ load width m o
]

abbrev pub packed_sizeof : List CField → ℕ
packed_sizeof [] = 0
packed_sizeof (f ∷ fs) = f.width * f.count + packed_sizeof fs

-- The end of the last field, and the largest size of a type, which the whole is rounded up to.
abbrev pub end_of_fields : ℕ → List CField → ℕ
end_of_fields o [] = o
end_of_fields o (f ∷ fs) = end_of_fields (aligned f.width o + f.width * f.count) fs

abbrev pub widest : ℕ → List CField → ℕ
widest w [] = w
widest w (f ∷ fs) = widest (if ltb w f.width then f.width else w) fs

abbrev pub sizeof : List CField → ℕ
sizeof fs = aligned (widest 1 fs) (end_of_fields 0 fs)

-- `struct ext4_inode`, with the members of `linux1` and `linux2` for those of the unions.
abbrev pub ext4_inode : List CField
ext4_inode =
    one "i_mode" 2
    ∷ one "i_uid" 2
    ∷ one "i_size_lo" 4
    ∷ one "i_atime" 4
    ∷ one "i_ctime" 4
    ∷ one "i_mtime" 4
    ∷ one "i_dtime" 4
    ∷ one "i_gid" 2
    ∷ one "i_links_count" 2
    ∷ one "i_blocks_lo" 4
    ∷ one "i_flags" 4
    ∷ one "l_i_version" 4
    ∷ array "i_block" 4 15
    ∷ one "i_generation" 4
    ∷ one "i_file_acl_lo" 4
    ∷ one "i_size_high" 4
    ∷ one "i_obso_faddr" 4
    ∷ one "l_i_blocks_high" 2
    ∷ one "l_i_file_acl_high" 2
    ∷ one "l_i_uid_high" 2
    ∷ one "l_i_gid_high" 2
    ∷ one "l_i_checksum_lo" 2
    ∷ one "l_i_reserved" 2
    ∷ one "i_extra_isize" 2
    ∷ one "i_checksum_hi" 2
    ∷ one "i_ctime_extra" 4
    ∷ one "i_mtime_extra" 4
    ∷ one "i_atime_extra" 4
    ∷ one "i_crtime" 4
    ∷ one "i_crtime_extra" 4
    ∷ one "i_version_hi" 4
    ∷ []

-- `struct ext4_super_block`.
abbrev pub ext4_super_block : List CField
ext4_super_block =
    one "s_inodes_count" 4
    ∷ one "s_blocks_count_lo" 4
    ∷ one "s_r_blocks_count_lo" 4
    ∷ one "s_free_blocks_count_lo" 4
    ∷ one "s_free_inodes_count" 4
    ∷ one "s_first_data_block" 4
    ∷ one "s_log_block_size" 4
    ∷ one "s_log_cluster_size" 4
    ∷ one "s_blocks_per_group" 4
    ∷ one "s_clusters_per_group" 4
    ∷ one "s_inodes_per_group" 4
    ∷ one "s_mtime" 4
    ∷ one "s_wtime" 4
    ∷ one "s_mnt_count" 2
    ∷ one "s_max_mnt_count" 2
    ∷ one "s_magic" 2
    ∷ one "s_state" 2
    ∷ one "s_errors" 2
    ∷ one "s_minor_rev_level" 2
    ∷ one "s_lastcheck" 4
    ∷ one "s_checkinterval" 4
    ∷ one "s_creator_os" 4
    ∷ one "s_rev_level" 4
    ∷ one "s_def_resuid" 2
    ∷ one "s_def_resgid" 2
    ∷ one "s_first_ino" 4
    ∷ one "s_inode_size" 2
    ∷ one "s_block_group_nr" 2
    ∷ one "s_feature_compat" 4
    ∷ one "s_feature_incompat" 4
    ∷ one "s_feature_ro_compat" 4
    ∷ array "s_uuid" 1 16
    ∷ array "s_volume_name" 1 16
    ∷ array "s_last_mounted" 1 64
    ∷ one "s_algorithm_usage_bitmap" 4
    ∷ one "s_prealloc_blocks" 1
    ∷ one "s_prealloc_dir_blocks" 1
    ∷ one "s_reserved_gdt_blocks" 2
    ∷ array "s_journal_uuid" 1 16
    ∷ one "s_journal_inum" 4
    ∷ one "s_journal_dev" 4
    ∷ one "s_last_orphan" 4
    ∷ array "s_hash_seed" 4 4
    ∷ one "s_def_hash_version" 1
    ∷ one "s_jnl_backup_type" 1
    ∷ one "s_desc_size" 2
    ∷ one "s_default_mount_opts" 4
    ∷ one "s_first_meta_bg" 4
    ∷ one "s_mkfs_time" 4
    ∷ array "s_jnl_blocks" 4 17
    ∷ one "s_blocks_count_hi" 4
    ∷ one "s_r_blocks_count_hi" 4
    ∷ one "s_free_blocks_count_hi" 4
    ∷ one "s_min_extra_isize" 2
    ∷ one "s_want_extra_isize" 2
    ∷ one "s_flags" 4
    ∷ one "s_raid_stride" 2
    ∷ one "s_mmp_update_interval" 2
    ∷ one "s_mmp_block" 8
    ∷ one "s_raid_stripe_width" 4
    ∷ one "s_log_groups_per_flex" 1
    ∷ one "s_checksum_type" 1
    ∷ one "s_reserved_pad" 2
    ∷ one "s_kbytes_written" 8
    ∷ one "s_snapshot_inum" 4
    ∷ one "s_snapshot_id" 4
    ∷ one "s_snapshot_r_blocks_count" 8
    ∷ one "s_snapshot_list" 4
    ∷ one "s_error_count" 4
    ∷ one "s_first_error_time" 4
    ∷ one "s_first_error_ino" 4
    ∷ one "s_first_error_block" 8
    ∷ array "s_first_error_func" 1 32
    ∷ one "s_first_error_line" 4
    ∷ one "s_last_error_time" 4
    ∷ one "s_last_error_ino" 4
    ∷ one "s_last_error_line" 4
    ∷ one "s_last_error_block" 8
    ∷ array "s_last_error_func" 1 32
    ∷ array "s_mount_opts" 1 64
    ∷ one "s_usr_quota_inum" 4
    ∷ one "s_grp_quota_inum" 4
    ∷ one "s_overhead_clusters" 4
    ∷ array "s_reserved" 4 108
    ∷ one "s_checksum" 4
    ∷ []

-- `struct ext4_group_desc`.
abbrev pub ext4_group_desc : List CField
ext4_group_desc =
    one "bg_block_bitmap" 4
    ∷ one "bg_inode_bitmap" 4
    ∷ one "bg_inode_table" 4
    ∷ one "bg_free_blocks_count" 2
    ∷ one "bg_free_inodes_count" 2
    ∷ one "bg_used_dirs_count" 2
    ∷ one "bg_flags" 2
    ∷ one "bg_exclude_bitmap_lo" 4
    ∷ one "bg_block_bitmap_csum_lo" 2
    ∷ one "bg_inode_bitmap_csum_lo" 2
    ∷ one "bg_itable_unused" 2
    ∷ one "bg_checksum" 2
    ∷ one "bg_block_bitmap_hi" 4
    ∷ one "bg_inode_bitmap_hi" 4
    ∷ one "bg_inode_table_hi" 4
    ∷ one "bg_free_blocks_count_hi" 2
    ∷ one "bg_free_inodes_count_hi" 2
    ∷ one "bg_used_dirs_count_hi" 2
    ∷ one "bg_itable_unused_hi" 2
    ∷ one "bg_exclude_bitmap_hi" 4
    ∷ one "bg_block_bitmap_csum_hi" 2
    ∷ one "bg_inode_bitmap_csum_hi" 2
    ∷ one "bg_reserved" 4
    ∷ []

-- `struct ext4_dir_entry_2`.
abbrev pub ext4_dir_entry_2 : List CField
ext4_dir_entry_2 =
    one "inode" 4 ∷ one "rec_len" 2 ∷ one "name_len" 1 ∷ one "file_type" 1 ∷ array "name" 1 255 ∷ []
