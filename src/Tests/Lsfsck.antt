-- ===== src/Tests/Lsfsck.antt =====
-- The first trial on a device of ten blocks, with the headers' fields where ext4 has them.
use dist_lfsck.Disk.{Image, load, read_at, store}
use dist_lfsck.Lsfsck.Early.{early_ending, lsfsck_shows_early}
use dist_lfsck.Lsfsck.{Headers, Host, block_size_of, main}
use dist_lfsck.Prelude.{◌≡◌, refl, some, [], ◌∷◌, ◌++◌, arith}
use dist_lfsck.Tests.Sample.{patched, zeros}

abbrev headers : Headers
headers = record {
  sizeof_super_block = 1024;
  sizeof_group_desc = 32;
  sizeof_inode = 160;
  s_magic = λ m. load 2 m 56;
  s_log_block_size = λ m. load 4 m 24;
  bg_block_bitmap = λ m. load 4 m 0;
  bg_inode_bitmap = λ m. load 4 m 4;
  bg_inode_table = λ m. load 4 m 8;
  bg_free_blocks_count = λ m. load 2 m 12;
  bg_free_inodes_count = λ m. load 2 m 14;
  bg_used_dirs_count = λ m. load 2 m 16;
  i_size = λ m. load 4 m 4;
  i_uid = λ m. load 2 m 2;
  i_mode = λ m. load 2 m 0;
}

-- Blocks of 4096 bytes; the descriptor names the blocks 3, 4 and 5.
abbrev image : Image
unfolding store
image = record {
  size = 40960;
  byte = patched (
      (1048, store 4 2)
      ∷ (1080, store 2 0xEF53)
      ∷ (4096, store 4 3 ++ (store 4 4 ++ store 4 5))
      ∷ (8192, 5 ∷ 255 ∷ [])
      ∷ []);
}

abbrev host : Host
host = record {
  device = some image;
  super = zeros;
  group = zeros;
  bitmap = zeros;
  test_inode = some zeros;
}

lsfsck_shows_early_example : main headers host ≡ early_ending headers host image (some zeros)
unfolding load read_at store block_size_of
lsfsck_shows_early_example = lsfsck_shows_early headers host image (record {
  opened = refl;
  magic = refl;
  bitmap = (omega arith, omega arith, omega arith);
  table = (omega arith, omega arith, omega arith);
  ten = omega arith;
  held = omega arith;
})
