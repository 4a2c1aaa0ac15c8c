-- ===== src/Scan/Start.antt =====
-- The beginning of `main`, which the scanners of new_scan_code share.
use dist_lfsck.Disk.{Image, Memory, load, read_at}
use dist_lfsck.Prelude.{ℕ, []}
use dist_lfsck.Scan.{Machine, Volume, Scan, base_offset, block_offset, block_size_of}

-- The locals before the loop over the inodes.
abbrev pub started : Memory → Scan
started cur_inode = record {
  cur_inode = cur_inode;
  dir_count = 0;
  file_count = 0;
  entry_count = 0;
  events = [];
}

-- The superblock, as it was read.
abbrev pub super_of : Machine → Image → Memory
super_of machine image = read_at image base_offset 1024 machine.uninit.super

abbrev pub s_magic : Machine → Image → ℕ
s_magic machine image = load 2 (super_of machine image) 56

-- The volume that the superblock and the first group descriptor describe.
unfoldable pub volume_of : Machine → Image → Volume
volume_of machine image =
    let super = super_of machine image in
    let block_size = block_size_of (load 4 super 24) in
    let group = read_at image (block_offset block_size 1) 64 machine.uninit.group in
    record {
      image = image;
      block_size = block_size;
      inode_table = load 4 group 8;
      total_inodes = load 4 super 0;
      inode_size = load 2 super 88;
      uninit = machine.uninit;
      stack = machine.stack;
      fuel = machine.fuel;
    }
