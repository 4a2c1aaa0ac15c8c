-- ===== src/Checker.antt =====
-- The first scanner, `main` of ext4_checker/ext4_checker.c, which prints the inodes of the first
-- group with up to three internal and ten external attributes each.
pub mod Areas
mod Attrs
pub mod Within
pub mod Bounds
pub mod Entries
pub mod Index
mod Lines
pub mod Parts
pub mod Quiet
unfoldable pub use Lines.*
unfoldable pub use Attrs.*
use dist_lfsck.Disk.{Image, Memory, load, read_at}
use dist_lfsck.Flow.{Flow, exit}
use dist_lfsck.Older.{SuperInfo, super_info_at, GroupInfo, group_info_at, shifted_block_size}
use dist_lfsck.Prelude.{
  ltb, ℕ, zero, suc, ◌+◌, ◌-◌, ◌*◌, ◌/◌, ◌%◌, ◌^◌, true, false, Option, none, some, List, [], ◌∷◌,
  ◌++◌, Bytes, ◌==◌, if◌then◌else◌,
}
use dist_lfsck.Scan.{base_offset, block_offset, ext4_super_magic, attr_magic, i_mode, i_extra_isize}

-- The locals of `main` that its loop over the inodes changes.
pub record Check : Type 0 where
  pub test_inode : Memory
  pub test_iextd : Memory
  pub test_extd : Memory
  pub test_ientry : Memory
  pub inode_count : ℕ
  pub int_count : ℕ
  pub ext_count : ℕ
  pub prev_ind : ℕ
  pub prev_ind_ext : ℕ
  pub lines : List Told

abbrev pub tell : Told → Check → Check
tell l s = record s { lines = s.lines ++ l ∷ [] }

-- The locals as the loops over internal and over external attributes see them, and back.
abbrev pub internal_cursor : Check → Cursor
internal_cursor s = record {
  ientry = s.test_ientry;
  prev_ind = s.prev_ind;
  count = s.int_count;
  told = s.lines;
}

abbrev pub after_internal : Check → Cursor → Check
after_internal s c = record s {
  test_ientry = c.ientry;
  prev_ind = c.prev_ind;
  int_count = c.count;
  lines = c.told;
}

abbrev pub external_cursor : Check → Cursor
external_cursor s = record {
  ientry = s.test_ientry;
  prev_ind = s.prev_ind_ext;
  count = s.ext_count;
  told = s.lines;
}

abbrev pub after_external : Check → Cursor → Check
after_external s c = record s {
  test_ientry = c.ientry;
  prev_ind_ext = c.prev_ind;
  ext_count = c.count;
  lines = c.told;
}

-- An inode's place in the table, plus `extra` bytes, in unsigned int.
abbrev pub table_location : ℕ → ℕ → ℕ → ℕ → ℕ
table_location block_size inode_table inode_index extra =
    (block_offset block_size inode_table + ((inode_index - 1) * 256 + extra)) % 2 ^ 32

abbrev pub inode_seen : Memory → ℕ → ℕ → InodeSeen
inode_seen m location inode_index = record {
  extra_isize = i_extra_isize m;
  acl_lo = load 4 m 104;
  acl_high = load 2 m 118;
  block_number = location / 4096;
  index = inode_index;
  size_lo = load 4 m 4;
  uid = load 2 m 2;
  blocks_lo = load 4 m 28;
  flags = load 4 m 32 % 2 ^ 16;
  mode = i_mode m;
}

-- The internal attributes: the header behind the inode's extra fields, and three entries.
unfoldable pub internal_part : Image → ℕ → ℕ → ℕ → Check → Check
unfolding show_all
internal_part image block_size inode_table inode_index s =
    let head =
      table_location block_size inode_table inode_index (128 + i_extra_isize s.test_inode) in
    let t = record s { test_iextd = read_at image head 4 s.test_iextd } in
    let attr_location = head + 4 in
    if load 4 t.test_iextd 0 == attr_magic
    then (let found =
          tell (internal_header attr_magic inode_index)
            (record t { int_count = t.int_count + 1 }) in
        after_internal found
          (show_all image attr_location (λ offs. attr_location + offs) 2 (internal_cursor found)))
    else t

-- The external attributes: the block that the inode names, and ten entries. The magic number that
-- is printed is the internal header's.
unfoldable pub external_part : Image → ℕ → ℕ → Check → Check
external_part image block_size inode_index s =
    let block = block_offset block_size (load 4 s.test_inode 104) in
    let t = record s { test_extd = read_at image block 32 s.test_extd } in
    let h = t.test_extd in
    if load 4 h 0 == attr_magic
    then (let header =
          external_header (load 4 t.test_iextd 0) inode_index (load 4 h 8) (load 4 h 4)
            (load 4 h 12) in
        let found = tell header (record t { ext_count = t.ext_count + 1 }) in
        after_external found
          (show_all image (block + 32) (λ offs. (block + offs) % 2 ^ 32) 9 (external_cursor found)))
    else t

-- The body of the loop over the inodes.
unfoldable pub check_inode : Image → ℕ → ℕ → ℕ → Check → Check
unfolding internal_part external_part
check_inode image block_size inode_table inode_index s =
    let location = table_location block_size inode_table inode_index 0 in
    let m = read_at image location 256 s.test_inode in
    let t = record s { test_inode = m } in
    let seen =
      if load 4 m 4 == 0
      then t
      else tell (inode_told (inode_seen m location inode_index))
          (record t { inode_count = t.inode_count + 1 }) in
    external_part image block_size inode_index
      (internal_part image block_size inode_table inode_index seen)

-- `for (inode_index = 1; inode_index <= 32768; inode_index++)`, with `left` rounds to go.
unfoldable pub check_inodes : Image → ℕ → ℕ → ℕ → ℕ → Check → Check
unfolding check_inode
check_inodes image block_size inode_table zero inode_index s = s
check_inodes image block_size inode_table (suc left) inode_index s =
    check_inodes image block_size inode_table left (inode_index + 1)
      (check_inode image block_size inode_table inode_index s)

-- One row of eight bits, and the first ten rows of a bitmap, with `left` to go.
abbrev pub bits_of : ℕ → ℕ → ℕ → List ℕ
bits_of zero j byte = []
bits_of (suc left) j byte = byte / 2 ^ j % 2 ∷ bits_of left (j + 1) byte

unfoldable pub bitmap_rows : ℕ → ℕ → Memory → Check → Check
bitmap_rows zero i bitmap s = s
bitmap_rows (suc left) i bitmap s =
    bitmap_rows left (i + 1) bitmap (tell (bitmap_row (bits_of 8 0 (bitmap i))) s)

-- `for (int a = first; a <= last; a++)`, with `left` bitmaps to go; each has its own buffer.
unfoldable pub bitmaps : Told → Image → (ℕ → Memory) → ℕ → ℕ → ℕ → Check → Check
unfolding bitmap_rows
bitmaps title image buffers block_size zero a s = s
bitmaps title image buffers block_size (suc left) a s =
    bitmaps title image buffers block_size left (a + 1) (
      bitmap_rows 10 0 (read_at image (block_offset block_size a) block_size (buffers a))
        (tell title s))

-- The surroundings of `main`: the device, and what its buffers hold before they are read.
pub record Bench : Type 0 where
  pub device : Option Image
  pub super : Memory
  pub group : Memory
  pub block_buffers : ℕ → Memory
  pub inode_buffers : ℕ → Memory
  pub test_inode : Memory
  pub test_iextd : Memory
  pub test_extd : Memory
  pub test_ientry : Memory

abbrev pub check_start : Bench → Check
check_start bench = record {
  test_inode = bench.test_inode;
  test_iextd = bench.test_iextd;
  test_extd = bench.test_extd;
  test_ientry = bench.test_ientry;
  inode_count = 0;
  int_count = 0;
  ext_count = 0;
  prev_ind = 0;
  prev_ind_ext = 0;
  lines = [];
}

-- The bitmaps that the loop comes to: a first block number from 2 ^ 31 on is negative as `int a`,
-- and large again when it is compared with the uint64_t `last_bitmap`.
abbrev bitmap_rounds : ℕ → ℕ → ℕ
bitmap_rounds first flex_bg = if ltb first (2 ^ 31) then flex_bg else 0

-- `main` behind the check of the magic number; the size of a flex group is `(int)pow(2, ...)`.
unfoldable pub checker_body : Bench → Image → Memory → Check → Flow Check
unfolding check_inodes bitmaps
checker_body bench image super s =
    let block_size = shifted_block_size (load 4 super 24) in
    let flex_bg = 2 ^ (super 372) in
    let group = group_info_at (read_at image (block_offset block_size 1) 64 bench.group) in
    let blocks = group.bg_block_bitmap in
    let inodes = group.bg_inode_bitmap in
    let informed = tell (flex_number (flex_bg * load 4 super 32 % 2 ^ 32)) (
      tell (group_told group)
        (tell (super_told (super_info_at super)) (tell (flex_group_size flex_bg) s))) in
    let dumped =
      bitmaps block_bitmap_title image bench.block_buffers block_size (bitmap_rounds blocks flex_bg)
        blocks
        (tell (bitmap_address (blocks * block_size))
          (tell (bitmap_range blocks (blocks + flex_bg - 1)) informed)) in
    let dumped_twice =
      bitmaps inode_bitmap_title image bench.inode_buffers block_size (bitmap_rounds inodes flex_bg)
        inodes (tell (bitmap_range inodes (inodes + flex_bg - 1)) dumped) in
    let checked = check_inodes image block_size group.bg_inode_table 32768 1 dumped_twice in
    exit
      (tell (inodes_counted checked.inode_count)
        (tell (attribute_counts checked.int_count checked.ext_count) checked))
      0

unfoldable pub checker_main : Bench → Flow Check
unfolding checker_body
checker_main bench =
    let s = check_start bench in
    elim bench.device [
      | none ↦ exit (tell not_opened s) 1
      | some image ↦
          let super = read_at image base_offset 1024 bench.super in
          if load 2 super 56 == ext4_super_magic
          then checker_body bench image super s
          else exit (tell no_ext4 s) 1
    ]
