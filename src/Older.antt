-- ===== src/Older.antt =====
-- The older scanners, mds_final.c and oss_final.c of `intergrate/integrate apr 2021/`: what they
-- print, their state, and the steps that both take. They only print; nothing is sent.
pub mod Counts
pub mod Entries
mod Lines
pub mod Location
pub mod EarlyFinal
pub mod MdsFinal
pub mod OssFinal
pub mod Visits
unfoldable pub use Lines.*
use dist_lfsck.Disk.{Image, Memory, load, read_at}
use dist_lfsck.Flow.{Flow, next, exit, ◌>>=◌}
use dist_lfsck.Prelude.{
  ℕ, ◌+◌, ◌-◌, ◌*◌, ◌/◌, ◌%◌, ◌^◌, Bool, not, ◌&&◌, ◌||◌, Option, none, some, List, [], ◌∷◌, ◌++◌,
  Bytes, ltb, leb, ◌==◌, if◌then◌else◌,
}
use dist_lfsck.Scan.{base_offset, ext4_super_magic, attr_magic, block_offset, i_mode, i_extra_isize}
use dist_lfsck.Xattr.{entry_at, read_bytes, xattr_next, walk}

-- The program's surroundings: the device, what the buffers hold before they are read, the address
-- of `test_inode` in memory, and the tests granted to the loops over the entries.
pub record Host : Type 0 where
  pub device : Option Image
  pub super : Memory
  pub group : Memory
  pub block_bitmap : Memory
  pub inode_bitmap : Memory
  pub scan_bitmap : Memory
  pub first_inode : Memory
  pub value : ℕ → Memory
  pub address : ℕ
  pub fuel : ℕ

-- The locals that the scan changes; `e` is the entry that the name loop stands at, as an offset
-- in `test_inode`.
pub record Pass : Type 0 where
  pub test_inode : Memory
  pub block_bitmap_count : ℕ
  pub inode_bitmap_count : ℕ
  pub int_count : ℕ
  pub inode_count : ℕ
  pub e : ℕ
  pub shown : List Shown

abbrev pub show : Shown → Pass → Pass
show l s = record s { shown = s.shown ++ l ∷ [] }

-- The bodies of the loops that count.
abbrev pub count_block : ℕ → ℕ → Pass → Flow Pass
count_block i j s = next (record s { block_bitmap_count = s.block_bitmap_count + 1 })

abbrev pub count_inode_bit : ℕ → ℕ → Pass → Flow Pass
count_inode_bit i j s = next (record s { inode_bitmap_count = s.inode_bitmap_count + 1 })

-- The status of `return -EIO`, as the shell sees it.
abbrev pub minus_eio : ℕ
minus_eio = 256 - 5

-- `1024 << super.s_log_block_size`.
abbrev pub shifted_block_size : ℕ → ℕ
shifted_block_size log = 1024 * 2 ^ log % 2 ^ 32

-- IHDR of these scanners, which takes 32 extra bytes for granted, and IFIRST of it.
abbrev pub ihdr_32 : ℕ
ihdr_32 = 128 + 32

abbrev pub ifirst_32 : ℕ
ifirst_32 = ihdr_32 + 4

-- `end = &test_inode + inode_size_value`, in units of the 156 bytes of `struct inode`.
abbrev pub end_of_attrs : ℕ → ℕ
end_of_attrs inode_size_value = 156 * inode_size_value

-- BLOCK_OFFSET of the table's block `i`, and the inode of index `j` in it, in unsigned int.
unfoldable pub bit_location : ℕ → ℕ → ℕ → ℕ → ℕ → ℕ
bit_location block_size base inode_size_value i j =
    (block_offset block_size (base + i) + j * inode_size_value) % 2 ^ 32

abbrev pub i_flags : Memory → ℕ
i_flags m = load 4 m 32

abbrev pub inode_info : Memory → ℕ → ℕ → InodeInfo
inode_info m location j = record {
  block_number = location / 4096;
  index = j;
  extra_isize = i_extra_isize m;
  acl_lo = load 4 m 104;
  acl_high = load 2 m 118;
  uid = load 2 m 2;
  blocks_lo = load 4 m 28;
  flags = i_flags m % 2 ^ 16;
  mode = i_mode m;
}

-- `test_inode.i_mode != 0 || test_inode.i_flags != 0`.
abbrev pub is_filled : Memory → Bool
is_filled m = not (i_mode m == 0) || not (i_flags m == 0)

-- `for (name_itr = 0; name_itr <= e_name_len; name_itr++)`: one byte more than the name has.
abbrev pub shown_name : Memory → ℕ → Bytes
shown_name m p = read_bytes (m p + 1) m (p + 16)

-- The name loop's step to the next entry, which must start before `end`.
abbrev pub advance : Memory → ℕ → ℕ → Pass → Flow Pass
advance m limit p s =
    if leb limit (xattr_next m p) then exit s minus_eio else next (record s { e = xattr_next m p })

-- The test before a value is read, with `e` at the terminator of the entries.
abbrev pub is_misplaced : Memory → ℕ → ℕ → ℕ → Bool
is_misplaced m limit e p =
    let x = entry_at m p in
    let start = ifirst_32 + x.e_value_offs in
    not (x.e_value_size == 0)
    && ((x.e_value_block == 0) && (ltb start (e + 4) || ltb limit (start + x.e_value_size)))

-- `lseek(fd, value_start + entry->e_value_offs, SEEK_SET); read(fd, value, ...)`: the place on the
-- device is taken from the address of the entry in memory.
unfoldable pub value_read : Host → Image → Memory → ℕ → Memory
value_read host image m p =
    let x = entry_at m p in
    read_at image (host.address + ifirst_32 + x.e_value_offs) x.e_value_size
      (λ k. if ltb k ((x.e_value_size + 1) % 2 ^ 32) then 0 else host.value p k)

-- One round of the loop over the values.
unfoldable pub value_step : Host → Image → Memory → ℕ → ℕ → Pass → Flow Pass
unfolding value_read
value_step host image m limit p s =
    let size = (entry_at m p).e_value_size in
    if is_misplaced m limit s.e p
    then exit s minus_eio
    else next (show (value_of_entry size (read_bytes size (value_read host image m p) 0)) s)

-- The lines before the loop over the names: the header, and the first entry's name.
abbrev pub begin_attrs : Memory → Pass → Pass
begin_attrs m s =
    let found = record (show header_matches s) { int_count = s.int_count + 1; e = ifirst_32 } in
    show names_begin (show (first_entry_name (m ifirst_32) (shown_name m ifirst_32)) found)

-- The attributes of an inode whose header has the magic number: the first name, all names by the
-- loop with this body, and all values.
unfoldable pub show_attrs :
    (ℕ → ℕ → Pass → Flow Pass) → Host → Image → ℕ → Memory → Pass → Flow Pass
unfolding value_step
show_attrs name_step host image limit m s =
    walk host.fuel m (name_step limit) ifirst_32 (begin_attrs m s) >>= λ t.
    walk host.fuel m (value_step host image m limit) ifirst_32 (show names_completed t)

-- The locals of `main` before the scan.
abbrev pub fresh : Memory → Pass
fresh first_inode = record {
  test_inode = first_inode;
  block_bitmap_count = 0;
  inode_bitmap_count = 0;
  int_count = 0;
  inode_count = 0;
  e = ifirst_32;
  shown = [];
}

-- `if (header->h_magic == ATTR_MAGIC)`.
abbrev pub has_header : Memory → Bool
has_header m = load 4 m ihdr_32 == attr_magic

-- `main` behind the check: the block bitmap, the inode bitmap, the scan, and the exit.
unfoldable pub phases :
    Flow Pass → (Pass → Flow Pass) → (Pass → Flow Pass) → (Pass → Pass) → Flow Pass
phases blocks inodes scan finish = blocks >>= inodes >>= scan >>= λ t. exit (finish t) 0

-- `main` up to the check of the magic number, the same in both; `body` is what follows.
unfoldable pub older_main : (Image → Memory → Pass → Flow Pass) → Host → Flow Pass
older_main body host =
    let s = fresh host.first_inode in
    elim host.device [
      | none ↦ exit (show open_refused s) 1
      | some image ↦
          let super = read_at image base_offset 1024 host.super in
          if load 2 super 56 == ext4_super_magic
          then body image super s
          else exit (show foreign_magic s) 1
    ]
