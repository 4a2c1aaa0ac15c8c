-- ===== src/Scan.antt =====
-- What the two scanners of new_scan_code share: the volume they read, the state of their loops,
-- where an inode and its attributes lie, and the directory block that they list.
pub mod Adds
pub mod Bytes
pub mod Directory
pub mod Location
pub mod Rounds
pub mod Sends
pub mod Start
pub mod Written
pub mod Formatted
pub mod Found
use dist_lfsck.Cypher.{Stmt}
use dist_lfsck.Disk.{Image, Memory, load, read_at}
use dist_lfsck.Prelude.{
  ℕ, ◌+◌, ◌*◌, ◌/◌, ◌%◌, ◌^◌, Bool, Option, List, [], ◌∷◌, ◌++◌, ltb, ◌==◌, if◌then◌else◌,
}
use dist_lfsck.Report.{Line, Event, printed, ran}
use dist_lfsck.Xattr.{XattrEntry}

-- What stands in a buffer before anything is read into it: the locals of `main`, the `malloc` for
-- the directory of an inode, and the array for the value of an entry of an inode.
pub record Uninit : Type 0 where
  pub super : Memory
  pub group : Memory
  pub cur_inode : Memory
  pub block_buf : ℕ → Memory
  pub value : ℕ → ℕ → Memory

-- The world that `main` runs in: the device, if it can be opened, whether the graph database
-- accepts the connection, the bytes that the stack has for the array of a value, and the tests
-- granted to a loop without a bound.
pub record Machine : Type 0 where
  pub device : Option Image
  pub connected : Bool
  pub uninit : Uninit
  pub stack : ℕ
  pub fuel : ℕ

-- The device with what `main` takes from the superblock and the group descriptor.
pub record Volume : Type 0 where
  pub image : Image
  pub block_size : ℕ
  pub inode_table : ℕ
  pub total_inodes : ℕ
  pub inode_size : ℕ
  pub uninit : Uninit
  pub stack : ℕ
  pub fuel : ℕ

-- The locals that the loop over the inodes changes; `entry_count` is `xattr_count` in ost_src.c.
pub record Scan : Type 0 where
  pub cur_inode : Memory
  pub dir_count : ℕ
  pub file_count : ℕ
  pub entry_count : ℕ
  pub events : List Event

abbrev pub print : Line → Scan → Scan
print l s = record s { events = s.events ++ printed l ∷ [] }

-- `sprintf(buffer, ...); results = neo4j_run(...); neo4j_close_results(results);`.
abbrev pub run : Stmt → Scan → Scan
run q s = record s { events = s.events ++ ran q ∷ [] }

abbrev pub ext4_super_magic : ℕ
ext4_super_magic = 0xEF53

abbrev pub attr_magic : ℕ
attr_magic = 0xEA020000

abbrev pub base_offset : ℕ
base_offset = 1024

abbrev pub good_old_inode_size : ℕ
good_old_inode_size = 128

-- BLOCK_OFFSET: a product of unsigned ints.
abbrev pub block_offset : ℕ → ℕ → ℕ
block_offset block_size block = block * block_size % 2 ^ 32

-- `pow(2, 10 + s_log_block_size)`, the sum in 32 bits, stored in an unsigned int.
abbrev pub block_size_of : ℕ → ℕ
block_size_of log = 2 ^ ((10 + log) % 2 ^ 32) % 2 ^ 32

-- `BLOCK_OFFSET(inode_table) + i * inode_size`, in unsigned int before it is widened.
unfoldable pub inode_location : Volume → ℕ → ℕ
inode_location v i = (block_offset v.block_size v.inode_table + i * v.inode_size) % 2 ^ 32

abbrev pub i_mode : Memory → ℕ
i_mode m = load 2 m 0

-- `cur_inode.i_block[0]`.
abbrev pub i_block_first : Memory → ℕ
i_block_first m = load 4 m 40

abbrev pub i_extra_isize : Memory → ℕ
i_extra_isize m = load 2 m 128

-- IHDR(&cur_inode), and IFIRST of it.
abbrev pub ihdr : Memory → ℕ
ihdr m = good_old_inode_size + i_extra_isize m

abbrev pub ifirst : Memory → ℕ
ifirst m = ihdr m + 4

-- S_ISDIR and S_ISREG.
abbrev pub is_dir : ℕ → Bool
is_dir mode = mode / 4096 % 16 == 4

abbrev pub is_reg : ℕ → Bool
is_reg mode = mode / 4096 % 16 == 8

unfoldable pub read_inode : Volume → ℕ → Scan → Scan
read_inode v i s = record s {
  cur_inode = read_at v.image (inode_location v i) v.inode_size s.cur_inode;
}

-- Where the value of an entry lies on the device.
abbrev pub value_location : Volume → ℕ → Memory → XattrEntry → ℕ
value_location v i m x =
    inode_location v i + good_old_inode_size + i_extra_isize m + 4 + x.e_value_offs

-- `unsigned char value[entry->e_value_size + 1]`, cleared by `memset`, with the value read in.
unfoldable pub value_of : Volume → ℕ → Memory → ℕ → XattrEntry → Memory
value_of v i m p x =
    read_at v.image (value_location v i m x) x.e_value_size
      (λ k. if ltb k ((x.e_value_size + 1) % 2 ^ 32) then 0 else v.uninit.value i p k)

-- The rounds of `for (int i = 1; i <= total_inodes; i++)`: a count that is negative as an int
-- gives none.
abbrev pub rounds : ℕ → ℕ
rounds total = if ltb total (2 ^ 31) then total else 0
