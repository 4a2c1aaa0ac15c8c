-- ===== src/Lsfsck.antt =====
-- The first trial, lsfsck.c, which shows the block bitmap, an inode and the group descriptor of a
-- device. Its structures are those of the system's headers ext2fs/ext2_fs.h and ext4.h, which are
-- a parameter: their sizes, and what their fields read.
pub mod Early
use dist_lfsck.Disk.{Image, Memory, read_at}
use dist_lfsck.Prelude.{
  ℕ, zero, suc, ◌+◌, ◌-◌, ◌*◌, ◌/◌, ◌%◌, ◌^◌, Option, none, some, List, [], ◌∷◌, ◌++◌, ◌==◌,
  if◌then◌else◌,
}
use dist_lfsck.Scan.{base_offset, ext4_super_magic}

pub record Headers : Type 0 where
  pub sizeof_super_block : ℕ
  pub sizeof_group_desc : ℕ
  pub sizeof_inode : ℕ
  pub s_magic : Memory → ℕ
  pub s_log_block_size : Memory → ℕ
  pub bg_block_bitmap : Memory → ℕ
  pub bg_inode_bitmap : Memory → ℕ
  pub bg_inode_table : Memory → ℕ
  pub bg_free_blocks_count : Memory → ℕ
  pub bg_free_inodes_count : Memory → ℕ
  pub bg_used_dirs_count : Memory → ℕ
  pub i_size : Memory → ℕ
  pub i_uid : Memory → ℕ
  pub i_mode : Memory → ℕ

-- The device, and what memory holds before anything is read: in the structures, in the bitmap's
-- block, and where the pointer test_inode happens to point, if the program may write there.
pub record Host : Type 0 where
  pub device : Option Image
  pub super : Memory
  pub group : Memory
  pub bitmap : Memory
  pub test_inode : Option Memory

pub data Shown : Type 0 where
  open_failed : Shown
  not_ext4 : Shown
  bitmap_title : Shown
  bitmap_row : List ℕ → Shown
  inode_title : Shown
  inode_information : ℕ → ℕ → ℕ → Shown
  group_information : ℕ → ℕ → ℕ → ℕ → ℕ → ℕ → Shown

-- `main` exits with a status, or it is killed for its use of test_inode.
pub data Ending : Type 0 where
  exits : ℕ → List Shown → Ending
  crashes : List Shown → Ending

-- `BLOCK_OFFSET(block)`, in unsigned int.
unfoldable pub block_offset : ℕ → ℕ → ℕ
block_offset block_size block = (block + 2 ^ 32 - 1) % 2 ^ 32 * block_size % 2 ^ 32

-- `block_size = 1024 << super.s_log_block_size`.
unfoldable pub block_size_of : ℕ → ℕ
block_size_of log = 1024 * 2 ^ log % 2 ^ 32

-- `printf("%d", *(bitmap)>>j & 1)`, from bit j with `left` bits to go.
unfoldable pub bits : ℕ → ℕ → ℕ → List ℕ
bits zero j byte = []
bits (suc left) j byte = byte / 2 ^ j % 2 ∷ bits left (j + 1) byte

-- `for (i = 0; i < 10; i++)`: a row for each byte, from byte i.
unfoldable pub bitmap_rows : ℕ → ℕ → Memory → List Shown
unfolding bits
bitmap_rows zero i bitmap = []
bitmap_rows (suc left) i bitmap = bitmap_row (bits 8 0 (bitmap i)) ∷ bitmap_rows left (i + 1) bitmap

module _ (h : Headers) where
  abbrev pub inode_shown : Memory → Shown
  inode_shown inode = inode_information (h.i_size inode) (h.i_uid inode) (h.i_mode inode)

  abbrev pub group_shown : Memory → Shown
  group_shown g =
      group_information (h.bg_block_bitmap g) (h.bg_inode_bitmap g) (h.bg_inode_table g)
        (h.bg_free_blocks_count g) (h.bg_free_inodes_count g) (h.bg_used_dirs_count g)

  -- `read_inode`, which `main` does not call: the inode as it stands on the device, for a number
  -- from 1 on.
  unfoldable pub read_inode : Image → ℕ → ℕ → Memory → Memory → Memory
  unfolding block_offset
  read_inode image block_size inode_no group inode =
      read_at image
        (block_offset block_size (h.bg_inode_table group) + (inode_no - 1) * h.sizeof_inode)
        h.sizeof_inode inode

  -- The rest of `main`, behind the bitmap: the inode and the group descriptor.
  unfoldable pub show_inode : Image → ℕ → Memory → List Shown → Option Memory → Ending
  unfolding block_offset
  show_inode image block_size group shown none = crashes (shown ++ inode_title ∷ [])
  show_inode image block_size group shown (some old) =
      let inode = read_at image (block_offset block_size (h.bg_inode_table group)) 256 old in
      exits 0 (shown ++ inode_title ∷ inode_shown inode ∷ group_shown group ∷ [])

  -- `main` behind the check of the magic number.
  unfoldable pub main_body : Host → Image → ℕ → Ending
  unfolding block_offset bitmap_rows show_inode
  main_body host image block_size =
      let group = read_at image block_size h.sizeof_group_desc host.group in
      let bitmap =
        read_at image (block_offset block_size (h.bg_block_bitmap group)) block_size host.bitmap in
      show_inode image block_size group (bitmap_title ∷ bitmap_rows 10 0 bitmap) host.test_inode

  unfoldable pub main : Host → Ending
  unfolding main_body block_size_of
  main host = elim host.device [
    | none ↦ exits 1 (open_failed ∷ [])
    | some image ↦
        let super = read_at image base_offset h.sizeof_super_block host.super in
        if h.s_magic super == ext4_super_magic
        then main_body host image (block_size_of (h.s_log_block_size super))
        else exits 1 (not_ext4 ∷ [])
  ]
