-- ===== src/Scan/Directory.antt =====
-- The listing of a directory's first block, which the scanners of new_scan_code share.
pub mod Listing
pub mod Quiet
use dist_lfsck.Disk.{Memory, load, read_at}
use dist_lfsck.Flow.{Flow, next, exit, spins, ◌>>=◌}
use dist_lfsck.Prelude.{
  ℕ, zero, suc, ◌+◌, ◌*◌, ◌%◌, ◌^◌, true, false, ltb, leb, ◌==◌, if◌then◌else◌,
}
use dist_lfsck.Report.{dir_entry, huge_directory}
use dist_lfsck.Scan.{Volume, Scan, print, i_block_first}

abbrev pub ed_inode : Memory → ℕ → ℕ
ed_inode buf p = load 4 buf p

abbrev pub ed_rec_len : Memory → ℕ → ℕ
ed_rec_len buf p = load 2 buf (p + 4)

-- `while (p < block_buf + block_size)`: each entry in use is printed, and the first unused one
-- breaks the loop. A `rec_len` of zero never ends it, so `fuel` grants a number of tests.
unfoldable pub list_block : ℕ → Memory → ℕ → ℕ → Scan → Flow Scan
list_block zero buf block_size p s = spins
list_block (suc fuel) buf block_size p s = elim (ltb p block_size) [
  | false ↦ next s
  | true ↦ elim (ed_inode buf p == 0) [
    | true ↦ next s
    | false ↦
        list_block fuel buf block_size (p + ed_rec_len buf p)
          (print (dir_entry (ed_inode buf p) (ed_rec_len buf p) (p + 8)) s)
  ]
]

-- `if (block_id >= 12) { ...; exit(0); }`.
abbrev pub check_block_id : ℕ → Scan → Flow Scan
check_block_id block_id s = if leb 12 block_id then exit (print huge_directory s) 0 else next s

-- Only the block of index 0 is read: the test on `block_id` before it stands in an `if`, not in a
-- loop, and holds at 0; afterwards `block_id` is 1.
unfoldable pub list_directory : Volume → ℕ → Scan → Flow Scan
unfolding list_block
list_directory v i s =
    let location = i_block_first s.cur_inode * v.block_size % 2 ^ 32 in
    let block_buf = read_at v.image location v.block_size (v.uninit.block_buf i) in
    list_block v.fuel block_buf v.block_size 0 s >>= check_block_id 1
