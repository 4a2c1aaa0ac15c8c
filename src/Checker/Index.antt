-- ===== src/Checker/Index.antt =====
-- The index `prev_ind` of ext4_checker.c, which sums up the names of an inode's attributes.
use dist_lfsck.Checker.{
  internal_header, Cursor, cur_ind_of, entry_info_at, attr_round, attr_rounds, show_all, Check,
  internal_cursor, after_internal, tell, table_location, internal_part,
}
use dist_lfsck.Disk.{Image, load, read_at}
use dist_lfsck.Prelude.{
  ℕ, zero, suc, ◌+◌, ◌*◌, ◌<◌, ◌≤◌, ◌≡◌, refl, ap, arith, inl, inr, ◌==◌, ==_iff, Bool-cases,
}
use dist_lfsck.Scan.{attr_magic, i_extra_isize}
use dist_lfsck.Xattr.{xattr_len}

-- Where the header of an inode's internal attributes is read.
abbrev pub header_location : ℕ → ℕ → ℕ → Check → ℕ
header_location block_size inode_table inode_index s =
    table_location block_size inode_table inode_index (128 + i_extra_isize s.test_inode)

module _ (image : Image) (first : ℕ) (value_at : ℕ → ℕ) where
  -- The second entry of an attribute area is looked for at the place that EXT4_XATTR_NEXT gives,
  -- plus the index that the areas before have left.
  pub attr_round_displaced :
      (c : Cursor)
      → 0 < c.ientry 0
      → (attr_round image first value_at 1 c).ientry
        ≡ read_at image (first + xattr_len (c.ientry 0) + c.prev_ind) 16 c.ientry
  unfolding attr_round
  attr_round_displaced c named =
      let place : first + 16 * 1 + c.prev_ind + cur_ind_of (c.ientry 0)
          ≡ first + xattr_len (c.ientry 0) + c.prev_ind =
        omega arith in
      elim (Bool-cases (
        (entry_info_at (
          read_at image (first + 16 * 1 + c.prev_ind + cur_ind_of (c.ientry 0)) 16
            c.ientry)).e_value_size
        == 0)) [
          | inl empty ↦ rw empty (ap (λ q. read_at image q 16 c.ientry) place)
          | inr some_bytes ↦ rw some_bytes (ap (λ q. read_at image q 16 c.ientry) place)
        ]

  attr_round-prev_ind :
      (k : ℕ) (c : Cursor) → c.prev_ind + 4 ≤ (attr_round image first value_at k c).prev_ind
  unfolding attr_round
  attr_round-prev_ind k c =
      elim (Bool-cases (
        (entry_info_at (
          read_at image (first + 16 * k + c.prev_ind + cur_ind_of (c.ientry 0)) 16
            c.ientry)).e_value_size
        == 0)) [ inl empty ↦ rw empty (omega arith) | inr some_bytes ↦ rw some_bytes (omega arith) ]

  attr_rounds-prev_ind :
      (left k : ℕ) (c : Cursor)
      → c.prev_ind + 4 * left ≤ (attr_rounds image first value_at left k c).prev_ind
  unfolding attr_rounds
  attr_rounds-prev_ind zero k c = omega arith
  attr_rounds-prev_ind (suc left) k c = omega (
    arith,
    attr_round-prev_ind k c,
    attr_rounds-prev_ind left (k + 1) (attr_round image first value_at k c),
  )

  show_all-prev_ind :
      (left : ℕ) (c : Cursor)
      → c.prev_ind + 4 * left ≤ (show_all image first value_at left c).prev_ind
  unfolding show_all
  show_all-prev_ind left c = attr_rounds-prev_ind left 1 _

-- The state when the header of the internal attributes has been found at `head`.
abbrev pub header_found : Image → ℕ → ℕ → Check → Check
header_found image head inode_index s =
    tell (internal_header attr_magic inode_index)
      (record s { test_iextd = read_at image head 4 s.test_iextd; int_count = s.int_count + 1 })

pub internal_part-found :
    (image : Image) (block_size inode_table inode_index : ℕ) (s : Check) (head : ℕ)
    → header_location block_size inode_table inode_index s ≡ head
    → load 4 (read_at image head 4 s.test_iextd) 0 ≡ attr_magic
    → internal_part image block_size inode_table inode_index s
      ≡ after_internal (header_found image head inode_index s) (
          show_all image
            (head + 4)
            (λ offs. head + 4 + offs)
            2
            (internal_cursor (header_found image head inode_index s)))
unfolding internal_part
internal_part-found image block_size inode_table inode_index s head at magic =
    let marked = (==_iff (load 4 (read_at image head 4 s.test_iextd) 0) attr_magic).1 magic in
    rw (at, marked)

-- Each inode with internal attributes leaves the index at least 8 larger than it found it.
pub internal_part-prev_ind :
    (image : Image) (block_size inode_table inode_index : ℕ) (s : Check)
    → load 4 (read_at image (header_location block_size inode_table inode_index s) 4 s.test_iextd) 0
      ≡ attr_magic
    → s.prev_ind + 8 ≤ (internal_part image block_size inode_table inode_index s).prev_ind
internal_part-prev_ind image block_size inode_table inode_index s magic =
    let head = header_location block_size inode_table inode_index s in
    let found = internal_part-found image block_size inode_table inode_index s head refl magic in
    rw found (
      show_all-prev_ind image (head + 4) (λ offs. head + 4 + offs) 2
        (internal_cursor (header_found image head inode_index s)))
