-- ===== src/Checker/Parts.antt =====
-- The internal and the external attributes of an inode, as ext4_checker.c prints them while its
-- indices are zero.
use dist_lfsck.Checker.Areas.{IsArea, area_lines, show_all-Shows}
use dist_lfsck.Checker.Quiet.{names_space}
use dist_lfsck.Checker.Index.{header_location, header_found, internal_part-found}
use dist_lfsck.Checker.{
  internal_header, external_header, Check, internal_cursor, tell, internal_part,
}
use dist_lfsck.Disk.{Image, load, read_at}
use dist_lfsck.Prelude.{ℕ, ◌+◌, ◌≡◌, sym, ap, ◌∙◌, arith, List, [], ◌∷◌, ◌++◌, append_assoc, length}
use dist_lfsck.Scan.{attr_magic}
use dist_lfsck.Xattr.{XattrEntry}

-- While the index is zero, an inode whose internal attributes are one to three entries, all but the
-- first with a value, and then the terminator and 20 zero bytes for each entry that is missing, is
-- printed as it is: the header, and the entries in order, which are counted. The index is then
-- what the rounds have added: the length of the name before, rounded up to a multiple of four, or
-- 4 behind zeros.
pub internal_part-shows :
    (image : Image) (block_size inode_table inode_index : ℕ) (s : Check) (head : ℕ) (x : XattrEntry)
    (xs : List XattrEntry) (left : ℕ)
    → header_location block_size inode_table inode_index s ≡ head
    → load 4 (read_at image head 4 s.test_iextd) 0 ≡ attr_magic
    → s.prev_ind ≡ 0
    → length xs + left ≡ 2
    → IsArea image (head + 4) (λ offs. head + 4 + offs) x xs left
    → ((internal_part image block_size inode_table inode_index s).lines
        ≡ s.lines
          ++ internal_header attr_magic inode_index
            ∷ area_lines image (head + 4) (λ offs. head + 4 + offs) x xs)
      × ((internal_part image block_size inode_table inode_index s).int_count
          ≡ s.int_count + (1 + length xs))
      × ((internal_part image block_size inode_table inode_index s).prev_ind
          ≡ names_space (length x.e_name) xs left)
internal_part-shows image block_size inode_table inode_index s head x xs left at magic start total
      area =
    let found = internal_part-found image block_size inode_table inode_index s head at magic in
    let shows =
      show_all-Shows image (head + 4) (λ offs. head + 4 + offs) 2 x xs left
        (internal_cursor (header_found image head inode_index s)) (sym total) start area in
    (
      ap (λ t. t.lines) found
          ∙ shows.lines
          ∙ append_assoc s.lines (internal_header attr_magic inode_index ∷ []) _,
      ap (λ t. t.int_count) found ∙ shows.counted ∙ omega arith,
      ap (λ t. t.prev_ind) found ∙ shows.moved ∙ omega arith,
    )

-- The state when the header of the external attributes has been found in the block.
abbrev external_found : Image → ℕ → ℕ → Check → Check
external_found image block inode_index s =
    let h = read_at image block 32 s.test_extd in
    tell
      (external_header (load 4 s.test_iextd 0) inode_index (load 4 h 8) (load 4 h 4) (load 4 h 12))
      (record s { test_extd = h; ext_count = s.ext_count + 1 })
