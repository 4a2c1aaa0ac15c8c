-- ===== src/Checker/Within.antt =====
-- How many entries the rounds of ext4_checker.c read, and how far its indices get.
use dist_lfsck.Checker.{Cursor, cur_ind_of, entry_info_at, attr_round, attr_rounds, show_all}
use dist_lfsck.Disk.{Image, IsByteMemory, read_at}
use dist_lfsck.Prelude.{ℕ, zero, suc, ◌+◌, ◌*◌, ◌≤◌, arith, inl, inr, ◌==◌, Bool-cases}
use dist_lfsck.Scan.Bytes.{read_at-IsByteMemory}

-- From `c` to `d` at most `left` entries have been read.
pub record Within (left : ℕ) (c d : Cursor) : Type 0 where
  pub entry_bytes : IsByteMemory d.ientry
  pub index : d.prev_ind ≤ c.prev_ind + 256 * left
  pub counted : d.count ≤ c.count + left

module _ (image : Image) (b : IsByteMemory image.byte) (first : ℕ) (value_at : ℕ → ℕ) where
  attr_round-Within :
      (k : ℕ) (c : Cursor)
      → IsByteMemory c.ientry
      → Within 1 c (attr_round image first value_at k c)
  unfolding attr_round
  attr_round-Within k c h =
      let location = first + 16 * k + c.prev_ind + cur_ind_of (c.ientry 0) in
      let bytes = read_at-IsByteMemory image location 16 c.ientry b h in
      let index : c.prev_ind + cur_ind_of (c.ientry 0) ≤ c.prev_ind + 256 * 1 =
        omega (arith, h 0) in
      elim (Bool-cases ((entry_info_at (read_at image location 16 c.ientry)).e_value_size == 0)) [
        | inl empty ↦
            rw empty (record { entry_bytes = bytes; index = index; counted = omega arith })
        | inr some_bytes ↦
            rw some_bytes (record { entry_bytes = bytes; index = index; counted = omega arith })
      ]

  attr_rounds-Within :
      (left k : ℕ) (c : Cursor)
      → IsByteMemory c.ientry
      → Within left c (attr_rounds image first value_at left k c)
  unfolding attr_rounds
  attr_rounds-Within zero k c h = record {
    entry_bytes = h;
    index = omega arith;
    counted = omega arith;
  }
  attr_rounds-Within (suc left) k c h =
      let one = attr_round-Within k c h in
      let rest =
        attr_rounds-Within left (k + 1) (attr_round image first value_at k c) one.entry_bytes in
      record {
        entry_bytes = rest.entry_bytes;
        index = omega (arith, one.index, rest.index);
        counted = omega (arith, one.counted, rest.counted);
      }

  pub show_all-Within :
      (left : ℕ) (c : Cursor)
      → IsByteMemory c.ientry
      → Within left c (show_all image first value_at left c)
  unfolding show_all
  show_all-Within left c h =
      let rest = attr_rounds-Within left 1 _ (read_at-IsByteMemory image first 16 c.ientry b h) in
      record { entry_bytes = rest.entry_bytes; index = rest.index; counted = rest.counted }
