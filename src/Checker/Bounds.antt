-- ===== src/Checker/Bounds.antt =====
-- The counts and the indices of ext4_checker.c, which are ints there.
use dist_lfsck.Checker.{
  Check, internal_cursor, external_cursor, inode_told, inode_seen, internal_header, external_header,
  internal_part, external_part, check_inode, check_inodes, table_location, tell,
}
use dist_lfsck.Disk.{Image, IsByteMemory, load, read_at}
use dist_lfsck.Prelude.{
  ℕ, zero, suc, ◌+◌, ◌*◌, ◌%◌, [], ◌∷◌, ◌++◌, ◌^◌, ◌≤◌, ◌≡◌, arith, inl, inr, ◌==◌, Bool-cases,
  if◌then◌else◌,
}
use dist_lfsck.Scan.{attr_magic, block_offset, i_extra_isize}
use dist_lfsck.Checker.Within.{show_all-Within}

-- Bounds of the counts and of the two indices.
pub record Bounded (inodes internal external index index_ext : ℕ) (s : Check) : Type 0 where
  pub entry_bytes : IsByteMemory s.test_ientry
  pub inodes_le : s.inode_count ≤ inodes
  pub internal_le : s.int_count ≤ internal
  pub external_le : s.ext_count ≤ external
  pub index_le : s.prev_ind ≤ index
  pub index_ext_le : s.prev_ind_ext ≤ index_ext

module _ (image : Image) (b : IsByteMemory image.byte) (block_size inode_table : ℕ) where
  internal_part-Bounded :
      (inode_index i n x p q : ℕ) (s : Check)
      → Bounded i n x p q s
      → Bounded i (n + 3) x (p + 512) q (internal_part image block_size inode_table inode_index s)
  unfolding internal_part
  internal_part-Bounded inode_index i n x p q s h =
      let head =
        table_location block_size inode_table inode_index (128 + i_extra_isize s.test_inode) in
      elim (Bool-cases (load 4 (read_at image head 4 s.test_iextd) 0 == attr_magic)) [
        | inr unmarked ↦ rw unmarked (record {
          entry_bytes = h.entry_bytes;
          inodes_le = h.inodes_le;
          internal_le = omega (arith, h.internal_le);
          external_le = h.external_le;
          index_le = omega (arith, h.index_le);
          index_ext_le = h.index_ext_le;
        })
        | inl marked ↦
            let w =
              show_all-Within image b (head + 4) (λ offs. head + 4 + offs) 2
                (record (internal_cursor s) {
                  count = s.int_count + 1;
                  told = s.lines ++ internal_header attr_magic inode_index ∷ [];
                })
                h.entry_bytes in
            rw marked (record {
              entry_bytes = w.entry_bytes;
              inodes_le = h.inodes_le;
              internal_le = omega (arith, w.counted, h.internal_le);
              external_le = h.external_le;
              index_le = omega (arith, w.index, h.index_le);
              index_ext_le = h.index_ext_le;
            })
      ]

  external_part-Bounded :
      (inode_index i n x p q : ℕ) (s : Check)
      → Bounded i n x p q s
      → Bounded i n (x + 10) p (q + 2304) (external_part image block_size inode_index s)
  unfolding external_part
  external_part-Bounded inode_index i n x p q s h =
      let block = block_offset block_size (load 4 s.test_inode 104) in
      let header = read_at image block 32 s.test_extd in
      elim (Bool-cases (load 4 header 0 == attr_magic)) [
        | inr unmarked ↦ rw unmarked (record {
          entry_bytes = h.entry_bytes;
          inodes_le = h.inodes_le;
          internal_le = h.internal_le;
          external_le = omega (arith, h.external_le);
          index_le = h.index_le;
          index_ext_le = omega (arith, h.index_ext_le);
        })
        | inl marked ↦
            let line =
              external_header (load 4 s.test_iextd 0) inode_index (load 4 header 8)
                (load 4 header 4) (load 4 header 12) in
            let w =
              show_all-Within image b (block + 32) (λ offs. (block + offs) % 2 ^ 32) 9
                (record (external_cursor s) {
                  count = s.ext_count + 1;
                  told = s.lines ++ line ∷ [];
                })
                h.entry_bytes in
            rw marked (record {
              entry_bytes = w.entry_bytes;
              inodes_le = h.inodes_le;
              internal_le = h.internal_le;
              external_le = omega (arith, w.counted, h.external_le);
              index_le = h.index_le;
              index_ext_le = omega (arith, w.index, h.index_ext_le);
            })
      ]

  check_inode-Bounded :
      (inode_index i n x p q : ℕ) (s : Check)
      → Bounded i n x p q s
      → Bounded
          (i + 1)
          (n + 3)
          (x + 10)
          (p + 512)
          (q + 2304)
          (check_inode image block_size inode_table inode_index s)
  unfolding check_inode
  check_inode-Bounded inode_index i n x p q s h =
      let location = table_location block_size inode_table inode_index 0 in
      let m = read_at image location 256 s.test_inode in
      let t = record s { test_inode = m } in
      let seen =
        if load 4 m 4 == 0
        then t
        else tell (inode_told (inode_seen m location inode_index))
            (record t { inode_count = t.inode_count + 1 }) in
      let start : Bounded (i + 1) n x p q seen = elim (Bool-cases (load 4 m 4 == 0)) [
        | inl empty ↦ rw empty (record {
          entry_bytes = h.entry_bytes;
          inodes_le = omega (arith, h.inodes_le);
          internal_le = h.internal_le;
          external_le = h.external_le;
          index_le = h.index_le;
          index_ext_le = h.index_ext_le;
        })
        | inr filled ↦ rw filled (record {
          entry_bytes = h.entry_bytes;
          inodes_le = omega (arith, h.inodes_le);
          internal_le = h.internal_le;
          external_le = h.external_le;
          index_le = h.index_le;
          index_ext_le = h.index_ext_le;
        })
      ] in
      external_part-Bounded inode_index (i + 1) (n + 3) x (p + 512) q _
        (internal_part-Bounded inode_index (i + 1) n x p q seen start)

  -- After `n` rounds over the inodes, from counts and indices of zero, at most n inodes, 3 n
  -- internal and 10 n external attributes have been counted, and the indices are at most 512 n and
  -- 2304 n.
  pub check_inodes-Bounded :
      (n inode_index k : ℕ) (s : Check)
      → Bounded k (3 * k) (10 * k) (512 * k) (2304 * k) s
      → Bounded
          (n + k)
          (3 * (n + k))
          (10 * (n + k))
          (512 * (n + k))
          (2304 * (n + k))
          (check_inodes image block_size inode_table n inode_index s)
  unfolding check_inodes
  check_inodes-Bounded zero inode_index k s h = let sum : 0 + k ≡ k = omega arith in rw sum h
  check_inodes-Bounded (suc n) inode_index k s h =
      let sum : suc n + k ≡ n + (k + 1) = omega arith in
      let one = check_inode-Bounded inode_index k (3 * k) (10 * k) (512 * k) (2304 * k) s h in
      let scaled : Bounded (k + 1) (3 * (k + 1)) (10 * (k + 1)) (512 * (k + 1)) (2304 * (k + 1))
          (check_inode image block_size inode_table inode_index s) =
        record {
          entry_bytes = one.entry_bytes;
          inodes_le = one.inodes_le;
          internal_le = omega (arith, one.internal_le);
          external_le = omega (arith, one.external_le);
          index_le = omega (arith, one.index_le);
          index_ext_le = omega (arith, one.index_ext_le);
        } in
      rw sum (check_inodes-Bounded n (inode_index + 1) (k + 1) _ scaled)

-- The counts and the indices after all 32768 rounds of `main`, from zero: none reaches 2 ^ 31, so
-- that the ints of the code never wrap around.
pub main_counts-Bounded :
    (image : Image) (block_size inode_table : ℕ) (s : Check)
    → IsByteMemory image.byte
    → Bounded 0 0 0 0 0 s
    → Bounded 32768 98304 327680 16777216 75497472
        (check_inodes image block_size inode_table 32768 1 s)
main_counts-Bounded image block_size inode_table s b h =
    check_inodes-Bounded image b block_size inode_table 32768 1 0 s h
