-- ===== src/Older/Counts.antt =====
-- The loops that count the set bits of the block bitmap and of the inode bitmap.
use dist_lfsck.Bitmap.Used.{used_from, at_bit, for_bytes-each}
use dist_lfsck.Bitmap.{for_bytes}
use dist_lfsck.Disk.{Memory}
use dist_lfsck.Flow.{next, each}
use dist_lfsck.Older.{Pass, count_block, count_inode_bit}
use dist_lfsck.Prelude.{ℕ, ◌+◌, ◌*◌, ◌≡◌, ◌∙◌, ap, arith, List, [], ◌∷◌, length}

each-count_block :
    (ks : List ℕ) (s : Pass)
    → each (at_bit count_block) ks s
      ≡ next (record s { block_bitmap_count = s.block_bitmap_count + length ks })
unfolding each
each-count_block [] s = ap (λ n. next (record s { block_bitmap_count = n })) (omega arith)
each-count_block (k ∷ ks) s =
    each-count_block ks (record s { block_bitmap_count = s.block_bitmap_count + 1 })
    ∙ ap (λ n. next (record s { block_bitmap_count = n })) (omega arith)

each-count_inode_bit :
    (ks : List ℕ) (s : Pass)
    → each (at_bit count_inode_bit) ks s
      ≡ next (record s { inode_bitmap_count = s.inode_bitmap_count + length ks })
unfolding each
each-count_inode_bit [] s = ap (λ n. next (record s { inode_bitmap_count = n })) (omega arith)
each-count_inode_bit (k ∷ ks) s =
    each-count_inode_bit ks (record s { inode_bitmap_count = s.inode_bitmap_count + 1 })
    ∙ ap (λ n. next (record s { inode_bitmap_count = n })) (omega arith)

pub for_bytes-count_block :
    (bytes : ℕ) (bitmap : Memory) (s : Pass)
    → for_bytes count_block bytes 0 bitmap s
      ≡ next (record s {
        block_bitmap_count = s.block_bitmap_count + length (used_from bitmap (8 * bytes) 0);
      })
for_bytes-count_block bytes bitmap s =
    for_bytes-each count_block bitmap bytes 0 s
    ∙ each-count_block (used_from bitmap (8 * bytes) 0) s

pub for_bytes-count_inode_bit :
    (bytes : ℕ) (bitmap : Memory) (s : Pass)
    → for_bytes count_inode_bit bytes 0 bitmap s
      ≡ next (record s {
        inode_bitmap_count = s.inode_bitmap_count + length (used_from bitmap (8 * bytes) 0);
      })
for_bytes-count_inode_bit bytes bitmap s =
    for_bytes-each count_inode_bit bitmap bytes 0 s
    ∙ each-count_inode_bit (used_from bitmap (8 * bytes) 0) s
