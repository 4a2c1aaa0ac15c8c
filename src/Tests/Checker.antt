-- ===== src/Tests/Checker.antt =====
-- The scanner ext4_checker.c on a small device, and the theorems about it at concrete inputs.
use dist_lfsck.Checker.Bounds.{Bounded, main_counts-Bounded}
use dist_lfsck.Checker.Entries.{info_of}
use dist_lfsck.Checker.Areas.{area_lines}
use dist_lfsck.Checker.Parts.{internal_part-shows}
use dist_lfsck.Checker.{
  internal_header, first_attribute, further_attribute, Bench, Check, check_start, check_inodes,
  entry_info_at, internal_part,
}
use dist_lfsck.Disk.{Image, load, read_at, store}
use dist_lfsck.Prelude.{ℕ, List, Bytes, ◌+◌, ◌≡◌, refl, arith, none, [], ◌∷◌, ◌++◌, codes}
use dist_lfsck.Scan.{attr_magic}
use dist_lfsck.Tests.Sample.{entry, patched, patched-lt, zeros}
use dist_lfsck.Xattr.Encode.{encode_entries}
use dist_lfsck.Xattr.{XattrEntry}

abbrev x : XattrEntry
x = entry (codes "lma") 80 2

abbrev y : XattrEntry
y = entry (codes "version") 84 1

abbrev z : XattrEntry
z = entry (codes "a") 88 1

-- An inode at byte 1024, whose attributes start at byte 1184.
abbrev patches : List (ℕ × Bytes)
unfolding store
patches =
    (1028, store 4 5)
    ∷ (1152, store 2 28)
    ∷ (1180, store 4 0xEA020000)
    ∷ (1184, encode_entries (x ∷ y ∷ z ∷ []))
    ∷ (1264, codes "pq")
    ∷ (1268, codes "r")
    ∷ (1272, codes "s")
    ∷ []

abbrev image : Image
image = record { size = 4096; byte = patched patches }

abbrev bench : Bench
bench = record {
  device = none;
  super = zeros;
  group = zeros;
  block_buffers = λ a. zeros;
  inode_buffers = λ a. zeros;
  test_inode = zeros;
  test_iextd = zeros;
  test_extd = zeros;
  test_ientry = zeros;
}

abbrev begun : Check
unfolding read_at store
begun = record (check_start bench) { test_inode = read_at image 1024 256 zeros }

internal_part_sample :
    (internal_part image 1024 1 1 begun).lines
    ≡ internal_header attr_magic 1
      ∷ first_attribute (info_of x) (codes "pq")
      ∷ further_attribute 2 4 (info_of y) (codes "r")
      ∷ further_attribute 3 8 (info_of z) (codes "s")
      ∷ []
unfolding internal_part read_at load store entry_info_at
internal_part_sample = refl

internal_part-shows_example :
    ((internal_part image 1024 1 1 begun).lines
      ≡ begun.lines
        ++ internal_header attr_magic 1
          ∷ area_lines image 1184 (λ offs. 1184 + offs) x (y ∷ z ∷ []))
    × ((internal_part image 1024 1 1 begun).int_count ≡ begun.int_count + (1 + 2))
    × ((internal_part image 1024 1 1 begun).prev_ind ≡ 12)
unfolding read_at load store
internal_part-shows_example =
    internal_part-shows image 1024 1 1 begun 1180 x (y ∷ z ∷ []) 0 refl refl refl refl (record {
      fits = omega arith;
      filled = omega arith;
      laid = omega arith;
      zeroed = λ k from upto. absurd (omega arith);
      held = omega arith;
    })

abbrev p : XattrEntry
p = entry (codes "lma") 300 2

abbrev q : XattrEntry
q = entry (codes "version") 304 1

-- An inode whose external attributes are in block 2, at byte 2048.
abbrev external_patches : List (ℕ × Bytes)
unfolding store
external_patches =
    (1128, store 4 2)
    ∷ (2048, store 4 0xEA020000)
    ∷ (2080, encode_entries (p ∷ q ∷ []))
    ∷ (2348, codes "pq")
    ∷ (2352, codes "r")
    ∷ []

abbrev external_image : Image
external_image = record { size = 4096; byte = patched external_patches }

abbrev external_begun : Check
unfolding read_at store
external_begun = record (check_start bench) { test_inode = read_at external_image 1024 256 zeros }

main_counts-Bounded_example :
    Bounded 32768 98304 327680 16777216 75497472
      (check_inodes image 1024 1 32768 1 (check_start bench))
main_counts-Bounded_example =
    main_counts-Bounded image 1024 1 (check_start bench) (λ k. patched-lt patches k)
      (record {
        entry_bytes = λ k. omega arith;
        inodes_le = omega arith;
        internal_le = omega arith;
        external_le = omega arith;
        index_le = omega arith;
        index_ext_le = omega arith;
      })
