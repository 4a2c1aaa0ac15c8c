-- ===== src/Tests/Older.antt =====
-- The older scanners on a small inode, and the theorems about them at concrete inputs.
use dist_lfsck.Disk.{Image, Memory, load, read_at, store}
use dist_lfsck.Flow.{Flow, next, exit, spins}
use dist_lfsck.Older.Entries.{NamesLoopEnds, names_loops_end}
use dist_lfsck.Older.Location.{bit_location_iff}
use dist_lfsck.Older.MdsFinal.{mds_name, mds_bit}
use dist_lfsck.Older.EarlyFinal.Overrun.{EarlyOverruns, early_final_body_overruns}
use dist_lfsck.Older.OssFinal.{oss_name}
use dist_lfsck.Older.Visits.{MdsVisits, OssVisits, mds_final_body_visits, oss_final_body_visits}
use dist_lfsck.Older.{
  Host, Pass, Shown, fresh, inode_information, header_matches, first_entry_name, names_begin,
  name_of_entry, lov_exists, names_completed, value_of_entry, bit_location, value_read,
}
use dist_lfsck.Prelude.{
  ℕ, ◌+◌, ◌*◌, ◌/◌, ◌%◌, ◌<◌, ◌≡◌, ◌↔◌, refl, arith, some, List, [], ◌∷◌, ◌++◌, codes,
}
use dist_lfsck.Tests.Sample.{entry, patched, zeros}
use dist_lfsck.Xattr.Encode.{encode_entries}
use dist_lfsck.Xattr.{entry_at, read_bytes, walk}

-- An inode of the mode 0100600 at byte 4096, with an LMA of three bytes.
abbrev inode_image : Image
unfolding store
inode_image = record {
  size = 8192;
  byte = patched (
      (4096, store 2 0x8180)
      ∷ (4256, store 4 0xEA020000)
      ∷ (4260, encode_entries (entry (codes "lov") 64 3 ∷ []))
      ∷ (4324, 7 ∷ 8 ∷ 9 ∷ [])
      ∷ []);
}

abbrev host : Host
host = record {
  device = some inode_image;
  super = zeros;
  group = zeros;
  block_bitmap = zeros;
  inode_bitmap = zeros;
  scan_bitmap = zeros;
  first_inode = zeros;
  value = λ p. zeros;
  address = 0x7FFC00000000;
  fuel = 10000;
}

abbrev shown_by : Flow Pass → List Shown
shown_by (next s) = s.shown
shown_by (exit s status) = s.shown
shown_by spins = []

-- The name is shown with the byte behind it, and the value's bytes 7, 8 and 9 are shown as zeros.
mds_bit_sample :
    shown_by (mds_bit host inode_image 4096 1 0 0 (fresh zeros))
    ≡ inode_information (record {
      block_number = 1;
      index = 0;
      extra_isize = 0;
      acl_lo = 0;
      acl_high = 0;
      uid = 0;
      blocks_lo = 0;
      flags = 0;
      mode = 0x8180;
    })
      ∷ header_matches
      ∷ first_entry_name 3 (codes "lov" ++ 0 ∷ [])
      ∷ names_begin
      ∷ name_of_entry (codes "lov" ++ 0 ∷ [])
      ∷ lov_exists
      ∷ names_completed
      ∷ value_of_entry 3 (0 ∷ 0 ∷ 0 ∷ [])
      ∷ []
unfolding mds_bit walk read_at load entry_at read_bytes value_read store
mds_bit_sample = refl

-- Blocks of 4096 bytes and inodes of 512.
bit_location_iff_example :
    ((k : ℕ) → k < 16 → bit_location 4096 100 512 (k / 8) (k % 8) ≡ 100 * 4096 + k * 512)
    ↔ (4096 ≡ 8 * 512)
bit_location_iff_example = bit_location_iff 4096 100 512 16 (omega arith) (omega arith)

abbrev buffer : Memory
unfolding read_at store
buffer = read_at inode_image 4096 1024 zeros

mds_final_body_visits_example : MdsVisits host inode_image zeros (fresh zeros)
mds_final_body_visits_example = mds_final_body_visits host inode_image zeros (fresh zeros)

-- Blocks of 1024 bytes.
early_final_body_overruns_example : EarlyOverruns host inode_image zeros (fresh zeros)
unfolding load
early_final_body_overruns_example =
    early_final_body_overruns host inode_image zeros (fresh zeros) (omega arith)

oss_final_body_visits_example : OssVisits host inode_image zeros (fresh zeros)
oss_final_body_visits_example = oss_final_body_visits host inode_image zeros (fresh zeros)

-- The sample's attributes, up to the limit of mds_final.c.
names_loops_end_example :
    NamesLoopEnds mds_name buffer 159744 10000 160 (record (fresh zeros) { e = 160 })
    × NamesLoopEnds oss_name buffer 159744 10000 160 (record (fresh zeros) { e = 160 })
names_loops_end_example =
    names_loops_end buffer 159744 10000 160 (record (fresh zeros) { e = 160 }) (omega arith)
      (omega arith) refl
