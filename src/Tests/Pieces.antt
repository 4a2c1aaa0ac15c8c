-- ===== src/Tests/Pieces.antt =====
-- The theorems about the scanners' pieces at concrete inputs.
use dist_lfsck.Cypher.Reading.{render_injective}
use dist_lfsck.Cypher.{mds, lma, set_fid}
use dist_lfsck.Disk.{Memory, load, store}
use dist_lfsck.Flow.{next, spins}
use dist_lfsck.Lustre.{LuFid}
use dist_lfsck.Prelude.{
  codes, length, inl, ℕ, ◌+◌, ◌^◌, ◌<◌, ◌≤◌, ◌≡◌, ◌≢◌, ◌↔◌, refl, List, [], ◌∷◌, ◌++◌, arith, ltb,
  lt→ltb, if◌then◌else◌,
}
use dist_lfsck.Report.{printed, dir_entry}
use dist_lfsck.Scan.Directory.Listing.{
  DirEntry, list_block-Tiles, Listed, list_block_ends_iff, list_block-spins,
}
use dist_lfsck.Scan.Directory.{list_block}
use dist_lfsck.Scan.Location.{ext4_location, slot, inode_location_iff}
use dist_lfsck.Scan.Start.{started}
use dist_lfsck.Scan.{inode_location}
use dist_lfsck.Tests.Sample.{patched, zeros, sample_entries, sample_volume}
use dist_lfsck.Xattr.Encode.{encode_entries, collect, walk-encode_entries}
use dist_lfsck.Xattr.Walk.{note, walk_ends_iff, walk_overruns}
use dist_lfsck.Xattr.{Chain, walk}

-- The entries of the sample, alone at offset 0.
abbrev entries_memory : Memory
unfolding store
entries_memory = patched ((0, encode_entries sample_entries) ∷ [])

walk_ends_iff_example :
    (walk 10 entries_memory note 0 [] ≡ next (0 ∷ 20 ∷ 40 ∷ []))
    ↔ ((end : ℕ) × Chain entries_memory 0 (0 ∷ 20 ∷ 40 ∷ []) end × (3 < 10))
walk_ends_iff_example = walk_ends_iff entries_memory 10 0 (0 ∷ 20 ∷ 40 ∷ [])

-- Forty bytes of names and lengths of one, with no terminator among them.
abbrev unterminated : Memory
unterminated k = if ltb k 40 then 1 else 0

unterminated_full : (p : ℕ) → 0 ≤ p → p < 40 → load 4 unterminated p ≢ 0
unfolding load
unterminated_full p from upto = rw (lt→ltb p 40 upto) (λ e. absurd (omega arith))

unterminated-walk : walk 10 unterminated note 0 [] ≡ next (0 ∷ 20 ∷ [])
unfolding walk load
unterminated-walk = refl

walk_overruns_example : (end : ℕ) × Chain unterminated 0 (0 ∷ 20 ∷ []) end × (40 ≤ end)
walk_overruns_example =
    walk_overruns unterminated 10 0 40 (0 ∷ 20 ∷ []) unterminated_full unterminated-walk

walk-encode_entries_example :
    walk 10 entries_memory (collect entries_memory) 0 [] ≡ next sample_entries
unfolding store
walk-encode_entries_example =
    walk-encode_entries entries_memory sample_entries 10 0 (omega arith) (omega arith) (omega arith)

-- Three entries that fill a block of 36 bytes; the second is unused.
abbrev block : Memory
unfolding store
block = patched (
    (0, store 4 11 ++ store 2 12)
    ∷ (12, store 4 0 ++ store 2 12)
    ∷ (24, store 4 13 ++ store 2 12)
    ∷ [])

abbrev block_entries : List DirEntry
block_entries =
    record { inode = 11; rec_len = 12 }
    ∷ record { inode = 0; rec_len = 12 }
    ∷ record { inode = 13; rec_len = 12 }
    ∷ []

list_block-Tiles_example :
    list_block 4 block 36 0 (started zeros)
    ≡ next (record (started zeros) { events = printed (dir_entry 11 12 8) ∷ [] })
unfolding load store
list_block-Tiles_example =
    list_block-Tiles block block_entries 4 0 36 (started zeros) (omega arith)
      (refl, refl, omega arith, (refl, refl, omega arith, (refl, refl, omega arith, refl)))

-- A block as ext4 begins a directory: `.`, `..`, and an entry in use up to the end.
abbrev dot_block : Memory
unfolding store
dot_block = patched (
    (0, store 4 2 ++ store 2 12 ++ 1 ∷ 2 ∷ codes ".")
    ∷ (12, store 4 2 ++ store 2 12 ++ 2 ∷ 2 ∷ codes "..")
    ∷ (24, store 4 11 ++ store 2 12 ++ 1 ∷ 1 ∷ codes "a")
    ∷ [])

list_block_ends_iff_example :
    (list_block 4 dot_block 36 0 (started zeros) ≢ spins)
    ↔ ((qs : List ℕ) × Listed dot_block 36 0 qs × (length qs < 4))
list_block_ends_iff_example = list_block_ends_iff dot_block 4 0 36 (started zeros)

-- The listing of this block does end: the entries it comes to are these three.
dot_block_ends : list_block 4 dot_block 36 0 (started zeros) ≢ spins
unfolding load store
dot_block_ends = (list_block_ends_iff dot_block 4 0 36 (started zeros)).1 (
  0 ∷ 12 ∷ 24 ∷ [],
  ((
    refl,
    omega arith,
    omega arith,
    (refl, omega arith, omega arith, (refl, omega arith, omega arith, inl (omega arith))),
  )),
  omega arith,
)

-- An entry in use of length zero.
abbrev stuck : Memory
stuck k = if ltb k 4 then 1 else 0

list_block-spins_example : list_block 100 stuck 30 0 (started zeros) ≡ spins
unfolding load
list_block-spins_example =
    list_block-spins stuck 100 0 30 (started zeros) (omega arith) (omega arith) refl

inode_location_iff_example :
    ((inode_location sample_volume 1 ≡ slot sample_volume 1) ↔ (slot sample_volume 1 < 2 ^ 32))
    × ((inode_location sample_volume 1 ≡ slot sample_volume 1)
          × (inode_location sample_volume 1 ≡ ext4_location sample_volume 2)
        ↔ (slot sample_volume 1 < 2 ^ 32) × (2 ≡ 1 + 1))
inode_location_iff_example = inode_location_iff sample_volume 1 2 (omega arith) (omega arith)

abbrev root_fid : LuFid
root_fid = record { f_seq = 0x200000007; f_oid = 1; f_ver = 0 }

render_injective_example : set_fid mds 7 lma root_fid ≡ set_fid mds 7 lma root_fid
render_injective_example =
    render_injective (set_fid mds 7 lma root_fid) (set_fid mds 7 lma root_fid) refl
