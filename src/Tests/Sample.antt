-- ===== src/Tests/Sample.antt =====
-- A metadata device of one inode: a regular file with an LMA, a link EA and a LOV EA.
use dist_lfsck.Cypher.{Stmt}
use dist_lfsck.Flow.{Flow, next, exit, spins}
use dist_lfsck.Report.{statements}
use dist_lfsck.Xattr.{XattrEntry}
use dist_lfsck.Xattr.Encode.{encode_entries}
use dist_lfsck.Disk.{Image, Memory, store}
use dist_lfsck.Prelude.{
  ℕ, zero, suc, ◌+◌, ◌-◌, ◌%◌, ◌<◌, List, [], ◌∷◌, ◌++◌, Bool-cases, inl, inr, arith, leb, ltb,
  ◌&&◌, if◌then◌else◌, Bytes, codes, length,
}
use dist_lfsck.Scan.Bytes.{IsByteVolume}
use dist_lfsck.Scan.{Uninit, Volume, Scan}

abbrev pub nth : Bytes → ℕ → ℕ
nth [] i = 0
nth (x ∷ xs) zero = x
nth (x ∷ xs) (suc i) = nth xs i

-- Zeros, but for these bytes at these offsets.
abbrev pub patched : List (ℕ × Bytes) → ℕ → ℕ
patched [] k = 0
patched ((o, bs) ∷ ps) k =
    if leb o k && ltb k (o + length bs) then nth bs (k - o) % 256 else patched ps k

abbrev pub entry : Bytes → ℕ → ℕ → XattrEntry
entry name offs size = record {
  e_name_index = 6;
  e_value_offs = offs;
  e_value_block = 0;
  e_value_size = size;
  e_hash = 0;
  e_name = name;
}

-- The three entries, whose values stand 64, 88 and 132 bytes behind the first entry.
abbrev pub sample_entries : List XattrEntry
sample_entries =
    entry (codes "lma") 64 24 ∷ entry (codes "link") 88 44 ∷ entry (codes "lov") 132 56 ∷ []

abbrev pub lma_value : Bytes
unfolding store
lma_value = store 8 0 ++ (store 8 0x200000401 ++ (store 4 5 ++ store 4 0))

-- The parent is [0x200000400:0x1:0x0], stored big-endian, and the name is "ab".
abbrev pub link_value : Bytes
unfolding store
link_value =
    store 4 0x11EAF1DF
    ++ (store 4 1
        ++ (store 8 44
            ++ (store 8 0
                ++ (0
                    ∷ 20
                    ∷ 0
                    ∷ 0
                    ∷ 0
                    ∷ 2
                    ∷ 0
                    ∷ 0
                    ∷ 4
                    ∷ 0
                    ∷ 0
                    ∷ 0
                    ∷ 0
                    ∷ 1
                    ∷ 0
                    ∷ 0
                    ∷ 0
                    ∷ 0
                    ∷ codes "ab"))))

-- One stripe, with an object id of more than 32 bits, on the object server of index 3.
abbrev pub lov_value : Bytes
unfolding store
lov_value =
    store 4 0x0BD10BD0
    ++ (store 4 1
        ++ (store 8 0
            ++ (store 8 0
                ++ (store 4 1048576
                    ++ (store 2 1
                        ++ (store 2 0
                            ++ (store 8 0x100000007
                                ++ (store 8 0 ++ (store 4 0 ++ store 4 3)))))))))

-- An inode of mode 0100644 at this offset, with 28 extra bytes and these entries.
abbrev pub inode_patches : ℕ → List XattrEntry → List (ℕ × Bytes)
unfolding store
inode_patches o xs =
    (o, store 2 0x81A4)
    ∷ (o + 128, store 2 28)
    ∷ (o + 156, store 4 0xEA020000)
    ∷ (o + 160, encode_entries xs)
    ∷ []

-- A directory at this offset, of mode 040755, whose first block is block 3 of 1024 bytes: it holds
-- the entries `.` and `..` as ext4 writes them.
abbrev pub directory_patches : ℕ → List (ℕ × Bytes)
unfolding store
directory_patches o =
    (o, store 2 0x41ED)
    ∷ (o + 40, store 4 3)
    ∷ (3072, store 4 2 ++ (store 2 12 ++ 1 ∷ 2 ∷ codes "."))
    ∷ (3084, store 4 2 ++ (store 2 1012 ++ 2 ∷ 2 ∷ codes ".."))
    ∷ []

abbrev pub zeros : Memory
zeros k = 0

abbrev pub sample_uninit : Uninit
sample_uninit = record {
  super = zeros;
  group = zeros;
  cur_inode = zeros;
  block_buf = λ i. zeros;
  value = λ i p. zeros;
}

-- The table starts at byte 1024, and the round that reports inode 1 reads at byte 1536.
abbrev pub sample_image : Image
sample_image = record {
  size = 4096;
  byte = patched (
      inode_patches 1536 sample_entries
      ++ ((1760, lma_value) ∷ (1784, link_value) ∷ (1828, lov_value) ∷ []));
}

abbrev pub sample_volume : Volume
sample_volume = record {
  image = sample_image;
  block_size = 1024;
  inode_table = 1;
  total_inodes = 1;
  inode_size = 512;
  uninit = sample_uninit;
  stack = 65536;
  fuel = 4096;
}

-- An object server's device: an LMA and a filter FID, 64 and 88 bytes behind the first entry.
abbrev pub object_entries : List XattrEntry
object_entries = entry (codes "lma") 64 24 ∷ entry (codes "fid") 88 52 ∷ []

abbrev pub filter_value : Bytes
unfolding store
filter_value = store 8 0x200000401 ++ (store 4 5 ++ (store 4 0 ++ (store 4 1048576 ++ store 4 1)))

abbrev pub object_image : Image
object_image = record {
  size = 4096;
  byte =
      patched
        (inode_patches 1536 object_entries ++ ((1760, lma_value) ∷ (1784, filter_value) ∷ []));
}

abbrev pub object_volume : Volume
object_volume = record sample_volume { image = object_image }

pub patched-lt : (ps : List (ℕ × Bytes)) (k : ℕ) → patched ps k < 256
patched-lt [] k = omega arith
patched-lt ((o, bs) ∷ ps) k = elim (Bool-cases (leb o k && ltb k (o + length bs))) [
  | inl inside ↦ rw inside (omega arith)
  | inr outside ↦ rw outside (patched-lt ps k)
]

pub sample_volume-IsByteVolume : IsByteVolume sample_volume
sample_volume-IsByteVolume = record {
  image = λ k. patched-lt _ k;
  cur_inode = λ k. omega arith;
  block_buf = λ i k. omega arith;
  value = λ i p k. omega arith;
}

pub object_volume-IsByteVolume : IsByteVolume object_volume
object_volume-IsByteVolume = record {
  image = λ k. patched-lt _ k;
  cur_inode = λ k. omega arith;
  block_buf = λ i k. omega arith;
  value = λ i p k. omega arith;
}

-- What a scanner has sent when it leaves the program.
abbrev pub sent_by : Flow Scan → List Stmt
sent_by (next s) = statements s.events
sent_by (exit s status) = statements s.events
sent_by spins = []

-- Both devices with a directory as their second inode, which has an LMA.
abbrev home_patches : List (ℕ × Bytes)
home_patches =
    directory_patches 2048
    ++ (inode_patches 2048 (entry (codes "lma") 64 24 ∷ []) ++ ((2272, lma_value) ∷ []))

abbrev pub home_volume : Volume
home_volume = record sample_volume {
  total_inodes = 2;
  image = record {
    size = 4096;
    byte = patched (
        home_patches
        ++ (inode_patches 1536 sample_entries
            ++ ((1760, lma_value) ∷ (1784, link_value) ∷ (1828, lov_value) ∷ [])));
  };
}

abbrev pub object_home : Volume
object_home = record sample_volume {
  total_inodes = 2;
  image = record {
    size = 4096;
    byte = patched (
        home_patches
        ++ (inode_patches 1536 object_entries ++ ((1760, lma_value) ∷ (1784, filter_value) ∷ [])));
  };
}

pub home_volume-IsByteVolume : IsByteVolume home_volume
home_volume-IsByteVolume = record {
  image = λ k. patched-lt _ k;
  cur_inode = λ k. omega arith;
  block_buf = λ i k. omega arith;
  value = λ i p k. omega arith;
}
