-- ===== src/Tests/Mains.antt =====
-- Both programs on a device with blocks of 2048 bytes and one inode.
use dist_lfsck.Disk.{Image, load, store}
use dist_lfsck.Flow.{exit}
use dist_lfsck.Lustre.Written.{fid_bytes, lma_bytes}
use dist_lfsck.Lustre.{LustreMdtAttrs}
use dist_lfsck.Mds.Attrs as Files
use dist_lfsck.Mds.Described
use dist_lfsck.Mds.Main.{mds_main-says}
use dist_lfsck.Mds.{mds_main}
use dist_lfsck.Ost.Attrs as Objects
use dist_lfsck.Ost.Described as OstDescribed
use dist_lfsck.Ost.Inodes.{lov_stmts}
use dist_lfsck.Ost.Main.{ost_main-says}
use dist_lfsck.Ost.{ost_main}
use dist_lfsck.Prelude.{
  ℕ, List, Bytes, zero, suc, ◌+◌, ◌<◌, ◌≡◌, refl, some, true, [], ◌∷◌, ◌++◌, arith, codes,
}
use dist_lfsck.Report.{statements}
use dist_lfsck.Scan.Bytes.{IsByteVolume}
use dist_lfsck.Scan.Formatted.{Format, IsFormatted, volume_with}
use dist_lfsck.Scan.Written.{AttrKind, Inode, node, IsWritten}
use dist_lfsck.Scan.{Machine, Scan, inode_location}
use dist_lfsck.Tests.Sample.{entry, inode_patches, lma_value, patched, patched-lt, sample_uninit}

-- The superblock, the descriptor, which names block 2, and an inode with an LMA at index 1.
abbrev image_patches : List (ℕ × Bytes)
unfolding store
image_patches =
    inode_patches 4608 (entry (codes "lma") 64 24 ∷ [])
    ++ ((4832, lma_value)
        ∷ (1024, store 4 1)
        ∷ (1048, store 4 1)
        ∷ (1080, store 2 0xEF53)
        ∷ (1112, store 2 512)
        ∷ (2056, store 4 2)
        ∷ [])

abbrev image : Image
image = record { size = 8192; byte = patched image_patches }

abbrev machine : Machine
machine = record {
  device = some image;
  connected = true;
  uninit = sample_uninit;
  stack = 65536;
  fuel = 10;
}

abbrev format : Format
format = record { log_block_size = 1; inode_table = 2; total_inodes = 1; inode_size = 512 }

image-IsFormatted : IsFormatted image format
unfolding load store
image-IsFormatted = record {
  magic = refl;
  log = refl;
  total = refl;
  size = refl;
  table = refl;
  large = omega arith;
  small = omega arith;
  room = omega arith;
}

image-IsByteVolume : IsByteVolume (volume_with machine image format)
image-IsByteVolume = record {
  image = λ k. patched-lt image_patches k;
  cur_inode = λ k. omega arith;
  block_buf = λ i k. omega arith;
  value = λ i p k. omega arith;
}

abbrev self : LustreMdtAttrs
self = record {
  lma_compat = 0;
  lma_incompat = 0;
  lma_self_fid = record { f_seq = 0x200000401; f_oid = 5; f_ver = 0 };
}

abbrev inode_with : (K : AttrKind) → K.Attr → ℕ → Inode K
inode_with K a i = node 0x81A4 (record { attr = a; index = 6; offs = 64; block = 0; hash = 0 } ∷ [])

file-IsWritten :
    (k : ℕ)
    → k < 1
    → IsWritten Files.attr_kind
        (volume_with machine image format)
        (k + 1)
        (inode_with Files.attr_kind (Files.own self) (k + 1))
unfolding inode_location load store fid_bytes lma_bytes
file-IsWritten zero h = record {
  inside = omega arith;
  header = omega arith;
  describes = record {
    marked = refl;
    moded = refl;
    entries = omega arith;
    room = omega arith;
    values = (
      record { valid = omega arith; fits = omega arith; inside = omega arith; held = omega arith },
      tt,
    );
    few = omega arith;
    lists = λ dir. cc;
  };
}
file-IsWritten (suc k) h = absurd (omega arith)

object-IsWritten :
    (k : ℕ)
    → k < 1
    → IsWritten Objects.attr_kind
        (volume_with machine image format)
        (k + 1)
        (inode_with Objects.attr_kind (Objects.own self []) (k + 1))
unfolding inode_location load store fid_bytes lma_bytes
object-IsWritten zero h = record {
  inside = omega arith;
  header = omega arith;
  describes = record {
    marked = refl;
    moded = refl;
    entries = omega arith;
    room = omega arith;
    values = (
      record { valid = omega arith; fits = omega arith; inside = omega arith; held = omega arith },
      tt,
    );
    few = omega arith;
    lists = λ dir. cc;
  };
}
object-IsWritten (suc k) h = absurd (omega arith)

mds_main-says_example :
    (t : Scan) × (mds_main machine ≡ exit t 0)
    × (statements t.events ≡ Described.disk_says (inode_with Files.attr_kind (Files.own self)) 1 0)
mds_main-says_example =
    mds_main-says machine image format (inode_with Files.attr_kind (Files.own self)) refl refl
      image-IsFormatted image-IsByteVolume (omega arith) file-IsWritten

ost_main-says_example :
    (t : Scan) × (ost_main machine ≡ exit t 0)
    × (statements t.events
        ≡ OstDescribed.disk_says (inode_with Objects.attr_kind (Objects.own self [])) 1 0
          ++ lov_stmts 700 1)
ost_main-says_example =
    ost_main-says machine image format (inode_with Objects.attr_kind (Objects.own self [])) refl
      refl image-IsFormatted object-IsWritten
