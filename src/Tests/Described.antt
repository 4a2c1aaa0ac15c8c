-- ===== src/Tests/Described.antt =====
-- The small device, described by what has been written to it.
use dist_lfsck.Disk.BigEndian.{store_be}
use dist_lfsck.Disk.{load, read_at, store}
use dist_lfsck.Flow.{exit}
use dist_lfsck.Lustre.Written.{fid_bytes, lma_bytes}
use dist_lfsck.Lustre.{LustreMdtAttrs, LinkEaHeader, LovUserMd, LovUserOstData}
use dist_lfsck.Mds.Attrs.{Attr, own, linked, striped, attr_kind}
use dist_lfsck.Mds.Described.{disk_says, mds_scan-says}
use dist_lfsck.Scan.Written.{Placed, Inode, node, IsArea, IsWritten}
use dist_lfsck.Mds.Link.{HardLink, links_bytes, link_bytes}
use dist_lfsck.Mds.Lov.{objects_bytes, lov_bytes}
use dist_lfsck.Mds.{mds_scan}
use dist_lfsck.Prelude.{inl, ℕ, zero, suc, ◌+◌, ◌<◌, ◌≡◌, refl, List, [], ◌∷◌, arith, codes}
use dist_lfsck.Report.{statements}
use dist_lfsck.Scan.{Scan, inode_location}
use dist_lfsck.Tests.Sample.{home_volume, home_volume-IsByteVolume}

abbrev self : LustreMdtAttrs
self = record {
  lma_compat = 0;
  lma_incompat = 0;
  lma_self_fid = record { f_seq = 0x200000401; f_oid = 5; f_ver = 0 };
}

abbrev links : LinkEaHeader
links = record {
  leh_magic = 0x11EAF1DF;
  leh_reccount = 1;
  leh_len = 44;
  leh_overflow_time = 0;
  leh_padding = 0;
}

abbrev in_home : HardLink
in_home = record {
  parent = record { f_seq = 0x200000400; f_oid = 1; f_ver = 0 };
  name = codes "ab";
}

abbrev layout : LovUserMd
layout = record {
  lmm_magic = 0x0BD10BD0;
  lmm_pattern = 1;
  lmm_oi_id = 0;
  lmm_oi_seq = 0;
  lmm_stripe_size = 1048576;
  lmm_stripe_count = 1;
  lmm_layout_gen = 0;
}

abbrev object : LovUserOstData
object = record { l_ost_oi_id = 0x100000007; l_ost_oi_seq = 0; l_ost_gen = 0; l_ost_idx = 3 }

abbrev placed : Attr → ℕ → Placed attr_kind
placed a o = record { attr = a; index = 6; offs = o; block = 0; hash = 0 }

-- A regular file of mode 0100644, and a directory of mode 040755.
abbrev attrs : List (Placed attr_kind)
attrs =
    placed (own self) 64
    ∷ placed (linked links in_home []) 88
    ∷ placed (striped layout object []) 132
    ∷ []

abbrev pub sample_inodes : ℕ → Inode attr_kind
sample_inodes (suc (suc i)) = node 0x41ED (placed (own self) 64 ∷ [])
sample_inodes i = node 0x81A4 attrs

sample-IsArea : IsArea attr_kind home_volume 1 0x81A4 attrs
unfolding inode_location load store store_be fid_bytes lma_bytes links_bytes link_bytes
    objects_bytes lov_bytes
sample-IsArea = record {
  marked = refl;
  moded = refl;
  entries = omega arith;
  room = omega arith;
  values = (
    record { valid = omega arith; fits = omega arith; inside = omega arith; held = omega arith },
    (
      record { valid = omega arith; fits = omega arith; inside = omega arith; held = omega arith },
      (
        record {
          valid = omega arith;
          fits = omega arith;
          inside = omega arith;
          held = omega arith;
        },
        tt,
      ),
    ),
  );
  few = omega arith;
  lists = λ dir. cc;
}

home-IsArea : IsArea attr_kind home_volume 2 0x41ED (placed (own self) 64 ∷ [])
unfolding inode_location read_at load store fid_bytes lma_bytes
home-IsArea = record {
  marked = refl;
  moded = refl;
  entries = omega arith;
  room = omega arith;
  values = (
    record { valid = omega arith; fits = omega arith; inside = omega arith; held = omega arith },
    tt,
  );
  few = omega arith;
  lists = λ dir. record {
    entries = 0 ∷ 12 ∷ [];
    listed = (refl, omega arith, omega arith, (refl, omega arith, omega arith, inl (omega arith)));
    enough = omega arith;
  };
}

pub sample-IsWritten :
    (k : ℕ)
    → k < home_volume.total_inodes
    → IsWritten attr_kind home_volume (k + 1) (sample_inodes (k + 1))
unfolding inode_location load store
sample-IsWritten zero h = record {
  inside = omega arith;
  header = omega arith;
  describes = sample-IsArea;
}
sample-IsWritten (suc zero) h = record {
  inside = omega arith;
  header = omega arith;
  describes = home-IsArea;
}
sample-IsWritten (suc (suc k)) h = absurd (omega arith)

mds_scan-says_example :
    (t : Scan) × (mds_scan home_volume ≡ exit t 0)
    × (statements t.events ≡ disk_says sample_inodes 2 0)
mds_scan-says_example =
    mds_scan-says home_volume sample_inodes home_volume-IsByteVolume (omega arith) sample-IsWritten
