-- ===== src/Tests/Objects.antt =====
-- The small device of an object server, described by what has been written to it.
use dist_lfsck.Disk.{load, read_at, store}
use dist_lfsck.Flow.{exit}
use dist_lfsck.Lustre.Written.{fid_bytes, lma_bytes, filter_bytes}
use dist_lfsck.Lustre.{LuFid, LustreMdtAttrs, FilterFid}
use dist_lfsck.Ost.Attrs.{Attr, own, filed, attr_kind}
use dist_lfsck.Ost.Described.{disk_says, ost_scan-says}
use dist_lfsck.Ost.Inodes.{lov_stmts}
use dist_lfsck.Ost.{ost_scan}
use dist_lfsck.Prelude.{inl, ℕ, zero, suc, ◌+◌, ◌<◌, ◌≡◌, refl, List, [], ◌∷◌, ◌++◌, arith}
use dist_lfsck.Report.{statements}
use dist_lfsck.Scan.Written.{Placed, Inode, node, IsArea, IsWritten}
use dist_lfsck.Scan.{Scan, inode_location}
use dist_lfsck.Tests.Sample.{object_home}

abbrev file_fid : LuFid
file_fid = record { f_seq = 0x200000401; f_oid = 5; f_ver = 0 }

abbrev self : LustreMdtAttrs
self = record { lma_compat = 0; lma_incompat = 0; lma_self_fid = file_fid }

abbrev filter : FilterFid
filter = record {
  ff_parent = file_fid;
  ff_layout = record {
    ol_stripe_size = 1048576;
    ol_stripe_count = 1;
    ol_comp_start = 0;
    ol_comp_end = 0;
    ol_comp_id = 0;
  };
  ff_layout_version = 0;
  ff_range = 0;
}

abbrev placed : Attr → ℕ → Placed attr_kind
placed a o = record { attr = a; index = 6; offs = o; block = 0; hash = 0 }

abbrev attrs : List (Placed attr_kind)
attrs = placed (own self []) 64 ∷ placed (filed filter []) 88 ∷ []

-- An object of mode 0100644, and a directory of mode 040755.
abbrev pub object_inodes : ℕ → Inode attr_kind
object_inodes (suc (suc i)) = node 0x41ED (placed (own self []) 64 ∷ [])
object_inodes i = node 0x81A4 attrs

object-IsArea : IsArea attr_kind object_home 1 0x81A4 attrs
unfolding inode_location load store fid_bytes lma_bytes filter_bytes
object-IsArea = record {
  marked = refl;
  moded = refl;
  entries = omega arith;
  room = omega arith;
  values = (
    record { valid = omega arith; fits = omega arith; inside = omega arith; held = omega arith },
    (
      record { valid = omega arith; fits = omega arith; inside = omega arith; held = omega arith },
      tt,
    ),
  );
  few = omega arith;
  lists = λ dir. cc;
}

home-IsArea : IsArea attr_kind object_home 2 0x41ED (placed (own self []) 64 ∷ [])
unfolding inode_location read_at load store fid_bytes lma_bytes
home-IsArea = record {
  marked = refl;
  moded = refl;
  entries = omega arith;
  room = omega arith;
  values = (
    record { valid = omega arith; fits = omega arith; inside = omega arith; held = omega arith },
    tt,
  );
  few = omega arith;
  lists = λ dir. record {
    entries = 0 ∷ 12 ∷ [];
    listed = (refl, omega arith, omega arith, (refl, omega arith, omega arith, inl (omega arith)));
    enough = omega arith;
  };
}

pub object-IsWritten :
    (k : ℕ)
    → k < object_home.total_inodes
    → IsWritten attr_kind object_home (k + 1) (object_inodes (k + 1))
unfolding inode_location load store
object-IsWritten zero h = record {
  inside = omega arith;
  header = omega arith;
  describes = object-IsArea;
}
object-IsWritten (suc zero) h = record {
  inside = omega arith;
  header = omega arith;
  describes = home-IsArea;
}
object-IsWritten (suc (suc k)) h = absurd (omega arith)

ost_scan-says_example :
    (t : Scan) × (ost_scan object_home ≡ exit t 0)
    × (statements t.events ≡ disk_says object_inodes 2 0 ++ lov_stmts 700 1)
ost_scan-says_example = ost_scan-says object_home object_inodes object-IsWritten
