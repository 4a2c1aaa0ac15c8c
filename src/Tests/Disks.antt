-- ===== src/Tests/Disks.antt =====
-- The graph of the two small devices, as they have been written.
use dist_lfsck.Flow.{exit}
use dist_lfsck.Graph.Described.{both_say, scans-refine}
use dist_lfsck.Graph.Fids.Lawful.{fid_store-IsLawful}
use dist_lfsck.Graph.Fids.{no_graph, apply_all, fid_store}
use dist_lfsck.Graph.Refines.{Same}
use dist_lfsck.Graph.Scans.{database}
use dist_lfsck.Graph.{ost_child_of}
use dist_lfsck.Mds.{mds_scan}
use dist_lfsck.Ost.Inodes.{lov_stmts}
use dist_lfsck.Ost.{ost_scan}
use dist_lfsck.Prelude.{arith, ◌≡◌, refl, true, flat_map}
use dist_lfsck.Scan.{Scan}
use dist_lfsck.Tests.Described.{sample_inodes, sample-IsWritten}
use dist_lfsck.Tests.Objects.{object_inodes, object-IsWritten}
use dist_lfsck.Tests.Sample.{home_volume, home_volume-IsByteVolume, object_home}

-- The object's file is found by its FID.
object_related :
    (apply_all (both_say home_volume sample_inodes object_home object_inodes) no_graph).edges
      ost_child_of 1 1
    ≡ true
unfolding flat_map lov_stmts
object_related = refl

scans-refine_example :
    (t : Scan) × (u : Scan) × (mds_scan home_volume ≡ exit t 0)
    × (ost_scan object_home ≡ exit u 0)
    × Same fid_store fid_store
        (database fid_store t u)
        (apply_all (both_say home_volume sample_inodes object_home object_inodes) no_graph)
scans-refine_example =
    scans-refine fid_store home_volume sample_inodes object_home object_inodes fid_store-IsLawful
      home_volume-IsByteVolume (omega arith) sample-IsWritten object-IsWritten
