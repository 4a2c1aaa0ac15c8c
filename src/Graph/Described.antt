-- ===== src/Graph/Described.antt =====
-- The database after both scans of disks that are described by what Lustre has written to them.
use dist_lfsck.Cypher.{Stmt}
use dist_lfsck.Flow.{exit}
use dist_lfsck.Graph.Fids.{no_graph, apply_all, fid_store}
use dist_lfsck.Graph.Refines.{Same, run_all-refines}
use dist_lfsck.Graph.Scans.{database, database-both_stmts}
use dist_lfsck.Graph.{GraphStore, IsLawful}
use dist_lfsck.Mds.Attrs.{attr_kind as file_attrs}
use dist_lfsck.Mds.Described
use dist_lfsck.Mds.Described.{mds_scan-says}
use dist_lfsck.Mds.{mds_scan}
use dist_lfsck.Ost.Attrs.{attr_kind as object_attrs}
use dist_lfsck.Ost.Described as Objects
use dist_lfsck.Ost.Described.{ost_scan-says}
use dist_lfsck.Ost.Inodes.{lov_stmts}
use dist_lfsck.Ost.{mds_total_inodes, ost_scan}
use dist_lfsck.Prelude.{ℕ, ◌+◌, ◌<◌, ◌≤◌, ◌≡◌, List, ◌++◌}
use dist_lfsck.Scan.Bytes.{IsByteVolume}
use dist_lfsck.Scan.Written.{Inode, IsWritten}
use dist_lfsck.Scan.{Volume, Scan, rounds}

-- What the files and then the objects say, and the relations that are asked for at the end.
abbrev pub both_say :
    Volume → (ℕ → Inode file_attrs) → Volume → (ℕ → Inode object_attrs) → List Stmt
both_say v files w objects =
    Described.disk_says files (rounds v.total_inodes) 0
    ++ (Objects.disk_says objects (rounds w.total_inodes) 0 ++ lov_stmts mds_total_inodes 1)

-- When every inode of both tables stands as Lustre writes it where the scanners look for it, with
-- fewer attributes than the tests granted to the loops and with their values inside the inode, the
-- first block of each directory can be listed to its end, and the MDS scan's stack has room for an
-- array of an inode's size, both scans terminate with status 0; and a database with the documented
-- behaviour that was empty and has been handed the texts of the MDS scan's statements and then
-- those of the OST scan holds the graph of FIDs and object ids that the files and objects on the
-- disks say: the same nodes, the same relations, and as its properties the texts of that graph's.
pub scans-refine :
    (S : GraphStore) (v : Volume) (files : ℕ → Inode file_attrs) (w : Volume)
    (objects : ℕ → Inode object_attrs)
    → IsLawful S
    → IsByteVolume v
    → v.inode_size ≤ v.stack
    → ((k : ℕ) → k < v.total_inodes → IsWritten file_attrs v (k + 1) (files (k + 1)))
    → ((k : ℕ) → k < w.total_inodes → IsWritten object_attrs w (k + 1) (objects (k + 1)))
    → (t : Scan) × (u : Scan) × (mds_scan v ≡ exit t 0)
      × (ost_scan w ≡ exit u 0)
      × Same S fid_store (database S t u) (apply_all (both_say v files w objects) no_graph)
scans-refine S v files w objects law bytes room files_written objects_written =
    let (t, e, a) = mds_scan-says v files bytes room files_written in
    let (u, f, b) = ost_scan-says w objects objects_written in
    (
      t,
      u,
      e,
      f,
      rw (database-both_stmts S t u _ _ a b) (run_all-refines S (both_say v files w objects) law),
    )
