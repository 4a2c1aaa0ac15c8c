-- ===== src/Ost/Main.antt =====
-- `main` of ost_src.c from the superblock on.
use dist_lfsck.Disk.{Image}
use dist_lfsck.Flow.{exit}
use dist_lfsck.Ost.Attrs.{attr_kind}
use dist_lfsck.Ost.Described.{disk_says, ost_scan-says}
use dist_lfsck.Ost.Inodes.{lov_stmts}
use dist_lfsck.Ost.{mds_total_inodes, ost_scan, ost_main}
use dist_lfsck.Prelude.{ℕ, ◌+◌, ◌<◌, ◌≡◌, ◌++◌, ap, ◌∙◌, true, some, ◌==◌, ==_iff}
use dist_lfsck.Report.{statements}
use dist_lfsck.Scan.Formatted.{
  Format, IsFormatted, volume_with, s_magic-IsFormatted, volume_of-IsFormatted,
}
use dist_lfsck.Scan.Start.{s_magic}
use dist_lfsck.Scan.Written.{Inode, IsWritten}
use dist_lfsck.Scan.{Machine, Scan, rounds, ext4_super_magic}

ost_main-IsFormatted :
    (machine : Machine) (image : Image) (f : Format)
    → machine.device ≡ some image
    → machine.connected ≡ true
    → IsFormatted image f
    → ost_main machine ≡ ost_scan (volume_with machine image f)
unfolding ost_main
ost_main-IsFormatted machine image f opened joined h =
    let ext4 : (s_magic machine image == ext4_super_magic) ≡ true =
      (==_iff (s_magic machine image) ext4_super_magic).1 (s_magic-IsFormatted machine image f h) in
    rw (opened, ost_main)
      (rw (ext4, joined) (ap ost_scan (volume_of-IsFormatted machine image f h)))

-- When the device opens and the database accepts the connection, blocks have 2048 to 65536 bytes,
-- the device holds a superblock of ext4 at byte 1024 and a group descriptor in block 1, and every
-- inode of the table that these name stands as Lustre writes it where the scanner looks for it,
-- with fewer attributes than the tests granted to the loop, their values inside the inode, and a
-- first block of each directory that can be listed to its end, then main of ost_src.c ends with
-- status 0 and has sent just what the inodes say, in order, up to the number s_inodes_count, which
-- counts as none from 2 ^ 31 on, and then the relations of the MDS nodes 1 to 700.
pub ost_main-says :
    (machine : Machine) (image : Image) (f : Format) (inodes : ℕ → Inode attr_kind)
    → machine.device ≡ some image
    → machine.connected ≡ true
    → IsFormatted image f
    → ((k : ℕ)
        → k < f.total_inodes
        → IsWritten attr_kind (volume_with machine image f) (k + 1) (inodes (k + 1)))
    → (t : Scan) × (ost_main machine ≡ exit t 0)
      × (statements t.events
          ≡ disk_says inodes (rounds f.total_inodes) 0 ++ lov_stmts mds_total_inodes 1)
ost_main-says machine image f inodes opened joined h written =
    let (t, e, sent) = ost_scan-says (volume_with machine image f) inodes written in
    (t, ost_main-IsFormatted machine image f opened joined h ∙ e, sent)
