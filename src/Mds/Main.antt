-- ===== src/Mds/Main.antt =====
-- `main` of mds_src.c from the superblock on, and where it takes the group descriptor from.
use dist_lfsck.Disk.Transfer.{load-read_at}
use dist_lfsck.Disk.{Image, load}
use dist_lfsck.Flow.{exit}
use dist_lfsck.Mds.Attrs.{attr_kind}
use dist_lfsck.Mds.Described.{disk_says, mds_scan-says}
use dist_lfsck.Mds.{mds_scan, mds_main}
use dist_lfsck.Prelude.{ℕ, ◌+◌, ◌<◌, ◌≤◌, ◌≡◌, sym, ap, ◌∙◌, true, some, ◌==◌, ==_iff, arith}
use dist_lfsck.Report.{statements}
use dist_lfsck.Scan.Bytes.{IsByteVolume}
use dist_lfsck.Scan.Formatted.{
  Format, IsFormatted, volume_with, s_magic-IsFormatted, volume_of-IsFormatted,
}
use dist_lfsck.Scan.Start.{super_of, s_magic, volume_of}
use dist_lfsck.Scan.Written.{Inode, IsWritten}
use dist_lfsck.Scan.{Machine, Scan, rounds, ext4_super_magic}

mds_main-IsFormatted :
    (machine : Machine) (image : Image) (f : Format)
    → machine.device ≡ some image
    → machine.connected ≡ true
    → IsFormatted image f
    → mds_main machine ≡ mds_scan (volume_with machine image f)
unfolding mds_main
mds_main-IsFormatted machine image f opened joined h =
    let ext4 : (s_magic machine image == ext4_super_magic) ≡ true =
      (==_iff (s_magic machine image) ext4_super_magic).1 (s_magic-IsFormatted machine image f h) in
    rw (opened, mds_main)
      (rw (ext4, joined) (ap mds_scan (volume_of-IsFormatted machine image f h)))

-- When the device opens and the database accepts the connection, blocks have 2048 to 65536 bytes,
-- the device holds a superblock of ext4 at byte 1024 and a group descriptor in block 1, and every
-- inode of the table that these name stands as Lustre writes it where the scanner looks for it,
-- with fewer attributes than the tests granted to the loop, their values inside the inode, and a
-- first block of each directory that can be listed to its end, and the stack has room for an array
-- of an inode's size, then main of mds_src.c ends with status 0 and has sent just what the inodes
-- say, in order, up to the number s_inodes_count, which counts as none from 2 ^ 31 on.
pub mds_main-says :
    (machine : Machine) (image : Image) (f : Format) (inodes : ℕ → Inode attr_kind)
    → machine.device ≡ some image
    → machine.connected ≡ true
    → IsFormatted image f
    → IsByteVolume (volume_with machine image f)
    → f.inode_size ≤ machine.stack
    → ((k : ℕ)
        → k < f.total_inodes
        → IsWritten attr_kind (volume_with machine image f) (k + 1) (inodes (k + 1)))
    → (t : Scan) × (mds_main machine ≡ exit t 0)
      × (statements t.events ≡ disk_says inodes (rounds f.total_inodes) 0)
mds_main-says machine image f inodes opened joined h bytes room written =
    let (t, e, sent) = mds_scan-says (volume_with machine image f) inodes bytes room written in
    (t, mds_main-IsFormatted machine image f opened joined h ∙ e, sent)

-- With blocks of 1024 bytes the "group descriptor" that `main` reads is the superblock again: the
-- inode table is then taken from its field `s_r_blocks_count_lo`, at byte 8 of the superblock.
pub volume_of-small_blocks :
    (machine : Machine) (image : Image)
    → load 4 (super_of machine image) 24 ≡ 0
    → 2048 ≤ image.size
    → (volume_of machine image).inode_table ≡ load 4 (super_of machine image) 8
unfolding volume_of
volume_of-small_blocks machine image log size = rw log (
    load-read_at image 1024 64 machine.uninit.group 4 8 (omega arith) (omega arith)
    ∙ sym (load-read_at image 1024 1024 machine.uninit.super 4 8 (omega arith) (omega arith)))
