-- ===== src/Tests/Mds.antt =====
-- The MDS scanner on a small device.
use dist_lfsck.Cypher.{
  mds, file, lma, pfid, create, set_type, set_fid, set_ost_oid, merge_mds_parent,
}
use dist_lfsck.Mds.{mds_scan}
use dist_lfsck.Prelude.{◌++◌, ℕ, zero, suc, ◌+◌, ◌<◌, List, ◌≡◌, refl, [], ◌∷◌, arith}
use dist_lfsck.Scan.Rounds.{buffer_after}
use dist_lfsck.Mds.Mismatch.{Broken, broken_stmts, mds_scan_stops}
use dist_lfsck.Scan.Bytes.{IsByteVolume}
use dist_lfsck.Mds.Inodes.{Readable, Ready, volume_stmts}
use dist_lfsck.Flow.{exit}
use dist_lfsck.Report.{statements}
use dist_lfsck.Scan.{Volume, Scan, inode_location, value_of}
use dist_lfsck.Disk.{load, read_at, store, swab}
use dist_lfsck.Xattr.{walk, begins, entry_at, read_bytes}
use dist_lfsck.Lustre.{
  lu_fid_at, fid_be_to_cpu, lustre_mdt_attrs_at, link_ea_header_at, lov_user_md_at, lmm_object_at,
}
use dist_lfsck.Tests.Sample.{
  patched, patched-lt, inode_patches, sample_entries, sample_volume, sent_by,
}

mds_scan_sample :
    sent_by (mds_scan sample_volume)
    ≡ create mds 1
      ∷ set_type mds 1 file
      ∷ set_fid mds 1 lma (record { f_seq = 0x200000401; f_oid = 5; f_ver = 0 })
      ∷ set_fid mds 1 pfid (record { f_seq = 0x200000400; f_oid = 1; f_ver = 0 })
      ∷ merge_mds_parent
      ∷ set_ost_oid 1 7
      ∷ []
unfolding mds_scan walk begins entry_at read_bytes inode_location value_of read_at load store swab
    lu_fid_at fid_be_to_cpu lustre_mdt_attrs_at link_ea_header_at lov_user_md_at lmm_object_at
mds_scan_sample = refl

abbrev pub sample_offsets : ℕ → List ℕ
sample_offsets i = 160 ∷ 180 ∷ 200 ∷ []

sample_Readable : Readable sample_volume 1 (buffer_after sample_volume 1) (160 ∷ 180 ∷ 200 ∷ [])
unfolding inode_location value_of read_at load store entry_at read_bytes begins
sample_Readable = record {
  end = 220;
  chain = (refl, omega arith, (refl, omega arith, (refl, omega arith, (refl, refl))));
  short = omega arith;
  sound = ((omega arith, λ h. cc), ((omega arith, λ h. refl), ((omega arith, λ h. cc), tt)));
  lists = λ h. cc;
}

pub sample-Ready :
    (k : ℕ)
    → k < sample_volume.total_inodes
    → Ready sample_volume sample_offsets (k + 1) (buffer_after sample_volume (suc k))
sample-Ready zero h = λ marked. sample_Readable
sample-Ready (suc k) h = absurd (omega arith)

-- The same device with zeros for the value of the link EA.
abbrev broken_volume : Volume
broken_volume = record sample_volume {
  image = record { size = 4096; byte = patched (inode_patches 1536 sample_entries) };
}

broken_volume-IsByteVolume : IsByteVolume broken_volume
broken_volume-IsByteVolume = record {
  image = λ k. patched-lt (inode_patches 1536 sample_entries) k;
  cur_inode = λ k. omega arith;
  block_buf = λ i k. omega arith;
  value = λ i p k. omega arith;
}

broken_volume-Broken : Broken broken_volume 1 (buffer_after broken_volume 1) (160 ∷ []) 180
unfolding inode_location value_of read_at load store entry_at read_bytes begins
broken_volume-Broken = record {
  marked = refl;
  reaches = (refl, omega arith, (refl, omega arith));
  short = omega arith;
  sound = ((omega arith, λ h. cc), tt);
  mismatch = record { room = omega arith; is_link = refl; wrong = omega arith };
  lists = λ h. cc;
}

mds_scan_stops_example :
    (t : Scan) × (mds_scan broken_volume ≡ exit t 0)
    × (statements t.events
        ≡ volume_stmts broken_volume sample_offsets 0 0
          ++ broken_stmts broken_volume 1 (buffer_after broken_volume 1) (160 ∷ []))
mds_scan_stops_example =
    mds_scan_stops broken_volume sample_offsets 0 (160 ∷ []) 180 broken_volume-IsByteVolume
      (omega arith) (λ j small. absurd (omega arith)) broken_volume-Broken
