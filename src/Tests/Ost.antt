-- ===== src/Tests/Ost.antt =====
-- The OST scanner on a small device.
use dist_lfsck.Cypher.{oss, file, lma, fid, create, set_type, set_fid, set_f_oid, merge_ost_child}
use dist_lfsck.Disk.{load, read_at, store}
use dist_lfsck.Flow.{exit, Leaves}
use dist_lfsck.Lustre.{lu_fid_at, lustre_mdt_attrs_at, filter_fid_at}
use dist_lfsck.Mds.{mds_scan}
use dist_lfsck.Mds.Buffer as MdsBuffer
use dist_lfsck.Ost.Buffer.{FitsBuffer, scans-fit}
use dist_lfsck.Ost.Inodes.{Readable, Ready, volume_stmts, lov_stmts, ost_scan-sends}
use dist_lfsck.Ost.{struct_of, ost_scan}
use dist_lfsck.Prelude.{inl, ℕ, zero, suc, ◌+◌, ◌<◌, List, ◌≡◌, refl, [], ◌∷◌, ◌++◌, arith, take}
use dist_lfsck.Report.{statements}
use dist_lfsck.Scan.Rounds.{buffer_after}
use dist_lfsck.Scan.Sends.{SentAll}
use dist_lfsck.Scan.{Scan, inode_location}
use dist_lfsck.Tests.Sample.{object_home, object_volume, object_volume-IsByteVolume, sent_by}
use dist_lfsck.Xattr.{walk, begins, entry_at, read_bytes}

ost_scan_sample :
    take 6 (sent_by (ost_scan object_volume))
    ≡ create oss 1
      ∷ set_type oss 1 file
      ∷ set_fid oss 1 lma (record { f_seq = 0x200000401; f_oid = 5; f_ver = 0 })
      ∷ set_f_oid 1 5
      ∷ set_fid oss 1 fid (record { f_seq = 0x200000401; f_oid = 5; f_ver = 0 })
      ∷ merge_ost_child
      ∷ []
unfolding ost_scan walk begins entry_at read_bytes inode_location struct_of read_at load store
    lu_fid_at lustre_mdt_attrs_at filter_fid_at
ost_scan_sample = refl

abbrev pub object_offsets : ℕ → List ℕ
object_offsets i = 160 ∷ 180 ∷ []

object_Readable : Readable object_volume 1 (buffer_after object_volume 1) (160 ∷ 180 ∷ [])
unfolding inode_location read_at load store entry_at read_bytes begins
object_Readable = record {
  end = 200;
  chain = (refl, omega arith, (refl, omega arith, (refl, refl)));
  short = omega arith;
  values = (
    record { lma_inside = λ h. omega arith; fid_inside = λ h. cc },
    (record { lma_inside = λ h. cc; fid_inside = λ h. omega arith }, tt),
  );
  lists = λ h. cc;
}

pub object-Ready :
    (k : ℕ)
    → k < object_volume.total_inodes
    → Ready object_volume object_offsets (k + 1) (buffer_after object_volume (suc k))
object-Ready zero h = λ marked. object_Readable
object-Ready (suc k) h = absurd (omega arith)

-- The offsets on the device whose second inode is a directory.
abbrev home_offsets : ℕ → List ℕ
home_offsets (suc (suc i)) = 160 ∷ []
home_offsets i = 160 ∷ 180 ∷ []

file_Readable : Readable object_home 1 (buffer_after object_home 1) (160 ∷ 180 ∷ [])
unfolding inode_location read_at load store entry_at read_bytes begins
file_Readable = record {
  end = 200;
  chain = (refl, omega arith, (refl, omega arith, (refl, refl)));
  short = omega arith;
  values = (
    record { lma_inside = λ h. omega arith; fid_inside = λ h. cc },
    (record { lma_inside = λ h. cc; fid_inside = λ h. omega arith }, tt),
  );
  lists = λ h. cc;
}

home_Readable : Readable object_home 2 (buffer_after object_home 2) (160 ∷ [])
unfolding inode_location read_at load store entry_at read_bytes begins
home_Readable = record {
  end = 180;
  chain = (refl, omega arith, (refl, refl));
  short = omega arith;
  values = (record { lma_inside = λ h. omega arith; fid_inside = λ h. cc }, tt);
  lists = λ dir. record {
    entries = 0 ∷ 12 ∷ [];
    listed = (refl, omega arith, omega arith, (refl, omega arith, omega arith, inl (omega arith)));
    enough = omega arith;
  };
}

home-Ready :
    (k : ℕ)
    → k < object_home.total_inodes
    → Ready object_home home_offsets (k + 1) (buffer_after object_home (suc k))
home-Ready zero h = λ marked. file_Readable
home-Ready (suc zero) h = λ marked. home_Readable
home-Ready (suc (suc k)) h = absurd (omega arith)

ost_scan-sends_example :
    (t : Scan) × (ost_scan object_home ≡ exit t 0)
    × (statements t.events ≡ volume_stmts object_home home_offsets 2 0 ++ lov_stmts 700 1)
ost_scan-sends_example = ost_scan-sends object_home home_offsets home-Ready

scans-fit_example :
    Leaves (SentAll MdsBuffer.FitsBuffer) (mds_scan object_volume)
    × Leaves (SentAll FitsBuffer) (ost_scan object_volume)
scans-fit_example = scans-fit object_volume object_volume-IsByteVolume
