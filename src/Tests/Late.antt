-- ===== src/Tests/Late.antt =====
-- A parent that the MDS scanner reads after its child, on a device of two inodes.
use dist_lfsck.Disk.{load, read_at, store}
use dist_lfsck.Graph.Attributes.{Attribute}
use dist_lfsck.Graph.Fids.Lawful.{fid_store-IsLawful}
use dist_lfsck.Graph.Fids.{fid_store}
use dist_lfsck.Graph.Late.{late_parent_unrelated}
use dist_lfsck.Graph.Scans.{MdsLma, BothReady, database}
use dist_lfsck.Graph.{mds_parent_of}
use dist_lfsck.Lustre.{lu_fid_at}
use dist_lfsck.Mds.{mds_scan}
use dist_lfsck.Flow.{exit}
use dist_lfsck.Report.{statements}
use dist_lfsck.Mds.Inodes.{Readable, Ready, volume_stmts, mds_scan-sends}
use dist_lfsck.Ost.Inodes.{ost_scan-sends}
use dist_lfsck.Prelude.{
  inl, ℕ, zero, suc, ◌+◌, ◌<◌, ◌≡◌, refl, true, false, List, [], ◌∷◌, ◌++◌, arith, Memᴰ, Bytes,
  codes,
}
use dist_lfsck.Scan.Bytes.{IsByteVolume}
use dist_lfsck.Scan.Rounds.{buffer_after}
use dist_lfsck.Scan.{Volume, Scan, inode_location, value_of}
use dist_lfsck.Tests.Ost.{object_offsets, object-Ready}
use dist_lfsck.Tests.Sample.{
  entry, directory_patches, patched, patched-lt, inode_patches, link_value, sample_volume,
  object_volume,
}
use dist_lfsck.Xattr.{begins, entry_at, read_bytes}

-- The FID that the link EA of the sample names as its parent.
abbrev parent_value : Bytes
unfolding store
parent_value = store 8 0 ++ (store 8 0x200000400 ++ (store 4 1 ++ store 4 0))

-- Inode 1 has a link EA, and inode 2, a directory, the LMA of its parent.
abbrev late_volume : Volume
late_volume = record sample_volume {
  total_inodes = 2;
  image = record {
    size = 4096;
    byte = patched (
        directory_patches 2048
        ++ inode_patches 1536 (entry (codes "link") 64 44 ∷ [])
        ++ (inode_patches 2048 (entry (codes "lma") 64 24 ∷ [])
            ++ ((1760, link_value) ∷ (2272, parent_value) ∷ [])));
  };
}

late_volume-IsByteVolume : IsByteVolume late_volume
late_volume-IsByteVolume = record {
  image = λ k. patched-lt _ k;
  cur_inode = λ k. omega arith;
  block_buf = λ i k. omega arith;
  value = λ i p k. omega arith;
}

abbrev late_offsets : ℕ → List ℕ
late_offsets i = 160 ∷ []

child_Readable : Readable late_volume 1 (buffer_after late_volume 1) (160 ∷ [])
unfolding inode_location value_of read_at load store entry_at read_bytes begins
child_Readable = record {
  end = 180;
  chain = (refl, omega arith, (refl, refl));
  short = omega arith;
  sound = ((omega arith, λ h. refl), tt);
  lists = λ h. cc;
}

parent_Readable : Readable late_volume 2 (buffer_after late_volume 2) (160 ∷ [])
unfolding inode_location value_of read_at load store entry_at read_bytes begins
parent_Readable = record {
  end = 180;
  chain = (refl, omega arith, (refl, refl));
  short = omega arith;
  sound = ((omega arith, λ h. cc), tt);
  lists = λ dir. record {
    entries = 0 ∷ 12 ∷ [];
    listed = (refl, omega arith, omega arith, (refl, omega arith, omega arith, inl (omega arith)));
    enough = omega arith;
  };
}

late-Ready :
    (k : ℕ)
    → k < late_volume.total_inodes
    → Ready late_volume late_offsets (k + 1) (buffer_after late_volume (suc k))
late-Ready zero h = λ marked. child_Readable
late-Ready (suc zero) h = λ marked. parent_Readable
late-Ready (suc (suc k)) h = absurd (omega arith)

mds_scan-sends_example :
    (t : Scan) × (mds_scan late_volume ≡ exit t 0)
    × (statements t.events ≡ volume_stmts late_volume late_offsets 2 0)
mds_scan-sends_example = mds_scan-sends late_volume late_offsets late_volume-IsByteVolume late-Ready

late_ready : BothReady late_volume late_offsets object_volume object_offsets
late_ready = record {
  bytes = late_volume-IsByteVolume;
  mds_ready = late-Ready;
  ost_ready = object-Ready;
}

abbrev mds_end : Scan
mds_end = (mds_scan-sends late_volume late_offsets late_volume-IsByteVolume late-Ready).0

abbrev ost_end : Scan
ost_end = (ost_scan-sends object_volume object_offsets object-Ready).0

late_lma :
    Attribute late_volume late_offsets 2
      (MdsLma late_volume (record { f_seq = 0x200000400; f_oid = 1; f_ver = 0 }))
unfolding inode_location value_of read_at load store entry_at read_bytes begins lu_fid_at
late_lma = record {
  round = 1;
  inside = omega arith;
  number = refl;
  marked = refl;
  entry = 160;
  listed = Memᴰ.head refl;
  says = (refl, refl);
}

no_link :
    (p : ℕ)
    → Memᴰ p (160 ∷ [])
    → begins (buffer_after late_volume 2) (p + 16) (codes "link") ≡ false
unfolding inode_location value_of read_at load store entry_at read_bytes begins
no_link p (Memᴰ.head e) = rw e refl
no_link p (Memᴰ.tail m) = elim m [ ]

late_links :
    (r p k : ℕ)
    → r < 2
    → k ≡ r + 1
    → Memᴰ p (late_offsets (r + 1))
    → begins (buffer_after late_volume (suc r)) (p + 16) (codes "link") ≡ true
    → k < 2
late_links zero p k low e m h = omega arith
late_links (suc zero) p k low e m h = absurd (cc (no_link p m))
late_links (suc (suc r)) p k low e m h = absurd (omega arith)

late_parent_unrelated_example :
    ¬ fid_store.edge (database fid_store mds_end ost_end) mds_parent_of 2 1
late_parent_unrelated_example =
    late_parent_unrelated fid_store late_volume late_offsets object_volume object_offsets mds_end
      ost_end 2 1 (record { f_seq = 0x200000400; f_oid = 1; f_ver = 0 }) fid_store-IsLawful
      late_ready (mds_scan-sends late_volume late_offsets late_volume-IsByteVolume late-Ready).1
      (ost_scan-sends object_volume object_offsets object-Ready).1 late_lma
      (λ k g a. late_links a.round a.entry k a.inside a.number a.listed a.says.0)
