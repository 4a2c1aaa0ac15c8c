-- ===== src/Tests/Graph.antt =====
-- The database after both scanners have gone through their small devices.
use dist_lfsck.Cypher.{mds, lma, pfid, Stmt, create, set_fid, merge_mds_parent}
use dist_lfsck.Disk.{load, read_at, store}
use dist_lfsck.Flow.{exit}
use dist_lfsck.Graph.Complete.{scans-edge_iff}
use dist_lfsck.Graph.OneEach.{OneEach}
use dist_lfsck.Graph.Fids.Lawful.{fid_store-IsLawful}
use dist_lfsck.Graph.Fids.{no_graph, apply_all, fid_store}
use dist_lfsck.Graph.Refines.{run_all-apply_all}
use dist_lfsck.Graph.Scans.{
  MdsLma, MdsLink, MdsLov, OstOid, Related, BothReady, database, database-scans, scans-Related,
}
use dist_lfsck.Graph.{mds_parent_of, ost_child_of}
use dist_lfsck.Lustre.{LuFid, lu_fid_at, lu_fid_be_at}
use dist_lfsck.Mds.Inodes.{mds_scan-sends}
use dist_lfsck.Mds.{mds_scan}
use dist_lfsck.Ost.Inodes.{lov_stmts, ost_scan-sends}
use dist_lfsck.Ost.{ost_scan}
use dist_lfsck.Prelude.{
  ℕ, zero, suc, ◌+◌, ◌<◌, ◌≡◌, ◌↔◌, refl, sym, ◌∙◌, true, false, List, [], ◌∷◌, arith, Memᴰ,
}
use dist_lfsck.Scan.Rounds.{buffer_after}
use dist_lfsck.Mds.Statements.{value_at}
use dist_lfsck.Ost.Statements.{value_on_device}
use dist_lfsck.Scan.{Scan, inode_location, value_of}
use dist_lfsck.Tests.Mds.{sample_offsets, sample-Ready}
use dist_lfsck.Tests.Ost.{object_offsets, object-Ready}
use dist_lfsck.Tests.Sample.{sample_volume, sample_volume-IsByteVolume, object_volume}
use dist_lfsck.Xattr.{begins, entry_at, read_bytes}

-- A parent, and then a child in it and one elsewhere.
abbrev family : List Stmt
family =
    create mds 2
    ∷ set_fid mds 2 lma (record { f_seq = 0x200000400; f_oid = 1; f_ver = 0 })
    ∷ create mds 5
    ∷ set_fid mds 5 pfid (record { f_seq = 0x200000400; f_oid = 1; f_ver = 0 })
    ∷ merge_mds_parent
    ∷ create mds 6
    ∷ set_fid mds 6 pfid (record { f_seq = 0x200000400; f_oid = 2; f_ver = 0 })
    ∷ merge_mds_parent
    ∷ []

family_related : (apply_all family no_graph).edges mds_parent_of 2 5 ≡ true
family_related = refl

samples_ready : BothReady sample_volume sample_offsets object_volume object_offsets
samples_ready = record {
  bytes = sample_volume-IsByteVolume;
  mds_ready = sample-Ready;
  ost_ready = object-Ready;
}

abbrev mds_end : Scan
mds_end = (mds_scan-sends sample_volume sample_offsets sample_volume-IsByteVolume sample-Ready).0

abbrev ost_end : Scan
ost_end = (ost_scan-sends object_volume object_offsets object-Ready).0

mds_ends : mds_scan sample_volume ≡ exit mds_end 0
mds_ends = (mds_scan-sends sample_volume sample_offsets sample_volume-IsByteVolume sample-Ready).1

ost_ends : ost_scan object_volume ≡ exit ost_end 0
ost_ends = (ost_scan-sends object_volume object_offsets object-Ready).1

false-ne-true : ¬ (false ≡ true)
false-ne-true h = cc

-- Of the three entries, only the first is an LMA and only the last a LOV EA.
sample_lma :
    (r p : ℕ) (f : LuFid)
    → r < 1
    → Memᴰ p (sample_offsets (r + 1))
    → MdsLma sample_volume f (r + 1) (buffer_after sample_volume (suc r)) p
    → lu_fid_at (value_at sample_volume 1 (buffer_after sample_volume 1) 160) 8 ≡ f
unfolding inode_location value_of read_at load store entry_at read_bytes begins
sample_lma (suc r) p f low m h = absurd (omega arith)
sample_lma zero p f low (Memᴰ.head e) h = rw e at h.1
sample_lma zero p f low (Memᴰ.tail (Memᴰ.head e)) h = absurd (false-ne-true (rw e at h.0))
sample_lma zero p f low (Memᴰ.tail (Memᴰ.tail (Memᴰ.head e))) h =
    absurd (false-ne-true (rw e at h.0))
sample_lma zero p f low (Memᴰ.tail (Memᴰ.tail (Memᴰ.tail m))) h = elim m [ ]

sample_link :
    (r p : ℕ) (f : LuFid)
    → r < 1
    → Memᴰ p (sample_offsets (r + 1))
    → MdsLink sample_volume f (r + 1) (buffer_after sample_volume (suc r)) p
    → lu_fid_be_at (value_at sample_volume 1 (buffer_after sample_volume 1) 180) 26 ≡ f
unfolding inode_location value_of read_at load store entry_at read_bytes begins
sample_link (suc r) p f low m h = absurd (omega arith)
sample_link zero p f low (Memᴰ.head e) h = absurd (false-ne-true (rw e at h.0))
sample_link zero p f low (Memᴰ.tail (Memᴰ.head e)) h = rw e at h.1
sample_link zero p f low (Memᴰ.tail (Memᴰ.tail (Memᴰ.head e))) h =
    absurd (false-ne-true (rw e at h.0))
sample_link zero p f low (Memᴰ.tail (Memᴰ.tail (Memᴰ.tail m))) h = elim m [ ]

sample_lov :
    (r p n : ℕ)
    → r < 1
    → Memᴰ p (sample_offsets (r + 1))
    → MdsLov sample_volume n (r + 1) (buffer_after sample_volume (suc r)) p
    → load 4 (value_at sample_volume 1 (buffer_after sample_volume 1) 200) 32 ≡ n
unfolding inode_location value_of read_at load store entry_at read_bytes begins
sample_lov (suc r) p n low m h = absurd (omega arith)
sample_lov zero p n low (Memᴰ.head e) h = absurd (false-ne-true (rw e at h.0))
sample_lov zero p n low (Memᴰ.tail (Memᴰ.head e)) h = absurd (false-ne-true (rw e at h.0))
sample_lov zero p n low (Memᴰ.tail (Memᴰ.tail (Memᴰ.head e))) h = rw e at h.1
sample_lov zero p n low (Memᴰ.tail (Memᴰ.tail (Memᴰ.tail m))) h = elim m [ ]

sample_oid :
    (r p n : ℕ)
    → r < 1
    → Memᴰ p (object_offsets (r + 1))
    → OstOid object_volume n (r + 1) (buffer_after object_volume (suc r)) p
    → load 4 (value_on_device object_volume 1 (buffer_after object_volume 1) 160) 16 ≡ n
unfolding inode_location value_of read_at load store entry_at read_bytes begins
sample_oid (suc r) p n low m h = absurd (omega arith)
sample_oid zero p n low (Memᴰ.head e) h = rw e at h.1
sample_oid zero p n low (Memᴰ.tail (Memᴰ.head e)) h = absurd (false-ne-true (rw e at h.0))
sample_oid zero p n low (Memᴰ.tail (Memᴰ.tail m)) h = elim m [ ]

samples_OneEach : OneEach sample_volume sample_offsets object_volume object_offsets
samples_OneEach = record {
  one_lma = λ i f g x y.
      sym (sample_lma x.round x.entry f x.inside x.listed x.says)
      ∙ sample_lma y.round y.entry g y.inside y.listed y.says;
  one_link = λ i f g x y.
      sym (sample_link x.round x.entry f x.inside x.listed x.says)
      ∙ sample_link y.round y.entry g y.inside y.listed y.says;
  one_lov = λ i m n x y.
      sym (sample_lov x.round x.entry m x.inside x.listed x.says)
      ∙ sample_lov y.round y.entry n y.inside y.listed y.says;
  one_oid = λ i m n x y.
      sym (sample_oid x.round x.entry m x.inside x.listed x.says)
      ∙ sample_oid y.round y.entry n y.inside y.listed y.says;
}

samples_edge : fid_store.edge (database fid_store mds_end ost_end) ost_child_of 1 1
unfolding lov_stmts inode_location value_of read_at load store entry_at read_bytes begins lu_fid_at
samples_edge =
    rw
      (
        database-scans fid_store sample_volume sample_offsets object_volume object_offsets mds_end
            ost_end samples_ready mds_ends ost_ends,
        run_all-apply_all,
      )
      refl

scans-Related_example :
    Related sample_volume sample_offsets object_volume object_offsets ost_child_of 1 1
scans-Related_example =
    scans-Related fid_store sample_volume sample_offsets object_volume object_offsets mds_end
      ost_end ost_child_of 1 1 fid_store-IsLawful samples_ready mds_ends ost_ends samples_edge

scans-edge_iff_example :
    fid_store.edge (database fid_store mds_end ost_end) ost_child_of 1 1
    ↔ Related sample_volume sample_offsets object_volume object_offsets ost_child_of 1 1
scans-edge_iff_example =
    scans-edge_iff fid_store sample_volume sample_offsets object_volume object_offsets mds_end
      ost_end ost_child_of 1 1 fid_store-IsLawful samples_ready samples_OneEach mds_ends ost_ends tt
