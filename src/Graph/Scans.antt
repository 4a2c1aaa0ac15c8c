-- ===== src/Graph/Scans.antt =====
-- The relations in the database after both scans, against the two disks.
use dist_lfsck.Cypher.FidText.{fid_text_injective}
use dist_lfsck.Cypher.{mds, oss, lma, pfid, fid, Stmt}
use dist_lfsck.Disk.{Memory, load}
use dist_lfsck.Flow.{exit}
use dist_lfsck.Graph.Attributes.{Attribute, Attribute-map}
use dist_lfsck.Graph.Laws.{Written, run_all-append, edge-Written}
use dist_lfsck.Graph.MdsSources.{OnMds, volume-OnMds}
use dist_lfsck.Graph.OstSources.{OnOst, volume-OnOst}
use dist_lfsck.Graph.Writes.{Written-append}
use dist_lfsck.Graph.{
  Key, type_key, ost_oid_key, f_oid_key, fid_key, Relation, mds_parent_of, ost_child_of,
  lov_parent_of, source_label, source_key, target_label, target_key, GraphStore, IsLawful, run_all,
}
use dist_lfsck.Lustre.{LuFid, lu_fid_at, lu_fid_be_at}
use dist_lfsck.Mds.Inodes as MdsInodes
use dist_lfsck.Mds.Statements.{value_at}
use dist_lfsck.Mds.{mds_scan}
use dist_lfsck.Ost.Inodes as OstInodes
use dist_lfsck.Ost.Statements.{value_on_device}
use dist_lfsck.Ost.{mds_total_inodes, ost_scan}
use dist_lfsck.Prelude.{
  ℕ, suc, ◌+◌, ◌<◌, ◌≡◌, refl, ap, sym, ◌∙◌, ◌≢◌, inl, inr, true, List, ◌++◌, Bytes, codes,
}
use dist_lfsck.Report.{statements}
use dist_lfsck.Scan.Bytes.{IsByteVolume}
use dist_lfsck.Scan.Rounds.{buffer_after}
use dist_lfsck.Scan.{Volume, Scan, rounds}
use dist_lfsck.Text.Digits.{hex_injective}
use dist_lfsck.Xattr.{begins}

-- An LMA whose own FID is `f`, a link EA whose parent FID is `f`, and a LOV EA whose first object's
-- id begins with the 32 bits `n`, on the metadata server.
abbrev pub MdsLma : Volume → LuFid → ℕ → Memory → ℕ → Type 0
MdsLma v f i m p = (begins m (p + 16) (codes "lma") ≡ true) × (lu_fid_at (value_at v i m p) 8 ≡ f)

abbrev pub MdsLink : Volume → LuFid → ℕ → Memory → ℕ → Type 0
MdsLink v f i m p =
    (begins m (p + 16) (codes "link") ≡ true) × (lu_fid_be_at (value_at v i m p) 26 ≡ f)

abbrev pub MdsLov : Volume → ℕ → ℕ → Memory → ℕ → Type 0
MdsLov v n i m p = (begins m (p + 16) (codes "lov") ≡ true) × (load 4 (value_at v i m p) 32 ≡ n)

-- A filter FID `f`, and an LMA whose object id is `n`, on the object server.
abbrev pub OstFid : Volume → LuFid → ℕ → Memory → ℕ → Type 0
OstFid v f i m p =
    (begins m (p + 16) (codes "fid") ≡ true) × (lu_fid_at (value_on_device v i m p) 0 ≡ f)

abbrev pub OstOid : Volume → ℕ → ℕ → Memory → ℕ → Type 0
OstOid v n i m p =
    (begins m (p + 16) (codes "lma") ≡ true) × (load 4 (value_on_device v i m p) 16 ≡ n)

-- What the disks `v` and `w` of the two servers say about a relation between nodes i and j.
abbrev pub Related :
    (v : Volume) (offsets : ℕ → List ℕ) (w : Volume) (object_offsets : ℕ → List ℕ)
    → Relation
    → ℕ
    → ℕ
    → Type 0
Related v offsets w object_offsets mds_parent_of i j =
    (f : LuFid) × Attribute v offsets i (MdsLma v f) × Attribute v offsets j (MdsLink v f)
Related v offsets w object_offsets ost_child_of i j =
    (f : LuFid) × Attribute w object_offsets i (OstFid w f) × Attribute v offsets j (MdsLma v f)
Related v offsets w object_offsets lov_parent_of i j =
    (n : ℕ) × Attribute v offsets i (MdsLov v n) × Attribute w object_offsets j (OstOid w n)

-- The statements of both scans, the metadata server's first.
abbrev pub both_stmts :
    (v : Volume) (offsets : ℕ → List ℕ) (w : Volume) (object_offsets : ℕ → List ℕ) → List Stmt
both_stmts v offsets w object_offsets =
    MdsInodes.volume_stmts v offsets (rounds v.total_inodes) 0
    ++ (OstInodes.volume_stmts w object_offsets (rounds w.total_inodes) 0
        ++ OstInodes.lov_stmts mds_total_inodes 1)

module _ (v : Volume) (offsets : ℕ → List ℕ) (w : Volume) (object_offsets : ℕ → List ℕ) where
  mds_source :
      (i : ℕ) (k : Key) (u : Bytes)
      → k ≢ type_key
      → Written (both_stmts v offsets w object_offsets) mds i k u
      → OnMds v offsets i k u
  mds_source i k u other h =
      elim (Written-append (MdsInodes.volume_stmts v offsets (rounds v.total_inodes) 0) _ mds i k u
        h) [
          | inl here ↦ (volume-OnMds v offsets mds i k u other here).1
          | inr there ↦
              absurd
                (different (volume-OnOst w object_offsets mds_total_inodes mds i k u other there).0)
        ]
    where
      different : mds ≢ oss
      different e = cc

  ost_source :
      (i : ℕ) (k : Key) (u : Bytes)
      → k ≢ type_key
      → Written (both_stmts v offsets w object_offsets) oss i k u
      → OnOst w object_offsets i k u
  ost_source i k u other h =
      elim (Written-append (MdsInodes.volume_stmts v offsets (rounds v.total_inodes) 0) _ oss i k u
        h) [
          | inl here ↦ absurd (different (volume-OnMds v offsets oss i k u other here).0)
          | inr there ↦ (volume-OnOst w object_offsets mds_total_inodes oss i k u other there).1
        ]
    where
      different : oss ≢ mds
      different e = cc

  Written-Related :
      (r : Relation) (i j : ℕ) (t : Bytes)
      → Written (both_stmts v offsets w object_offsets) (source_label r) i (source_key r) t
      → Written (both_stmts v offsets w object_offsets) (target_label r) j (target_key r) t
      → Related v offsets w object_offsets r i j
  Written-Related mds_parent_of i j t a b =
      let x = mds_source i (fid_key lma) t (λ h. cc) a in
      let y = mds_source j (fid_key pfid) t (λ h. cc) b in
      (
        _,
        Attribute-map _ (MdsLma v _) x (λ h. (h.0, refl)),
        Attribute-map _ (MdsLink v _) y (λ h. (h.0, fid_text_injective _ _ (h.1 ∙ sym x.says.1))),
      )
  Written-Related ost_child_of i j t a b =
      let x = ost_source i (fid_key fid) t (λ h. cc) a in
      let y = mds_source j (fid_key lma) t (λ h. cc) b in
      (
        _,
        Attribute-map _ (OstFid w _) x (λ h. (h.0, refl)),
        Attribute-map _ (MdsLma v _) y (λ h. (h.0, fid_text_injective _ _ (h.1 ∙ sym x.says.1))),
      )
  Written-Related lov_parent_of i j t a b =
      let x = mds_source i ost_oid_key t (λ h. cc) a in
      let y = ost_source j f_oid_key t (λ h. cc) b in
      (
        _,
        Attribute-map _ (MdsLov v _) x (λ h. (h.0, refl)),
        Attribute-map _ (OstOid w _) y (λ h. (h.0, hex_injective _ _ (h.1 ∙ sym x.says.1))),
      )

-- The database when the two scans have run their statements, the metadata server's first.
abbrev pub database : (S : GraphStore) → Scan → Scan → S.Graph
database S t u = run_all S (statements u.events) (run_all S (statements t.events) S.empty)

pub database-both_stmts :
    (S : GraphStore) (t u : Scan) (xs ys : List Stmt)
    → statements t.events ≡ xs
    → statements u.events ≡ ys
    → database S t u ≡ run_all S (xs ++ ys) S.empty
database-both_stmts S t u xs ys e f = rw (e, f) (sym (run_all-append S xs ys S.empty))

-- The scan of each server's disk can read every inode to its end.
pub record BothReady (v : Volume) (offsets : ℕ → List ℕ) (w : Volume) (object_offsets : ℕ → List ℕ)
    : Type 0 where
  pub bytes : IsByteVolume v
  pub mds_ready :
      (k : ℕ) → k < v.total_inodes → MdsInodes.Ready v offsets (k + 1) (buffer_after v (suc k))
  pub ost_ready :
      (k : ℕ)
      → k < w.total_inodes
      → OstInodes.Ready w object_offsets (k + 1) (buffer_after w (suc k))

exit_injective : (s t : Scan) (a b : ℕ) → exit s a ≡ exit t b → s ≡ t
exit_injective s t a b h = cc

-- When both disks can be read to the end, the two scans have sent the statements of both disks.
pub database-scans :
    (S : GraphStore) (v : Volume) (offsets : ℕ → List ℕ) (w : Volume) (object_offsets : ℕ → List ℕ)
    (t u : Scan)
    → BothReady v offsets w object_offsets
    → mds_scan v ≡ exit t 0
    → ost_scan w ≡ exit u 0
    → database S t u ≡ run_all S (both_stmts v offsets w object_offsets) S.empty
database-scans S v offsets w object_offsets t u ready e f =
    let (t', e', a) = MdsInodes.mds_scan-sends v offsets ready.bytes ready.mds_ready in
    let (u', f', b) = OstInodes.ost_scan-sends w object_offsets ready.ost_ready in
    database-both_stmts S t u _ _
      (ap (λ s. statements s.events) (exit_injective t t' 0 0 (sym e ∙ e')) ∙ a)
      (ap (λ s. statements s.events) (exit_injective u u' 0 0 (sym f ∙ f')) ∙ b)

-- When on both disks the attributes of every inode that has any can be read to the end (a chain of
-- fewer entries than the tests granted to the loop, on the MDS with room for their values on the
-- stack and with magic numbers in the link EAs, on the OST with the values of the LMAs and filter
-- FIDs on the device) and the first block of each directory with attributes can be listed to its
-- end, and both scans have left by their last line, then in a database with the documented
-- behaviour that was empty two nodes are related only where the attributes of their inodes on the
-- disks say so: the FIDs of an LMA and of a link EA's parent, those of a filter FID and of an LMA,
-- or the object ids of a LOV EA and of an object's LMA are the same.
pub scans-Related :
    (S : GraphStore) (v : Volume) (offsets : ℕ → List ℕ) (w : Volume) (object_offsets : ℕ → List ℕ)
    (t u : Scan) (r : Relation) (i j : ℕ)
    → IsLawful S
    → BothReady v offsets w object_offsets
    → mds_scan v ≡ exit t 0
    → ost_scan w ≡ exit u 0
    → S.edge (database S t u) r i j
    → Related v offsets w object_offsets r i j
scans-Related S v offsets w object_offsets t u r i j law ready e f edge =
    let (text, x, y) =
      edge-Written S law (both_stmts v offsets w object_offsets) r i j
        (rw (database-scans S v offsets w object_offsets t u ready e f) at edge) in
    Written-Related v offsets w object_offsets r i j text x y
