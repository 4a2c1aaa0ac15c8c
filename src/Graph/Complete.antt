-- ===== src/Graph/Complete.antt =====
-- The relations in the database after both scans: which ones the disks call for.
use dist_lfsck.Cypher.{mds, oss, lma, pfid, fid_text}
use dist_lfsck.Flow.{exit}
use dist_lfsck.Graph.Attributes.{Attribute, Attribute-map}
use dist_lfsck.Graph.Laws.{run_all-append, edge-kept}
use dist_lfsck.Graph.MdsEdges.{mds_volume-Agrees, mds_rounds-has, parent_edge, later_edge}
use dist_lfsck.Graph.MdsOwn.{LmaFirst, own_edge}
use dist_lfsck.Graph.MdsSources.{OnMds, Says, volume-rounds_of}
use dist_lfsck.Graph.OneEach.{OneEach, one_lma_text, one_link_text, one_lov_text, one_oid_text}
use dist_lfsck.Graph.OstEdges.{child_edge, lov_edge}
use dist_lfsck.Graph.OstSources.{volume-OnOst}
use dist_lfsck.Graph.Order.{Memᴰ-append_left, Written-left}
use dist_lfsck.Graph.Scans.{
  MdsLma, MdsLink, MdsLov, OstOid, Related, both_stmts, BothReady, database, database-scans,
  scans-Related,
}
use dist_lfsck.Graph.{
  Key, type_key, ost_oid_key, f_oid_key, fid_key, Relation, mds_parent_of, ost_child_of,
  lov_parent_of, GraphStore, IsLawful, run_all,
}
use dist_lfsck.Lustre.{LuFid}
use dist_lfsck.Mds.Inodes as MdsInodes
use dist_lfsck.Mds.{mds_scan}
use dist_lfsck.Ost.Inodes as OstInodes
use dist_lfsck.Ost.{mds_total_inodes, ost_scan}
use dist_lfsck.Prelude.{
  ℕ, suc, ◌+◌, ◌⊎◌, ◌<◌, ◌≤◌, ◌≡◌, ◌↔◌, ◌≢◌, refl, ap, arith, ltb, ltb→lt, Bool-cases, inl, inr,
  List, Bytes,
}
use dist_lfsck.Scan.Rounds.{buffer_after}
use dist_lfsck.Scan.{Volume, Scan, rounds}
use dist_lfsck.Text.{hex}

lma_is_no_type : fid_key lma ≢ type_key
lma_is_no_type e = cc

pfid_is_no_type : fid_key pfid ≢ type_key
pfid_is_no_type e = cc

ost_oid_is_no_type : ost_oid_key ≢ type_key
ost_oid_is_no_type e = cc

f_oid_is_no_type : f_oid_key ≢ type_key
f_oid_is_no_type e = cc

-- The scans come to merge the relation when both properties are set. An inode with a link EA that
-- has a higher inode number than the parent, and one that is not lower than the child's, is read,
-- which may be the child; or the parent is one itself, behind the child and with its LMA before
-- the link EA. And a file's number is one of those that the last loop of the OST scan goes through.
abbrev pub InOrder : Volume → (ℕ → List ℕ) → Relation → ℕ → ℕ → Type 0
InOrder v offsets mds_parent_of i j =
    ((c : ℕ) × (g : LuFid) × Attribute v offsets c (MdsLink v g) × (i < c) × (j ≤ c))
    ⊎ ((g : LuFid) × (z : Attribute v offsets i (MdsLink v g)) × LmaFirst v offsets i g z × (j < i))
InOrder v offsets ost_child_of i j = Unit {0}
InOrder v offsets lov_parent_of i j = i ≤ mds_total_inodes

module _ (S : GraphStore) (law : IsLawful S) (v : Volume) (offsets : ℕ → List ℕ) where
  -- The MDS scan gives each node what its inode's attributes agree on.
  mds_volume-has :
      (i : ℕ) (k : Key) (t : Bytes)
      → k ≢ type_key
      → OnMds v offsets i k t
      → ((u : Bytes) → OnMds v offsets i k u → u ≡ t)
      → S.node
          (run_all S (MdsInodes.volume_stmts v offsets (rounds v.total_inodes) 0) S.empty)
          mds
          i
        × S.has
            (run_all S (MdsInodes.volume_stmts v offsets (rounds v.total_inodes) 0) S.empty)
            mds
            i
            k
            t
  mds_volume-has i k t other x one =
      let volume = volume-rounds_of v offsets (rounds v.total_inodes) 0 in
      rw volume (
        mds_rounds-has S law v offsets (rounds v.total_inodes) i k t x x.inside
          (rw volume at (mds_volume-Agrees S law v offsets i k t other one)))

  -- What the LMA before the link EA says.
  own-Says :
      (w : Volume) (object_offsets : ℕ → List ℕ) (i : ℕ) (f g : LuFid)
      (z : Attribute v offsets i (MdsLink v g)) (o : LmaFirst v offsets i g z)
      → OneEach v offsets w object_offsets
      → Attribute v offsets i (MdsLma v f)
      → Says v (z.round + 1) (buffer_after v (suc z.round)) o.own (fid_key lma) (fid_text f)
  own-Says w object_offsets i f g z o one x =
      let own : Attribute v offsets i (MdsLma v _) = record {
        round = z.round;
        inside = z.inside;
        number = z.number;
        marked = z.marked;
        entry = o.own;
        listed = rw o.split (Memᴰ-append_left o.own o.front o.back o.own_before);
        says = (o.is_lma, refl);
      } in
      (o.is_lma, ap fid_text (one.one_lma i _ f own x))

  both-edge :
      (w : Volume) (object_offsets : ℕ → List ℕ) (r : Relation) (i j : ℕ)
      → OneEach v offsets w object_offsets
      → InOrder v offsets r i j
      → Related v offsets w object_offsets r i j
      → S.edge (run_all S (both_stmts v offsets w object_offsets) S.empty) r i j
  both-edge w object_offsets mds_parent_of i j one order (f, x, y) =
      let mine = MdsInodes.volume_stmts v offsets (rounds v.total_inodes) 0 in
      let text : OnMds v offsets i (fid_key lma) (fid_text f) =
        Attribute-map (MdsLma v f) _ x (λ h. (h.0, ap fid_text h.1)) in
      let parent : OnMds v offsets j (fid_key pfid) (fid_text f) =
        Attribute-map (MdsLink v f) _ y (λ h. (h.0, ap fid_text h.1)) in
      let agrees =
        mds_volume-Agrees S law v offsets i (fid_key lma) (fid_text f) lma_is_no_type
          (one_lma_text v offsets w object_offsets one i f x) in
      let link_agrees =
        mds_volume-Agrees S law v offsets j (fid_key pfid) (fid_text f) pfid_is_no_type
          (one_link_text v offsets w object_offsets one j f y) in
      let edge : S.edge (run_all S mine S.empty) mds_parent_of i j = elim order [
        | inr (g, z, o, less) ↦
            own_edge S law v offsets i j f g z o less (own-Says w object_offsets i f g z o one x)
              parent agrees link_agrees
        | inl (c, g, z, ic, jc) ↦ elim (Bool-cases (ltb j c)) [
          | inl below ↦
              later_edge S law v offsets i j c f g ic (ltb→lt j c below) text parent z agrees
                link_agrees
          | inr not_below ↦ parent_edge S law v offsets i j f (ground (arith, ic, jc)) text y agrees
        ]
      ] in
      rw (run_all-append S mine _ S.empty)
        (edge-kept S law _ (run_all S mine S.empty) mds_parent_of i j edge)
  both-edge w object_offsets ost_child_of i j one order (f, x, y) =
      let mine = MdsInodes.volume_stmts v offsets (rounds v.total_inodes) 0 in
      let text : OnMds v offsets j (fid_key lma) (fid_text f) =
        Attribute-map (MdsLma v f) _ y (λ h. (h.0, ap fid_text h.1)) in
      let (n, h) =
        mds_volume-has j (fid_key lma) (fid_text f) lma_is_no_type text
          (one_lma_text v offsets w object_offsets one j f y) in
      rw (run_all-append S mine _ S.empty)
        (child_edge S law w object_offsets mds_total_inodes i j f (run_all S mine S.empty) x n h)
  both-edge w object_offsets lov_parent_of i j one order (id, x, y) =
      let mine = MdsInodes.volume_stmts v offsets (rounds v.total_inodes) 0 in
      let theirs = OstInodes.volume_stmts w object_offsets (rounds w.total_inodes) 0 in
      let text : OnMds v offsets i ost_oid_key (hex id) =
        Attribute-map (MdsLov v id) _ x (λ h. (h.0, ap hex h.1)) in
      let (n, h) =
        mds_volume-has i ost_oid_key (hex id) ost_oid_is_no_type text
          (one_lov_text v offsets w object_offsets one i id x) in
      rw (run_all-append S mine _ S.empty) (
        lov_edge S law w object_offsets mds_total_inodes i j id (run_all S mine S.empty)
          (omega (arith, x.number)) order n h
          (Attribute-map (OstOid w id) _ y (λ e. (e.0, ap hex e.1)))
          (λ s m u e.
            one_oid_text v offsets w object_offsets one j id y u
              (volume-OnOst w object_offsets mds_total_inodes oss j f_oid_key u f_oid_is_no_type
                (Written-left oss j f_oid_key u theirs _ (s, m, e))).1))

-- When on both disks the attributes of every inode that has any can be read to the end (a chain of
-- fewer entries than the tests granted to the loop, on the MDS with room for their values on the
-- stack and with magic numbers in the link EAs, on the OST with the values of the LMAs and filter
-- FIDs on the device) and the first block of each directory with attributes can be listed to its
-- end, no inode has attributes of one kind that contradict each other, and both scans have left by
-- their last line, then a database with the documented behaviour that was empty relates two nodes
-- exactly where the attributes on the disks do: for the relation between MDS nodes, if some inode
-- with a link EA has a number above the parent's and not below the child's, or the parent has one
-- itself, behind its LMA, and a number above the child's; for the one from files to their objects,
-- if the file's inode number is at most 700; for the one from objects to files, always.
pub scans-edge_iff :
    (S : GraphStore) (v : Volume) (offsets : ℕ → List ℕ) (w : Volume) (object_offsets : ℕ → List ℕ)
    (t u : Scan) (r : Relation) (i j : ℕ)
    → IsLawful S
    → BothReady v offsets w object_offsets
    → OneEach v offsets w object_offsets
    → mds_scan v ≡ exit t 0
    → ost_scan w ≡ exit u 0
    → InOrder v offsets r i j
    → S.edge (database S t u) r i j ↔ Related v offsets w object_offsets r i j
scans-edge_iff S v offsets w object_offsets t u r i j law ready one e f order = (
  scans-Related S v offsets w object_offsets t u r i j law ready e f,
  λ related.
      rw (database-scans S v offsets w object_offsets t u ready e f)
        (both-edge S law v offsets w object_offsets r i j one order related),
)
