-- ===== src/Graph/Late.antt =====
-- Parents that the MDS scan reads after the last link EA: no statement relates them.
use dist_lfsck.Cypher.{Stmt, mds, lma}
use dist_lfsck.Flow.{exit}
use dist_lfsck.Graph.Attributes.{Attribute}
use dist_lfsck.Graph.Laws.{edge-Written, run_all-append}
use dist_lfsck.Graph.MdsSources.{inode-Says, volume-rounds_of}
use dist_lfsck.Graph.Scans.{MdsLma, MdsLink, BothReady, database, database-scans}
use dist_lfsck.Graph.Writes.{rounds_of, Written-rounds_of}
use dist_lfsck.Graph.{type_key, fid_key, mds_parent_of, GraphStore, IsLawful, run_all}
use dist_lfsck.Lustre.{LuFid}
use dist_lfsck.Mds.Inodes as MdsInodes
use dist_lfsck.Mds.{mds_scan}
use dist_lfsck.Ost.Inodes as OstInodes
use dist_lfsck.Ost.{mds_total_inodes, ost_scan}
use dist_lfsck.Prelude.{
  ℕ, suc, ◌+◌, ◌-◌, ◌<◌, ◌≡◌, ◌≢◌, refl, ap, ◌∙◌, inl, inr, arith, List, ◌++◌, append_assoc,
}
use dist_lfsck.Scan.Rounds.{buffer_after}
use dist_lfsck.Scan.{Volume, Scan, rounds}
use dist_lfsck.Graph.Relates.{
  AnyRelates, AnyRelates-append, edge-AnyRelates, inode-AnyRelates, rounds_of-AnyRelates,
  rounds_of-from, objects-relate_none, lov_loop-relates_none,
}

module _ (S : GraphStore) (law : IsLawful S) (v : Volume) (offsets : ℕ → List ℕ) (w : Volume)
    (object_offsets : ℕ → List ℕ) where
  abbrev mds_round : ℕ → List Stmt
  mds_round r = MdsInodes.inode_stmts v (r + 1) (buffer_after v (suc r)) (offsets (r + 1))

  before-no_edge :
      (x j : ℕ) → ¬ S.edge (run_all S (rounds_of mds_round x 0) S.empty) mds_parent_of (x + 1) j
  before-no_edge x j h =
      let (t, a, b) = edge-Written S law (rounds_of mds_round x 0) mds_parent_of (x + 1) j h in
      let (r, low, high, set) = Written-rounds_of mds_round x 0 mds (x + 1) (fid_key lma) t a in
      let says =
        inode-Says v (r + 1) (buffer_after v (suc r)) mds (x + 1) (fid_key lma) t (offsets (r + 1))
          lma_is_no_type set in
      omega (arith, says.2, high)
    where
      lma_is_no_type : fid_key lma ≢ type_key
      lma_is_no_type e = cc

  later-no_link :
      (x i : ℕ)
      → i ≡ x + 1
      → x < rounds v.total_inodes
      → ((k : ℕ) (f : LuFid) → Attribute v offsets k (MdsLink v f) → k < i)
      → ¬ AnyRelates (rounds_of mds_round (rounds v.total_inodes + 0 - x) x)
  later-no_link x i e inside last h =
      let (r, low, high, relates) = rounds_of-AnyRelates mds_round _ x h in
      let (marked, p, listed, is_link) =
        inode-AnyRelates v (r + 1) (buffer_after v (suc r)) (offsets (r + 1)) relates in
      let below = last (r + 1) _ (record {
        round = r;
        inside = omega (arith, high, inside);
        number = refl;
        marked = marked;
        entry = p;
        listed = listed;
        says = (is_link, refl);
      }) in
      omega (arith, below, low, e)

-- When on both disks the attributes of every inode that has any can be read to the end (a chain of
-- fewer entries than the tests granted to the loop, on the MDS with room for their values on the
-- stack and with magic numbers in the link EAs, on the OST with the values of the LMAs and filter
-- FIDs on the device) and the first block of each directory with attributes can be listed to its
-- end, both scans have left by their last line, and inode i, which has an LMA, is behind all that
-- have a link EA, then in a database with the documented behaviour that was empty no relation
-- between MDS nodes starts at the node of i, whatever the link EAs and the LMA of i say.
pub late_parent_unrelated :
    (S : GraphStore) (v : Volume) (offsets : ℕ → List ℕ) (w : Volume) (object_offsets : ℕ → List ℕ)
    (t u : Scan) (i j : ℕ) (f : LuFid)
    → IsLawful S
    → BothReady v offsets w object_offsets
    → mds_scan v ≡ exit t 0
    → ost_scan w ≡ exit u 0
    → Attribute v offsets i (MdsLma v f)
    → ((k : ℕ) (g : LuFid) → Attribute v offsets k (MdsLink v g) → k < i)
    → ¬ S.edge (database S t u) mds_parent_of i j
late_parent_unrelated S v offsets w object_offsets t u i j f law ready e d parent last h =
    let x = parent.round in
    let stmts =
      λ (r : ℕ). MdsInodes.inode_stmts v (r + 1) (buffer_after v (suc r)) (offsets (r + 1)) in
    let n = rounds v.total_inodes in
    let theirs =
      OstInodes.volume_stmts w object_offsets (rounds w.total_inodes) 0
      ++ OstInodes.lov_stmts mds_total_inodes 1 in
    let tail = rounds_of stmts (n + 0 - x) x in
    let first : x - 0 ≡ x = omega arith in
    let split =
      volume-rounds_of v offsets n 0
      ∙ rounds_of-from stmts n 0 x (omega arith) (omega (arith, parent.inside))
      ∙ ap (λ k. rounds_of stmts k 0 ++ tail) first in
    let whole = ap (λ ss. ss ++ theirs) split ∙ append_assoc (rounds_of stmts x 0) tail theirs in
    let edge =
      rw
        (
          database-scans S v offsets w object_offsets t u ready e d,
          whole,
          run_all-append S (rounds_of stmts x 0) (tail ++ theirs) S.empty,
        )
        at h in
    elim (edge-AnyRelates S law (tail ++ theirs) (run_all S (rounds_of stmts x 0) S.empty) i j
      edge) [
        | inl early ↦
            before-no_edge S law v offsets w object_offsets x j (rw parent.number at early)
        | inr relates ↦ elim (AnyRelates-append tail theirs relates) [
          | inl later ↦
              later-no_link S law v offsets w object_offsets x i parent.number parent.inside last
                later
          | inr objects ↦
              elim (AnyRelates-append _ (OstInodes.lov_stmts mds_total_inodes 1) objects) [
                | inl inodes ↦ objects-relate_none w object_offsets (rounds w.total_inodes) 0 inodes
                | inr lov ↦ lov_loop-relates_none mds_total_inodes 1 lov
              ]
        ]
      ]
