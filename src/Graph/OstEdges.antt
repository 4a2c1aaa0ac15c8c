-- ===== src/Graph/OstEdges.antt =====
-- The relations that the OST scan leaves, in a database that the MDS scan has filled.
use dist_lfsck.Cypher.{
  mds, oss, lma, fid, Stmt, create, set_fid, merge_ost_child, merge_lov_parent, fid_text,
}
use dist_lfsck.Graph.Attributes.{Attribute}
use dist_lfsck.Graph.Laws.{Agrees, run_all-append, node-kept, has-kept, edge-merged}
use dist_lfsck.Graph.OstSources.{
  OnOst, volume-OnOst, volume-rounds_of, relations-set_nothing, entries-Written, entries-around_fid,
}
use dist_lfsck.Graph.Order.{
  Agrees-left, Written-right, rounds_of-around, has-rounds, edge-source, regroup,
}
use dist_lfsck.Graph.Scans.{OstFid}
use dist_lfsck.Graph.Writes.{rounds_of}
use dist_lfsck.Graph.{
  Key, type_key, ost_oid_key, f_oid_key, fid_key, ost_child_of, lov_parent_of, GraphStore, IsLawful,
  run_all,
}
use dist_lfsck.Lustre.{LuFid, lu_fid_at}
use dist_lfsck.Mds.Inodes.{HasAttrs}
use dist_lfsck.Ost.Inodes.{type_stmts, inode_stmts, volume_stmts, lov_stmts}
use dist_lfsck.Ost.Statements.{value_on_device, entries_stmts}
use dist_lfsck.Prelude.{
  ℕ, zero, suc, ◌+◌, ◌<◌, ◌≤◌, ◌≡◌, refl, ap, sym, ◌∙◌, ◌≢◌, inl, inr, List, ◌∷◌, ◌++◌,
  append_assoc, Bytes, ==_refl, ==_iff, ◌==◌, Bool-cases, arith, some, Memᴰ,
}
use dist_lfsck.Scan.Rounds.{buffer_after}
use dist_lfsck.Scan.{Volume, rounds, i_mode}
use dist_lfsck.Text.{hex}

-- Each number from j on has its statement.
relations-merge :
    (left j i : ℕ) → j ≤ i → i < left + j → Memᴰ (merge_lov_parent i) (lov_stmts left j)
unfolding lov_stmts
relations-merge zero j i h below = absurd (omega arith)
relations-merge (suc left) j i h below = elim (Bool-cases (j == i)) [
  | inl same ↦ Memᴰ.head (ap merge_lov_parent (sym ((==_iff j i).0 same)))
  | inr other ↦ Memᴰ.tail (relations-merge left (j + 1) i (ground arith) (omega arith))
]

module _ (S : GraphStore) (law : IsLawful S) (w : Volume) (offsets : ℕ → List ℕ) where
  -- The statements of round r of the OST scan, and those behind the one that creates the node.
  abbrev ost_round : ℕ → List Stmt
  ost_round r = inode_stmts w (r + 1) (buffer_after w (suc r)) (offsets (r + 1))

  abbrev ost_sets : ℕ → List Stmt
  ost_sets r =
      type_stmts (r + 1) (i_mode (buffer_after w (suc r)))
      ++ entries_stmts w (r + 1) (buffer_after w (suc r)) (offsets (r + 1))

  ost_round-marked :
      (r : ℕ) → HasAttrs (buffer_after w (suc r)) → ost_round r ≡ create oss (r + 1) ∷ ost_sets r
  ost_round-marked r marked = rw marked

  -- The scan leaves the properties of the MDS nodes alone.
  pub ost-Agrees :
      (left i : ℕ) (k : Key) (t : Bytes)
      → k ≢ type_key
      → Agrees (volume_stmts w offsets (rounds w.total_inodes) 0 ++ lov_stmts left 1) mds i k t
  ost-Agrees left i k t other s m u e =
      absurd (different (volume-OnOst w offsets left mds i k u other (s, m, e)).0)
    where
      different : mds ≢ oss
      different h = cc

  -- What an object's attribute says, its node has after the scan of the inodes.
  ost_volume-has :
      (i : ℕ) (k : Key) (t : Bytes) (g : S.Graph)
      → OnOst w offsets i k t
      → Agrees (volume_stmts w offsets (rounds w.total_inodes) 0) oss i k t
      → S.node (run_all S (volume_stmts w offsets (rounds w.total_inodes) 0) g) oss i
        × S.has (run_all S (volume_stmts w offsets (rounds w.total_inodes) 0) g) oss i k t
  ost_volume-has i k t g x agrees =
      let volume = volume-rounds_of w offsets (rounds w.total_inodes) 0 in
      rw (volume, x.number)
        (has-rounds S law ost_round (rounds w.total_inodes) x.round oss (x.round + 1)
          (ost_sets x.round) g k t x.inside (ost_round-marked x.round x.marked)
          (Written-right oss (x.round + 1) k t
            (type_stmts (x.round + 1) (i_mode (buffer_after w (suc x.round)))) _
            (entries-Written w (x.round + 1) _ (offsets (x.round + 1)) x.entry k t x.listed x.says))
          (rw (volume, x.number) at agrees))

  -- A filter FID relates its object to the MDS node whose `lma` has the FID.
  pub child_edge :
      (left i j : ℕ) (f : LuFid) (g : S.Graph)
      → Attribute w offsets i (OstFid w f)
      → S.node g mds j
      → S.has g mds j (fid_key lma) (fid_text f)
      → S.edge
          (run_all S (volume_stmts w offsets (rounds w.total_inodes) 0 ++ lov_stmts left 1) g)
          ost_child_of
          i
          j
  child_edge left i j f g x n h =
      let a = x.round in
      let m = buffer_after w (suc a) in
      let volume = volume-rounds_of w offsets (rounds w.total_inodes) 0 in
      let (after, around) = rounds_of-around ost_round (rounds w.total_inodes) a x.inside in
      let (xs, ys, filter) =
        entries-around_fid w (a + 1) m (offsets (a + 1)) x.entry x.listed x.says.0 in
      let s = set_fid oss (a + 1) fid (lu_fid_at (value_on_device w (a + 1) m x.entry) 0) in
      let types = type_stmts (a + 1) (i_mode m) in
      let before = rounds_of ost_round a 0 in
      let relations = lov_stmts left 1 in
      let whole =
        ap (λ z. z ++ relations)
          (volume
            ∙ around
            ∙ ap (λ z. before ++ (z ++ after))
                (ost_round-marked a x.marked ∙ ap (λ z. create oss (a + 1) ∷ (types ++ z)) filter)
            ∙ ap (λ z. before ++ z)
                (regroup (create oss (a + 1)) types xs (s ∷ merge_ost_child ∷ ys) after))
        ∙ append_assoc before _ relations
        ∙ ap (λ z. before ++ z) (append_assoc (create oss (a + 1) ∷ types ++ xs) _ relations) in
      let agrees = rw whole at (ost-Agrees left j (fid_key lma) (fid_text f) (λ e. cc)) in
      rw (whole, x.number)
        (edge-source S law before (types ++ xs) ((ys ++ after) ++ relations) oss (a + 1) s
          merge_ost_child g ost_child_of j (fid_text f) refl refl
          (rw (==_refl (a + 1)) (ap (λ z. some (fid_text z)) x.says.1)) agrees
          (node-kept S law before g mds j n)
          (has-kept S law before g mds j (fid_key lma) (fid_text f)
            (Agrees-left mds j (fid_key lma) (fid_text f) before _ agrees) n h))

  -- The last loop relates the MDS nodes of its numbers to the objects with their first object's id.
  pub lov_edge :
      (left i j id : ℕ) (g : S.Graph)
      → 1 ≤ i
      → i ≤ left
      → S.node g mds i
      → S.has g mds i ost_oid_key (hex id)
      → OnOst w offsets j f_oid_key (hex id)
      → Agrees (volume_stmts w offsets (rounds w.total_inodes) 0) oss j f_oid_key (hex id)
      → S.edge
          (run_all S (volume_stmts w offsets (rounds w.total_inodes) 0 ++ lov_stmts left 1) g)
          lov_parent_of
          i
          j
  lov_edge left i j id g low high n h y agrees =
      let volume = volume_stmts w offsets (rounds w.total_inodes) 0 in
      let (there, text) = ost_volume-has j f_oid_key (hex id) g y agrees in
      rw (run_all-append S volume (lov_stmts left 1) g) (
        edge-merged S law (lov_stmts left 1) (run_all S volume g) lov_parent_of i j (hex id)
          (λ s m u e. absurd (relations-set_nothing left 1 mds i ost_oid_key u (s, m, e)))
          (λ s m u e. absurd (relations-set_nothing left 1 oss j f_oid_key u (s, m, e)))
          (node-kept S law volume g mds i n) there
          (has-kept S law volume g mds i ost_oid_key (hex id)
            (Agrees-left mds i ost_oid_key (hex id) volume (lov_stmts left 1)
              (ost-Agrees left i ost_oid_key (hex id) (λ e. cc)))
            n h)
          text (merge_lov_parent i) (relations-merge left 1 i low (omega arith)) (==_refl i))
