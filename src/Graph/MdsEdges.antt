-- ===== src/Graph/MdsEdges.antt =====
-- The relations that the MDS scan leaves between the nodes of its disk.
use dist_lfsck.Cypher.{mds, lma, pfid, Stmt, create, set_fid, merge_mds_parent, fid_text}
use dist_lfsck.Graph.Attributes.{Attribute}
use dist_lfsck.Graph.Laws.{Agrees, run_all-append, edge-merged}
use dist_lfsck.Graph.MdsSources as MdsSources
use dist_lfsck.Graph.MdsSources.{OnMds, volume-OnMds}
use dist_lfsck.Graph.Order.{
  Memᴰ-append_left, Memᴰ-append_right, Agrees-right, Agrees-left, Written-right, rounds_of-around,
  has-rounds, edge-target, regroup,
}
use dist_lfsck.Graph.Scans.{MdsLink}
use dist_lfsck.Graph.Writes.{rounds_of}
use dist_lfsck.Graph.{Key, type_key, fid_key, mds_parent_of, GraphStore, IsLawful, run_all}
use dist_lfsck.Lustre.{LuFid, lu_fid_be_at}
use dist_lfsck.Mds.Inodes as MdsInodes
use dist_lfsck.Mds.Statements as MdsStatements
use dist_lfsck.Prelude.{
  ℕ, suc, ◌+◌, ◌<◌, ◌≡◌, refl, ap, ◌∙◌, ◌≢◌, List, ◌∷◌, ◌++◌, Bytes, ==_refl, arith, some, Memᴰ,
}
use dist_lfsck.Scan.Rounds.{buffer_after}
use dist_lfsck.Scan.{Volume, rounds, i_mode}

module _ (S : GraphStore) (law : IsLawful S) (v : Volume) (offsets : ℕ → List ℕ) where
  -- The statements of round r of the MDS scan.
  abbrev pub mds_round : ℕ → List Stmt
  mds_round r = MdsInodes.inode_stmts v (r + 1) (buffer_after v (suc r)) (offsets (r + 1))

  -- Those behind the one that creates the node.
  abbrev mds_sets : ℕ → List Stmt
  mds_sets r =
      MdsInodes.type_stmts (r + 1) (i_mode (buffer_after v (suc r)))
      ++ MdsStatements.entries_stmts v (r + 1) (buffer_after v (suc r)) (offsets (r + 1))

  pub mds_round-marked :
      (r : ℕ)
      → MdsInodes.HasAttrs (buffer_after v (suc r))
      → mds_round r ≡ create mds (r + 1) ∷ mds_sets r
  mds_round-marked r marked = rw marked

  pub mds_volume-Agrees :
      (i : ℕ) (k : Key) (t : Bytes)
      → k ≢ type_key
      → ((u : Bytes) → OnMds v offsets i k u → u ≡ t)
      → Agrees (MdsInodes.volume_stmts v offsets (rounds v.total_inodes) 0) mds i k t
  mds_volume-Agrees i k t other one s m u e =
      one u (volume-OnMds v offsets mds i k u other (s, m, e)).1

  -- What an attribute says, the node has after its round.
  pub mds_rounds-has :
      (n i : ℕ) (k : Key) (t : Bytes) (x : OnMds v offsets i k t)
      → x.round < n
      → Agrees (rounds_of mds_round n 0) mds i k t
      → S.node (run_all S (rounds_of mds_round n 0) S.empty) mds i
        × S.has (run_all S (rounds_of mds_round n 0) S.empty) mds i k t
  mds_rounds-has n i k t x below agrees = rw x.number (
      has-rounds S law mds_round n x.round mds (x.round + 1) (mds_sets x.round) S.empty k t below
        (mds_round-marked x.round x.marked)
        (Written-right mds (x.round + 1) k t
          (MdsInodes.type_stmts (x.round + 1) (i_mode (buffer_after v (suc x.round)))) _
          (MdsSources.entries-Written v (x.round + 1) _ (offsets (x.round + 1)) x.entry k t x.listed
            x.says))
        (rw x.number at agrees))

  -- A link EA relates its node to one of a lower inode number whose LMA has the FID.
  pub parent_edge :
      (i j : ℕ) (f : LuFid)
      → i < j
      → OnMds v offsets i (fid_key lma) (fid_text f)
      → Attribute v offsets j (MdsLink v f)
      → Agrees
          (MdsInodes.volume_stmts v offsets (rounds v.total_inodes) 0)
          mds
          i
          (fid_key lma)
          (fid_text f)
      → S.edge
          (run_all S (MdsInodes.volume_stmts v offsets (rounds v.total_inodes) 0) S.empty)
          mds_parent_of
          i
          j
  parent_edge i j f less x y agrees =
      let b = y.round in
      let m = buffer_after v (suc b) in
      let volume = MdsSources.volume-rounds_of v offsets (rounds v.total_inodes) 0 in
      let (after, around) = rounds_of-around mds_round (rounds v.total_inodes) b y.inside in
      let (xs, ys, link) =
        MdsSources.entries-around_link v (b + 1) m (offsets (b + 1)) y.entry y.listed y.says.0 in
      let s =
        set_fid mds (b + 1) pfid (lu_fid_be_at (MdsStatements.value_at v (b + 1) m y.entry) 26) in
      let types = MdsInodes.type_stmts (b + 1) (i_mode m) in
      let whole =
        volume
        ∙ around
        ∙ ap (λ z. rounds_of mds_round b 0 ++ (z ++ after))
            (mds_round-marked b y.marked ∙ ap (λ z. create mds (b + 1) ∷ (types ++ z)) link)
        ∙ ap (λ z. rounds_of mds_round b 0 ++ z)
            (regroup (create mds (b + 1)) types xs (s ∷ merge_mds_parent ∷ ys) after) in
      let agree_whole = rw whole at agrees in
      let (n, h) =
        mds_rounds-has b i (fid_key lma) (fid_text f) x (omega (arith, x.number, y.number, less))
          (Agrees-left mds i (fid_key lma) (fid_text f) (rounds_of mds_round b 0) _ agree_whole) in
      rw (whole, y.number)
        (edge-target S law (rounds_of mds_round b 0) (types ++ xs) (ys ++ after) mds (b + 1) s
          merge_mds_parent S.empty mds_parent_of i (fid_text f) refl refl
          (rw (==_refl (b + 1)) (ap (λ z. some (fid_text z)) y.says.1)) agree_whole n h)

  link-relates :
      (c : ℕ) (g : LuFid) (z : Attribute v offsets c (MdsLink v g))
      → Memᴰ merge_mds_parent (mds_round z.round)
  link-relates c g z =
      let r = z.round in
      let m = buffer_after v (suc r) in
      let (xs, ys, link) =
        MdsSources.entries-around_link v (r + 1) m (offsets (r + 1)) z.entry z.listed z.says.0 in
      rw (mds_round-marked r z.marked, link)
        (Memᴰ.tail (
          Memᴰ-append_right merge_mds_parent (MdsInodes.type_stmts (r + 1) (i_mode m)) _
            (Memᴰ-append_right merge_mds_parent xs _ (Memᴰ.tail (Memᴰ.head refl)))))

  -- A link EA relates all nodes of lower inode numbers whose properties are equal.
  pub later_edge :
      (i j c : ℕ) (f g : LuFid)
      → i < c
      → j < c
      → OnMds v offsets i (fid_key lma) (fid_text f)
      → OnMds v offsets j (fid_key pfid) (fid_text f)
      → Attribute v offsets c (MdsLink v g)
      → Agrees
          (MdsInodes.volume_stmts v offsets (rounds v.total_inodes) 0)
          mds
          i
          (fid_key lma)
          (fid_text f)
      → Agrees
          (MdsInodes.volume_stmts v offsets (rounds v.total_inodes) 0)
          mds
          j
          (fid_key pfid)
          (fid_text f)
      → S.edge
          (run_all S (MdsInodes.volume_stmts v offsets (rounds v.total_inodes) 0) S.empty)
          mds_parent_of
          i
          j
  later_edge i j c f g ic jc x y z one_lma one_link =
      let r = z.round in
      let m = buffer_after v (suc r) in
      let before = rounds_of mds_round r 0 in
      let (after, around) = rounds_of-around mds_round (rounds v.total_inodes) r z.inside in
      let whole = MdsSources.volume-rounds_of v offsets (rounds v.total_inodes) 0 ∙ around in
      let lma_agrees = rw whole at one_lma in
      let link_agrees = rw whole at one_link in
      let (n, h) =
        mds_rounds-has r i (fid_key lma) (fid_text f) x (omega (arith, x.number, z.number, ic))
          (Agrees-left mds i (fid_key lma) (fid_text f) before _ lma_agrees) in
      let (o, k) =
        mds_rounds-has r j (fid_key pfid) (fid_text f) y (omega (arith, y.number, z.number, jc))
          (Agrees-left mds j (fid_key pfid) (fid_text f) before _ link_agrees) in
      let behind = mds_round r ++ after in
      rw (whole, run_all-append S before behind S.empty)
        (edge-merged S law behind (run_all S before S.empty) mds_parent_of i j (fid_text f)
          (Agrees-right mds i (fid_key lma) (fid_text f) before behind lma_agrees)
          (Agrees-right mds j (fid_key pfid) (fid_text f) before behind link_agrees) n o h k
          merge_mds_parent
          (Memᴰ-append_left merge_mds_parent (mds_round r) after (link-relates c g z)) refl)
