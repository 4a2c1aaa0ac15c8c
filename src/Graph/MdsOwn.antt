-- ===== src/Graph/MdsOwn.antt =====
-- The relation that an inode's link EA merges when its own node is the parent.
use dist_lfsck.Cypher.{mds, lma, pfid, create, merge_mds_parent, fid_text}
use dist_lfsck.Graph.Attributes.{Attribute}
use dist_lfsck.Graph.Laws.{Agrees, run_all-append, node-kept, has-kept, edge-merged}
use dist_lfsck.Graph.MdsEdges.{mds_round, mds_round-marked, mds_rounds-has}
use dist_lfsck.Graph.MdsSources as MdsSources
use dist_lfsck.Graph.MdsSources.{OnMds, Says}
use dist_lfsck.Graph.Order.{
  Memᴰ-append_left, Memᴰ-append_right, Agrees-right, Agrees-left, Written-right, rounds_of-around,
  node-created, has-created, regroup,
}
use dist_lfsck.Graph.Scans.{MdsLink}
use dist_lfsck.Graph.Writes.{rounds_of}
use dist_lfsck.Graph.{fid_key, mds_parent_of, GraphStore, IsLawful, run_all}
use dist_lfsck.Lustre.{LuFid}
use dist_lfsck.Mds.Inodes as MdsInodes
use dist_lfsck.Mds.Statements.{entry_stmts, entries_stmts}
use dist_lfsck.Disk.{Memory}
use dist_lfsck.Prelude.{
  ℕ, suc, ◌+◌, ◌<◌, ◌≡◌, refl, ap, sym, ◌∙◌, true, List, [], ◌∷◌, ◌++◌, append_assoc, arith, Memᴰ,
  codes,
}
use dist_lfsck.Scan.Rounds.{buffer_after}
use dist_lfsck.Scan.{Volume, rounds, i_mode}
use dist_lfsck.Xattr.{begins}

-- The entries of the link EA's inode fall into two parts: an LMA is in the first, and the link EA
-- in the second.
pub record LmaFirst (v : Volume) (offsets : ℕ → List ℕ) (i : ℕ) (g : LuFid)
    (z : Attribute v offsets i (MdsLink v g)) : Type 0 where
  pub front : List ℕ
  pub back : List ℕ
  pub split : offsets (z.round + 1) ≡ front ++ back
  pub link_behind : Memᴰ z.entry back
  pub own : ℕ
  pub own_before : Memᴰ own front
  pub is_lma : begins (buffer_after v (suc z.round)) (own + 16) (codes "lma") ≡ true

entries_stmts-append :
    (v : Volume) (i : ℕ) (m : Memory) (ps qs : List ℕ)
    → entries_stmts v i m (ps ++ qs) ≡ entries_stmts v i m ps ++ entries_stmts v i m qs
entries_stmts-append v i m [] qs = refl
entries_stmts-append v i m (p ∷ ps) qs =
    ap (λ z. entry_stmts v i m p ++ z) (entries_stmts-append v i m ps qs)
    ∙ sym (append_assoc (entry_stmts v i m p) _ _)

module _ (S : GraphStore) (law : IsLawful S) (v : Volume) (offsets : ℕ → List ℕ) where
  -- Its LMA says f, and the link EA of a lower inode as well.
  pub own_edge :
      (i j : ℕ) (f g : LuFid) (z : Attribute v offsets i (MdsLink v g))
      (o : LmaFirst v offsets i g z)
      → j < i
      → Says v (z.round + 1) (buffer_after v (suc z.round)) o.own (fid_key lma) (fid_text f)
      → OnMds v offsets j (fid_key pfid) (fid_text f)
      → Agrees
          (MdsInodes.volume_stmts v offsets (rounds v.total_inodes) 0)
          mds
          i
          (fid_key lma)
          (fid_text f)
      → Agrees
          (MdsInodes.volume_stmts v offsets (rounds v.total_inodes) 0)
          mds
          j
          (fid_key pfid)
          (fid_text f)
      → S.edge
          (run_all S (MdsInodes.volume_stmts v offsets (rounds v.total_inodes) 0) S.empty)
          mds_parent_of
          i
          j
  own_edge i j f g z o less says y one_lma one_link =
      let r = z.round in
      let m = buffer_after v (suc r) in
      let before = rounds_of (mds_round S law v offsets) r 0 in
      let types = MdsInodes.type_stmts (r + 1) (i_mode m) in
      let front = entries_stmts v (r + 1) m o.front in
      let back = entries_stmts v (r + 1) m o.back in
      let (after, around) =
        rounds_of-around (mds_round S law v offsets) (rounds v.total_inodes) r z.inside in
      let whole =
        MdsSources.volume-rounds_of v offsets (rounds v.total_inodes) 0
        ∙ around
        ∙ ap (λ x. before ++ (x ++ after))
            (mds_round-marked S law v offsets r z.marked
              ∙ ap (λ ps. create mds (r + 1) ∷ (types ++ entries_stmts v (r + 1) m ps)) o.split
              ∙ ap (λ x. create mds (r + 1) ∷ (types ++ x))
                  (entries_stmts-append v (r + 1) m o.front o.back))
        ∙ ap (λ x. before ++ x) (regroup (create mds (r + 1)) types front back after) in
      let first = create mds (r + 1) ∷ (types ++ front) in
      let rest = back ++ after in
      let old = run_all S before S.empty in
      let lma_whole = rw z.number at (rw whole at one_lma) in
      let lma_agrees =
        Agrees-right mds (r + 1) (fid_key lma) (fid_text f) before (first ++ rest) lma_whole in
      let link_whole = rw whole at one_link in
      let link_agrees =
        Agrees-right mds j (fid_key pfid) (fid_text f) before (first ++ rest) link_whole in
      let (n, h) =
        mds_rounds-has S law v offsets r j (fid_key pfid) (fid_text f) y
          (omega (arith, y.number, z.number))
          (Agrees-left mds j (fid_key pfid) (fid_text f) before (first ++ rest) link_whole) in
      let written = Written-right mds (r + 1) (fid_key lma) (fid_text f) types front (
        MdsSources.entries-Written v (r + 1) m o.front o.own (fid_key lma) (fid_text f) o.own_before
          says) in
      let own_text =
        has-created S law mds (r + 1) (types ++ front) old (fid_key lma) (fid_text f)
          (λ q k.
            Agrees-left mds (r + 1) (fid_key lma) (fid_text f) first rest lma_agrees q
              (Memᴰ.tail k))
          written in
      let (xs, ys, link) =
        MdsSources.entries-around_link v (r + 1) m o.back z.entry o.link_behind z.says.0 in
      let merged : Memᴰ merge_mds_parent rest =
        Memᴰ-append_left merge_mds_parent back after
          (rw link (Memᴰ-append_right merge_mds_parent xs _ (Memᴰ.tail (Memᴰ.head refl)))) in
      rw
        (
          whole,
          z.number,
          run_all-append S before (first ++ rest) S.empty,
          run_all-append S first rest old,
        )
        (edge-merged S law rest (run_all S first old) mds_parent_of (r + 1) j (fid_text f)
          (Agrees-right mds (r + 1) (fid_key lma) (fid_text f) first rest lma_agrees)
          (Agrees-right mds j (fid_key pfid) (fid_text f) first rest link_agrees)
          (node-created S law mds (r + 1) (types ++ front) old) (node-kept S law first old mds j n)
          own_text
          (has-kept S law first old mds j (fid_key pfid) (fid_text f)
            (Agrees-left mds j (fid_key pfid) (fid_text f) first rest link_agrees) n h)
          merge_mds_parent merged refl)
