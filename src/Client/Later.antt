-- ===== src/Client/Later.antt =====
-- How often the clients relate two nodes.
use dist_lfsck.Client.Ties.{TieStore, IsLawful, same_tie, joined, run_queries}
use dist_lfsck.Client.{
  Tie, parent_of, mds_parent_of, oss_child_of, creating, merging, create_mds, create_oss, relate,
  Plan, later_queries,
}
use dist_lfsck.Prelude.{ℕ, ◌≡◌, ◌≢◌, refl, ◌∙◌, false, none}
use dist_lfsck.Client.Once.{
  once, Exact, Untied, Untied-empty, Untied-create_mds, Untied-create_oss, Untied-relate,
  Exact-relate, Exact-create_oss, AtMostOnce-create_mds, AtMostOnce-create_oss, AtMostOnce-relate,
  Exact-creating, Exact-merging, mds_at-create_other, oss_at-create_other,
}

-- The nodes of one kind have different inode numbers.
pub record Distinct (p : Plan) : Type 0 where
  pub m1_root : p.m1.inode_num ≢ p.root.inode_num
  pub m2_root : p.m2.inode_num ≢ p.root.inode_num
  pub m2_m1 : p.m2.inode_num ≢ p.m1.inode_num
  pub objects : p.second.inode_num ≢ p.first.inode_num

module _ (S : TieStore) (law : IsLawful S) (p : Plan) (d : Distinct p) where
  -- The graph after the first two nodes, with all MDS nodes, and with all nodes.
  abbrev g2 : S.Graph
  g2 = S.run (create_mds p.m1) (S.run (create_mds p.root) S.empty)

  abbrev g3 : S.Graph
  g3 = S.run (relate creating parent_of) g2

  abbrev g5 : S.Graph
  g5 = S.run (relate merging parent_of) (S.run (create_mds p.m2) g3)

  abbrev g6 : S.Graph
  g6 = S.run (create_oss p.first) g5

  abbrev g8 : S.Graph
  g8 = S.run (relate creating oss_child_of) (S.run (relate creating mds_parent_of) g6)

  abbrev g9 : S.Graph
  g9 = S.run (create_oss p.second) g8

  abbrev g10 : S.Graph
  g10 = S.run (relate merging mds_parent_of) g9

  m2_fresh : S.mds_at g3 p.m2.inode_num ≡ none
  m2_fresh =
      let g1 = S.run (create_mds p.root) S.empty in
      let root_fresh = law.mds-empty p.root.inode_num in
      law.mds-relate creating parent_of g2 p.m2.inode_num
      ∙ mds_at-create_other S law p.m1 g1 p.m2.inode_num
          (mds_at-create_other S law p.root S.empty p.m1.inode_num root_fresh
            (law.mds-empty p.m1.inode_num) d.m1_root)
          (mds_at-create_other S law p.root S.empty p.m2.inode_num root_fresh
            (law.mds-empty p.m2.inode_num) d.m2_root)
          d.m2_m1

  no_object : (i : ℕ) → S.oss_at g5 i ≡ none
  no_object i =
      law.oss-relate merging parent_of (S.run (create_mds p.m2) g3) i
      ∙ law.oss-create_mds p.m2 g3 i
      ∙ law.oss-relate creating parent_of g2 i
      ∙ law.oss-create_mds p.m1 (S.run (create_mds p.root) S.empty) i
      ∙ law.oss-create_mds p.root S.empty i
      ∙ law.oss-empty i

  second_fresh : S.oss_at g8 p.second.inode_num ≡ none
  second_fresh =
      law.oss-relate creating oss_child_of (S.run (relate creating mds_parent_of) g6)
        p.second.inode_num
      ∙ law.oss-relate creating mds_parent_of g6 p.second.inode_num
      ∙ oss_at-create_other S law p.first g5 p.second.inode_num (no_object p.first.inode_num)
          (no_object p.second.inode_num) d.objects

  g2-Untied : (u : Tie) → Untied S law g2 u
  g2-Untied u =
      Untied-create_mds S law p.m1 (S.run (create_mds p.root) S.empty) u
        (Untied-create_mds S law p.root S.empty u (Untied-empty S law u))

  g6-Untied : (u : Tie) → same_tie parent_of u ≡ false → Untied S law g6 u
  g6-Untied u other = Untied-create_oss S law p.first g5 u (
      Untied-relate S law merging parent_of (S.run (create_mds p.m2) g3) u other (
        Untied-create_mds S law p.m2 g3 u
          (Untied-relate S law creating parent_of g2 u other (g2-Untied u))))

  g5-Exact : Exact S law g5 parent_of
  g5-Exact = Exact-merging S law parent_of (S.run (create_mds p.m2) g3) (
      AtMostOnce-create_mds S law p.m2 g3 parent_of m2_fresh
        (Exact-creating S law parent_of g2 (g2-Untied parent_of)))

  end-Exact : (t : Tie) → Exact S law (S.run (relate merging oss_child_of) g10) t
  end-Exact parent_of =
      let g7 = S.run (relate creating mds_parent_of) g6 in
      Exact-relate S law merging oss_child_of g10 parent_of refl (
        Exact-relate S law merging mds_parent_of g9 parent_of refl (
          Exact-create_oss S law p.second g8 (
            Exact-relate S law creating oss_child_of g7 parent_of refl (
              Exact-relate S law creating mds_parent_of g6 parent_of refl
                (Exact-create_oss S law p.first g5 g5-Exact)))))
  end-Exact mds_parent_of = Exact-relate S law merging oss_child_of g10 mds_parent_of refl (
      Exact-merging S law mds_parent_of g9 (
        AtMostOnce-create_oss S law p.second g8 mds_parent_of second_fresh (
          Exact-relate S law creating oss_child_of (S.run (relate creating mds_parent_of) g6)
            mds_parent_of refl
            (Exact-creating S law mds_parent_of g6 (g6-Untied mds_parent_of refl)))))
  end-Exact oss_child_of =
      let g7 = S.run (relate creating mds_parent_of) g6 in
      Exact-merging S law oss_child_of g10 (
        AtMostOnce-relate S law merging mds_parent_of g9 oss_child_of refl (
          AtMostOnce-create_oss S law p.second g8 oss_child_of second_fresh (
            Exact-creating S law oss_child_of g7 (
              Untied-relate S law creating mds_parent_of g6 oss_child_of refl
                (g6-Untied oss_child_of refl)))))

-- In a database with the documented behaviour that was empty, the later client's statements, for
-- any nodes of different inode numbers, relate each two nodes once if they match, and no others.
pub later_client_once :
    (S : TieStore) (p : Plan) (t : Tie) (i j : ℕ)
    → IsLawful S
    → Distinct p
    → S.count (run_queries S (later_queries p) S.empty) t i j
      ≡ once (joined S (run_queries S (later_queries p) S.empty) t i j)
unfolding run_queries
later_client_once S p t i j law d = end-Exact S law p d t i j
