-- ===== src/Client/Earlier.antt =====
-- The relations that the earlier client leaves twice.
use dist_lfsck.Client.Later.{Distinct}
use dist_lfsck.Client.Once.{
  once, Untied-empty, Untied-create_mds, Exact-creating, mds_at-create_other, joined-create_mds,
  joined-relate, count-relate_other,
}
use dist_lfsck.Client.Ties.{TieStore, IsLawful, joined, run_queries}
use dist_lfsck.Client.{
  parent_of, mds_parent_of, oss_child_of, creating, create_mds, create_oss, relate, Plan,
  earlier_queries,
}
use dist_lfsck.Prelude.{◌≡◌, refl, ap, ◌∙◌, arith, true, none}

module _ (S : TieStore) (law : IsLawful S) (p : Plan) (d : Distinct p) where
  abbrev g1 : S.Graph
  g1 = S.run (create_mds p.root) S.empty

  abbrev g2 : S.Graph
  g2 = S.run (create_mds p.m1) g1

  abbrev g3 : S.Graph
  g3 = S.run (relate creating parent_of) g2

  abbrev g4 : S.Graph
  g4 = S.run (create_mds p.m2) g3

  m1_fresh : S.mds_at g1 p.m1.inode_num ≡ none
  m1_fresh =
      mds_at-create_other S law p.root S.empty p.m1.inode_num (law.mds-empty p.root.inode_num)
        (law.mds-empty p.m1.inode_num) d.m1_root

  m2_fresh : S.mds_at g3 p.m2.inode_num ≡ none
  m2_fresh =
      law.mds-relate creating parent_of g2 p.m2.inode_num
      ∙ mds_at-create_other S law p.m1 g1 p.m2.inode_num m1_fresh
          (mds_at-create_other S law p.root S.empty p.m2.inode_num (law.mds-empty p.root.inode_num)
            (law.mds-empty p.m2.inode_num) d.m2_root)
          d.m2_m1

  -- The child matches the root as soon as both are there.
  joined_at_g2 :
      p.m1.link_ea ≡ p.root.lma → joined S g2 parent_of p.root.inode_num p.m1.inode_num ≡ true
  joined_at_g2 child = ground (
    arith,
    law.mds-create_mds p.m1 g1 p.root.inode_num m1_fresh,
    law.mds-create_mds p.m1 g1 p.m1.inode_num m1_fresh,
    law.mds-create_mds p.root S.empty p.root.inode_num (law.mds-empty p.root.inode_num),
    d.m1_root,
    child,
  )

  once_at_g3 : p.m1.link_ea ≡ p.root.lma → S.count g3 parent_of p.root.inode_num p.m1.inode_num ≡ 1
  once_at_g3 child =
      Exact-creating S law parent_of g2
        (Untied-create_mds S law p.m1 g1 parent_of
          (Untied-create_mds S law p.root S.empty parent_of (Untied-empty S law parent_of)))
        p.root.inode_num p.m1.inode_num
      ∙ ap once (
          joined-relate S law creating parent_of g2 parent_of p.root.inode_num p.m1.inode_num
          ∙ joined_at_g2 child)

  twice_at_g5 :
      p.m1.link_ea ≡ p.root.lma
      → S.count (S.run (relate creating parent_of) g4) parent_of p.root.inode_num p.m1.inode_num ≡ 2
  twice_at_g5 child =
      let i = p.root.inode_num in
      let j = p.m1.inode_num in
      let still = joined-relate S law creating parent_of g2 parent_of i j ∙ joined_at_g2 child in
      ground (
        arith,
        law.count-creating parent_of g4 parent_of i j,
        law.count-create_mds p.m2 g3 parent_of i j,
        once_at_g3 child,
        joined-create_mds S law p.m2 g3 parent_of i j m2_fresh,
        still,
      )

-- In a database with the documented behaviour that was empty, the earlier client's statements, for
-- nodes of different inode numbers of which the first child names the root, relate the root to that
-- child twice.
pub earlier_client_twice :
    (S : TieStore) (p : Plan)
    → IsLawful S
    → Distinct p
    → p.m1.link_ea ≡ p.root.lma
    → S.count (run_queries S (earlier_queries p) S.empty) parent_of p.root.inode_num p.m1.inode_num
      ≡ 2
unfolding run_queries
earlier_client_twice S p law d child =
    let i = p.root.inode_num in
    let j = p.m1.inode_num in
    let g5 = S.run (relate creating parent_of) (g4 S law p d) in
    let g6 = S.run (create_oss p.first) g5 in
    let g7 = S.run (relate creating mds_parent_of) g6 in
    let g8 = S.run (relate creating oss_child_of) g7 in
    let g9 = S.run (create_oss p.second) g8 in
    count-relate_other S law creating oss_child_of (S.run (relate creating mds_parent_of) g9)
      parent_of i j refl
    ∙ count-relate_other S law creating mds_parent_of g9 parent_of i j refl
    ∙ law.count-create_oss p.second g8 parent_of i j
    ∙ count-relate_other S law creating oss_child_of g7 parent_of i j refl
    ∙ count-relate_other S law creating mds_parent_of g6 parent_of i j refl
    ∙ law.count-create_oss p.first g5 parent_of i j
    ∙ twice_at_g5 S law p d child
