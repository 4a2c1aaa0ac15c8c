-- ===== src/Client/Ties.antt =====
-- A database that counts the relations between two nodes, as a parameter, and what the Cypher
-- manual says of the clients' statements.
use dist_lfsck.Client.{
  MdsNode, OssNode, Tie, parent_of, mds_parent_of, oss_child_of, Manner, creating, merging, Query,
  create_mds, create_oss, relate,
}
use dist_lfsck.Prelude.{
  ℕ, ◌+◌, ◌≡◌, Bool, true, false, ◌&&◌, ◌==◌, if◌then◌else◌, Option, none, some, List, [], ◌∷◌,
}

-- Nodes are found by their inode numbers.
pub record TieStore : Type 1 where
  pub Graph : Type 0
  pub empty : Graph
  pub run : Query → Graph → Graph
  pub mds_at : Graph → ℕ → Option MdsNode
  pub oss_at : Graph → ℕ → Option OssNode
  pub count : Graph → Tie → ℕ → ℕ → ℕ

abbrev pub same_tie : Tie → Tie → Bool
same_tie parent_of parent_of = true
same_tie mds_parent_of mds_parent_of = true
same_tie oss_child_of oss_child_of = true
same_tie t u = false

abbrev pub mds_joined : Option MdsNode → Option MdsNode → Bool
mds_joined none a = false
mds_joined (some b) none = false
mds_joined (some b) (some a) = a.link_ea == b.lma

abbrev pub lov_joined : Option MdsNode → Option OssNode → Bool
lov_joined none b = false
lov_joined (some a) none = false
lov_joined (some a) (some b) = a.lov_ea == b.lma

abbrev pub fid_joined : Option OssNode → Option MdsNode → Bool
fid_joined none a = false
fid_joined (some b) none = false
fid_joined (some b) (some a) = a.lma == b.fid

module _ (S : TieStore) where
  -- The condition of the relation's MATCH, of its source i and its target j.
  abbrev pub joined : S.Graph → Tie → ℕ → ℕ → Bool
  joined g parent_of i j = mds_joined (S.mds_at g i) (S.mds_at g j)
  joined g mds_parent_of i j = lov_joined (S.mds_at g i) (S.oss_at g j)
  joined g oss_child_of i j = fid_joined (S.oss_at g i) (S.mds_at g j)

  -- A node of a new number is added by CREATE. A relation is added by CREATE wherever the MATCH
  -- holds, and by MERGE where it holds and there is none.
  pub record IsLawful : Type 0 where
    pub mds-empty : (i : ℕ) → S.mds_at S.empty i ≡ none
    pub oss-empty : (i : ℕ) → S.oss_at S.empty i ≡ none
    pub count-empty : (t : Tie) (i j : ℕ) → S.count S.empty t i j ≡ 0
    pub mds-create_mds :
        (n : MdsNode) (g : S.Graph) (i : ℕ)
        → S.mds_at g n.inode_num ≡ none
        → S.mds_at (S.run (create_mds n) g) i ≡ (if i == n.inode_num then some n else S.mds_at g i)
    pub oss-create_mds :
        (n : MdsNode) (g : S.Graph) (i : ℕ) → S.oss_at (S.run (create_mds n) g) i ≡ S.oss_at g i
    pub count-create_mds :
        (n : MdsNode) (g : S.Graph) (t : Tie) (i j : ℕ)
        → S.count (S.run (create_mds n) g) t i j ≡ S.count g t i j
    pub mds-create_oss :
        (n : OssNode) (g : S.Graph) (i : ℕ) → S.mds_at (S.run (create_oss n) g) i ≡ S.mds_at g i
    pub oss-create_oss :
        (n : OssNode) (g : S.Graph) (i : ℕ)
        → S.oss_at g n.inode_num ≡ none
        → S.oss_at (S.run (create_oss n) g) i ≡ (if i == n.inode_num then some n else S.oss_at g i)
    pub count-create_oss :
        (n : OssNode) (g : S.Graph) (t : Tie) (i j : ℕ)
        → S.count (S.run (create_oss n) g) t i j ≡ S.count g t i j
    pub mds-relate :
        (m : Manner) (t : Tie) (g : S.Graph) (i : ℕ)
        → S.mds_at (S.run (relate m t) g) i ≡ S.mds_at g i
    pub oss-relate :
        (m : Manner) (t : Tie) (g : S.Graph) (i : ℕ)
        → S.oss_at (S.run (relate m t) g) i ≡ S.oss_at g i
    pub count-creating :
        (t : Tie) (g : S.Graph) (u : Tie) (i j : ℕ)
        → S.count (S.run (relate creating t) g) u i j
          ≡ S.count g u i j + (if same_tie t u && joined g t i j then 1 else 0)
    pub count-merging :
        (t : Tie) (g : S.Graph) (u : Tie) (i j : ℕ)
        → S.count (S.run (relate merging t) g) u i j ≡ (
            if same_tie t u && (joined g t i j && S.count g u i j == 0) then 1 else S.count g u i j)

  unfoldable pub run_queries : List Query → S.Graph → S.Graph
  run_queries [] g = g
  run_queries (q ∷ qs) g = run_queries qs (S.run q g)
