-- ===== src/Tests/Client.antt =====
-- The trial clients with the nodes of their source, on a database of three tables.
use dist_lfsck.Client.Earlier.{earlier_client_twice}
use dist_lfsck.Client.Later.{Distinct, later_client_once}
use dist_lfsck.Client.Once.{once}
use dist_lfsck.Client.Ties.{
  TieStore, IsLawful, same_tie, mds_joined, lov_joined, fid_joined, joined, run_queries,
}
use dist_lfsck.Client.{
  MdsNode, OssNode, Tie, parent_of, mds_parent_of, oss_child_of, Manner, creating, merging, Query,
  create_mds, create_oss, relate, query_text, trial_plan, later_queries, earlier_queries,
}
use dist_lfsck.Prelude.{
  ℕ, ◌+◌, ◌≡◌, refl, arith, ◌&&◌, ◌==◌, Bool, if◌then◌else◌, Option, none, some, codes,
}
use dist_lfsck.Text.{dec, digits}

record Tables : Type 0 where
  pub mds_nodes : ℕ → Option MdsNode
  pub oss_nodes : ℕ → Option OssNode
  pub counts : Tie → ℕ → ℕ → ℕ

abbrev matching : Tables → Tie → ℕ → ℕ → Bool
matching g parent_of i j = mds_joined (g.mds_nodes i) (g.mds_nodes j)
matching g mds_parent_of i j = lov_joined (g.mds_nodes i) (g.oss_nodes j)
matching g oss_child_of i j = fid_joined (g.oss_nodes i) (g.mds_nodes j)

abbrev step : Query → Tables → Tables
step (create_mds n) g = record g {
  mds_nodes = λ i. if i == n.inode_num then some n else g.mds_nodes i;
}
step (create_oss n) g = record g {
  oss_nodes = λ i. if i == n.inode_num then some n else g.oss_nodes i;
}
step (relate creating t) g = record g {
  counts = λ u i j. g.counts u i j + (if same_tie t u && matching g t i j then 1 else 0);
}
step (relate merging t) g = record g {
  counts = λ u i j.
      if same_tie t u && (matching g t i j && g.counts u i j == 0) then 1 else g.counts u i j;
}

abbrev tables : TieStore
tables = record {
  Graph = Tables;
  empty = record { mds_nodes = λ i. none; oss_nodes = λ i. none; counts = λ t i j. 0 };
  run = step;
  mds_at = λ g i. g.mds_nodes i;
  oss_at = λ g i. g.oss_nodes i;
  count = λ g t i j. g.counts t i j;
}

matching-joined : (g : Tables) (t : Tie) (i j : ℕ) → matching g t i j ≡ joined tables g t i j
matching-joined g parent_of i j = refl
matching-joined g mds_parent_of i j = refl
matching-joined g oss_child_of i j = refl

tables-IsLawful : IsLawful tables
tables-IsLawful = record {
  mds-empty = λ i. refl;
  oss-empty = λ i. refl;
  count-empty = λ t i j. refl;
  mds-create_mds = λ n g i fresh. refl;
  oss-create_mds = λ n g i. refl;
  count-create_mds = λ n g t i j. refl;
  mds-create_oss = λ n g i. refl;
  oss-create_oss = λ n g i fresh. refl;
  count-create_oss = λ n g t i j. refl;
  mds-relate = relate_mds;
  oss-relate = relate_oss;
  count-creating = λ t g u i j. rw (matching-joined g t i j) refl;
  count-merging = λ t g u i j. rw (matching-joined g t i j) refl;
}
  where
    relate_mds :
        (m : Manner) (t : Tie) (g : Tables) (i : ℕ)
        → (step (relate m t) g).mds_nodes i ≡ g.mds_nodes i
    relate_mds creating t g i = refl
    relate_mds merging t g i = refl

    relate_oss :
        (m : Manner) (t : Tie) (g : Tables) (i : ℕ)
        → (step (relate m t) g).oss_nodes i ≡ g.oss_nodes i
    relate_oss creating t g i = refl
    relate_oss merging t g i = refl

trial_Distinct : Distinct trial_plan
trial_Distinct = record {
  m1_root = λ e. omega arith;
  m2_root = λ e. omega arith;
  m2_m1 = λ e. omega arith;
  objects = λ e. omega arith;
}

later_client_once_example :
    tables.count (run_queries tables (later_queries trial_plan) tables.empty) parent_of 0 2
    ≡ once
        (joined tables (run_queries tables (later_queries trial_plan) tables.empty) parent_of 0 2)
later_client_once_example =
    later_client_once tables trial_plan parent_of 0 2 tables-IsLawful trial_Distinct

earlier_client_twice_example :
    tables.count (run_queries tables (earlier_queries trial_plan) tables.empty) parent_of 0 1 ≡ 2
earlier_client_twice_example =
    earlier_client_twice tables trial_plan tables-IsLawful trial_Distinct refl

root_text :
    query_text (codes "MDS") (codes "OSS") (create_mds trial_plan.root)
    ≡ codes "CREATE (:MDS {Inode_num: 0,lma:10,linkEA:0,lovEA:0});"
unfolding query_text dec digits
root_text = refl

merge_text :
    query_text (codes "MDS") (codes "OSS") (relate merging parent_of)
    ≡ codes "match (a:MDS), (b:MDS) where a.linkEA=b.lma merge (b)-[r:parent_of]->(a);"
unfolding query_text dec digits
merge_text = refl
