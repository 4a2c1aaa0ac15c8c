-- ===== src/Client.antt =====
-- The trial clients of the database: neoclient.c under intergrate/integrate apr 2021/neo4j client
-- code/, and the earlier one under intergrate/neo4j client code/.
pub mod Ties
pub mod Once
pub mod Later
pub mod Earlier
use dist_lfsck.Prelude.{ℕ, Bool, true, false, if◌then◌else◌, List, [], ◌∷◌, ◌++◌, Bytes, codes}
use dist_lfsck.Text.{dec}

-- The values of a node on the metadata server and on the object server.
pub record MdsNode : Type 0 where
  pub inode_num : ℕ
  pub lma : ℕ
  pub link_ea : ℕ
  pub lov_ea : ℕ

pub record OssNode : Type 0 where
  pub inode_num : ℕ
  pub lma : ℕ
  pub fid : ℕ

-- A relation, and whether a statement creates it or merges it.
pub data Tie : Type 0 where
  parent_of mds_parent_of oss_child_of : Tie

pub data Manner : Type 0 where
  creating merging : Manner

pub data Query : Type 0 where
  create_mds : MdsNode → Query
  create_oss : OssNode → Query
  relate : Manner → Tie → Query

abbrev manner_text : Manner → Bytes
manner_text creating = codes "CREATE"
manner_text merging = codes "merge"

abbrev tie_text : Bytes → Bytes → Manner → Tie → Bytes
tie_text mds oss m parent_of =
    codes "match (a:"
    ++ (mds
        ++ (codes "), (b:"
            ++ (mds
                ++ (codes ") where a.linkEA=b.lma "
                    ++ (manner_text m ++ codes " (b)-[r:parent_of]->(a);")))))
tie_text mds oss m mds_parent_of =
    codes "match (a:"
    ++ (mds
        ++ (codes "), (b:"
            ++ (oss
                ++ (codes ") where a.lovEA=b.lma "
                    ++ (manner_text m ++ codes " (a)-[:mds_parent_of]->(b);")))))
tie_text mds oss m oss_child_of =
    codes "match (a:"
    ++ (mds
        ++ (codes "), (b:"
            ++ (oss
                ++ (codes ") where a.lma=b.FID "
                    ++ (manner_text m ++ codes " (b)-[:oss_child_of]->(a);")))))

-- The statement's text, with the labels "MDS" and "OSS" or "mds" and "oss".
unfoldable pub query_text : Bytes → Bytes → Query → Bytes
query_text mds oss (create_mds n) =
    codes "CREATE (:"
    ++ (mds
        ++ (codes " {Inode_num: "
            ++ (dec n.inode_num
                ++ (codes ",lma:"
                    ++ (dec n.lma
                        ++ (codes ",linkEA:"
                            ++ (dec n.link_ea
                                ++ (codes ",lovEA:" ++ (dec n.lov_ea ++ codes "});")))))))))
query_text mds oss (create_oss n) =
    codes "CREATE (:"
    ++ (oss
        ++ (codes " {Inode_num: "
            ++ (dec n.inode_num
                ++ (codes ",lma:"
                    ++ (dec n.lma ++ (codes ",FID:" ++ (dec n.fid ++ codes "});")))))))
query_text mds oss (relate m t) = tie_text mds oss m t

-- The variables of `main` that hold the nodes' values.
pub record Plan : Type 0 where
  pub root : MdsNode
  pub m1 : MdsNode
  pub m2 : MdsNode
  pub first : OssNode
  pub second : OssNode

abbrev pub trial_plan : Plan
trial_plan = record {
  root = record { inode_num = 0; lma = 10; link_ea = 0; lov_ea = 0 };
  m1 = record { inode_num = 1; lma = 20; link_ea = 10; lov_ea = 11 };
  m2 = record { inode_num = 2; lma = 30; link_ea = 10; lov_ea = 12 };
  first = record { inode_num = 3; lma = 11; fid = 20 };
  second = record { inode_num = 4; lma = 12; fid = 30 };
}

-- The statements of the later client: once there may be relations, it merges them.
abbrev pub later_queries : Plan → List Query
later_queries p =
    create_mds p.root
    ∷ create_mds p.m1
    ∷ relate creating parent_of
    ∷ create_mds p.m2
    ∷ relate merging parent_of
    ∷ create_oss p.first
    ∷ relate creating mds_parent_of
    ∷ relate creating oss_child_of
    ∷ create_oss p.second
    ∷ relate merging mds_parent_of
    ∷ relate merging oss_child_of
    ∷ []

-- The earlier client creates all relations.
abbrev pub earlier_queries : Plan → List Query
earlier_queries p =
    create_mds p.root
    ∷ create_mds p.m1
    ∷ relate creating parent_of
    ∷ create_mds p.m2
    ∷ relate creating parent_of
    ∷ create_oss p.first
    ∷ relate creating mds_parent_of
    ∷ relate creating oss_child_of
    ∷ create_oss p.second
    ∷ relate creating mds_parent_of
    ∷ relate creating oss_child_of
    ∷ []

-- What `main` has sent, and its status.
pub record Outcome : Type 0 where
  pub sent : List Query
  pub status : ℕ

abbrev pub later_main : Bool → Outcome
later_main connected =
    if connected
    then record { sent = later_queries trial_plan; status = 0 }
    else record { sent = []; status = 1 }

-- The earlier client looks at the result of its first statement, when all have been sent.
abbrev pub earlier_main : Bool → Bool → Outcome
earlier_main connected first_runs =
    if connected
    then record { sent = earlier_queries trial_plan; status = if first_runs then 0 else 1 }
    else record { sent = []; status = 1 }
