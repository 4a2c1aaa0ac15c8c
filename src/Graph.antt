-- ===== src/Graph.antt =====
-- The graph database behind `neo4j_run`: what the scanners' statements do to it, as the Cypher
-- manual describes CREATE, SET, MATCH and MERGE. The database itself is a parameter.
pub mod Laws
pub mod Fids
pub mod Refines
pub mod Writes
pub mod Attributes
pub mod MdsSources
pub mod OstSources
pub mod Order
pub mod Scans
pub mod Described
pub mod MdsEdges
pub mod MdsOwn
pub mod OneEach
pub mod OstEdges
pub mod Complete
pub mod Relates
pub mod Late
use dist_lfsck.Cypher.{
  render, Label, mds, oss, FidField, lma, pfid, fid, Stmt, create, set_type, set_fid, set_ost_oid,
  set_f_oid, merge_mds_parent, merge_ost_child, merge_lov_parent, kind_text, fid_text,
}
use dist_lfsck.Prelude.{
  ℕ, ◌≡◌, ◌↔◌, ◌⊎◌, Bool, true, false, ◌&&◌, ◌==◌, if◌then◌else◌, Option, none, some, List, [], ◌∷◌,
  Bytes,
}
use dist_lfsck.Text.{hex}

-- The properties of a node beside `inode_number`.
pub data Key : Type 0 where
  type_key ost_oid_key f_oid_key : Key
  fid_key : FidField → Key

pub data Relation : Type 0 where
  mds_parent_of ost_child_of lov_parent_of : Relation

-- `(a:MDS),(b:MDS) where a.lma = b.pfid`, and so on: what a relation's MATCH compares.
abbrev pub source_label : Relation → Label
source_label mds_parent_of = mds
source_label ost_child_of = oss
source_label lov_parent_of = mds

abbrev pub source_key : Relation → Key
source_key mds_parent_of = fid_key lma
source_key ost_child_of = fid_key fid
source_key lov_parent_of = ost_oid_key

abbrev pub target_label : Relation → Label
target_label mds_parent_of = mds
target_label ost_child_of = mds
target_label lov_parent_of = oss

abbrev pub target_key : Relation → Key
target_key mds_parent_of = fid_key pfid
target_key ost_child_of = fid_key lma
target_key lov_parent_of = f_oid_key

abbrev pub same_label : Label → Label → Bool
same_label mds mds = true
same_label oss oss = true
same_label l m = false

abbrev pub same_field : FidField → FidField → Bool
same_field lma lma = true
same_field pfid pfid = true
same_field fid fid = true
same_field p q = false

-- `(n:l)` with `n.inode_number=i` is the node (m, j).
abbrev pub is_node : Label → ℕ → Label → ℕ → Bool
is_node l i m j = same_label l m && i == j

abbrev pub creates : Stmt → Label → ℕ → Bool
creates (create l i) m j = is_node l i m j
creates s m j = false

-- The text that a statement sets the property of the node (m, j) to.
abbrev pub writes : Stmt → Label → ℕ → Key → Option Bytes
writes (set_type l i k) m j type_key = if is_node l i m j then some (kind_text k) else none
writes (set_fid l i p f) m j (fid_key q) =
    if is_node l i m j && same_field p q then some (fid_text f) else none
writes (set_ost_oid i oid) m j ost_oid_key = if is_node mds i m j then some (hex oid) else none
writes (set_f_oid i oid) m j f_oid_key = if is_node oss i m j then some (hex oid) else none
writes s m j k = none

-- The statement merges the relation from the nodes with this inode number on.
abbrev pub merges : Stmt → Relation → ℕ → Bool
merges merge_mds_parent mds_parent_of i = true
merges merge_ost_child ost_child_of i = true
merges (merge_lov_parent j) lov_parent_of i = j == i
merges s r i = false

-- The database, which is given the texts of statements, as `neo4j_run` is. Two nodes with one
-- label and one inode number are not told apart: `node` says that there is such a node, `has` that
-- one has the text as its property, `edge` that one is related to another.
pub record GraphStore : Type 1 where
  pub Graph : Type 0
  pub empty : Graph
  pub run : Bytes → Graph → Graph
  pub node : Graph → Label → ℕ → Type 0
  pub has : Graph → Label → ℕ → Key → Bytes → Type 0
  pub edge : Graph → Relation → ℕ → ℕ → Type 0

-- What SET leaves: with no text to set, the property as it was.
abbrev pub AfterSet : Option Bytes → Type 0 → Type 0 → Bytes → Type 0
AfterSet none Node Before t = Before
AfterSet (some u) Node Before t = Node × (u ≡ t)

-- The properties that a relation compares are there, and have one text.
abbrev pub Compares :
    {G : Type 0} → (G → Label → ℕ → Key → Bytes → Type 0) → G → Relation → ℕ → ℕ → Type 0
Compares has g r i j =
    (t : Bytes) × has g (source_label r) i (source_key r) t
    × has g (target_label r) j (target_key r) t

-- CREATE adds the node. SET replaces the property of the nodes it matches. MERGE relates each two
-- nodes whose properties are there and have the same text. Nothing else changes.
pub record IsLawful (S : GraphStore) : Type 0 where
  pub node-empty : (l : Label) (i : ℕ) → ¬ S.node S.empty l i
  pub has-empty : (l : Label) (i : ℕ) (k : Key) (t : Bytes) → ¬ S.has S.empty l i k t
  pub edge-empty : (r : Relation) (i j : ℕ) → ¬ S.edge S.empty r i j
  pub node-run :
      (s : Stmt) (g : S.Graph) (l : Label) (i : ℕ)
      → S.node (S.run (render s) g) l i ↔ (S.node g l i ⊎ (creates s l i ≡ true))
  pub has-run :
      (s : Stmt) (g : S.Graph) (l : Label) (i : ℕ) (k : Key) (t : Bytes)
      → S.has (S.run (render s) g) l i k t
        ↔ AfterSet (writes s l i k) (S.node g l i) (S.has g l i k t) t
  pub edge-run :
      (s : Stmt) (g : S.Graph) (r : Relation) (i j : ℕ)
      → S.edge (S.run (render s) g) r i j
        ↔ (S.edge g r i j ⊎ (merges s r i ≡ true) × Compares S.has g r i j)

-- The statements of a scan, one after the other: `neo4j_run` is handed what `sprintf` made of each.
unfoldable pub run_all : (S : GraphStore) → List Stmt → S.Graph → S.Graph
run_all S [] g = g
run_all S (s ∷ ss) g = run_all S ss (S.run (render s) g)
