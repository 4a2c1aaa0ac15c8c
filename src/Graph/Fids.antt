-- ===== src/Graph/Fids.antt =====
-- The graph that the statements describe, with the FIDs and object ids themselves in place of
-- their texts.
pub mod Joins
pub mod Lawful
use dist_lfsck.Cypher.FidText.{fid_text_injective}
use dist_lfsck.Cypher.Reading.{read_stmt}
use dist_lfsck.Cypher.{
  Label, mds, oss, Kind, FidField, lma, pfid, fid, Stmt, create, set_type, set_fid, set_ost_oid,
  set_f_oid, merge_mds_parent, merge_ost_child, merge_lov_parent, kind_text, fid_text,
}
use dist_lfsck.Graph.Fids.Joins.{Shows, put, joins, same_fid}
use dist_lfsck.Graph.{
  Key, type_key, ost_oid_key, f_oid_key, fid_key, Relation, mds_parent_of, ost_child_of,
  lov_parent_of, source_label, source_key, target_label, target_key, same_field, is_node, creates,
  writes, merges, AfterSet, GraphStore, IsLawful, run_all,
}
use dist_lfsck.Lustre.{LuFid}
use dist_lfsck.Prelude.{
  ℕ, ◌≡◌, ◌↔◌, ◌⊎◌, inl, inr, refl, arith, Bool, true, false, ◌&&◌, ◌||◌, ◌==◌, ==_iff,
  if◌then◌else◌, Option, none, some, List, [], ◌∷◌, Bytes,
}
use dist_lfsck.Text.Digits.{hex_injective}
use dist_lfsck.Text.{hex}

pub record FidGraph : Type 0 where
  pub nodes : Label → ℕ → Bool
  pub types : Label → ℕ → Option Kind
  pub fids : Label → ℕ → FidField → Option LuFid
  pub ost_oids : Label → ℕ → Option ℕ
  pub f_oids : Label → ℕ → Option ℕ
  pub edges : Relation → ℕ → ℕ → Bool

abbrev pub no_graph : FidGraph
no_graph = record {
  nodes = λ l i. false;
  types = λ l i. none;
  fids = λ l i p. none;
  ost_oids = λ l i. none;
  f_oids = λ l i. none;
  edges = λ r i j. false;
}

-- The properties that a relation compares are there, and equal.
abbrev pub related : FidGraph → Relation → ℕ → ℕ → Bool
related g mds_parent_of i j = joins same_fid (g.fids mds i lma) (g.fids mds j pfid)
related g ost_child_of i j = joins same_fid (g.fids oss i fid) (g.fids mds j lma)
related g lov_parent_of i j = joins (◌==◌) (g.ost_oids mds i) (g.f_oids oss j)

abbrev merge_edges : Stmt → FidGraph → FidGraph
merge_edges s g = record g { edges = λ r i j. g.edges r i j || (merges s r i && related g r i j) }

-- A statement on the graph of FIDs.
abbrev pub apply : Stmt → FidGraph → FidGraph
apply (create l i) g = record g { nodes = λ m j. g.nodes m j || is_node l i m j }
apply (set_type l i k) g = record g {
  types = λ m j. put (is_node l i m j) (g.nodes m j) k (g.types m j);
}
apply (set_fid l i p f) g = record g {
  fids = λ m j q. put (is_node l i m j && same_field p q) (g.nodes m j) f (g.fids m j q);
}
apply (set_ost_oid i oid) g = record g {
  ost_oids = λ m j. put (is_node mds i m j) (g.nodes m j) oid (g.ost_oids m j);
}
apply (set_f_oid i oid) g = record g {
  f_oids = λ m j. put (is_node oss i m j) (g.nodes m j) oid (g.f_oids m j);
}
apply s g = merge_edges s g

-- The graph that a list of statements describes.
abbrev pub apply_all : List Stmt → FidGraph → FidGraph
apply_all [] g = g
apply_all (s ∷ ss) g = apply_all ss (apply s g)

abbrev pub Has : FidGraph → Label → ℕ → Key → Bytes → Type 0
Has g l i type_key t = Shows kind_text (g.types l i) t
Has g l i (fid_key p) t = Shows fid_text (g.fids l i p) t
Has g l i ost_oid_key t = Shows hex (g.ost_oids l i) t
Has g l i f_oid_key t = Shows hex (g.f_oids l i) t

-- The graph of FIDs as a database, which reads the statements from their texts.
abbrev pub fid_store : GraphStore
fid_store = record {
  Graph = FidGraph;
  empty = no_graph;
  run = λ t g. apply (read_stmt t) g;
  node = λ g l i. g.nodes l i ≡ true;
  has = Has;
  edge = λ g r i j. g.edges r i j ≡ true;
}
