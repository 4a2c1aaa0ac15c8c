-- ===== src/Graph/Fids/Lawful.antt =====
-- The graph of FIDs against the laws of the database.
use dist_lfsck.Cypher.FidText.{fid_text_injective}
use dist_lfsck.Cypher.Reading.{read_stmt-render}
use dist_lfsck.Cypher.{
  Label, mds, oss, Stmt, create, set_type, set_fid, set_ost_oid, set_f_oid, merge_mds_parent,
  merge_ost_child, merge_lov_parent, kind_text, fid_text,
}
use dist_lfsck.Graph.Fids.Joins.{put-Shows, same_fid, same_fid_iff, joins-Shows}
use dist_lfsck.Graph.Fids.{FidGraph, no_graph, related, apply, Has, fid_store}
use dist_lfsck.Graph.{
  Key, type_key, ost_oid_key, f_oid_key, fid_key, Relation, mds_parent_of, ost_child_of,
  lov_parent_of, same_field, is_node, creates, writes, merges, AfterSet, Compares, IsLawful,
}
use dist_lfsck.Prelude.{
  ℕ, ◌≡◌, ◌↔◌, ◌⊎◌, inl, inr, refl, Bool, true, false, ◌&&◌, ◌||◌, ◌==◌, ==_iff, Bytes,
}
use dist_lfsck.Text.Digits.{hex_injective}
use dist_lfsck.Text.{hex}

or_iff : (a b : Bool) → ((a || b) ≡ true) ↔ ((a ≡ true) ⊎ (b ≡ true))
or_iff true b = (λ h. inl refl, λ h. refl)
or_iff false true = (λ h. inr refl, λ h. refl)
or_iff false false = (λ h. cc, λ h. elim h [ inl e ↦ e | inr e ↦ e ])

-- Nothing is added to what holds.
nothing_more : {P : Type 0} → P ↔ (P ⊎ (false ≡ true))
nothing_more {P} = (λ h. inl h, λ h. elim h [ inl p ↦ p | inr e ↦ (cc) ])

node-apply :
    (s : Stmt) (g : FidGraph) (l : Label) (i : ℕ)
    → ((apply s g).nodes l i ≡ true) ↔ ((g.nodes l i ≡ true) ⊎ (creates s l i ≡ true))
node-apply (create m j) g l i = or_iff (g.nodes l i) (is_node m j l i)
node-apply (set_type m j k) g l i = nothing_more
node-apply (set_fid m j p f) g l i = nothing_more
node-apply (set_ost_oid j oid) g l i = nothing_more
node-apply (set_f_oid j oid) g l i = nothing_more
node-apply merge_mds_parent g l i = nothing_more
node-apply merge_ost_child g l i = nothing_more
node-apply (merge_lov_parent j) g l i = nothing_more

same : {P : Type 0} → P ↔ P
same {P} = (λ h. h, λ h. h)

Has-apply :
    (s : Stmt) (g : FidGraph) (l : Label) (i : ℕ) (k : Key) (t : Bytes)
    → Has (apply s g) l i k t ↔ AfterSet (writes s l i k) (g.nodes l i ≡ true) (Has g l i k t) t
Has-apply (set_type m j k) g l i type_key t =
    put-Shows kind_text (is_node m j l i) (g.nodes l i) k (g.types l i) t
Has-apply (set_fid m j p f) g l i (fid_key q) t =
    put-Shows fid_text (is_node m j l i && same_field p q) (g.nodes l i) f (g.fids l i q) t
Has-apply (set_ost_oid j oid) g l i ost_oid_key t =
    put-Shows hex (is_node mds j l i) (g.nodes l i) oid (g.ost_oids l i) t
Has-apply (set_f_oid j oid) g l i f_oid_key t =
    put-Shows hex (is_node oss j l i) (g.nodes l i) oid (g.f_oids l i) t
Has-apply s g l i k t = same

-- What a relation compares, as values and as texts.
related_iff :
    (g : FidGraph) (r : Relation) (i j : ℕ) → (related g r i j ≡ true) ↔ Compares Has g r i j
related_iff g mds_parent_of i j = joins-Shows fid_text same_fid same_fid_iff fid_text_injective _ _
related_iff g ost_child_of i j = joins-Shows fid_text same_fid same_fid_iff fid_text_injective _ _
related_iff g lov_parent_of i j = joins-Shows hex (◌==◌) ==_iff hex_injective _ _

merge_iff :
    (before merged joined : Bool) {P : Type 0}
    → (joined ≡ true) ↔ P
    → ((before || (merged && joined)) ≡ true) ↔ ((before ≡ true) ⊎ (merged ≡ true) × P)
merge_iff true merged joined e = (λ h. inl refl, λ h. refl)
merge_iff false true joined e =
    (λ h. inr (refl, e.0 h), λ h. elim h [ inl f ↦ (cc) | inr f ↦ e.1 f.1 ])
merge_iff false false joined e = (λ h. cc, λ h. elim h [ inl f ↦ f | inr f ↦ f.0 ])

nothing_merged : (P Q : Type 0) → P ↔ (P ⊎ (false ≡ true) × Q)
nothing_merged P Q = (λ h. inl h, λ h. elim h [ inl p ↦ p | inr e ↦ absurd (bad e.0) ])
  where
    bad : false ≡ true → ⊥
    bad e = cc

edge-apply :
    (s : Stmt) (g : FidGraph) (r : Relation) (i j : ℕ)
    → ((apply s g).edges r i j ≡ true)
      ↔ ((g.edges r i j ≡ true) ⊎ (merges s r i ≡ true) × Compares Has g r i j)
edge-apply merge_mds_parent g r i j =
    merge_iff (g.edges r i j) (merges merge_mds_parent r i) _ (related_iff g r i j)
edge-apply merge_ost_child g r i j =
    merge_iff (g.edges r i j) (merges merge_ost_child r i) _ (related_iff g r i j)
edge-apply (merge_lov_parent k) g r i j =
    merge_iff (g.edges r i j) (merges (merge_lov_parent k) r i) _ (related_iff g r i j)
edge-apply (create m k) g r i j = nothing_merged _ (Compares Has g r i j)
edge-apply (set_type m k d) g r i j = nothing_merged _ (Compares Has g r i j)
edge-apply (set_fid m k p f) g r i j = nothing_merged _ (Compares Has g r i j)
edge-apply (set_ost_oid k oid) g r i j = nothing_merged _ (Compares Has g r i j)
edge-apply (set_f_oid k oid) g r i j = nothing_merged _ (Compares Has g r i j)

-- The graph of FIDs does what the database's documentation says of the statements' texts.
pub fid_store-IsLawful : IsLawful fid_store
fid_store-IsLawful = record {
  node-empty = λ l i h. cc;
  has-empty = Has-no_graph;
  edge-empty = λ r i j h. cc;
  node-run = λ s g l i. rw (read_stmt-render s) (node-apply s g l i);
  has-run = λ s g l i k t. rw (read_stmt-render s) (Has-apply s g l i k t);
  edge-run = λ s g r i j. rw (read_stmt-render s) (edge-apply s g r i j);
}
  where
    Has-no_graph : (l : Label) (i : ℕ) (k : Key) (t : Bytes) → ¬ Has no_graph l i k t
    Has-no_graph l i type_key t h = cc
    Has-no_graph l i ost_oid_key t h = cc
    Has-no_graph l i f_oid_key t h = cc
    Has-no_graph l i (fid_key p) t h = cc
