-- ===== src/Graph/Refines.antt =====
-- A database with the documented behaviour, against the graph of FIDs.
use dist_lfsck.Cypher.Reading.{read_stmt-render}
use dist_lfsck.Cypher.{render, Label, Stmt}
use dist_lfsck.Graph.Fids.Lawful.{fid_store-IsLawful}
use dist_lfsck.Graph.Fids.{FidGraph, no_graph, apply, apply_all, fid_store}
use dist_lfsck.Graph.{
  Key, Relation, writes, merges, AfterSet, Compares, GraphStore, IsLawful, run_all,
}
use dist_lfsck.Prelude.{
  ℕ, ◌≡◌, refl, ◌↔◌, ◌⊎◌, inl, inr, true, Option, none, some, List, [], ◌∷◌, Bytes,
}

-- The graphs of two databases look the same: nodes, texts of properties and relations.
pub record Same (S T : GraphStore) (g : S.Graph) (h : T.Graph) : Type 0 where
  pub same_node : (l : Label) (i : ℕ) → S.node g l i ↔ T.node h l i
  pub same_has : (l : Label) (i : ℕ) (k : Key) (t : Bytes) → S.has g l i k t ↔ T.has h l i k t
  pub same_edge : (r : Relation) (i j : ℕ) → S.edge g r i j ↔ T.edge h r i j

iff_trans : {A B C : Type 0} → A ↔ B → B ↔ C → A ↔ C
iff_trans e f = (λ a. f.0 (e.0 a), λ c. e.1 (f.1 c))

iff_symm : {A B : Type 0} → A ↔ B → B ↔ A
iff_symm e = (e.1, e.0)

or_cong : {A B C : Type 0} → A ↔ B → (A ⊎ C) ↔ (B ⊎ C)
or_cong e = (
  λ h. elim h [ inl a ↦ inl (e.0 a) | inr c ↦ inr c ],
  λ h. elim h [ inl b ↦ inl (e.1 b) | inr c ↦ inr c ],
)

AfterSet-cong :
    (o : Option Bytes) {N M B C : Type 0} (t : Bytes)
    → N ↔ M
    → B ↔ C
    → AfterSet o N B t ↔ AfterSet o M C t
AfterSet-cong none t n b = b
AfterSet-cong (some u) t n b = (λ h. (n.0 h.0, h.1), λ h. (n.1 h.0, h.1))

module _ (S T : GraphStore) (lawS : IsLawful S) (lawT : IsLawful T) where
  Compares-cong :
      (g : S.Graph) (h : T.Graph) (r : Relation) (i j : ℕ)
      → Same S T g h
      → Compares S.has g r i j ↔ Compares T.has h r i j
  Compares-cong g h r i j same = (
    λ c. (c.0, (same.same_has _ i _ c.0).0 c.1, (same.same_has _ j _ c.0).0 c.2),
    λ c. (c.0, (same.same_has _ i _ c.0).1 c.1, (same.same_has _ j _ c.0).1 c.2),
  )

  run-Same :
      (s : Stmt) (g : S.Graph) (h : T.Graph)
      → Same S T g h
      → Same S T (S.run (render s) g) (T.run (render s) h)
  run-Same s g h same = record {
    same_node = λ l i.
        iff_trans (lawS.node-run s g l i)
          (iff_trans (or_cong (same.same_node l i)) (iff_symm (lawT.node-run s h l i)));
    same_has = λ l i k t. iff_trans (lawS.has-run s g l i k t) (
        iff_trans (AfterSet-cong (writes s l i k) t (same.same_node l i) (same.same_has l i k t))
          (iff_symm (lawT.has-run s h l i k t)));
    same_edge = λ r i j.
        iff_trans (lawS.edge-run s g r i j)
          (iff_trans (edges_cong r i j) (iff_symm (lawT.edge-run s h r i j)));
  }
    where
      edges_cong :
          (r : Relation) (i j : ℕ)
          → (S.edge g r i j ⊎ (merges s r i ≡ true) × Compares S.has g r i j)
            ↔ (T.edge h r i j ⊎ (merges s r i ≡ true) × Compares T.has h r i j)
      edges_cong r i j = (
        λ e. elim e [
          | inl a ↦ inl ((same.same_edge r i j).0 a)
          | inr c ↦ inr (c.0, (Compares-cong g h r i j same).0 c.1)
        ],
        λ e. elim e [
          | inl a ↦ inl ((same.same_edge r i j).1 a)
          | inr c ↦ inr (c.0, (Compares-cong g h r i j same).1 c.1)
        ],
      )

  run_all-Same :
      (ss : List Stmt) (g : S.Graph) (h : T.Graph)
      → Same S T g h
      → Same S T (run_all S ss g) (run_all T ss h)
  unfolding run_all
  run_all-Same [] g h same = same
  run_all-Same (s ∷ ss) g h same =
      run_all-Same ss (S.run (render s) g) (T.run (render s) h) (run-Same s g h same)

  empty-Same : Same S T S.empty T.empty
  empty-Same = record {
    same_node = λ l i. (λ h. absurd (lawS.node-empty l i h), λ h. absurd (lawT.node-empty l i h));
    same_has =
        λ l i k t. (λ h. absurd (lawS.has-empty l i k t h), λ h. absurd (lawT.has-empty l i k t h));
    same_edge =
        λ r i j. (λ h. absurd (lawS.edge-empty r i j h), λ h. absurd (lawT.edge-empty r i j h));
  }

-- Read back from their texts, the statements act as they do themselves.
pub run_all-apply_all : (ss : List Stmt) (g : FidGraph) → run_all fid_store ss g ≡ apply_all ss g
unfolding run_all
run_all-apply_all [] g = refl
run_all-apply_all (s ∷ ss) g = rw (read_stmt-render s) (run_all-apply_all ss (apply s g))

-- A database with the documented behaviour that starts empty and is handed the texts of any
-- statements of the scanners holds the graph of FIDs and object ids that the statements describe:
-- the same nodes, the same relations, and as its properties the texts of the FIDs, object ids and
-- types of that graph.
pub run_all-refines :
    (S : GraphStore) (ss : List Stmt)
    → IsLawful S
    → Same S fid_store (run_all S ss S.empty) (apply_all ss no_graph)
run_all-refines S ss law = rw (← run_all-apply_all ss no_graph) (
    run_all-Same S fid_store law fid_store-IsLawful ss S.empty no_graph
      (empty-Same S fid_store law fid_store-IsLawful))
