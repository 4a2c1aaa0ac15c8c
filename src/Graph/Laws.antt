-- ===== src/Graph/Laws.antt =====
-- The database after a list of statements, by the laws of one statement.
use dist_lfsck.Cypher.{render, Label, Stmt}
use dist_lfsck.Graph.{
  Key, Relation, source_label, source_key, target_label, target_key, writes, merges, GraphStore,
  IsLawful, AfterSet, run_all,
}
use dist_lfsck.Prelude.{
  ℕ, ◌≡◌, refl, ap, ◌⊎◌, inl, inr, true, Option, none, some, List, [], ◌∷◌, ◌++◌, Bytes, Memᴰ,
}

-- A statement of the list sets the property to the text.
abbrev pub Written : List Stmt → Label → ℕ → Key → Bytes → Type 0
Written ss l i k t = (s : Stmt) × Memᴰ s ss × (writes s l i k ≡ some t)

-- No statement of the list sets the property to another text.
abbrev pub Agrees : List Stmt → Label → ℕ → Key → Bytes → Type 0
Agrees ss l i k t = (s : Stmt) → Memᴰ s ss → (u : Bytes) → writes s l i k ≡ some u → u ≡ t

AfterSet-cases :
    (o : Option Bytes) (Node Before : Type 0) (t : Bytes)
    → AfterSet o Node Before t
    → Before ⊎ (o ≡ some t)
AfterSet-cases none Node Before t h = inl h
AfterSet-cases (some u) Node Before t h = inr (ap some h.1)

AfterSet-keeps :
    (o : Option Bytes) (Node Before : Type 0) (t : Bytes)
    → ((u : Bytes) → o ≡ some u → u ≡ t)
    → Node
    → Before
    → AfterSet o Node Before t
AfterSet-keeps none Node Before t h n b = b
AfterSet-keeps (some u) Node Before t h n b = (n, h u refl)

module _ (S : GraphStore) where
  pub run_all-append :
      (xs ys : List Stmt) (g : S.Graph) → run_all S (xs ++ ys) g ≡ run_all S ys (run_all S xs g)
  unfolding run_all
  run_all-append [] ys g = refl
  run_all-append (x ∷ xs) ys g = run_all-append xs ys (S.run (render x) g)

module _ (S : GraphStore) (law : IsLawful S) where
  pub node-kept :
      (ss : List Stmt) (g : S.Graph) (l : Label) (i : ℕ)
      → S.node g l i
      → S.node (run_all S ss g) l i
  unfolding run_all
  node-kept [] g l i h = h
  node-kept (s ∷ ss) g l i h =
      node-kept ss (S.run (render s) g) l i ((law.node-run s g l i).1 (inl h))

  pub edge-kept :
      (ss : List Stmt) (g : S.Graph) (r : Relation) (i j : ℕ)
      → S.edge g r i j
      → S.edge (run_all S ss g) r i j
  unfolding run_all
  edge-kept [] g r i j h = h
  edge-kept (s ∷ ss) g r i j h =
      edge-kept ss (S.run (render s) g) r i j ((law.edge-run s g r i j).1 (inl h))

  pub has-run_kept :
      (s : Stmt) (g : S.Graph) (l : Label) (i : ℕ) (k : Key) (t : Bytes)
      → ((u : Bytes) → writes s l i k ≡ some u → u ≡ t)
      → S.node g l i
      → S.has g l i k t
      → S.has (S.run (render s) g) l i k t
  has-run_kept s g l i k t agrees n h =
      (law.has-run s g l i k t).1
        (AfterSet-keeps (writes s l i k) (S.node g l i) (S.has g l i k t) t agrees n h)

  pub has-run_written :
      (s : Stmt) (g : S.Graph) (l : Label) (i : ℕ) (k : Key) (t : Bytes)
      → writes s l i k ≡ some t
      → S.node g l i
      → S.has (S.run (render s) g) l i k t
  has-run_written s g l i k t e n = (law.has-run s g l i k t).1 (rw e (n, refl))

  -- A property keeps its text while no statement sets another.
  pub has-kept :
      (ss : List Stmt) (g : S.Graph) (l : Label) (i : ℕ) (k : Key) (t : Bytes)
      → Agrees ss l i k t
      → S.node g l i
      → S.has g l i k t
      → S.has (run_all S ss g) l i k t
  unfolding run_all
  has-kept [] g l i k t agrees n h = h
  has-kept (s ∷ ss) g l i k t agrees n h =
      has-kept ss (S.run (render s) g) l i k t (λ q m. agrees q (Memᴰ.tail m))
        ((law.node-run s g l i).1 (inl n))
        (has-run_kept s g l i k t (agrees s (Memᴰ.head refl)) n h)

  -- A property that is set while its node is there has the text afterwards.
  pub has-written :
      (ss : List Stmt) (g : S.Graph) (l : Label) (i : ℕ) (k : Key) (t : Bytes)
      → Agrees ss l i k t
      → S.node g l i
      → (s : Stmt) → Memᴰ s ss
      → writes s l i k ≡ some t
      → S.has (run_all S ss g) l i k t
  unfolding run_all
  has-written [] g l i k t agrees n s m e = elim m [ ]
  has-written (q ∷ ss) g l i k t agrees n s (Memᴰ.head same) e =
      has-kept ss (S.run (render q) g) l i k t (λ p m. agrees p (Memᴰ.tail m))
        ((law.node-run q g l i).1 (inl n)) (has-run_written q g l i k t (rw same at e) n)
  has-written (q ∷ ss) g l i k t agrees n s (Memᴰ.tail m) e =
      has-written ss (S.run (render q) g) l i k t (λ p w. agrees p (Memᴰ.tail w))
        ((law.node-run q g l i).1 (inl n)) s m e

  -- A text that a property has afterwards was there before, or a statement has set it.
  pub has-cases :
      (ss : List Stmt) (g : S.Graph) (l : Label) (i : ℕ) (k : Key) (t : Bytes)
      → S.has (run_all S ss g) l i k t
      → S.has g l i k t ⊎ Written ss l i k t
  unfolding run_all
  has-cases [] g l i k t h = inl h
  has-cases (s ∷ ss) g l i k t h = elim (has-cases ss (S.run (render s) g) l i k t h) [
    | inr (q, m, e) ↦ inr (q, Memᴰ.tail m, e)
    | inl later ↦
        elim (AfterSet-cases (writes s l i k) (S.node g l i) (S.has g l i k t) t
          ((law.has-run s g l i k t).0 later)) [
            | inl before ↦ inl before
            | inr e ↦ inr (s, Memᴰ.head refl, e)
          ]
  ]

  Had : S.Graph → List Stmt → Label → ℕ → Key → Bytes → Type 0
  Had g ss l i k t = S.has g l i k t ⊎ Written ss l i k t

  Had-run :
      (s : Stmt) (ss : List Stmt) (g : S.Graph) (l : Label) (i : ℕ) (k : Key) (t : Bytes)
      → Had (S.run (render s) g) ss l i k t
      → Had g (s ∷ ss) l i k t
  unfolding Had run_all
  Had-run s ss g l i k t (inr (q, m, e)) = inr (q, Memᴰ.tail m, e)
  Had-run s ss g l i k t (inl later) = elim (has-cases (s ∷ []) g l i k t later) [
    | inl before ↦ inl before
    | inr (q, Memᴰ.head same, e) ↦ inr (q, Memᴰ.head same, e)
    | inr (q, Memᴰ.tail m, e) ↦ elim m [ ]
  ]

  edge-cases :
      (ss : List Stmt) (g : S.Graph) (r : Relation) (i j : ℕ)
      → S.edge (run_all S ss g) r i j
      → S.edge g r i j
        ⊎ (t : Bytes) × Had g ss (source_label r) i (source_key r) t
          × Had g ss (target_label r) j (target_key r) t
  unfolding run_all Had
  edge-cases [] g r i j h = inl h
  edge-cases (s ∷ ss) g r i j h = elim (edge-cases ss (S.run (render s) g) r i j h) [
    | inr (t, a, b) ↦ inr (t, Had-run s ss g _ i _ t a, Had-run s ss g _ j _ t b)
    | inl now ↦ elim ((law.edge-run s g r i j).0 now) [
      | inl before ↦ inl before
      | inr (_, (t, a, b)) ↦ inr (t, inl a, inl b)
    ]
  ]

  -- In an empty database, two nodes are related only where the statements have set the properties
  -- that the relation compares to one text.
  pub edge-Written :
      (ss : List Stmt) (r : Relation) (i j : ℕ)
      → S.edge (run_all S ss S.empty) r i j
      → (t : Bytes) × Written ss (source_label r) i (source_key r) t
        × Written ss (target_label r) j (target_key r) t
  unfolding Had
  edge-Written ss r i j h = elim (edge-cases ss S.empty r i j h) [
    | inl before ↦ absurd (law.edge-empty r i j before)
    | inr (t, inl a, b) ↦ absurd (law.has-empty (source_label r) i (source_key r) t a)
    | inr (t, inr a, inl b) ↦ absurd (law.has-empty (target_label r) j (target_key r) t b)
    | inr (t, inr a, inr b) ↦ (t, a, b)
  ]

  -- A statement that merges the relation relates the nodes whose properties stay equal up to it.
  pub edge-merged :
      (ss : List Stmt) (g : S.Graph) (r : Relation) (i j : ℕ) (t : Bytes)
      → Agrees ss (source_label r) i (source_key r) t
      → Agrees ss (target_label r) j (target_key r) t
      → S.node g (source_label r) i
      → S.node g (target_label r) j
      → S.has g (source_label r) i (source_key r) t
      → S.has g (target_label r) j (target_key r) t
      → (s : Stmt) → Memᴰ s ss
      → merges s r i ≡ true
      → S.edge (run_all S ss g) r i j
  unfolding run_all
  edge-merged [] g r i j t ka kb na nb a b s m e = elim m [ ]
  edge-merged (q ∷ ss) g r i j t ka kb na nb a b s (Memᴰ.head same) e =
      edge-kept ss (S.run (render q) g) r i j
        ((law.edge-run q g r i j).1 (inr (rw same at e, (t, a, b))))
  edge-merged (q ∷ ss) g r i j t ka kb na nb a b s (Memᴰ.tail m) e =
      edge-merged ss (S.run (render q) g) r i j t (λ p w. ka p (Memᴰ.tail w))
        (λ p w. kb p (Memᴰ.tail w)) ((law.node-run q g _ i).1 (inl na))
        ((law.node-run q g _ j).1 (inl nb)) (has-run_kept q g _ i _ t (ka q (Memᴰ.head refl)) na a)
        (has-run_kept q g _ j _ t (kb q (Memᴰ.head refl)) nb b) s m e
