-- ===== src/Graph/Order.antt =====
-- What a list of statements leaves in the database, by where its statements stand.
use dist_lfsck.Cypher.{render, Label, mds, oss, Stmt, create}
use dist_lfsck.Graph.Laws.{
  Written, Agrees, node-kept, edge-kept, has-kept, has-written, run_all-append, has-run_kept,
  has-run_written,
}
use dist_lfsck.Graph.Writes.{rounds_of}
use dist_lfsck.Graph.{
  Key, Relation, source_label, source_key, target_label, target_key, same_label, is_node, writes,
  merges, GraphStore, IsLawful, run_all,
}
use dist_lfsck.Prelude.{
  ℕ, zero, suc, ◌+◌, ◌-◌, ◌<◌, ◌≤◌, ◌≡◌, refl, ap, sym, ◌∙◌, inl, inr, true, ◌==◌, ==_refl, ==_iff,
  Bool-cases, arith, some, List, [], ◌∷◌, ◌++◌, append_assoc, Bytes, Memᴰ,
}

pub Memᴰ-append_left : {A : Type 0} (a : A) (xs ys : List A) → Memᴰ a xs → Memᴰ a (xs ++ ys)
Memᴰ-append_left a [] ys m = elim m [ ]
Memᴰ-append_left a (x ∷ xs) ys (Memᴰ.head e) = Memᴰ.head e
Memᴰ-append_left a (x ∷ xs) ys (Memᴰ.tail m) = Memᴰ.tail (Memᴰ-append_left a xs ys m)

pub Memᴰ-append_right : {A : Type 0} (a : A) (xs ys : List A) → Memᴰ a ys → Memᴰ a (xs ++ ys)
Memᴰ-append_right a [] ys m = m
Memᴰ-append_right a (x ∷ xs) ys m = Memᴰ.tail (Memᴰ-append_right a xs ys m)

module _ (l : Label) (i : ℕ) (k : Key) (t : Bytes) where
  pub Written-left : (xs ys : List Stmt) → Written xs l i k t → Written (xs ++ ys) l i k t
  Written-left xs ys (s, m, e) = (s, Memᴰ-append_left s xs ys m, e)

  pub Written-right : (xs ys : List Stmt) → Written ys l i k t → Written (xs ++ ys) l i k t
  Written-right xs ys (s, m, e) = (s, Memᴰ-append_right s xs ys m, e)

  pub Agrees-left : (xs ys : List Stmt) → Agrees (xs ++ ys) l i k t → Agrees xs l i k t
  Agrees-left xs ys h s m = h s (Memᴰ-append_left s xs ys m)

  pub Agrees-right : (xs ys : List Stmt) → Agrees (xs ++ ys) l i k t → Agrees ys l i k t
  Agrees-right xs ys h s m = h s (Memᴰ-append_right s xs ys m)

-- The rounds before round j, round j, and those behind it.
pub rounds_of-split :
    (stmts : ℕ → List Stmt) (left k j : ℕ)
    → k ≤ j
    → j < left + k
    → (ys : List Stmt) × (rounds_of stmts left k ≡ rounds_of stmts (j - k) k ++ (stmts j ++ ys))
rounds_of-split stmts zero k j h below = absurd (omega arith)
rounds_of-split stmts (suc left) k j h below = elim (Bool-cases (k == j)) [
  | inl same ↦
      let e : k ≡ j = (==_iff k j).0 same in
      let nothing : j - j ≡ 0 = omega arith in (rounds_of stmts left (suc k), rw (e, nothing) refl)
  | inr other ↦
      let more : suc k ≤ j = ground arith in
      let (ys, e) = rounds_of-split stmts left (suc k) j more (omega arith) in
      let step : j - k ≡ suc (j - suc k) = omega arith in
      (ys, rw (step, e) (sym (append_assoc (stmts k) (rounds_of stmts (j - suc k) (suc k)) _)))
]

pub rounds_of-around :
    (stmts : ℕ → List Stmt) (n j : ℕ)
    → j < n
    → (ys : List Stmt) × (rounds_of stmts n 0 ≡ rounds_of stmts j 0 ++ (stmts j ++ ys))
rounds_of-around stmts n j below =
    let (ys, e) = rounds_of-split stmts n 0 j (omega arith) (omega arith) in
    let whole : j - 0 ≡ j = omega arith in (ys, rw whole at e)

same_label_refl : (l : Label) → same_label l l ≡ true
same_label_refl mds = refl
same_label_refl oss = refl

pub is_node_refl : (l : Label) (i : ℕ) → is_node l i l i ≡ true
is_node_refl l i = rw (same_label_refl l, ==_refl i)

module _ (S : GraphStore) (law : IsLawful S) where
  pub node-created :
      (l : Label) (i : ℕ) (ss : List Stmt) (g : S.Graph)
      → S.node (run_all S (create l i ∷ ss) g) l i
  unfolding run_all
  node-created l i ss g =
      node-kept S law ss (S.run (render (create l i)) g) l i
        ((law.node-run (create l i) g l i).1 (inr (is_node_refl l i)))

  -- A node whose statements create it and then set the property to the text has it.
  pub has-created :
      (l : Label) (i : ℕ) (ss : List Stmt) (g : S.Graph) (k : Key) (t : Bytes)
      → Agrees ss l i k t
      → Written ss l i k t
      → S.has (run_all S (create l i ∷ ss) g) l i k t
  unfolding run_all
  has-created l i ss g k t agrees (s, m, e) =
      has-written S law ss (S.run (render (create l i)) g) l i k t agrees
        ((law.node-run (create l i) g l i).1 (inr (is_node_refl l i))) s m e

  has-between :
      (before ss after : List Stmt) (l : Label) (i : ℕ) (g : S.Graph) (k : Key) (t : Bytes)
      → Written ss l i k t
      → Agrees (before ++ (create l i ∷ ss ++ after)) l i k t
      → S.node (run_all S (before ++ (create l i ∷ ss ++ after)) g) l i
        × S.has (run_all S (before ++ (create l i ∷ ss ++ after)) g) l i k t
  has-between before ss after l i g k t w agrees =
      let here = run_all S before g in
      let rest_agree = Agrees-right l i k t before (create l i ∷ ss ++ after) agrees in
      let inode_agree = Agrees-left l i k t (create l i ∷ ss) after rest_agree in
      let node = node-created l i ss here in
      let text = has-created l i ss here k t (λ q m. inode_agree q (Memᴰ.tail m)) w in
      rw
        (
          run_all-append S before (create l i ∷ ss ++ after) g,
          run_all-append S (create l i ∷ ss) after here,
        )
        (
          node-kept S law after (run_all S (create l i ∷ ss) here) l i node,
          has-kept S law after (run_all S (create l i ∷ ss) here) l i k t
              (Agrees-right l i k t (create l i ∷ ss) after rest_agree) node text,
        )

  -- After all rounds, the node that round j creates has its property's text.
  pub has-rounds :
      (stmts : ℕ → List Stmt) (n j : ℕ) (l : Label) (i : ℕ) (ss : List Stmt) (g : S.Graph) (k : Key)
      (t : Bytes)
      → j < n
      → stmts j ≡ create l i ∷ ss
      → Written ss l i k t
      → Agrees (rounds_of stmts n 0) l i k t
      → S.node (run_all S (rounds_of stmts n 0) g) l i
        × S.has (run_all S (rounds_of stmts n 0) g) l i k t
  has-rounds stmts n j l i ss g k t below e w agrees =
      let (after, split) = rounds_of-around stmts n j below in
      let whole = split ∙ ap (λ x. rounds_of stmts j 0 ++ (x ++ after)) e in
      rw whole (has-between (rounds_of stmts j 0) ss after l i g k t w (rw whole at agrees))

  -- A statement that sets one side of the relation, and the one behind it that merges it.
  pub edge-adjacent :
      (xs ys : List Stmt) (s q : Stmt) (g : S.Graph) (r : Relation) (i j : ℕ) (t : Bytes)
      → merges q r i ≡ true
      → S.has (S.run (render s) (run_all S xs g)) (source_label r) i (source_key r) t
      → S.has (S.run (render s) (run_all S xs g)) (target_label r) j (target_key r) t
      → S.edge (run_all S (xs ++ s ∷ q ∷ ys) g) r i j
  unfolding run_all
  edge-adjacent xs ys s q g r i j t e a b = rw (run_all-append S xs (s ∷ q ∷ ys) g) (
      edge-kept S law ys (S.run (render q) (S.run (render s) (run_all S xs g))) r i j
        ((law.edge-run q (S.run (render s) (run_all S xs g)) r i j).1 (inr (e, (t, a, b)))))

-- A node whose statements create it, set one of its properties and at once merge a relation.
module _ (S : GraphStore) (law : IsLawful S) (before zs rest : List Stmt) (l : Label) (i : ℕ)
    (s q : Stmt) where
  -- What the other node had before it still has when the relation is merged.
  held :
      (g : S.Graph) (m : Label) (j : ℕ) (k : Key) (t : Bytes)
      → Agrees (before ++ (create l i ∷ zs ++ s ∷ q ∷ rest)) m j k t
      → S.node (run_all S before g) m j
      → S.has (run_all S before g) m j k t
      → S.has (S.run (render s) (run_all S (create l i ∷ zs) (run_all S before g))) m j k t
  held g m j k t agrees n h =
      let here = run_all S before g in
      let later = Agrees-right m j k t before (create l i ∷ zs ++ s ∷ q ∷ rest) agrees in
      has-run_kept S law s (run_all S (create l i ∷ zs) here) m j k t
        (Agrees-right m j k t (create l i ∷ zs) (s ∷ q ∷ rest) later s (Memᴰ.head refl))
        (node-kept S law (create l i ∷ zs) here m j n)
        (has-kept S law (create l i ∷ zs) here m j k t
          (Agrees-left m j k t (create l i ∷ zs) (s ∷ q ∷ rest) later) n h)

  edge-here :
      (g : S.Graph) (r : Relation) (a b : ℕ) (t : Bytes)
      → merges q r a ≡ true
      → S.has
          (S.run (render s) (run_all S (create l i ∷ zs) (run_all S before g)))
          (source_label r)
          a
          (source_key r)
          t
      → S.has
          (S.run (render s) (run_all S (create l i ∷ zs) (run_all S before g)))
          (target_label r)
          b
          (target_key r)
          t
      → S.edge (run_all S (before ++ (create l i ∷ zs ++ s ∷ q ∷ rest)) g) r a b
  edge-here g r a b t e x y =
      rw (run_all-append S before (create l i ∷ zs ++ s ∷ q ∷ rest) g)
        (edge-adjacent S law (create l i ∷ zs) rest s q (run_all S before g) r a b t e x y)

  -- The new node is the relation's source, and the other one was there before.
  pub edge-source :
      (g : S.Graph) (r : Relation) (j : ℕ) (t : Bytes)
      → l ≡ source_label r
      → merges q r i ≡ true
      → writes s l i (source_key r) ≡ some t
      → Agrees (before ++ (create l i ∷ zs ++ s ∷ q ∷ rest)) (target_label r) j (target_key r) t
      → S.node (run_all S before g) (target_label r) j
      → S.has (run_all S before g) (target_label r) j (target_key r) t
      → S.edge (run_all S (before ++ (create l i ∷ zs ++ s ∷ q ∷ rest)) g) r i j
  edge-source g r j t label e set agrees n h =
      edge-here g r i j t e
        (rw (← label) (
          has-run_written S law s (run_all S (create l i ∷ zs) (run_all S before g)) l i
            (source_key r) t set (node-created S law l i zs (run_all S before g))))
        (held g (target_label r) j (target_key r) t agrees n h)

  -- The new node is the relation's target.
  pub edge-target :
      (g : S.Graph) (r : Relation) (j : ℕ) (t : Bytes)
      → l ≡ target_label r
      → merges q r j ≡ true
      → writes s l i (target_key r) ≡ some t
      → Agrees (before ++ (create l i ∷ zs ++ s ∷ q ∷ rest)) (source_label r) j (source_key r) t
      → S.node (run_all S before g) (source_label r) j
      → S.has (run_all S before g) (source_label r) j (source_key r) t
      → S.edge (run_all S (before ++ (create l i ∷ zs ++ s ∷ q ∷ rest)) g) r j i
  edge-target g r j t label e set agrees n h =
      edge-here g r j i t e (held g (source_label r) j (source_key r) t agrees n h) (
        rw (← label) (
          has-run_written S law s (run_all S (create l i ∷ zs) (run_all S before g)) l i
            (target_key r) t set (node-created S law l i zs (run_all S before g))))

pub regroup :
    {A : Type 0} (x : A) (bs cs ds es : List A)
    → (x ∷ (bs ++ (cs ++ ds))) ++ es ≡ (x ∷ (bs ++ cs)) ++ (ds ++ es)
regroup x bs cs ds es = simp append_assoc
