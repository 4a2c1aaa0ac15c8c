-- ===== src/Graph/Relates.antt =====
-- The statements that relate MDS nodes, and which of the scans' statements they are.
use dist_lfsck.Cypher.{render, Stmt, mds, oss, create, merge_lov_parent}
use dist_lfsck.Disk.{Memory, load}
use dist_lfsck.Graph.Writes.{rounds_of}
use dist_lfsck.Graph.{mds_parent_of, merges, GraphStore, IsLawful, run_all}
use dist_lfsck.Mds.Inodes as MdsInodes
use dist_lfsck.Mds.Statements as MdsStatements
use dist_lfsck.Ost.Inodes as OstInodes
use dist_lfsck.Ost.Statements as OstStatements
use dist_lfsck.Prelude.{
  ℕ, zero, suc, ◌+◌, ◌-◌, ◌<◌, ◌≤◌, ◌≡◌, ◌≢◌, refl, sym, ◌∙◌, ◌⊎◌, inl, inr, true, false,
  Bool-cases, ◌==◌, ==_iff, arith, List, [], ◌∷◌, ◌++◌, append_assoc, Memᴰ, codes,
}
use dist_lfsck.Scan.Rounds.{buffer_after}
use dist_lfsck.Scan.{Volume, ihdr, attr_magic, i_mode, is_dir, is_reg}
use dist_lfsck.Xattr.{begins}

-- A statement of the list merges the relation between MDS nodes.
abbrev pub AnyRelates : List Stmt → Type 0
AnyRelates ss = (s : Stmt) × Memᴰ s ss × (i : ℕ) × (merges s mds_parent_of i ≡ true)

pub AnyRelates-append : (xs ys : List Stmt) → AnyRelates (xs ++ ys) → AnyRelates xs ⊎ AnyRelates ys
AnyRelates-append [] ys h = inr h
AnyRelates-append (x ∷ xs) ys (s, Memᴰ.head e, i, m) = inl (s, Memᴰ.head e, i, m)
AnyRelates-append (x ∷ xs) ys (s, Memᴰ.tail n, i, m) = elim (AnyRelates-append xs ys (s, n, i, m)) [
  | inl (q, o, j, r) ↦ inl (q, Memᴰ.tail o, j, r)
  | inr there ↦ inr there
]

AnyRelates-nil : ¬ AnyRelates []
AnyRelates-nil (s, n, i, m) = elim n [ ]

-- A statement of another kind is not the one.
AnyRelates-cons :
    (s : Stmt) (ss : List Stmt)
    → ((i : ℕ) → merges s mds_parent_of i ≡ false)
    → AnyRelates (s ∷ ss)
    → AnyRelates ss
AnyRelates-cons s ss none_here (q, Memᴰ.head e, i, m) =
    absurd (different (sym (none_here i) ∙ (rw e at m)))
  where
    different : false ≢ true
    different h = cc
AnyRelates-cons s ss none_here (q, Memᴰ.tail n, i, m) = (q, n, i, m)

module _ (S : GraphStore) (law : IsLawful S) where
  -- An edge between MDS nodes was there, or a statement has merged the relation.
  pub edge-AnyRelates :
      (ss : List Stmt) (g : S.Graph) (i j : ℕ)
      → S.edge (run_all S ss g) mds_parent_of i j
      → S.edge g mds_parent_of i j ⊎ AnyRelates ss
  unfolding run_all
  edge-AnyRelates [] g i j h = inl h
  edge-AnyRelates (s ∷ ss) g i j h = elim (edge-AnyRelates ss (S.run (render s) g) i j h) [
    | inr (q, n, k, m) ↦ inr (q, Memᴰ.tail n, k, m)
    | inl now ↦ elim ((law.edge-run s g mds_parent_of i j).0 now) [
      | inl before ↦ inl before
      | inr (m, c) ↦ inr (s, Memᴰ.head refl, i, m)
    ]
  ]

module _ (v : Volume) (i : ℕ) (m : Memory) where
  -- Among the statements of an inode, only a link EA's relate MDS nodes.
  entries-AnyRelates :
      (ps : List ℕ)
      → AnyRelates (MdsStatements.entries_stmts v i m ps)
      → (p : ℕ) × Memᴰ p ps × (begins m (p + 16) (codes "link") ≡ true)
  entries-AnyRelates [] h = absurd (AnyRelates-nil h)
  entries-AnyRelates (p ∷ ps) h = elim (AnyRelates-append (MdsStatements.entry_stmts v i m p) _ h) [
    | inr later ↦ let (q, n, e) = entries-AnyRelates ps later in (q, Memᴰ.tail n, e)
    | inl here ↦ elim (AnyRelates-append (MdsStatements.lma_stmts v i m p) _ here) [
      | inl own ↦ absurd (no_lma p own)
      | inr rest ↦ elim (AnyRelates-append (MdsStatements.link_stmts v i m p) _ rest) [
        | inr lov ↦ absurd (no_lov p lov)
        | inl link ↦ elim (Bool-cases (begins m (p + 16) (codes "link"))) [
          | inl is_link ↦ (p, Memᴰ.head refl, is_link)
          | inr other ↦ absurd (AnyRelates-nil (rw other at link))
        ]
      ]
    ]
  ]
    where
      no_lma : (p : ℕ) → ¬ AnyRelates (MdsStatements.lma_stmts v i m p)
      no_lma p h = elim (Bool-cases (begins m (p + 16) (codes "lma"))) [
        | inl is_lma ↦ AnyRelates-nil (AnyRelates-cons _ [] (λ j. refl) (rw is_lma at h))
        | inr other ↦ AnyRelates-nil (rw other at h)
      ]

      no_lov : (p : ℕ) → ¬ AnyRelates (MdsStatements.lov_stmts v i m p)
      no_lov p h = elim (Bool-cases (begins m (p + 16) (codes "lov"))) [
        | inl is_lov ↦ AnyRelates-nil (AnyRelates-cons _ [] (λ j. refl) (rw is_lov at h))
        | inr other ↦ AnyRelates-nil (rw other at h)
      ]

  pub inode-AnyRelates :
      (ps : List ℕ)
      → AnyRelates (MdsInodes.inode_stmts v i m ps)
      → MdsInodes.HasAttrs m × (p : ℕ) × Memᴰ p ps × (begins m (p + 16) (codes "link") ≡ true)
  inode-AnyRelates ps h = elim (Bool-cases (load 4 m (ihdr m) == attr_magic)) [
    | inr unmarked ↦ absurd (AnyRelates-nil (rw unmarked at h))
    | inl marked ↦
        let sets = AnyRelates-cons (create mds i) _ (λ j. refl) (rw marked at h) in
        elim (AnyRelates-append (MdsInodes.type_stmts i (i_mode m)) _ sets) [
          | inl typed ↦ absurd (no_type typed)
          | inr rest ↦ let (p, n, e) = entries-AnyRelates ps rest in (marked, p, n, e)
        ]
  ]
    where
      no_type : ¬ AnyRelates (MdsInodes.type_stmts i (i_mode m))
      no_type t = elim (Bool-cases (is_dir (i_mode m))) [
        | inl dir ↦ AnyRelates-nil (AnyRelates-cons _ [] (λ j. refl) (rw dir at t))
        | inr other ↦ elim (Bool-cases (is_reg (i_mode m))) [
          | inl reg ↦ AnyRelates-nil (AnyRelates-cons _ [] (λ j. refl) (rw (other, reg) at t))
          | inr neither ↦ AnyRelates-nil (rw (other, neither) at t)
        ]
      ]

pub rounds_of-AnyRelates :
    (stmts : ℕ → List Stmt) (left k : ℕ)
    → AnyRelates (rounds_of stmts left k)
    → (j : ℕ) × (k ≤ j) × (j < left + k) × AnyRelates (stmts j)
rounds_of-AnyRelates stmts zero k h = absurd (AnyRelates-nil h)
rounds_of-AnyRelates stmts (suc left) k h =
    elim (AnyRelates-append (stmts k) (rounds_of stmts left (suc k)) h) [
      | inl here ↦ (k, omega arith, omega arith, here)
      | inr later ↦
          let (j, a, b, w) = rounds_of-AnyRelates stmts left (suc k) later in
          (j, omega (arith, a), omega (arith, b), w)
    ]

-- The rounds before round j, and those from it on.
pub rounds_of-from :
    (stmts : ℕ → List Stmt) (left k j : ℕ)
    → k ≤ j
    → j ≤ left + k
    → rounds_of stmts left k ≡ rounds_of stmts (j - k) k ++ rounds_of stmts (left + k - j) j
rounds_of-from stmts zero k j h below =
    let nothing : j - k ≡ 0 = omega arith in
    let behind : 0 + k - j ≡ 0 = omega arith in rw (nothing, behind) refl
rounds_of-from stmts (suc left) k j h below = elim (Bool-cases (k == j)) [
  | inl same ↦
      let e : k ≡ j = (==_iff k j).0 same in
      let nothing : j - j ≡ 0 = omega arith in
      let behind : suc left + j - j ≡ suc left = omega arith in rw (e, nothing, behind) refl
  | inr other ↦
      let more : suc k ≤ j = ground arith in
      let step : j - k ≡ suc (j - suc k) = omega arith in
      let behind : suc left + k - j ≡ left + suc k - j = omega arith in
      let later = rounds_of-from stmts left (suc k) j more (omega arith) in
      rw (step, behind, later)
        (sym (append_assoc (stmts k) (rounds_of stmts (j - suc k) (suc k)) _))
]

module _ (w : Volume) where
  -- The statements of the OST scan relate no MDS nodes.
  object_entries-relate_none :
      (i : ℕ) (m : Memory) (ps : List ℕ) → ¬ AnyRelates (OstStatements.entries_stmts w i m ps)
  object_entries-relate_none i m [] h = AnyRelates-nil h
  object_entries-relate_none i m (p ∷ ps) h =
      elim (AnyRelates-append (OstStatements.entry_stmts w i m p) _ h) [
        | inr later ↦ object_entries-relate_none i m ps later
        | inl here ↦ elim (AnyRelates-append (OstStatements.lma_stmts w i m p) _ here) [
          | inl own ↦ elim (Bool-cases (begins m (p + 16) (codes "lma"))) [
            | inr other ↦ AnyRelates-nil (rw other at own)
            | inl is_lma ↦ AnyRelates-nil (
                AnyRelates-cons _ [] (λ j. refl)
                  (AnyRelates-cons _ _ (λ j. refl) (rw is_lma at own)))
          ]
          | inr filter ↦ elim (Bool-cases (begins m (p + 16) (codes "fid"))) [
            | inr other ↦ AnyRelates-nil (rw other at filter)
            | inl is_fid ↦ AnyRelates-nil (
                AnyRelates-cons _ [] (λ j. refl)
                  (AnyRelates-cons _ _ (λ j. refl) (rw is_fid at filter)))
          ]
        ]
      ]

  object-relates_none :
      (i : ℕ) (m : Memory) (ps : List ℕ) → ¬ AnyRelates (OstInodes.inode_stmts w i m ps)
  object-relates_none i m ps h = elim (Bool-cases (load 4 m (ihdr m) == attr_magic)) [
    | inr unmarked ↦ AnyRelates-nil (rw unmarked at h)
    | inl marked ↦
        let sets = AnyRelates-cons (create oss i) _ (λ j. refl) (rw marked at h) in
        elim (AnyRelates-append (OstInodes.type_stmts i (i_mode m)) _ sets) [
          | inl typed ↦ no_type typed
          | inr rest ↦ object_entries-relate_none i m ps rest
        ]
  ]
    where
      no_type : ¬ AnyRelates (OstInodes.type_stmts i (i_mode m))
      no_type t = elim (Bool-cases (is_dir (i_mode m))) [
        | inl dir ↦ AnyRelates-nil (AnyRelates-cons _ [] (λ j. refl) (rw dir at t))
        | inr other ↦ elim (Bool-cases (is_reg (i_mode m))) [
          | inl reg ↦ AnyRelates-nil (AnyRelates-cons _ [] (λ j. refl) (rw (other, reg) at t))
          | inr neither ↦ AnyRelates-nil (rw (other, neither) at t)
        ]
      ]

  pub objects-relate_none :
      (offsets : ℕ → List ℕ) (left k : ℕ) → ¬ AnyRelates (OstInodes.volume_stmts w offsets left k)
  objects-relate_none offsets zero k h = AnyRelates-nil h
  objects-relate_none offsets (suc left) k h =
      elim (AnyRelates-append
        (OstInodes.inode_stmts w (k + 1) (buffer_after w (suc k)) (offsets (k + 1))) _ h) [
          | inl here ↦ object-relates_none (k + 1) (buffer_after w (suc k)) (offsets (k + 1)) here
          | inr later ↦ objects-relate_none offsets left (suc k) later
        ]

pub lov_loop-relates_none : (left j : ℕ) → ¬ AnyRelates (OstInodes.lov_stmts left j)
unfolding OstInodes.lov_stmts
lov_loop-relates_none zero j h = AnyRelates-nil h
lov_loop-relates_none (suc left) j h =
    lov_loop-relates_none left (j + 1) (AnyRelates-cons (merge_lov_parent j) _ (λ i. refl) h)
