-- ===== src/Xattr/Walk.antt =====
-- The loop over the entries against the chain of entries in memory.
use mathlib.Core.Path.{subst}
use native.Mathlib.Decide.{dec_lt}
use dist_lfsck.Disk.{Memory, load}
use dist_lfsck.Flow.{Flow, next, exit, ◌>>=◌, each, bind_cong, bind_assoc}
use dist_lfsck.Prelude.{
  ℕ, zero, suc, ◌+◌, ◌*◌, ◌<◌, ◌≤◌, ◌≡◌, ◌≢◌, inl, inr, refl, true, false, List, [], ◌∷◌, ◌++◌,
  arith, sym, ap, ◌↔◌, ◌∙◌, Bool-cases, ==_iff, length, append_assoc, append-nil,
}
use dist_lfsck.Xattr.{is_last_entry, xattr_next, walk, Chain}

module _ {ℓ} {S : Type ℓ} (m : Memory) (body : ℕ → S → Flow S) where
  -- With more tests than entries the loop runs its body on each entry of the chain, in order.
  pub walk-each :
      (ps : List ℕ) (fuel o end : ℕ) (s : S)
      → length ps < fuel
      → Chain m o ps end
      → walk fuel m body o s ≡ each body ps s
  unfolding walk each
  walk-each ps zero o end s h c = absurd (omega arith)
  walk-each [] (suc fuel) o end s h c =
      let e : is_last_entry m o ≡ true = (==_iff (load 4 m o) 0).1 c.1 in rw (e, walk)
  walk-each (p ∷ ps) (suc fuel) o end s h (at, more, rest) = elim (Bool-cases (is_last_entry m o)) [
    | inl last ↦ absurd (more ((==_iff (load 4 m o) 0).0 last))
    | inr going ↦
        rw (going, walk)
          (rw at (
            bind_cong (body p s) _ _ (λ t.
              walk-each ps fuel (xattr_next m p) end t (omega arith)
                (subst (λ q. Chain m (xattr_next m q) ps end) at rest))))
  ]

-- The entries from `o` on stand at these offsets, and another one at `p` behind them.
abbrev pub Reaches : Memory → ℕ → List ℕ → ℕ → Type 0
Reaches m o [] p = (o ≡ p) × (load 4 m p ≢ 0)
Reaches m o (q ∷ qs) p = (o ≡ q) × (load 4 m q ≢ 0) × Reaches m (xattr_next m q) qs p

module _ {ℓ} {S : Type ℓ} (m : Memory) (body : ℕ → S → Flow S) where
  walk_at :
      (fuel p : ℕ) (s : S)
      → load 4 m p ≢ 0
      → walk (suc fuel) m body p s ≡ (body p s >>= walk fuel m body (xattr_next m p))
  unfolding walk
  walk_at fuel p s more = elim (Bool-cases (is_last_entry m p)) [
    | inl last ↦ absurd (more ((==_iff (load 4 m p) 0).0 last))
    | inr going ↦ rw (going, walk) refl
  ]

  -- A walk whose body stops the program at the entry at `p` does not look behind that entry.
  pub walk_stops :
      (qs : List ℕ) (fuel o p : ℕ) (s : S)
      → length qs < fuel
      → Reaches m o qs p
      → ((t : S) → (u : S) × (status : ℕ) × (body p t ≡ exit u status))
      → walk fuel m body o s ≡ (each body qs s >>= body p)
  unfolding each
  walk_stops qs zero o p s h r stops = absurd (omega arith)
  walk_stops [] (suc fuel) o p s h (at, more) stops =
      let (u, status, e) = stops s in rw at (walk_at fuel p s more ∙ rw e refl)
  walk_stops (q ∷ qs) (suc fuel) o p s h (at, more, rest) stops = rw at (
      walk_at fuel q s more
      ∙ bind_cong (body q s) _ _
          (λ t. walk_stops qs fuel (xattr_next m q) p t (omega arith) rest stops)
      ∙ sym (bind_assoc (body q s) _ _))

-- An entry takes at least its 16 bytes, so the chain's length is bounded by the space it takes.
pub Chain-length :
    (m : Memory) (ps : List ℕ) (o end : ℕ) → Chain m o ps end → o + 16 * length ps ≤ end
Chain-length m [] o end c = omega arith
Chain-length m (p ∷ ps) o end (at, more, rest) =
    omega (arith, Chain-length m ps (xattr_next m o) end rest)

next_injective : {s t : List ℕ} → next s ≡ next t → s ≡ t
next_injective h = cc

pub ne_of_test : (m : Memory) (o : ℕ) → is_last_entry m o ≡ false → load 4 m o ≢ 0
ne_of_test m o h = ground arith

-- The body that only notes where it is called.
abbrev pub note : ℕ → List ℕ → Flow (List ℕ)
note p seen = next (seen ++ p ∷ [])

pub walk-note-Chain :
    (m : Memory) (fuel o : ℕ) (seen qs : List ℕ)
    → walk fuel m note o seen ≡ next qs
    → (ps : List ℕ) × (end : ℕ) × Chain m o ps end × (length ps < fuel) × (qs ≡ seen ++ ps)
unfolding walk
walk-note-Chain m zero o seen qs h = absurd (cc)
walk-note-Chain m (suc fuel) o seen qs h = elim (Bool-cases (is_last_entry m o)) [
  | inl last ↦
      let e : seen ≡ qs = next_injective (rw (last, walk) at h) in
      ([], o, (refl, (==_iff (load 4 m o) 0).0 last), omega arith, sym e ∙ sym (append-nil seen))
  | inr going ↦
      let (ps, end, c, short, e) =
        walk-note-Chain m fuel (xattr_next m o) (seen ++ o ∷ []) qs (rw (going, walk) at h) in
      (o ∷ ps, end, (refl, ne_of_test m o going, c), omega arith, e ∙ append_assoc seen (o ∷ []) ps)
]

each-note : (ps seen : List ℕ) → each note ps seen ≡ next (seen ++ ps)
unfolding each
each-note [] seen = rw append-nil
each-note (p ∷ ps) seen = each-note ps (seen ++ p ∷ []) ∙ ap next (append_assoc seen (p ∷ []) ps)

-- The walk over the attributes ends within `fuel` tests exactly when memory holds a chain of fewer
-- than `fuel` entries up to a terminator, and it visits just the entries of that chain.
pub walk_ends_iff :
    (m : Memory) (fuel o : ℕ) (ps : List ℕ)
    → (walk fuel m note o [] ≡ next ps) ↔ ((end : ℕ) × Chain m o ps end × (length ps < fuel))
walk_ends_iff m fuel o ps = (
  λ h.
      let (qs, end, c, short, e) = walk-note-Chain m fuel o [] ps h in
      (end, subst (λ l. Chain m o l end) (sym e) c, rw e short),
  λ h. walk-each m note ps fuel o h.0 [] h.2 h.1 ∙ each-note ps [],
)

Chain-end : (m : Memory) (ps : List ℕ) (o end : ℕ) → Chain m o ps end → load 4 m end ≡ 0
Chain-end m [] o end c = rw (← c.0) c.1
Chain-end m (p ∷ ps) o end c = Chain-end m ps (xattr_next m o) end c.2

-- With no zero word between the first entry and `limit`, such as the end of the inode, a walk that
-- ends at all has left the range: nothing in the loop compares the entry with the inode's end.
pub walk_overruns :
    (m : Memory) (fuel o limit : ℕ) (ps : List ℕ)
    → ((p : ℕ) → o ≤ p → p < limit → load 4 m p ≢ 0)
    → walk fuel m note o [] ≡ next ps
    → (end : ℕ) × Chain m o ps end × (limit ≤ end)
walk_overruns m fuel o limit ps full h =
    let (end, c, short) = (walk_ends_iff m fuel o ps).0 h in
    (
      end,
      c,
      elim (dec_lt end limit) [
        | yes inside ↦
            absurd
              (full end (omega (arith, Chain-length m ps o end c)) inside (Chain-end m ps o end c))
        | no outside ↦ omega arith
      ],
    )
