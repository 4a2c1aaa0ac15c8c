-- ===== src/Flow.antt =====
-- How a piece of a scanner's `main` ends: it goes on, it leaves the program by `exit` or `return`,
-- or its loop uses up the rounds that the model grants.
use dist_lfsck.Prelude.{ℕ, ◌≡◌, refl, sym, ◌∙◌, List, [], ◌∷◌, ◌++◌}

pub data Flow {ℓ} (S : Type ℓ) : Type ℓ where
  next : S → Flow S
  exit : S → ℕ → Flow S
  spins : Flow S

infixl 5 ◌>>=◌
abbrev pub ◌>>=◌ {ℓ} : {S : Type ℓ} → Flow S → (S → Flow S) → Flow S
next s >>= f = f s
exit s status >>= f = exit s status
spins >>= f = spins

module _ {ℓ κ} {A : Type ℓ} {S : Type κ} where
  -- A loop body over the items that a loop visits, in order.
  unfoldable pub each : (A → S → Flow S) → List A → S → Flow S
  each body [] s = next s
  each body (x ∷ xs) s = body x s >>= λ t. each body xs t

-- Two continuations that agree everywhere make the same program.
pub bind_cong {ℓ} :
    {S : Type ℓ} (m : Flow S) (f g : S → Flow S) → ((s : S) → f s ≡ g s) → (m >>= f) ≡ (m >>= g)
bind_cong (next s) f g h = h s
bind_cong (exit s status) f g h = refl
bind_cong spins f g h = refl

pub bind_assoc {ℓ} :
    {S : Type ℓ} (m : Flow S) (f g : S → Flow S) → (m >>= f >>= g) ≡ (m >>= λ s. f s >>= g)
bind_assoc (next s) f g = refl
bind_assoc (exit s status) f g = refl
bind_assoc spins f g = refl

module _ {ℓ κ} {A : Type ℓ} {S : Type κ} (body : A → S → Flow S) where
  -- A loop over two lists is the loop over the first and then over the second.
  pub each-append :
      (xs ys : List A) (s : S) → each body (xs ++ ys) s ≡ (each body xs s >>= each body ys)
  unfolding each
  each-append [] ys s = refl
  each-append (x ∷ xs) ys s =
      bind_cong (body x s) _ _ (λ t. each-append xs ys t) ∙ sym (bind_assoc (body x s) _ _)

-- A property of the state, wherever a piece of the program leaves it. A loop that uses up its
-- rounds leaves no state.
abbrev pub Leaves {ℓ κ} : {S : Type ℓ} → (S → Type κ) → Flow S → Type κ
Leaves P (next s) = P s
Leaves P (exit s status) = P s
Leaves P spins = Unit

pub Leaves-bind {ℓ κ} :
    {S : Type ℓ} (P : S → Type κ) (m : Flow S) (f : S → Flow S)
    → Leaves P m
    → ((s : S) → P s → Leaves P (f s))
    → Leaves P (m >>= f)
Leaves-bind P (next s) f h k = k s h
Leaves-bind P (exit s status) f h k = h
Leaves-bind P spins f h k = tt
