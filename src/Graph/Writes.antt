-- ===== src/Graph/Writes.antt =====
-- Which statements set a property of a node, and which nodes of a list's statements they are.
use dist_lfsck.Cypher.{
  Label, mds, oss, Kind, FidField, Stmt, set_type, set_fid, set_ost_oid, set_f_oid, fid_text,
}
use dist_lfsck.Graph.Laws.{Written}
use dist_lfsck.Graph.{
  Key, type_key, ost_oid_key, f_oid_key, fid_key, same_label, same_field, is_node, writes,
}
use dist_lfsck.Lustre.{LuFid}
use dist_lfsck.Prelude.{
  ℕ, zero, suc, ◌+◌, ◌<◌, ◌≤◌, ◌≡◌, refl, ap, sym, ◌⊎◌, inl, inr, true, false, Bool, ◌&&◌, ◌==◌,
  ==_iff, arith, if◌then◌else◌, none, some, List, [], ◌∷◌, ◌++◌, Bytes, Memᴰ,
}
use dist_lfsck.Text.{hex}

guard-some :
    {A : Type 0} (b : Bool) (x y : A) → (if b then some x else none) ≡ some y → (b ≡ true) × (x ≡ y)
guard-some true x y h = (refl, (cc))
guard-some false x y h = (cc)

and-true : (a b : Bool) → (a && b) ≡ true → (a ≡ true) × (b ≡ true)
and-true true b h = (refl, h)
and-true false b h = (cc)

same_label-eq : (l m : Label) → same_label l m ≡ true → m ≡ l
same_label-eq mds mds h = refl
same_label-eq oss oss h = refl
same_label-eq mds oss h = (cc)
same_label-eq oss mds h = (cc)

same_field-eq : (p q : FidField) → same_field p q ≡ true → q ≡ p
same_field-eq p q h = ground arith

is_node-eq : (l : Label) (i : ℕ) (m : Label) (j : ℕ) → is_node l i m j ≡ true → (m ≡ l) × (j ≡ i)
is_node-eq l i m j h =
    let (a, b) = and-true (same_label l m) (i == j) h in
    (same_label-eq l m a, sym ((==_iff i j).0 b))

-- What a statement sets is its own node's property, to its own text.
pub writes-set_fid :
    (l : Label) (i : ℕ) (p : FidField) (f : LuFid) (m : Label) (j : ℕ) (k : Key) (u : Bytes)
    → writes (set_fid l i p f) m j k ≡ some u
    → (m ≡ l) × (j ≡ i) × (k ≡ fid_key p) × (fid_text f ≡ u)
writes-set_fid l i p f m j type_key u h = (cc)
writes-set_fid l i p f m j ost_oid_key u h = (cc)
writes-set_fid l i p f m j f_oid_key u h = (cc)
writes-set_fid l i p f m j (fid_key q) u h =
    let (b, e) = guard-some (is_node l i m j && same_field p q) (fid_text f) u h in
    let (c, d) = and-true (is_node l i m j) (same_field p q) b in
    let (x, y) = is_node-eq l i m j c in (x, y, ap fid_key (same_field-eq p q d), e)

pub writes-set_ost_oid :
    (i oid : ℕ) (m : Label) (j : ℕ) (k : Key) (u : Bytes)
    → writes (set_ost_oid i oid) m j k ≡ some u
    → (m ≡ mds) × (j ≡ i) × (k ≡ ost_oid_key) × (hex oid ≡ u)
writes-set_ost_oid i oid m j type_key u h = (cc)
writes-set_ost_oid i oid m j f_oid_key u h = (cc)
writes-set_ost_oid i oid m j (fid_key q) u h = (cc)
writes-set_ost_oid i oid m j ost_oid_key u h =
    let (b, e) = guard-some (is_node mds i m j) (hex oid) u h in
    let (x, y) = is_node-eq mds i m j b in (x, y, refl, e)

pub writes-set_f_oid :
    (i oid : ℕ) (m : Label) (j : ℕ) (k : Key) (u : Bytes)
    → writes (set_f_oid i oid) m j k ≡ some u
    → (m ≡ oss) × (j ≡ i) × (k ≡ f_oid_key) × (hex oid ≡ u)
writes-set_f_oid i oid m j type_key u h = (cc)
writes-set_f_oid i oid m j ost_oid_key u h = (cc)
writes-set_f_oid i oid m j (fid_key q) u h = (cc)
writes-set_f_oid i oid m j f_oid_key u h =
    let (b, e) = guard-some (is_node oss i m j) (hex oid) u h in
    let (x, y) = is_node-eq oss i m j b in (x, y, refl, e)

pub writes-set_type :
    (l : Label) (i : ℕ) (t : Kind) (m : Label) (j : ℕ) (k : Key) (u : Bytes)
    → writes (set_type l i t) m j k ≡ some u
    → k ≡ type_key
writes-set_type l i t m j type_key u h = refl
writes-set_type l i t m j ost_oid_key u h = (cc)
writes-set_type l i t m j f_oid_key u h = (cc)
writes-set_type l i t m j (fid_key q) u h = (cc)

pub Written-append :
    (xs ys : List Stmt) (l : Label) (i : ℕ) (k : Key) (t : Bytes)
    → Written (xs ++ ys) l i k t
    → Written xs l i k t ⊎ Written ys l i k t
Written-append [] ys l i k t h = inr h
Written-append (x ∷ xs) ys l i k t (s, Memᴰ.head e, w) = inl (s, Memᴰ.head e, w)
Written-append (x ∷ xs) ys l i k t (s, Memᴰ.tail m, w) =
    elim (Written-append xs ys l i k t (s, m, w)) [
      | inl (q, n, v) ↦ inl (q, Memᴰ.tail n, v)
      | inr there ↦ inr there
    ]

pub Written-cons :
    (s : Stmt) (ss : List Stmt) (l : Label) (i : ℕ) (k : Key) (t : Bytes)
    → Written (s ∷ ss) l i k t
    → (writes s l i k ≡ some t) ⊎ Written ss l i k t
Written-cons s ss l i k t (q, Memᴰ.head e, w) = inl (rw e at w)
Written-cons s ss l i k t (q, Memᴰ.tail m, w) = inr (q, m, w)

pub Written-nil : (l : Label) (i : ℕ) (k : Key) (t : Bytes) → ¬ Written [] l i k t
Written-nil l i k t (q, m, w) = elim m [ ]

-- A list of statements that rounds k, k + 1, ... send.
abbrev pub rounds_of : (ℕ → List Stmt) → ℕ → ℕ → List Stmt
rounds_of stmts zero k = []
rounds_of stmts (suc left) k = stmts k ++ rounds_of stmts left (suc k)

pub Written-rounds_of :
    (stmts : ℕ → List Stmt) (left k : ℕ) (l : Label) (i : ℕ) (key : Key) (t : Bytes)
    → Written (rounds_of stmts left k) l i key t
    → (j : ℕ) × (k ≤ j) × (j < left + k) × Written (stmts j) l i key t
Written-rounds_of stmts zero k l i key t h = absurd (Written-nil l i key t h)
Written-rounds_of stmts (suc left) k l i key t h =
    elim (Written-append (stmts k) (rounds_of stmts left (suc k)) l i key t h) [
      | inl here ↦ (k, omega arith, omega arith, here)
      | inr later ↦
          let (j, a, b, w) = Written-rounds_of stmts left (suc k) l i key t later in
          (j, omega (arith, a), omega (arith, b), w)
    ]

pub Written-if :
    (b : Bool) (ss : List Stmt) (l : Label) (i : ℕ) (k : Key) (t : Bytes)
    → Written (if b then ss else []) l i k t
    → (b ≡ true) × Written ss l i k t
Written-if true ss l i k t h = (refl, h)
Written-if false ss l i k t h = absurd (Written-nil l i k t h)
