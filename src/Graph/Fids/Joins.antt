-- ===== src/Graph/Fids/Joins.antt =====
-- A property that is set, and two that are compared, as values and as texts.
use dist_lfsck.Graph.{AfterSet}
use dist_lfsck.Lustre.{LuFid}
use dist_lfsck.Prelude.{
  ◌≡◌, ◌↔◌, refl, ap, sym, ◌∙◌, arith, Bool, true, false, ◌&&◌, ◌==◌, if◌then◌else◌, Option, none,
  some, Bytes,
}

-- The property, if it is there, has this text.
abbrev pub Shows : {A : Type 0} → (A → Bytes) → Option A → Bytes → Type 0
Shows {A = A} text o t = (a : A) × (o ≡ some a) × (text a ≡ t)

-- SET of one property: `here` says that the statement names it, `exists` that its node is there.
abbrev pub put {ℓ} : {A : Type ℓ} → Bool → Bool → A → Option A → Option A
put here exists a old = if here then (if exists then some a else none) else old

-- Both properties are there, and equal.
abbrev pub joins {ℓ} : {A : Type ℓ} → (A → A → Bool) → Option A → Option A → Bool
joins same none p = false
joins same (some a) none = false
joins same (some a) (some b) = same a b

abbrev pub same_fid : LuFid → LuFid → Bool
same_fid f g = f.f_seq == g.f_seq && (f.f_oid == g.f_oid && f.f_ver == g.f_ver)

pub same_fid_iff : (f g : LuFid) → (same_fid f g ≡ true) ↔ (f ≡ g)
same_fid_iff f g = ground arith

some-injective : {A : Type 0} (a b : A) → some a ≡ some b → a ≡ b
some-injective a b h = cc

module _ {A : Type 0} (text : A → Bytes) where
  -- What a SET leaves of the property's text.
  pub put-Shows :
      (here exists : Bool) (a : A) (old : Option A) (t : Bytes)
      → Shows text (put here exists a old) t
        ↔ AfterSet (if here then some (text a) else none) (exists ≡ true) (Shows text old t) t
  put-Shows false exists a old t = (λ h. h, λ h. h)
  put-Shows true false a old t = (λ h. cc, λ h. cc)
  put-Shows true true a old t =
      (λ h. (refl, ap text (some-injective a h.0 h.1) ∙ h.2), λ h. (a, refl, h.1))

  -- Two properties are equal when their texts are.
  pub joins-Shows :
      (same : A → A → Bool)
      → ((a b : A) → (same a b ≡ true) ↔ (a ≡ b))
      → ((a b : A) → text a ≡ text b → a ≡ b)
      → (o p : Option A) → (joins same o p ≡ true) ↔ ((t : Bytes) × Shows text o t × Shows text p t)
  joins-Shows same iff injective none p = (λ h. cc, λ h. cc)
  joins-Shows same iff injective (some a) none = (λ h. cc, λ h. cc)
  joins-Shows same iff injective (some a) (some b) = (
    λ h. (text a, (a, refl, refl), (b, refl, ap text (sym ((iff a b).0 h)))),
    λ h.
        let (t, (c, e, u), (d, f, w)) = h in
        (iff a b).1 (
          injective a b
            (ap text (some-injective a c e) ∙ u ∙ sym w ∙ ap text (sym (some-injective b d f)))),
  )
