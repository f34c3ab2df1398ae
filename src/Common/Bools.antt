-- ===== src/Common/Bools.antt =====
-- Boolean tests on the native numbers, branching, and case splits that keep the equation.
use Prim.Native.Nat.{ℕ, compare, Ordering}
use mathlib.Core.Path.{◌≡◌, refl, subst}
use mathlib.Core.Bool.{Bool, true, false}
use mathlib.Core.Logic.{◌⊎◌, inl, inr}
use mathlib.Core.Option.{Option, none, some}

abbrev pub ltb : ℕ → ℕ → Bool
ltb a b = elim (compare a b) [ Ordering.lt ↦ true | _ ↦ false ]

abbrev pub leb : ℕ → ℕ → Bool
leb a b = elim (compare a b) [ Ordering.gt ↦ false | _ ↦ true ]

abbrev pub eqb : ℕ → ℕ → Bool
eqb a b = elim (compare a b) [ Ordering.eq ↦ true | _ ↦ false ]

infix 1 if◌then◌else◌
abbrev pub if◌then◌else◌ {ℓ} : {A : Type ℓ} → Bool → A → A → A
if true then x else y = x
if false then x else y = y

pub Bool-cases : (b : Bool) → (b ≡ true) ⊎ (b ≡ false)
Bool-cases true = inl refl
Bool-cases false = inr refl

module _ {ℓ} {A : Type ℓ} where
  pub Option-cases : (o : Option A) → (o ≡ none) ⊎ ((a : A) × (o ≡ some a))
  Option-cases none = inl refl
  Option-cases (some a) = inr (a, refl)

  -- `o is not None`
  abbrev pub is_some : Option A → Bool
  is_some none = false
  is_some (some _) = true

  -- `o if o is not None else d`
  abbrev pub or_else : Option A → A → A
  or_else none d = d
  or_else (some a) _ = a

  -- `o or p`, where no value of `A` is falsy
  abbrev pub first_some : Option A → Option A → Option A
  first_some none p = p
  first_some (some a) _ = some a

module _ {ℓ κ} {A : Type ℓ} {B : Type κ} where
  abbrev pub map_option : (A → B) → Option A → Option B
  map_option f none = none
  map_option f (some a) = some (f a)

  abbrev pub and_then : Option A → (A → Option B) → Option B
  and_then none f = none
  and_then (some a) f = f a

-- `P` of the value, if there is one
abbrev pub OnSome {ℓ κ} : {A : Type ℓ} → (A → Type κ) → Option A → Type κ
OnSome P none = Unit
OnSome P (some a) = P a

pub OnSome-map {ℓ κ} :
    {A : Type ℓ} {P Q : A → Type κ}
    → ((a : A) → P a → Q a)
    → (o : Option A) → OnSome P o
    → OnSome Q o
OnSome-map f none h = tt
OnSome-map f (some a) h = f a h

module _ {ℓ κ} {B : Type ℓ} (P : B → Type κ) where
  pub and_then-OnSome {μ} :
      {A : Type μ} (g : A → Option B) (o : Option A)
      → ((a : A) → o ≡ some a → OnSome P (g a))
      → OnSome P (and_then o g)
  and_then-OnSome g none h = tt
  and_then-OnSome g (some a) h = h a refl

  pub OnSome-elim : (o : Option B) (a : B) → OnSome P o → o ≡ some a → P a
  OnSome-elim o a h e = subst (OnSome P) e h
