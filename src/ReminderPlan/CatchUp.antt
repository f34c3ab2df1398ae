-- ===== src/ReminderPlan/CatchUp.antt =====
-- Which step is caught up: the one with the least delay that covers the time left.
use testingmulti.ReminderPlan.Offsets.{all-below, head-below, tail-Descending}
use testingmulti.Common.{Option, Option-cases, false, none, ◌<◌, ◌∙◌}
use testingmulti.ReminderPlan.{ReminderStepSpec, first_or, select_band}
use testingmulti.ReminderPlan.Offsets.{Descending}
use testingmulti.Common.{
  Bool, Bool-cases, List, OnSome, [], all, ap, arith, both_true, eqb, find, inl, inr, is_some, leb,
  ltb, or_else, refl, some, subst, true, ℕ, ◌&&◌, ◌||◌, ◌∷◌, ◌≡◌, ◌≤◌,
}
use testingmulti.Common.Value.{pos}

-- Every step's delay is found among the steps.
all_mono :
    {A : Type 0} (p q : A → Bool) (xs : List A)
    → ((x : A) → p x ≡ true → q x ≡ true)
    → all p xs ≡ true
    → all q xs ≡ true
all_mono p q [] h e = refl
all_mono p q (x ∷ xs) h e =
    let (first, rest) = both_true (p x) e in rw (h x first, all_mono p q xs h rest)

unfoldable pub has_delay : List ReminderStepSpec → ℕ → Bool
has_delay steps d = is_some (find (λ s. eqb s.delay d) steps)

has_delay-cons :
    (s : ReminderStepSpec) (steps : List ReminderStepSpec) (d : ℕ)
    → has_delay steps d ≡ true
    → has_delay (s ∷ steps) d ≡ true
unfolding has_delay
has_delay-cons s steps d h = elim (Bool-cases (eqb s.delay d)) [ inl y ↦ rw y | inr n ↦ rw n h ]

pub all-has_delay :
    (steps : List ReminderStepSpec) → all (λ s. has_delay steps s.delay) steps ≡ true
unfolding has_delay
all-has_delay [] = refl
all-has_delay (s ∷ steps) =
    let own : eqb s.delay s.delay ≡ true = ground arith in
    let others =
      all_mono (λ t. has_delay steps t.delay) (λ t. has_delay (s ∷ steps) t.delay) steps
        (λ t h. has_delay-cons s steps t.delay h) (all-has_delay steps) in
    rw (own, others)

find-holds : {A : Type 0} (p : A → Bool) (xs : List A) (a : A) → find p xs ≡ some a → p a ≡ true
find-holds p [] a h = ground (arith, ap is_some h)
find-holds p (x ∷ xs) a h = elim (Bool-cases (p x)) [
  | inl y ↦ subst (λ z. p z ≡ true) (ap (λ o. or_else o x) (rw y at h)) y
  | inr n ↦ find-holds p xs a (rw n at h)
]

or_true : (b : Bool) → ((b || true) && true) ≡ true
or_true true = refl
or_true false = refl

OnSome-map :
    {A : Type 0} {H : Type 0} (P Q : A → Type 0)
    → ((a : A) → H → P a → Q a)
    → (o : Option A) → H
    → OnSome P o
    → OnSome Q o
OnSome-map P Q f none h p = tt
OnSome-map P Q f (some a) h p = f a h p

module _ (steps : List ReminderStepSpec) (r : ℕ) where
  -- The first step with its delay, of all delays that are at least `r` the least
  abbrev pub Nearest : List ℕ → ReminderStepSpec → Type 0
  Nearest os c =
      (r ≤ c.delay)
      × (c.delay ≤ first_or 0 os)
      × (all (λ o. ltb o r || leb c.delay o) os ≡ true)
      × (find (λ s. eqb s.delay c.delay) steps ≡ some c)

  Nearest-first :
      (u : ℕ) (os : List ℕ) (c : ReminderStepSpec)
      → Descending (u ∷ os)
      → first_or 0 os < r
      → r ≤ u
      → find (λ s. eqb s.delay u) steps ≡ some c
      → Nearest (u ∷ os) c
  Nearest-first u os c h low high e =
      let at_u : c.delay ≡ u = ground (arith, find-holds (λ s. eqb s.delay u) steps c e) in
      let covers : leb c.delay u ≡ true = ground (arith, at_u) in
      let lower =
        all_mono (λ o. ltb o r) (λ o. ltb o r || leb c.delay o) os
          (λ o l. ap (λ b. b || leb c.delay o) l) (all-below r os (tail-Descending u os h) low) in
      (
        omega (arith, at_u, high),
        omega (arith, at_u),
        rw (covers, lower) (or_true (ltb u r)),
        ap (λ d. find (λ s. eqb s.delay d) steps) at_u ∙ e,
      )

  Nearest-later :
      (u : ℕ) (os : List ℕ) (c : ReminderStepSpec)
      → Descending (u ∷ os)
      → Nearest os c
      → Nearest (u ∷ os) c
  Nearest-later u os c h (reach, top, least, e) =
      let below = head-below u os h in
      let covers : leb c.delay u ≡ true = ground (arith, top, below) in
      (reach, omega (arith, top, below), rw (covers, least) (or_true (ltb u r)), e)

  pub select_band-Nearest :
      (os : List ℕ)
      → Descending os
      → all (has_delay steps) os ≡ true
      → OnSome (Nearest os) (select_band (pos r) os steps)
  unfolding has_delay
  select_band-Nearest [] h k = tt
  select_band-Nearest (u ∷ os) h k =
      let (found, others) = both_true (has_delay steps u) k in
      elim (Bool-cases (ltb (first_or 0 os) r && leb r u)) [
        | inl hit ↦
            let (low, high) = both_true (ltb (first_or 0 os) r) hit in
            elim (Option-cases (find (λ s. eqb s.delay u) steps)) [
              | inl missing ↦ ground (arith, found, ap is_some missing)
              | inr (c, e) ↦
                  rw (low, high, e)
                    (Nearest-first u os c h (ground (arith, low)) (ground (arith, high)) e)
            ]
        | inr miss ↦ rw miss (
            OnSome-map (Nearest os) (Nearest (u ∷ os)) (Nearest-later u os)
              (select_band (pos r) os steps) h
              (select_band-Nearest os (tail-Descending u os h) others))
      ]
