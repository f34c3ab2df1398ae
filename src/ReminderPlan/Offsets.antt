-- ===== src/ReminderPlan/Offsets.antt =====
-- The offsets of the steps: sorted, and those of the steps.
use testingmulti.Common.{ap, false}
use testingmulti.ReminderPlan.{ReminderStepSpec, first_or, insert_offset, sorted_offsets}
use testingmulti.Common.{
  Bool, Bool-cases, List, [], all, arith, eqb, inl, inr, ltb, refl, true, ℕ, ◌&&◌, ◌<◌, ◌∷◌, ◌≡◌,
  ◌≤◌,
}

-- Each offset is larger than the next.
abbrev pub Descending : List ℕ → Type 0
Descending [] = Unit
Descending (d ∷ []) = Unit
Descending (d ∷ e ∷ es) = (e < d) × Descending (e ∷ es)

insert-Descending :
    (u d : ℕ) (es : List ℕ) → d < u → Descending (u ∷ es) → Descending (u ∷ insert_offset d es)
insert-Descending u d [] h hs = (h, tt)
insert-Descending u d (e ∷ es) h (he, hs) = elim (Bool-cases (ltb e d)) [
  | inl more ↦ rw more (h, (ground (arith, more), hs))
  | inr not_more ↦ elim (Bool-cases (eqb e d)) [
    | inl same ↦ rw (not_more, same) (he, hs)
    | inr less ↦
        rw (not_more, less) (he, insert-Descending e d es (ground (arith, not_more, less)) hs)
  ]
]

insert_offset-Descending : (d : ℕ) (es : List ℕ) → Descending es → Descending (insert_offset d es)
insert_offset-Descending d [] hs = tt
insert_offset-Descending d (e ∷ es) hs = elim (Bool-cases (ltb e d)) [
  | inl more ↦ rw more (ground (arith, more), hs)
  | inr not_more ↦ elim (Bool-cases (eqb e d)) [
    | inl same ↦ rw (not_more, same) hs
    | inr less ↦ rw (not_more, less) (insert-Descending e d es (ground (arith, not_more, less)) hs)
  ]
]

pub sorted_offsets-Descending : (steps : List ReminderStepSpec) → Descending (sorted_offsets steps)
sorted_offsets-Descending [] = tt
sorted_offsets-Descending (s ∷ steps) =
    insert_offset-Descending s.delay (sorted_offsets steps) (sorted_offsets-Descending steps)

and_again : {a b : Bool} → a ≡ b → (c : Bool) → (a && c) ≡ (b && (a && c))
and_again {a} {b} h c = elim (Bool-cases a) [
  | inl y ↦ ground (arith, y, h)
  | inr n ↦ ground (arith, n, h)
]

and_swap : (a b c : Bool) → (a && (b && c)) ≡ (b && (a && c))
and_swap true true c = refl
and_swap true false c = refl
and_swap false true c = refl
and_swap false false c = refl

-- A test holds of all offsets if it holds of all delays.
all-insert_offset :
    (p : ℕ → Bool) (d : ℕ) (es : List ℕ) → all p (insert_offset d es) ≡ (p d && all p es)
all-insert_offset p d [] = refl
all-insert_offset p d (e ∷ es) = elim (Bool-cases (ltb e d)) [
  | inl more ↦ rw more
  | inr not_more ↦ elim (Bool-cases (eqb e d)) [
    | inl same ↦
        let equal : e ≡ d = ground (arith, same) in
        rw (not_more, same) (and_again (ap p equal) (all p es))
    | inr less ↦ rw (not_more, less, all-insert_offset p d es) (and_swap (p e) (p d) (all p es))
  ]
]

pub all-sorted_offsets :
    (p : ℕ → Bool) (steps : List ReminderStepSpec)
    → all p (sorted_offsets steps) ≡ all (λ s. p s.delay) steps
all-sorted_offsets p [] = refl
all-sorted_offsets p (s ∷ steps) =
    rw (all-insert_offset p s.delay (sorted_offsets steps), all-sorted_offsets p steps)

pub head-below : (u : ℕ) (os : List ℕ) → Descending (u ∷ os) → first_or 0 os ≤ u
head-below u [] h = omega arith
head-below u (o ∷ os) (h, hs) = omega (arith, h)

pub tail-Descending : (u : ℕ) (os : List ℕ) → Descending (u ∷ os) → Descending os
tail-Descending u [] h = tt
tail-Descending u (o ∷ os) (h, hs) = hs

-- All offsets are at most the first.
pub all-below :
    (n : ℕ) (os : List ℕ) → Descending os → first_or 0 os < n → all (λ o. ltb o n) os ≡ true
all-below n [] h l = refl
all-below n (o ∷ os) h l =
    let below : ltb o n ≡ true = ground (arith, l) in
    rw (below, all-below n os (tail-Descending o os h) (omega (arith, l, head-below o os h)))
