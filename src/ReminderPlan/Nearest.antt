-- ===== src/ReminderPlan/Nearest.antt =====
-- When a step is caught up, and which one.
use testingmulti.Common.{if◌then◌else◌}
use testingmulti.Common.Value.{negsuc}
use testingmulti.ReminderPlan.{plan_before_pickup_reminders, select_from}
use testingmulti.ReminderPlan.CatchUp.{select_band-Nearest}
use testingmulti.ReminderPlan.Offsets.{sorted_offsets-Descending}
use testingmulti.Common.{OnSome, none, refl, subst, ◌-◌}
use testingmulti.ReminderPlan.{select_catch_up_step, sorted_offsets}
use testingmulti.ReminderPlan.CatchUp.{Nearest, all-has_delay}
use testingmulti.ReminderPlan.Offsets.{all-sorted_offsets}
use testingmulti.Common.{Option, false, some, sym, ◌≤◌}
use testingmulti.ReminderPlan.Offsets.{all-below}
use testingmulti.Common.{Option-cases, ap, eqb, find, not, ◌<◌}
use testingmulti.ReminderPlan.{ReminderStepSpec, first_or, select_band}
use testingmulti.ReminderPlan.CatchUp.{has_delay}
use testingmulti.ReminderPlan.Offsets.{Descending, head-below, tail-Descending}
use testingmulti.Common.{
  Bool-cases, List, [], all, arith, both_true, inl, inr, is_some, leb, ltb, true, ℕ, ◌&&◌, ◌||◌,
  ◌∙◌, ◌∷◌, ◌≡◌,
}
use testingmulti.Common.Value.{pos}

first_covers :
    (r : ℕ) (os : List ℕ)
    → Descending os
    → 0 < r
    → leb r (first_or 0 os) ≡ not (all (λ o. ltb o r) os)
first_covers r [] h p = ground (arith, p)
first_covers r (u ∷ os) h p = elim (Bool-cases (leb r u)) [
  | inl covered ↦ let reached : ltb u r ≡ false = ground (arith, covered) in rw (covered, reached)
  | inr short ↦ rw (short, all-below r (u ∷ os) h (ground (arith, short)))
]

none_of_is_some : {A : Type 0} (o : Option A) → is_some o ≡ false → o ≡ none
none_of_is_some none h = refl
none_of_is_some (some a) h = ground (arith, h)

OnSome-weaken :
    {A : Type 0} (P Q : A → Type 0)
    → ((a : A) → P a → Q a)
    → (o : Option A) → OnSome P o
    → OnSome Q o
OnSome-weaken P Q f none p = tt
OnSome-weaken P Q f (some a) p = f a p

module _ (steps : List ReminderStepSpec) (r : ℕ) where
  is_some-select_band :
      (os : List ℕ)
      → Descending os
      → all (has_delay steps) os ≡ true
      → is_some (select_band (pos r) os steps) ≡ (ltb 0 r && leb r (first_or 0 os))
  unfolding has_delay
  is_some-select_band [] h k = ground arith
  is_some-select_band (u ∷ os) h k =
      let (found, others) = both_true (has_delay steps u) k in
      let rest = is_some-select_band os (tail-Descending u os h) others in
      let below = head-below u os h in
      elim (Bool-cases (ltb (first_or 0 os) r && leb r u)) [
        | inl hit ↦
            let (low, high) = both_true (ltb (first_or 0 os) r) hit in
            elim (Option-cases (find (λ s. eqb s.delay u) steps)) [
              | inl missing ↦ ground (arith, found, ap is_some missing)
              | inr (c, e) ↦ rw (low, high, e) (ground (arith, low, high))
            ]
        | inr miss ↦ rw miss (rest ∙ ground (arith, miss, below))
      ]

  -- What a step that is caught up is: the first with its delay, which covers the time left, and no
  -- step's delay lies between.
  abbrev pub Caught : ReminderStepSpec → Type 0
  Caught c =
      (r ≤ c.delay)
      × (all (λ s. ltb s.delay r || leb c.delay s.delay) steps ≡ true)
      × (find (λ s. eqb s.delay c.delay) steps ≡ some c)

  offsets-has_delay : all (has_delay steps) (sorted_offsets steps) ≡ true
  offsets-has_delay = all-sorted_offsets (has_delay steps) steps ∙ all-has_delay steps

  Nearest-Caught : (c : ReminderStepSpec) → Nearest steps r (sorted_offsets steps) c → Caught c
  Nearest-Caught c (reach, top, least, e) =
      (reach, sym (all-sorted_offsets (λ o. ltb o r || leb c.delay o) steps) ∙ least, e)

  covers :
      (ltb 0 r && leb r (first_or 0 (sorted_offsets steps)))
      ≡ (ltb 0 r && not (all (λ s. ltb s.delay r) steps))
  covers = elim (Bool-cases (ltb 0 r)) [
    | inl some_left ↦
        ap (λ b. ltb 0 r && b)
          (first_covers r (sorted_offsets steps) (sorted_offsets-Descending steps)
              (ground (arith, some_left))
            ∙ ap not (all-sorted_offsets (λ o. ltb o r) steps))
    | inr none_left ↦ rw none_left
  ]

  select_from_lem :
      (os : List ℕ)
      → Descending os
      → all (has_delay steps) os ≡ true
      → select_from (pos r) os steps ≡ select_band (pos r) os steps
  select_from_lem [] h k = refl
  select_from_lem (u ∷ os) h k = elim (Bool-cases (leb r u)) [
    | inl reached ↦ rw reached
    | inr beyond ↦
        let empty =
          none_of_is_some (select_band (pos r) (u ∷ os) steps)
            (is_some-select_band (u ∷ os) h k ∙ ground (arith, beyond)) in
        ap (λ b. if b then select_band (pos r) (u ∷ os) steps else none) beyond ∙ sym empty
  ]

  -- For a time left `r` before the pickup, a step is caught up exactly if there is time left and some
  -- step's delay covers it.
  select-Caught :
      OnSome Caught (select_catch_up_step steps (pos r))
      × (is_some (select_catch_up_step steps (pos r))
          ≡ (ltb 0 r && not (all (λ s. ltb s.delay r) steps)))
  unfolding select_catch_up_step
  select-Caught =
      let os = sorted_offsets steps in
      let h = sorted_offsets-Descending steps in
      let e = select_from_lem os h offsets-has_delay in
      let near = select_band-Nearest steps r os h offsets-has_delay in
      (
        subst (OnSome Caught) (sym e) (
            OnSome-weaken (Nearest steps r os) Caught Nearest-Caught (select_band (pos r) os steps)
              near),
        ap is_some e ∙ (is_some-select_band os h offsets-has_delay ∙ covers),
      )

band_past :
    (k : ℕ) (os : List ℕ) (steps : List ReminderStepSpec) → select_band (negsuc k) os steps ≡ none
band_past k [] steps = refl
band_past k (u ∷ os) steps = band_past k os steps

from_past :
    (k : ℕ) (os : List ℕ) (steps : List ReminderStepSpec) → select_from (negsuc k) os steps ≡ none
from_past k [] steps = refl
from_past k (u ∷ os) steps = band_past k os steps

-- No step is caught up after the pickup.
select_past : (steps : List ReminderStepSpec) (k : ℕ) → select_catch_up_step steps (negsuc k) ≡ none
unfolding select_catch_up_step
select_past steps k = from_past k (sorted_offsets steps) steps

-- With catch-up, a step is caught up exactly if the pickup is still to come and some step's delay is at
-- least the time left; it is then the first step with the least such delay.
pub plan-Caught :
    (pickup_at now : ℕ) (steps : List ReminderStepSpec) (min_gap : ℕ)
    → let plan = plan_before_pickup_reminders pickup_at now steps min_gap true in
      OnSome (Caught steps (pickup_at - now)) plan.catch_up
      × (is_some plan.catch_up
          ≡ (ltb now pickup_at && not (all (λ s. ltb s.delay (pickup_at - now)) steps)))
unfolding plan_before_pickup_reminders
plan-Caught pickup_at now steps min_gap = elim (Bool-cases (ltb pickup_at now)) [
  | inl past ↦
      let later : ltb now pickup_at ≡ false = ground (arith, past) in
      rw (past, select_past steps ((now - pickup_at) - 1), later) (tt, refl)
  | inr coming ↦
      let left : ltb 0 (pickup_at - now) ≡ ltb now pickup_at = ground (arith, coming) in
      rw (coming, sym left) (select-Caught steps (pickup_at - now))
]
