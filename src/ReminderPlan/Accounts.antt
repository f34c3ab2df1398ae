-- ===== src/ReminderPlan/Accounts.antt =====
-- Every step is accounted for exactly once.
use testingmulti.ReminderPlan.{
  Candidate, ReminderStepSpec, StepInfo, difference, first_send, insert_candidate, is_catch_up,
  plan_before_pickup_reminders, select_catch_up_step, sort_candidates, sort_out, space_out,
  too_close,
}
use testingmulti.Common.{
  Bool, Bool-cases, List, Option, [], arith, eqb, if◌then◌else◌, inl, inr, leb, refl, some, suc,
  true, ℕ, ◌&&◌, ◌+◌, ◌-◌, ◌∷◌, ◌≡◌,
}

abbrev pub count_if : {A : Type 0} → (A → Bool) → List A → ℕ
count_if p [] = 0
count_if p (x ∷ xs) = let n = count_if p xs in if p x then suc n else n

module _ (t : ℕ) where
  abbrev pub sends_at : List (ReminderStepSpec × ℕ) → ℕ
  sends_at sends = count_if (λ x. eqb x.1 t) sends

  abbrev pub infos_at : List StepInfo → ℕ
  infos_at infos = count_if (λ i. eqb i.fire_at t) infos

  candidates_at : List Candidate → ℕ
  candidates_at cs = count_if (λ c. eqb c.fire_at t) cs

  insert-count :
      (c : Candidate) (cs : List Candidate)
      → candidates_at (insert_candidate c cs) ≡ candidates_at (c ∷ cs)
  unfolding candidates_at
  insert-count c [] = refl
  insert-count c (d ∷ ds) = elim (Bool-cases (leb c.fire_at d.fire_at)) [
    | inl before ↦ rw before
    | inr after ↦ ground (arith, after, insert-count c ds)
  ]

  sort-count : (cs : List Candidate) → candidates_at (sort_candidates cs) ≡ candidates_at cs
  unfolding candidates_at
  sort-count [] = refl
  sort-count (c ∷ cs) = ground (arith, insert-count c (sort_candidates cs), sort-count cs)

  space_out-count :
      (gap : ℕ) (last : Option ℕ) (cs : List Candidate)
      → sends_at ((space_out gap last cs).0) + infos_at ((space_out gap last cs).1)
        ≡ candidates_at cs
  unfolding candidates_at
  space_out-count gap last [] = refl
  space_out-count gap last (c ∷ cs) = elim (Bool-cases (too_close gap last c.fire_at)) [
    | inl close ↦ rw close (ground (arith, space_out-count gap last cs))
    | inr far ↦ rw far (ground (arith, space_out-count gap (some c.fire_at) cs))
  ]

  -- The steps that fire at `t`, and those of them that are the same as the one caught up
  abbrev pub steps_at : ℕ → List ReminderStepSpec → ℕ
  steps_at pickup_at steps = count_if (λ s. eqb (pickup_at - s.delay) t) steps

  abbrev pub caught_at : ℕ → Option ReminderStepSpec → List ReminderStepSpec → ℕ
  caught_at pickup_at catch_up steps =
      count_if (λ s. is_catch_up catch_up s && eqb (pickup_at - s.delay) t) steps

  module _ (pickup_at now : ℕ) (catch_up : Option ReminderStepSpec) where
    sort_out-count :
        (index : ℕ) (steps : List ReminderStepSpec)
        → let r = sort_out pickup_at now catch_up index steps in
          infos_at r.0 + candidates_at r.1 + caught_at pickup_at catch_up steps
          ≡ steps_at pickup_at steps
    unfolding candidates_at
    sort_out-count index [] = refl
    sort_out-count index (s ∷ steps) =
        let rest = sort_out-count (suc index) steps in
        elim (Bool-cases (is_catch_up catch_up s)) [
          | inl same ↦ rw same (ground (arith, rest))
          | inr other ↦ elim (Bool-cases (leb (pickup_at - s.delay) now)) [
            | inl past ↦ rw (other, past) (ground (arith, rest))
            | inr future ↦ rw (other, future) (ground (arith, rest))
          ]
        ]

-- For every time, the steps that fire then are scheduled, suppressed, skipped or the same as the step
-- caught up: each one exactly once.
pub plan-count :
    (t pickup_at now : ℕ) (steps : List ReminderStepSpec) (min_gap : ℕ)
    → let plan = plan_before_pickup_reminders pickup_at now steps min_gap true in
      sends_at t plan.scheduled
        + infos_at t plan.suppressed
        + infos_at t plan.skipped
        + caught_at t pickup_at plan.catch_up steps
      ≡ steps_at t pickup_at steps
unfolding plan_before_pickup_reminders
plan-count t pickup_at now steps min_gap =
    let c = select_catch_up_step steps (difference pickup_at now) in
    let cs = (sort_out pickup_at now c 1 steps).1 in
    omega (
      arith,
      sort_out-count t pickup_at now c 1 steps,
      sort-count t cs,
      space_out-count t min_gap (first_send now c) (sort_candidates cs),
    )
