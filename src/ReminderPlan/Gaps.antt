-- ===== src/ReminderPlan/Gaps.antt =====
-- The times at which reminders are scheduled.
use testingmulti.ReminderPlan.{
  Candidate, ReminderStepSpec, difference, first_send, insert_candidate, is_catch_up,
  plan_before_pickup_reminders, select_catch_up_step, sort_candidates, sort_out, space_out,
  too_close,
}
use testingmulti.Common.{
  All, Bool-cases, List, Option, [], arith, false, inl, inr, leb, none, refl, some, suc, true, ℕ,
  ◌+◌, ◌-◌, ◌<◌, ◌∷◌, ◌≡◌, ◌≤◌,
}

-- At least `gap` after the last send, if there was one
abbrev pub Apart : ℕ → Option ℕ → ℕ → Type 0
Apart gap none t = Unit
Apart gap (some last) t = last + gap ≤ t

-- Each send is at least `gap` after the one before it.
abbrev pub Spaced : ℕ → Option ℕ → List (ReminderStepSpec × ℕ) → Type 0
Spaced gap last [] = Unit
Spaced gap last ((s, t) ∷ sends) = Apart gap last t × Spaced gap (some t) sends

not_close-Apart :
    (gap : ℕ) (last : Option ℕ) (t : ℕ) → too_close gap last t ≡ false → Apart gap last t
not_close-Apart gap none t h = tt
not_close-Apart gap (some l) t h = ground (arith, h)

space_out-Spaced :
    (gap : ℕ) (last : Option ℕ) (cs : List Candidate) → Spaced gap last ((space_out gap last cs).0)
space_out-Spaced gap last [] = tt
space_out-Spaced gap last (c ∷ cs) = elim (Bool-cases (too_close gap last c.fire_at)) [
  | inl close ↦ rw close (space_out-Spaced gap last cs)
  | inr far ↦
      rw far (not_close-Apart gap last c.fire_at far, space_out-Spaced gap (some c.fire_at) cs)
]

module _ (pickup_at now : ℕ) where
  -- A time still to come, at a step's distance from the pickup
  abbrev pub OnTime : ReminderStepSpec × ℕ → Type 0
  OnTime (s, t) = (now < t) × (t ≡ pickup_at - s.delay)

  abbrev Ready : Candidate → Type 0
  Ready c = OnTime (c.spec, c.fire_at)

  sort_out-Ready :
      (catch_up : Option ReminderStepSpec) (index : ℕ) (steps : List ReminderStepSpec)
      → All Ready ((sort_out pickup_at now catch_up index steps).1)
  sort_out-Ready catch_up index [] = tt
  sort_out-Ready catch_up index (s ∷ steps) =
      let rest = sort_out-Ready catch_up (suc index) steps in
      elim (Bool-cases (is_catch_up catch_up s)) [
        | inl same ↦ rw same rest
        | inr other ↦ elim (Bool-cases (leb (pickup_at - s.delay) now)) [
          | inl past ↦ rw (other, past) rest
          | inr future ↦ rw (other, future) ((ground (arith, future), refl), rest)
        ]
      ]

  insert-Ready :
      (c : Candidate) (cs : List Candidate)
      → Ready c
      → All Ready cs
      → All Ready (insert_candidate c cs)
  insert-Ready c [] h hs = (h, tt)
  insert-Ready c (d ∷ ds) h (hd, hs) = elim (Bool-cases (leb c.fire_at d.fire_at)) [
    | inl before ↦ rw before (h, (hd, hs))
    | inr after ↦ rw after (hd, insert-Ready c ds h hs)
  ]

  sort-Ready : (cs : List Candidate) → All Ready cs → All Ready (sort_candidates cs)
  sort-Ready [] hs = tt
  sort-Ready (c ∷ cs) (h, hs) = insert-Ready c (sort_candidates cs) h (sort-Ready cs hs)

  space_out-OnTime :
      (gap : ℕ) (last : Option ℕ) (cs : List Candidate)
      → All Ready cs
      → All OnTime ((space_out gap last cs).0)
  space_out-OnTime gap last [] hs = tt
  space_out-OnTime gap last (c ∷ cs) (h, hs) = elim (Bool-cases (too_close gap last c.fire_at)) [
    | inl close ↦ rw close (space_out-OnTime gap last cs hs)
    | inr far ↦ rw far (h, space_out-OnTime gap (some c.fire_at) cs hs)
  ]

-- Every reminder that is planned with catch-up fires after now, at its step's distance from the pickup,
-- and at least the gap after the reminder before it. The first is at least the gap after now if a
-- catch-up is sent.
pub plan-Spaced :
    (pickup_at now : ℕ) (steps : List ReminderStepSpec) (min_gap : ℕ)
    → let plan = plan_before_pickup_reminders pickup_at now steps min_gap true in
      Spaced min_gap (first_send now plan.catch_up) plan.scheduled
      × All (OnTime pickup_at now) plan.scheduled
unfolding plan_before_pickup_reminders
plan-Spaced pickup_at now steps min_gap =
    let c = select_catch_up_step steps (difference pickup_at now) in
    let cs = (sort_out pickup_at now c 1 steps).1 in
    (
      space_out-Spaced min_gap (first_send now c) (sort_candidates cs),
      space_out-OnTime pickup_at now min_gap (first_send now c) (sort_candidates cs)
          (sort-Ready pickup_at now cs (sort_out-Ready pickup_at now c 1 steps)),
    )
