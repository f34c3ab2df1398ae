-- ===== src/ReminderPlan/Examples.antt =====
-- A pickup five hours from now, with reminders 24, 6, 4 and 1 hours before it (in hours here).
use testingmulti.ReminderPlan.{ReminderStepSpec, first_send, plan_before_pickup_reminders}
use testingmulti.ReminderPlan.Nearest.{Caught, plan-Caught}
use testingmulti.ReminderPlan.Gaps.{OnTime, Spaced, plan-Spaced}
use testingmulti.ReminderPlan.Accounts.{caught_at, infos_at, plan-count, sends_at, steps_at}
use testingmulti.Common.{
  All, List, OnSome, [], all, is_some, ltb, none, not, refl, some, true, ℕ, ◌&&◌, ◌+◌, ◌-◌, ◌∷◌,
  ◌≡◌,
}

abbrev hours : ℕ → ReminderStepSpec
hours n = record { delay = n; event_type = "reminder_due"; step = none }

abbrev ladder : List ReminderStepSpec
ladder = hours 24 ∷ hours 6 ∷ hours 4 ∷ hours 1 ∷ []

plan-Spaced_example :
    let plan = plan_before_pickup_reminders 105 100 ladder 3 true in
    Spaced 3 (first_send 100 plan.catch_up) plan.scheduled × All (OnTime 105 100) plan.scheduled
plan-Spaced_example = plan-Spaced 105 100 ladder 3

plan-Caught_example :
    let plan = plan_before_pickup_reminders 105 100 ladder 3 true in
    OnSome (Caught ladder (105 - 100)) plan.catch_up
    × (is_some plan.catch_up ≡ (ltb 100 105 && not (all (λ s. ltb s.delay (105 - 100)) ladder)))
plan-Caught_example = plan-Caught 105 100 ladder 3

plan-count_example :
    let plan = plan_before_pickup_reminders 105 100 ladder 3 true in
    sends_at 101 plan.scheduled
      + infos_at 101 plan.suppressed
      + infos_at 101 plan.skipped
      + caught_at 101 105 plan.catch_up ladder
    ≡ steps_at 101 105 ladder
plan-count_example = plan-count 101 105 100 ladder 3

-- Six hours before is caught up, four hours before is too close to it, one hour before is sent.
one_sent : (plan_before_pickup_reminders 105 100 ladder 3 true).scheduled ≡ (hours 1, 104) ∷ []
unfolding plan_before_pickup_reminders
one_sent = refl

six_caught_up : (plan_before_pickup_reminders 105 100 ladder 3 true).catch_up ≡ some (hours 6)
unfolding plan_before_pickup_reminders
six_caught_up = refl
