-- ===== src/ReminderPlan.antt =====
-- The plan of reminders before a pickup (app/domain/before_pickup_reminder_plan.py). Times and durations
-- are whole microseconds, the resolution of Python's `datetime` and `timedelta`, where the source
-- converts to hours before it compares; times count from the first day that `datetime` has, which no
-- delay reaches back before.
pub mod Gaps
pub mod Offsets
pub mod CatchUp
pub mod Nearest
pub mod Accounts
mod Examples
use testingmulti.Common.{
  Bool, List, Option, String, [], eqb, false, find, first_some, if◌then◌else◌, leb, ltb, none,
  or_else, some, suc, true, ℕ, ◌&&◌, ◌+◌, ◌-◌, ◌==◌, ◌∷◌,
}
use testingmulti.Common.Value.{negsuc, pos, ℤ}

-- `ReminderStepSpec` (app/domain/reminder_schedule.py)
pub record ReminderStepSpec : Type 0 where
  pub delay : ℕ
  pub event_type : String
  pub step : Option ℕ

-- The entry that `_step_info` makes of a step
pub record StepInfo : Type 0 where
  pub step : ℕ
  pub delay : ℕ
  pub fire_at : ℕ
  pub reason : Option String

-- A step that is still to come, with the time it fires at and its place in the list of steps
pub record Candidate : Type 0 where
  pub spec : ReminderStepSpec
  pub fire_at : ℕ
  pub index : ℕ

-- `BeforePickupReminderPlan`
pub record BeforePickupReminderPlan : Type 0 where
  pub remaining : ℤ
  pub catch_up : Option ReminderStepSpec
  pub scheduled : List (ReminderStepSpec × ℕ)
  pub suppressed : List StepInfo
  pub skipped : List StepInfo

-- `_step_num`
abbrev pub step_num : ReminderStepSpec → ℕ → ℕ
step_num s index = or_else s.step index

-- `_step_info`
abbrev pub step_info : ReminderStepSpec → ℕ → ℕ → StepInfo
step_info s index fire_at = record {
  step = step_num s index;
  delay = s.delay;
  fire_at = fire_at;
  reason = none;
}

-- `_same_step`
abbrev pub same_step : ReminderStepSpec → ReminderStepSpec → Bool
same_step a b = eqb a.delay b.delay && a.event_type == b.event_type

-- `pickup_at - now`
abbrev pub difference : ℕ → ℕ → ℤ
difference a b = if ltb a b then negsuc ((b - a) - 1) else pos (a - b)

-- `sorted(set(offsets), reverse=True)`
abbrev pub insert_offset : ℕ → List ℕ → List ℕ
insert_offset d [] = d ∷ []
insert_offset d (e ∷ es) =
    let rest = insert_offset d es in
    if ltb e d then d ∷ e ∷ es else if eqb e d then e ∷ es else e ∷ rest

abbrev pub sorted_offsets : List ReminderStepSpec → List ℕ
sorted_offsets [] = []
sorted_offsets (s ∷ steps) = insert_offset s.delay (sorted_offsets steps)

-- `lower < hours_remaining`
abbrev pub above : ℤ → ℕ → Bool
above (pos r) lower = ltb lower r
above (negsuc r) lower = false

-- `hours_remaining <= upper`
abbrev pub at_most : ℤ → ℕ → Bool
at_most (pos r) upper = leb r upper
at_most (negsuc r) upper = true

abbrev pub first_or : ℕ → List ℕ → ℕ
first_or n [] = n
first_or n (m ∷ ms) = m

-- The loop of `_select_catch_up_step` over the offsets, the largest first
abbrev pub select_band : ℤ → List ℕ → List ReminderStepSpec → Option ReminderStepSpec
select_band r [] steps = none
select_band r (upper ∷ rest) steps =
    let others = select_band r rest steps in
    if above r (first_or 0 rest) && at_most r upper
    then first_some (find (λ s. eqb s.delay upper) steps) others
    else others

-- No step covers a time left that is more than the largest offset.
abbrev pub select_from : ℤ → List ℕ → List ReminderStepSpec → Option ReminderStepSpec
select_from r [] steps = none
select_from r (top ∷ rest) steps = if at_most r top then select_band r (top ∷ rest) steps else none

-- `_select_catch_up_step`
unfoldable pub select_catch_up_step : List ReminderStepSpec → ℤ → Option ReminderStepSpec
select_catch_up_step steps r = select_from r (sorted_offsets steps) steps

abbrev pub is_catch_up : Option ReminderStepSpec → ReminderStepSpec → Bool
is_catch_up none s = false
is_catch_up (some c) s = same_step s c

-- The first loop: the steps whose time is past, and those that are still to come
abbrev pub sort_out :
    ℕ → ℕ → Option ReminderStepSpec → ℕ → List ReminderStepSpec → List StepInfo × List Candidate
sort_out pickup_at now catch_up index [] = ([], [])
sort_out pickup_at now catch_up index (s ∷ steps) =
    let (skipped, candidates) = sort_out pickup_at now catch_up (suc index) steps in
    let fire_at = pickup_at - s.delay in
    if is_catch_up catch_up s
    then (skipped, candidates)
    else if leb fire_at now
    then (step_info s index fire_at ∷ skipped, candidates)
    else (skipped, record { spec = s; fire_at = fire_at; index = index } ∷ candidates)

-- `candidates.sort(key=fire_at)`, which is stable
abbrev pub insert_candidate : Candidate → List Candidate → List Candidate
insert_candidate c [] = c ∷ []
insert_candidate c (d ∷ ds) =
    let rest = insert_candidate c ds in if leb c.fire_at d.fire_at then c ∷ d ∷ ds else d ∷ rest

abbrev pub sort_candidates : List Candidate → List Candidate
sort_candidates [] = []
sort_candidates (c ∷ cs) = insert_candidate c (sort_candidates cs)

-- Whether a time is less than `min_gap` after the last send
abbrev pub too_close : ℕ → Option ℕ → ℕ → Bool
too_close min_gap none fire_at = false
too_close min_gap (some last_send_at) fire_at = ltb fire_at (last_send_at + min_gap)

abbrev pub gap_info : Candidate → StepInfo
gap_info c = record (step_info c.spec c.index c.fire_at) { reason = some "gap_lt_min" }

-- The second loop: what is scheduled, and what is suppressed
abbrev pub space_out : ℕ → Option ℕ → List Candidate → List (ReminderStepSpec × ℕ) × List StepInfo
space_out min_gap last_send_at [] = ([], [])
space_out min_gap last_send_at (c ∷ cs) =
    let close = too_close min_gap last_send_at c.fire_at in
    let (scheduled, suppressed) =
      space_out min_gap (if close then last_send_at else some c.fire_at) cs in
    if close
    then (scheduled, gap_info c ∷ suppressed)
    else ((c.spec, c.fire_at) ∷ scheduled, suppressed)

-- `now if catch_up is not None else None`
abbrev pub first_send : ℕ → Option ReminderStepSpec → Option ℕ
first_send now none = none
first_send now (some c) = some now

abbrev pub planned :
    ℕ → ℕ → List ReminderStepSpec → ℕ → Option ReminderStepSpec → BeforePickupReminderPlan
planned pickup_at now steps min_gap catch_up =
    let (skipped, candidates) = sort_out pickup_at now catch_up 1 steps in
    let (scheduled, suppressed) =
      space_out min_gap (first_send now catch_up) (sort_candidates candidates) in
    record {
      remaining = difference pickup_at now;
      catch_up = catch_up;
      scheduled = scheduled;
      suppressed = suppressed;
      skipped = skipped;
    }

abbrev all_scheduled : List Candidate → List (ReminderStepSpec × ℕ)
all_scheduled [] = []
all_scheduled (c ∷ cs) = (c.spec, c.fire_at) ∷ all_scheduled cs

-- `_legacy_plan`
unfoldable pub legacy_plan : ℕ → ℕ → List ReminderStepSpec → BeforePickupReminderPlan
legacy_plan pickup_at now steps =
    let (skipped, candidates) = sort_out pickup_at now none 1 steps in
    record {
      remaining = difference pickup_at now;
      catch_up = none;
      scheduled = all_scheduled candidates;
      suppressed = [];
      skipped = skipped;
    }

-- `plan_before_pickup_reminders`
unfoldable pub plan_before_pickup_reminders :
    ℕ → ℕ → List ReminderStepSpec → ℕ → Bool → BeforePickupReminderPlan
unfolding select_catch_up_step legacy_plan
plan_before_pickup_reminders pickup_at now steps min_gap true =
    planned pickup_at now steps min_gap (select_catch_up_step steps (difference pickup_at now))
plan_before_pickup_reminders pickup_at now steps min_gap false = legacy_plan pickup_at now steps
