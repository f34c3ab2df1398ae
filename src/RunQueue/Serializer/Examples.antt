-- ===== src/RunQueue/Serializer/Examples.antt =====
-- Runs of the queue on a concrete Redis.
use testingmulti.RunQueue.Serializer.Drained.{handle_all-drained}
use testingmulti.RunQueue.Serializer.Flight.{Reach, Reach-InFlightOk, arrives, here, then_step}
use testingmulti.RunQueue.Serializer.Arrivals.{InFlightOk}
use testingmulti.RunQueue.Serializer.Jobs.{
  InOrder, IsClean, Job, finish, handle_all, submit, task_of,
}
use testingmulti.RunQueue.Serializer.Order.{handle_all-InOrder}
use testingmulti.Common.Value.{set_field}
use testingmulti.Common.Text.{strip}
use testingmulti.RunQueue.{clean_key, peek_head, run_queue_key}
use testingmulti.RunQueue.Serializer.{
  World, complete_and_start_next, enqueue, flagged, result, started, work_item,
}
use testingmulti.RunQueue.Redis.{redis}
use testingmulti.RunQueue.Contents.{peek_head_lem}
use testingmulti.Common.{
  List, Option, String, [], if◌then◌else◌, map_option, none, refl, some, true, ◌++◌, ◌==◌, ◌∷◌, ◌≡◌,
}
use testingmulti.Common.Value.{Value, bool, end, field, get, obj, str}

abbrev idle : World redis
idle = record { store = λ k. []; published = [] }

abbrev first_job : Job
first_job = record {
  tenant_slug = "t3ra";
  workflow_name = "pod_lifecycle";
  payload = field "workflow_lifecycle_id" (str "l1") (field "event_type" (str "reminder_due") end);
}

abbrev second_job : Job
second_job = record {
  tenant_slug = "acme";
  workflow_name = "load_tendering";
  payload = field "workflow_lifecycle_id" (str " l1 ") end;
}

abbrev key : String
key = "inbox:lifecycle:l1"

first_job-IsClean : IsClean redis key first_job
unfolding get run_queue_key
first_job-IsClean = record {
  slug_clean = refl;
  slug_named = refl;
  name_clean = refl;
  name_named = refl;
  has_key = refl;
  has_id = refl;
}

second_job-IsClean : IsClean redis key second_job
unfolding get run_queue_key
second_job-IsClean = record {
  slug_clean = refl;
  slug_named = refl;
  name_clean = refl;
  name_named = refl;
  has_key = refl;
  has_id = refl;
}

-- The second job starts when the first one has finished.
two_jobs :
    map_option
      (λ w. w.published)
      (handle_all redis "l1" (submit first_job ∷ submit second_job ∷ finish ∷ []) idle)
    ≡ some (task_of redis first_job ∷ task_of redis second_job ∷ [])
unfolding enqueue complete_and_start_next get set_field
two_jobs = refl

handle_all-InOrder_example :
    (v : World redis) × (handle_all redis "l1"
        (submit first_job ∷ submit second_job ∷ finish ∷ [])
        idle
      ≡ some v)
    × InOrder redis key (first_job ∷ second_job ∷ []) v
unfolding run_queue_key
handle_all-InOrder_example =
    handle_all-InOrder redis "l1" key refl refl (submit first_job ∷ submit second_job ∷ finish ∷ [])
      idle (first_job-IsClean, (second_job-IsClean, tt)) refl refl

abbrev after_first : World redis
after_first = record {
  store = λ j.
      if key == j
      then []
        ++ some (obj (work_item redis "t3ra" "pod_lifecycle" (flagged redis first_job.payload)))
          ∷ []
      else [];
  published = task_of redis first_job ∷ [];
}

Reach_example : Reach redis key (idle, 0) (after_first, 1)
unfolding enqueue get
Reach_example = then_step (here (idle, 0)) (
    arrives "t3ra" "pod_lifecycle" first_job.payload idle after_first 0
      (result redis "l1" key started 1 (some "task")) refl)

Reach-InFlightOk_example : InFlightOk redis key (after_first, 1)
Reach-InFlightOk_example = Reach-InFlightOk redis key idle (after_first, 1) Reach_example

-- A corrupt entry, a number and a work item
abbrev damaged : String → List (Option Value)
damaged k = none ∷ some (bool true) ∷ some (obj end) ∷ []

peek_head_lem_example :
    (s : String → List (Option Value)) × (peek_head redis key damaged ≡ some (some end, s))
    × ((j : String) → s j ≡ (if key == j then some (obj end) ∷ [] else damaged j))
unfolding clean_key strip
peek_head_lem_example = peek_head_lem redis key key damaged refl

handle_all-drained_example :
    (v : World redis) × (handle_all redis "l1"
        (submit first_job ∷ submit second_job ∷ finish ∷ finish ∷ finish ∷ [])
        idle
      ≡ some v)
    × (v.published ≡ task_of redis first_job ∷ task_of redis second_job ∷ [])
unfolding run_queue_key
handle_all-drained_example =
    handle_all-drained redis "l1" key refl refl (submit first_job ∷ submit second_job ∷ []) idle
      (first_job-IsClean, (second_job-IsClean, tt)) refl refl
