-- ===== src/Lifecycle/Examples.antt =====
-- Runs of the lifecycle service on a small store.
use testingmulti.Status.{
  status_type_from_db, sub_status_type_from_db, system, system_actor_id, system_error,
}
use testingmulti.Lifecycle.Sequence.{check_scope, sequence_loop, sequence_step, write_pause}
use testingmulti.Lifecycle.Command.{build_activity_log_status_fields}
use testingmulti.Lifecycle.Step.{step_statuses}
use testingmulti.Lifecycle.Scope.{
  Scope, err, lifecycle_differs, lifecycle_not_found, prepare_scope, resolve_current_status,
  resolve_pause_context,
}
use testingmulti.Lifecycle.Store.{get_for_update, insert_log, update_where}
use testingmulti.Lifecycle.Sequence.Returns.{apply_sequence_missing, apply_sequence_returns}
use testingmulti.Lifecycle.Sequence.Paused.{apply_sequence-pause}
use testingmulti.Lifecycle.Sequence.Snapshot.{Records, apply_sequence-stale}
use testingmulti.Lifecycle.Sequence.Raised.{Halfway, Unstarted, service_apply_sequence-raised}
use testingmulti.Lifecycle.Sequence.{
  apply_sequence_in_transaction, injected, own, service_apply_sequence,
}
use testingmulti.Common.{◌⊎◌}
use testingmulti.Status.{
  ActivityType, StatusSubType, StatusType, business_exception, completed, document_uploaded,
  exception, info, status_change, sub_status_change,
}
use testingmulti.Lifecycle.Sequence.{SequenceResult, apply_sequence}
use testingmulti.Lifecycle.Command.{Command}
use testingmulti.Lifecycle.Step.{apply_one_step, effective_command, write_log, write_row}
use testingmulti.Lifecycle.Scope.{Env, ok}
use testingmulti.Lifecycle.Store.{Db, LogRow, Row, update_lifecycle}
use testingmulti.Lifecycle.Sequence.Chain.{Chain}
use testingmulti.Lifecycle.Sequence.Audit.{apply_sequence-Chain}
use testingmulti.Lifecycle.Step.Row.{shown_status, shown_sub}
use testingmulti.Common.Text.{strip}
use testingmulti.Common.{
  List, Option, String, [], length, lookup, none, refl, some, true, ◌++◌, ◌∷◌, ◌≡◌,
}

abbrev env : Env
env = record {
  canonical_uuid = λ s. some s;
  find_tenant_uuid_by_slug = λ s. none;
  log_id = λ n. "log";
}

abbrev pub command : ActivityType → Option StatusType → Option StatusSubType → Command
command kind status sub = record {
  tenant_id = "t3ra";
  activity_type = kind;
  workflow_lifecycle_id = "L1";
  workflow_run_id = none;
  to_status = status;
  to_sub_status = sub;
  description = some "note";
  metadata = none;
  communication_id = none;
  actor_type = none;
  actor_id = none;
  from_status = none;
  from_sub_status = none;
  update_lifecycle = true;
  record_activity = true;
  require_lifecycle_row = true;
  pause_type = none;
}

abbrev under_review : Row
under_review = record {
  status = some "pending_review";
  sub_status = some "pod_started";
  pause_type = some business_exception;
  tenant_id = some "t3ra";
  workflow_name = "pod_lifecycle";
}

abbrev store : Db
store = record { lifecycles = ("L1", under_review) ∷ []; activity_logs = [] }

abbrev pub upload : Command
upload = command sub_status_change none (some document_uploaded)

abbrev finish : Command
finish = command status_change (some completed) none

abbrev note : Command
note = command info none none

abbrev pub trouble : Command
trouble = command exception none none

-- The result of a call that returns.
abbrev changed : List (Option String) → SequenceResult
changed ids = record { activity_log_ids = ids; lifecycle_updated = true }

all_open : Unit {0}
unfolding apply_sequence apply_one_step write_row write_log update_lifecycle effective_command
    prepare_scope get_for_update sequence_loop sequence_step check_scope resolve_current_status
    build_activity_log_status_fields resolve_pause_context write_pause strip status_type_from_db
    sub_status_type_from_db step_statuses insert_log update_where
all_open = tt

two_moves :
    (apply_sequence env (upload ∷ finish ∷ []) store).0
    ≡ ok (changed (some "log" ∷ some "log" ∷ []))
unfolding all_open
two_moves = refl

apply_sequence-Chain_example :
    (r' : Row) × (new : List LogRow) × (lookup "L1"
        (apply_sequence env (upload ∷ finish ∷ []) store).1.lifecycles
      ≡ some r')
    × ((apply_sequence env (upload ∷ finish ∷ []) store).1.activity_logs ≡ [] ++ new)
    × Chain
        (shown_status under_review)
        (shown_sub under_review)
        new
        (shown_status r')
        (shown_sub r')
    × (length new ≡ 2)
apply_sequence-Chain_example =
    apply_sequence-Chain env upload (finish ∷ []) store "L1" under_review
      (changed (some "log" ∷ some "log" ∷ [])) ((refl, refl, refl), ((refl, refl, refl), tt)) refl
      refl (unfold strip in refl) refl two_moves

paused_run :
    (apply_sequence env (trouble ∷ finish ∷ []) store).0
    ≡ ok (changed (some "log" ∷ some "log" ∷ []))
unfolding all_open
paused_run = refl

apply_sequence-pause_example :
    (r' : Row) × (r'.pause_type ≡ some system_error)
    × (lookup "L1" (apply_sequence env (trouble ∷ finish ∷ []) store).1.lifecycles ≡ some r')
apply_sequence-pause_example =
    apply_sequence-pause env trouble (finish ∷ []) store "L1" "L1" under_review
      (changed (some "log" ∷ some "log" ∷ [])) (unfold strip in refl) refl paused_run

stale_run :
    (apply_sequence env (finish ∷ note ∷ []) store).0 ≡ ok (changed (some "log" ∷ some "log" ∷ []))
unfolding all_open
stale_run = refl

apply_sequence-stale_example :
    let db' = (apply_sequence env (finish ∷ note ∷ []) store).1 in
    (r' : Row) × (l₁ : LogRow) × (l₂ : LogRow) × (lookup "L1" db'.lifecycles ≡ some r')
    × (db'.activity_logs ≡ [] ++ l₁ ∷ l₂ ∷ [])
    × (l₁.to_status ≡ shown_status r')
    × (l₁.to_sub_status ≡ shown_sub r')
    × Records under_review l₂
apply_sequence-stale_example =
    apply_sequence-stale env finish note store "L1" under_review
      (changed (some "log" ∷ some "log" ∷ [])) (refl, refl, refl) refl refl refl refl
      (unfold strip in refl) refl stale_run

abbrev scope : Scope
scope = record {
  tenant_uuid = "t3ra";
  lifecycle_id = "L1";
  run_id = none;
  actor_type = system;
  actor_id = some system_actor_id;
}

scope_of_upload : prepare_scope env upload ≡ ok scope
unfolding all_open
scope_of_upload = refl

upload_checked : check_scope env scope upload ≡ ok tt
unfolding all_open
upload_checked = refl

upload_returns :
    (result : SequenceResult) × ((apply_sequence env (upload ∷ []) store).0 ≡ ok result)
upload_returns =
    apply_sequence_returns env upload [] store scope under_review scope_of_upload refl
      (upload_checked, tt)

abbrev empty_store : Db
empty_store = record { lifecycles = []; activity_logs = [] }

missing_raises :
    apply_sequence env (upload ∷ []) empty_store ≡ (err lifecycle_not_found, empty_store)
missing_raises = apply_sequence_missing env upload [] empty_store scope scope_of_upload refl refl

abbrev stray : Command
stray = record upload { workflow_lifecycle_id = "L2" }

stray_run : (apply_sequence env (upload ∷ stray ∷ []) store).0 ≡ err lifecycle_differs
unfolding all_open
stray_run = refl

stray_injected_run :
    (service_apply_sequence injected env (upload ∷ stray ∷ []) store).0 ≡ err lifecycle_differs
unfolding all_open apply_sequence_in_transaction
stray_injected_run = refl

service_apply_sequence-raised_example :
    let left = (service_apply_sequence injected env (upload ∷ stray ∷ []) store).1 in
    (service_apply_sequence own env (upload ∷ stray ∷ []) store ≡ (err lifecycle_differs, store))
    × (Unstarted env upload (stray ∷ []) store lifecycle_differs left
        ⊎ Halfway env upload (stray ∷ []) store lifecycle_differs left)
service_apply_sequence-raised_example =
    service_apply_sequence-raised env upload (stray ∷ []) store lifecycle_differs stray_injected_run

-- With repositories from outside, the entry of the command before the refused one stays.
stray_left :
    length (service_apply_sequence injected env (upload ∷ stray ∷ []) store).1.activity_logs ≡ 1
unfolding all_open apply_sequence_in_transaction
stray_left = refl
