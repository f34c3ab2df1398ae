-- ===== src/Lifecycle/Failure/Recorded.antt =====
-- What `record_workflow_failure_node` leaves in the row and in the log.
use testingmulti.Lifecycle.Sequence.{
  SequenceResult, apply_sequence, check_scope, required_row, sequence_loop, write_pause,
}
use testingmulti.Lifecycle.Scope.{ok, prepare_scope, resolve_pause_context}
use testingmulti.Lifecycle.Sequence.Loop.{sequence_loop-cons, sequence_loop-nil}
use testingmulti.Lifecycle.Sequence.Outcome.{returned}
use testingmulti.Lifecycle.Sequence.Audit.{row_of_view}
use testingmulti.Common.{ap, ◌∙◌}
use mathlib.Core.List.{append_assoc}
use testingmulti.Lifecycle.Command.{build_activity_log_status_fields, status_for_log}
use testingmulti.Lifecycle.Step.{status_update, step_statuses, write_log, write_row}
use testingmulti.Lifecycle.Store.{update_lifecycle}
use testingmulti.Status.{
  exception, pending_review, status_change, status_type_from_db, status_value, system_error,
}
use testingmulti.Lifecycle.Sequence.{LoopState, sequence_step, start, step_scope}
use testingmulti.Lifecycle.Command.{Command}
use testingmulti.Lifecycle.Step.{apply_one_step}
use testingmulti.Lifecycle.Scope.{PauseContext, Scope}
use testingmulti.Lifecycle.Store.{Db, LogRow, Row, view}
use testingmulti.Lifecycle.Step.Effect.{activity_logs-apply_one_step, lookup-apply_one_step}
use testingmulti.Lifecycle.Step.Row.{shown_status}
use testingmulti.Common.{
  List, Option, String, [], false, lookup, none, refl, some, true, ◌++◌, ◌∷◌, ◌≡◌,
}
use testingmulti.Lifecycle.Scope.{Env, resolve_current_status}
use testingmulti.Lifecycle.Step.{effective_command}

-- An exception and a status change that follows it, whatever else the commands say
abbrev exception_of : Command → Command
exception_of c = record c {
  activity_type = exception;
  update_lifecycle = false;
  record_activity = true;
}

abbrev review_of : Command → Command
review_of c = record c {
  activity_type = status_change;
  to_status = some pending_review;
  to_sub_status = none;
  update_lifecycle = true;
  record_activity = true;
}

abbrev system_pause : PauseContext
system_pause = record { has_exception = true; pause_type = some system_error }

-- A failure that is recorded: the row is under review and paused for a system error, an exception
-- that shows the old status is logged first, and the change of status behind it.
abbrev pub IsRecorded : String → Row → Db → List (Option String) → Db → Type 0
IsRecorded k r db ids db' =
    (r' : Row) × (e : LogRow) × (l : LogRow) × (lookup k db'.lifecycles ≡ some r')
    × (r'.status ≡ some (status_value pending_review))
    × (r'.sub_status ≡ r.sub_status)
    × (r'.pause_type ≡ some system_error)
    × (db'.activity_logs ≡ db.activity_logs ++ e ∷ l ∷ [])
    × (ids ≡ some e.id ∷ some l.id ∷ [])
    × (e.activity_type ≡ exception)
    × (e.to_status ≡ shown_status r)
    × (l.activity_type ≡ status_change)
    × (l.from_status ≡ shown_status r)
    × (l.to_status ≡ pending_review)

module _ (env : Env) (scope : Scope) (r : Row) (c d : Command) (db : Db)
    (found : lookup scope.lifecycle_id db.lifecycles ≡ some r) where
  abbrev first_state : LoopState
  first_state = start (resolve_current_status (exception_of c) (some (view r)))

  -- The first round: an entry, and no write of the row
  abbrev round₁ : LoopState × Db
  round₁ = sequence_step env scope (some (view r)) system_pause first_state (exception_of c) db

  abbrev round₂ : LoopState × Db
  round₂ = sequence_step env scope (some (view r)) system_pause round₁.0 (review_of d) round₁.1

  first_found : lookup scope.lifecycle_id round₁.1.lifecycles ≡ some r
  unfolding sequence_step effective_command
  first_found =
      lookup-apply_one_step env (step_scope scope (exception_of c)) (view r) system_pause
        (first_state.current_status, first_state.current_sub) (exception_of c) db r found

  first_logs :
      (e : LogRow) × (round₁.1.activity_logs ≡ db.activity_logs ++ e ∷ [])
      × (round₁.0.activity_log_ids ≡ some e.id ∷ [])
      × (e.activity_type ≡ exception)
      × (e.to_status ≡ shown_status r)
      × (round₁.0.current_status ≡ status_type_from_db r.status)
  unfolding sequence_step apply_one_step effective_command write_log status_type_from_db
      build_activity_log_status_fields step_statuses
  first_logs = (
    _,
    activity_logs-apply_one_step env (step_scope scope (exception_of c)) (view r) system_pause
        (first_state.current_status, first_state.current_sub) (exception_of c) db,
    refl,
    refl,
    refl,
    refl,
  )

  -- The second round: the row is written, and an entry shows the change.
  second_found :
      lookup scope.lifecycle_id round₂.1.lifecycles
      ≡ some
          (record r { status = some (status_value pending_review); pause_type = some system_error })
  unfolding sequence_step effective_command status_update
  second_found =
      lookup-apply_one_step env (step_scope scope (review_of d)) (view r) system_pause
        (round₁.0.current_status, round₁.0.current_sub) (review_of d) round₁.1 r first_found

  second_logs :
      (l : LogRow) × (round₂.1.activity_logs ≡ round₁.1.activity_logs ++ l ∷ [])
      × (round₂.0.activity_log_ids ≡ round₁.0.activity_log_ids ++ some l.id ∷ [])
      × (l.activity_type ≡ status_change)
      × (l.from_status ≡ status_for_log round₁.0.current_status)
      × (l.to_status ≡ pending_review)
      × (round₂.0.any_pause_written ≡ true)
  unfolding sequence_step apply_one_step effective_command write_log
      build_activity_log_status_fields step_statuses write_row update_lifecycle status_update
  second_logs = (
    _,
    activity_logs-apply_one_step env (step_scope scope (review_of d)) (view r) system_pause
        (round₁.0.current_status, round₁.0.current_sub) (review_of d) round₁.1,
    refl,
    refl,
    refl,
    refl,
    refl,
  )

  abbrev commands : List Command
  commands = exception_of c ∷ review_of d ∷ []

  rounds :
      check_scope env scope (exception_of c) ≡ ok tt
      → check_scope env scope (review_of d) ≡ ok tt
      → sequence_loop env scope (some (view r)) system_pause commands first_state db
        ≡ (ok round₂.0, round₂.1)
  rounds h k =
      sequence_loop-cons env scope (some (view r)) system_pause (exception_of c) (review_of d ∷ [])
        first_state db h
      ∙ sequence_loop-cons env scope (some (view r)) system_pause (review_of d) [] round₁.0 round₁.1
          k
      ∙ sequence_loop-nil env scope (some (view r)) system_pause round₂.0 round₂.1

  rounds-IsRecorded : IsRecorded scope.lifecycle_id r db round₂.0.activity_log_ids round₂.1
  unfolding status_type_from_db
  rounds-IsRecorded =
      let (e, logs, ids, kind, to, status) = first_logs in
      let (l, logs₂, ids₂, kind₂, from₂, to₂, written) = second_logs in
      (
        _,
        e,
        l,
        second_found,
        refl,
        refl,
        refl,
        logs₂ ∙ rw logs (append_assoc db.activity_logs (e ∷ []) (l ∷ [])),
        ids₂ ∙ rw ids refl,
        kind,
        to,
        kind₂,
        from₂ ∙ rw status refl,
        to₂,
      )

  -- The whole sequence
  pub commands-IsRecorded :
      resolve_pause_context commands ≡ system_pause
      → prepare_scope env (exception_of c) ≡ ok scope
      → check_scope env scope (exception_of c) ≡ ok tt
      → check_scope env scope (review_of d) ≡ ok tt
      → (result : SequenceResult) × ((apply_sequence env commands db).0 ≡ ok result)
        × IsRecorded scope.lifecycle_id r db result.activity_log_ids
            (apply_sequence env commands db).1
  unfolding write_pause
  commands-IsRecorded pause h checked checked₂ =
      let fetched : required_row (exception_of c) scope db ≡ ok (some (view r)) =
        rw (row_of_view scope.lifecycle_id db r found) in
      let (e, logs, ids, kind, to, status) = first_logs in
      let (l, logs₂, ids₂, kind₂, from₂, to₂, written) = second_logs in
      let looped = rounds checked checked₂ in
      let left =
        returned env (exception_of c) (review_of d ∷ []) db scope (some (view r)) h fetched round₂.0
          (rw pause (ap (λ x. x.0) looped)) in
      (_, ap (λ x. x.0) left, rw left (rw (pause, looped, written) rounds-IsRecorded))
