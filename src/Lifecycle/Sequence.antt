-- ===== src/Lifecycle/Sequence.antt =====
-- `apply` and `apply_sequence` of `LifecycleTransitionService`, with the transaction around them.
pub mod Loop
pub mod Chain
pub mod Outcome
pub mod Audit
pub mod Pause
pub mod Paused
pub mod Snapshot
pub mod Announced
pub mod Returns
pub mod Raised
use testingmulti.Common.{
  String, Bool, true, false, not, ◌&&◌, ◌||◌, Option, none, some, List, [], ◌∷◌, ◌++◌, ◌==◌,
  is_some, first_some, or_else, if◌then◌else◌,
}
use testingmulti.Status.{StatusType, StatusSubType}
use testingmulti.Lifecycle.Command.{Command, LogFields}
use testingmulti.Lifecycle.Store.{RowView, Db, get_for_update, update_lifecycle}
use testingmulti.Lifecycle.Scope.{
  Env, Result, ok, err, ◌>>=◌, ◌>>◌, raise_unless, PauseContext, Scope, clean,
  resolve_pause_context, resolve_graph_tenant_to_uuid, uuid_or_raise, run_id_of, prepare_scope,
  resolve_current_status, tenant_differs, lifecycle_differs, run_differs, lifecycle_not_found,
  lifecycle_id_required, invalid_lifecycle_id,
}
use testingmulti.Lifecycle.Step.{StepResult, apply_one_step}

-- A call that may raise; what it wrote before stays until the transaction is undone.
abbrev pub Action : Type 0 → Type 0
Action A = Db → Result A × Db

-- `with db_transaction(session)`: an exception rolls the store back.
unfoldable pub db_transaction : {A : Type 0} → Action A → Action A
db_transaction action db =
    let (r, db') = action db in elim r [ ok a ↦ (ok a, db') | err e ↦ (err e, db) ]

-- `LifecycleTransitionResult`
pub record TransitionResult : Type 0 where
  pub lifecycle_updated : Bool
  pub activity_log_id : Option String
  pub fields : LogFields

-- `LifecycleTransitionSequenceResult`
pub record SequenceResult : Type 0 where
  pub activity_log_ids : List (Option String)
  pub lifecycle_updated : Bool

-- The pause that an exception leaves, where no status write has carried it.
unfoldable pub write_pause : Scope → Option RowView → PauseContext → Bool → Db → Db
write_pause scope row pause_context pause_written db =
    if pause_context.has_exception && not pause_written && is_some row
    then (update_lifecycle scope.lifecycle_id
        (record {
          status = none;
          sub_status = none;
          pause_type = pause_context.pause_type;
          clear_pause = false;
        })
        db).1
    else db

-- The row of the scope, or the error that it is missing.
abbrev pub required_row : Command → Scope → Db → Result (Option RowView)
required_row command scope db =
    let row = get_for_update scope.lifecycle_id db in
    raise_unless (is_some row || not command.require_lifecycle_row) lifecycle_not_found >> ok row

apply_to_row : Env → Command → Scope → Option RowView → Db → TransitionResult × Db
apply_to_row env command scope row db =
    let current = resolve_current_status command row in
    let pause_context = resolve_pause_context (command ∷ []) in
    let (step, db') = apply_one_step env scope row pause_context current command db in
    (
      record {
        lifecycle_updated = step.lifecycle_updated;
        activity_log_id = step.activity_log_id;
        fields = step.fields;
      },
      write_pause scope row pause_context step.pause_written db',
    )

-- `_apply_in_transaction`
unfoldable pub apply_in_transaction : Env → Command → Action TransitionResult
unfolding apply_to_row
apply_in_transaction env command db = elim (prepare_scope env command) [
  | err e ↦ (err e, db)
  | ok scope ↦ elim (required_row command scope db) [
    | err e ↦ (err e, db)
    | ok row ↦ let (r, db') = apply_to_row env command scope row db in (ok r, db')
  ]
]

-- `apply`, for a service that was made without repositories
unfoldable pub apply : Env → Command → Action TransitionResult
unfolding apply_in_transaction db_transaction
apply env command = db_transaction (apply_in_transaction env command)

abbrev pub same_run : Option String → Option String → Bool
same_run none none = true
same_run (some a) (some b) = a == b
same_run _ _ = false

abbrev same_tenant : Option String → String → Bool
same_tenant none b = false
same_tenant (some a) b = a == b

-- The checks that each command of a sequence shares the scope.
unfoldable pub check_scope : Env → Scope → Command → Result (Unit {0})
check_scope env scope command = do
  raise_unless
      (same_tenant (resolve_graph_tenant_to_uuid env (clean (some command.tenant_id)))
        scope.tenant_uuid)
      tenant_differs
  lifecycle_id ←
      uuid_or_raise env command.workflow_lifecycle_id lifecycle_id_required invalid_lifecycle_id
  raise_unless (lifecycle_id == scope.lifecycle_id) lifecycle_differs
  run_id ← run_id_of env command
  raise_unless (same_run run_id scope.run_id) run_differs

-- The variables of the loop in `_apply_sequence_in_transaction`.
pub record LoopState : Type 0 where
  pub current_status : Option StatusType
  pub current_sub : Option StatusSubType
  pub activity_log_ids : List (Option String)
  pub any_lifecycle_updated : Bool
  pub any_pause_written : Bool

abbrev pub step_scope : Scope → Command → Scope
step_scope scope command = record scope {
  actor_type = or_else command.actor_type scope.actor_type;
  actor_id = first_some (clean command.actor_id) scope.actor_id;
}

unfoldable pub after_step : LoopState → StepResult → LoopState
after_step s step = record {
  current_status = step.next_status;
  current_sub = step.next_sub;
  activity_log_ids = s.activity_log_ids ++ step.activity_log_id ∷ [];
  any_lifecycle_updated = step.lifecycle_updated || s.any_lifecycle_updated;
  any_pause_written = step.pause_written || s.any_pause_written;
}

module _ (env : Env) (scope : Scope) (row : Option RowView) (pause_context : PauseContext) where
  unfoldable pub sequence_step : LoopState → Command → Db → LoopState × Db
  unfolding after_step
  sequence_step s command db =
      let (step, db') =
        apply_one_step env (step_scope scope command) row pause_context
          (s.current_status, s.current_sub) command db in
      (after_step s step, db')

  -- The loop over the commands.
  unfoldable pub sequence_loop : List Command → LoopState → Action LoopState
  sequence_loop [] s db = (ok s, db)
  sequence_loop (command ∷ commands) s db = elim (check_scope env scope command) [
    | err e ↦ (err e, db)
    | ok _ ↦ let (s', db') = sequence_step s command db in sequence_loop commands s' db'
  ]

abbrev pub start : Option StatusType × Option StatusSubType → LoopState
start (status, sub) = record {
  current_status = status;
  current_sub = sub;
  activity_log_ids = [];
  any_lifecycle_updated = false;
  any_pause_written = false;
}

-- `_apply_sequence_in_transaction`, for a first command and the others.
unfoldable pub apply_sequence_in_transaction : Env → Command → List Command → Action SequenceResult
unfolding sequence_loop
apply_sequence_in_transaction env first others db = elim (prepare_scope env first) [
  | err e ↦ (err e, db)
  | ok scope ↦ elim (required_row first scope db) [
    | err e ↦ (err e, db)
    | ok row ↦
        let pause_context = resolve_pause_context (first ∷ others) in
        let (r, db') =
          sequence_loop env scope row pause_context (first ∷ others)
            (start (resolve_current_status first row)) db in
        elim r [
          | err e ↦ (err e, db')
          | ok s ↦ (
            ok (record {
              activity_log_ids = s.activity_log_ids;
              lifecycle_updated = s.any_lifecycle_updated;
            }),
            write_pause scope row pause_context s.any_pause_written db',
          )
        ]
  ]
]

-- `apply_sequence`, for a service that was made without repositories
unfoldable pub apply_sequence : Env → List Command → Action SequenceResult
unfolding apply_sequence_in_transaction db_transaction
apply_sequence env [] db = (ok (record { activity_log_ids = []; lifecycle_updated = false }), db)
apply_sequence env (first ∷ others) db =
    db_transaction (apply_sequence_in_transaction env first others) db

-- How a service was made: with both repositories, whose caller has a transaction, or without them.
pub data Repositories : Type 0 where
  injected own : Repositories

-- `LifecycleTransitionService(...).apply`
abbrev pub service_apply : Repositories → Env → Command → Action TransitionResult
service_apply injected env command = apply_in_transaction env command
service_apply own env command = apply env command

-- `LifecycleTransitionService(...).apply_sequence`
abbrev pub service_apply_sequence : Repositories → Env → List Command → Action SequenceResult
service_apply_sequence own env commands = apply_sequence env commands
service_apply_sequence injected env [] =
    λ db. (ok (record { activity_log_ids = []; lifecycle_updated = false }), db)
service_apply_sequence injected env (first ∷ others) =
    apply_sequence_in_transaction env first others
