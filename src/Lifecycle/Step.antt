-- ===== src/Lifecycle/Step.antt =====
-- `LifecycleTransitionService._apply_one_step`: at most one write of the row and one log entry.
pub mod Row
pub mod Effect
use testingmulti.Common.{
  String, Bool, true, false, not, ◌&&◌, ◌||◌, Option, none, some, length, is_some, or_else,
  first_some, if◌then◌else◌,
}
use testingmulti.Common.Value.{Value, obj, end}
use testingmulti.Status.{
  StatusType, StatusSubType, pending_review, processing, is_snapshot_activity_type,
}
use testingmulti.Lifecycle.Command.{
  Command, LogFields, build_activity_log_status_fields, generate_activity_log_description,
}
use testingmulti.Lifecycle.Store.{
  RowView, LogRow, Db, LifecycleUpdate, update_lifecycle, insert_log,
}
use testingmulti.Lifecycle.Scope.{Env, PauseContext, Scope, clean, resolve_current_status}

-- The tuple that `_apply_one_step` returns.
pub record StepResult : Type 0 where
  pub activity_log_id : Option String
  pub lifecycle_updated : Bool
  pub pause_written : Bool
  pub next_status : Option StatusType
  pub next_sub : Option StatusSubType
  pub fields : LogFields

abbrev is_pending_review : Option StatusType → Bool
is_pending_review (some pending_review) = true
is_pending_review _ = false

-- `_resolve_activity_description`
unfoldable pub resolve_activity_description : Command → LogFields → Option String
unfolding generate_activity_log_description clean
resolve_activity_description command fields =
    first_some (generate_activity_log_description command.activity_type fields)
      (clean command.description)

-- `_insert_activity_row`: the row that is inserted.
unfoldable pub activity_row : Env → Scope → Command → LogFields → Db → LogRow
unfolding resolve_activity_description
activity_row env scope command fields db = record {
  id = env.log_id (length db.activity_logs);
  tenant_id = scope.tenant_uuid;
  workflow_lifecycle_id = scope.lifecycle_id;
  workflow_run_id = scope.run_id;
  activity_type = command.activity_type;
  description = resolve_activity_description command fields;
  from_status = fields.from_status;
  to_status = fields.to_status;
  from_sub_status = fields.from_sub;
  to_sub_status = fields.to_sub;
  actor_type = scope.actor_type;
  actor_id = scope.actor_id;
  metadata = or_else command.metadata (obj end);
  communication_id = command.communication_id;
}

-- The status that a step starts from: a snapshot reads the row anew.
unfoldable pub step_statuses :
    Command
    → Option RowView
    → Option StatusType × Option StatusSubType
    → Option StatusType × Option StatusSubType
unfolding resolve_current_status
step_statuses command row current =
    if is_snapshot_activity_type command.activity_type
    then resolve_current_status command row
    else current

-- A sub-status written on a lifecycle under review also resumes it, unless there is an exception.
unfoldable pub effective_command : PauseContext → Option StatusType → Command → Command
effective_command pause_context step_status command =
    if not (is_snapshot_activity_type command.activity_type)
      && command.update_lifecycle
      && not pause_context.has_exception
      && not (is_some command.to_status)
      && is_some command.to_sub_status
      && is_pending_review step_status
    then record command { to_status = some processing }
    else command

abbrev pub writes_lifecycle : Command → Bool
writes_lifecycle command =
    command.update_lifecycle && not (is_snapshot_activity_type command.activity_type)

-- The update that a step writes, if any.
unfoldable pub status_update : PauseContext → Command → LifecycleUpdate
status_update pause_context command = record {
  status = command.to_status;
  sub_status = command.to_sub_status;
  pause_type = if pause_context.has_exception then pause_context.pause_type else none;
  clear_pause = not pause_context.has_exception;
}

abbrev pub names_status : Command → Bool
names_status command = is_some command.to_status || is_some command.to_sub_status

-- The write of the row: (`lifecycle_updated`, `pause_written`) and the store.
unfoldable pub write_row : Scope → Option RowView → PauseContext → Command → Db → Bool × Bool × Db
unfolding status_update
write_row scope row pause_context command db =
    let (updated, db') =
      update_lifecycle scope.lifecycle_id (status_update pause_context command) db in
    if writes_lifecycle command && is_some row && names_status command
    then (updated, true, db')
    else (false, false, db)

-- The log entry: its id and the store.
unfoldable pub write_log : Env → Scope → Command → LogFields → Db → Option String × Db
unfolding activity_row
write_log env scope command fields db =
    if command.record_activity
    then (
      some (env.log_id (length db.activity_logs)),
      insert_log (activity_row env scope command fields db) db,
    )
    else (none, db)

unfoldable pub apply_one_step :
    Env
    → Scope
    → Option RowView
    → PauseContext
    → Option StatusType × Option StatusSubType
    → Command
    → Db
    → StepResult × Db
apply_one_step env scope row pause_context current command db =
    let (step_status, step_sub) = step_statuses command row current in
    let effective = effective_command pause_context step_status command in
    let fields = build_activity_log_status_fields effective step_status step_sub in
    let (lifecycle_updated, pause_written, db₁) = write_row scope row pause_context effective db in
    let moved = writes_lifecycle effective && is_some row in
    let (activity_log_id, db₂) = write_log env scope effective fields db₁ in
    (
      record {
        activity_log_id = activity_log_id;
        lifecycle_updated = lifecycle_updated;
        pause_written = pause_written;
        next_status = if moved then some fields.to_status else step_status;
        next_sub = if moved then some fields.to_sub else step_sub;
        fields = fields;
      },
      db₂,
    )
