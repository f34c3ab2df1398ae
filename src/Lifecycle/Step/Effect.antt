-- ===== src/Lifecycle/Step/Effect.antt =====
-- One whole step: the row, the log entry and the status that the next step starts from.
use testingmulti.Status.{StatusSubType, StatusType}
use testingmulti.Lifecycle.Command.{Command, LogFields, build_activity_log_status_fields}
use testingmulti.Lifecycle.Step.{
  StepResult, activity_row, apply_one_step, effective_command, names_status, step_statuses,
  write_log, write_row, writes_lifecycle,
}
use testingmulti.Lifecycle.Scope.{Env, PauseContext, Scope}
use testingmulti.Lifecycle.Store.{Db, LogRow, Row, RowView, insert_log}
use testingmulti.Lifecycle.Step.Row.{
  lookup-write_row, lookup-write_row_ne, row_after, write_row_log,
}
use testingmulti.Common.{
  Option, String, [], arith, if◌then◌else◌, lookup, some, ◌&&◌, ◌++◌, ◌∷◌, ◌≡◌, ◌≢◌,
}

module _ (env : Env) (scope : Scope) (v : RowView) (pause_context : PauseContext)
    (current : Option StatusType × Option StatusSubType) (command : Command) (db : Db) where
  -- The command that the step carries out, and the status columns that it logs.
  abbrev pub effective : Command
  effective = effective_command pause_context (step_statuses command (some v) current).0 command

  abbrev pub logged : LogFields
  logged =
      build_activity_log_status_fields effective (step_statuses command (some v) current).0
        (step_statuses command (some v) current).1

  abbrev pub stepped : StepResult × Db
  stepped = apply_one_step env scope (some v) pause_context current command db

  abbrev written : Db
  written = (write_row scope (some v) pause_context effective db).2

  abbrev pub entry : LogRow
  entry = activity_row env scope effective logged written

  -- The step's effect on the row of its scope.
  pub lookup-apply_one_step :
      (r : Row)
      → lookup scope.lifecycle_id db.lifecycles ≡ some r
      → lookup scope.lifecycle_id stepped.1.lifecycles ≡ some (row_after pause_context effective r)
  unfolding apply_one_step write_log insert_log
  lookup-apply_one_step r h =
      ground (arith, lookup-write_row scope v pause_context effective db r h)

  -- It changes no other row.
  pub lookup-apply_one_step_ne :
      (j : String) → j ≢ scope.lifecycle_id → lookup j stepped.1.lifecycles ≡ lookup j db.lifecycles
  unfolding apply_one_step write_log insert_log
  lookup-apply_one_step_ne j h =
      ground (arith, lookup-write_row_ne scope v pause_context effective db j h)

  -- It appends one log entry if the command asks for it.
  pub activity_logs-apply_one_step :
      stepped.1.activity_logs
      ≡ (if effective.record_activity then db.activity_logs ++ entry ∷ [] else db.activity_logs)
  unfolding apply_one_step write_log insert_log
  activity_logs-apply_one_step = ground (arith, write_row_log scope v pause_context effective db)

  -- The result's flag for the pause, and the status for the next step.
  pub apply_one_step_result :
      (stepped.0.pause_written ≡ (writes_lifecycle effective && names_status effective))
      × (stepped.0.next_status ≡ (
          if writes_lifecycle effective
          then some logged.to_status
          else (step_statuses command (some v) current).0))
      × (stepped.0.next_sub ≡ (
          if writes_lifecycle effective
          then some logged.to_sub
          else (step_statuses command (some v) current).1))
  unfolding apply_one_step
  apply_one_step_result = ground (arith, write_row_log scope v pause_context effective db)
