-- ===== src/Lifecycle/Step/Row.antt =====
-- What one step does to the row and to the log.
use testingmulti.Status.{StatusSubType, StatusType, status_type_from_db, sub_status_type_from_db}
use testingmulti.Status.Parsing.{
  status_type_from_db-status_value, sub_status_type_from_db-sub_status_value,
}
use testingmulti.Lifecycle.Command.{Command, status_for_log, sub_status_for_log}
use testingmulti.Lifecycle.Step.{names_status, status_update, write_row, writes_lifecycle}
use testingmulti.Lifecycle.Scope.{PauseContext, Scope}
use testingmulti.Lifecycle.Store.{
  Db, Row, RowView, lookup-update_where, set_columns, update_lifecycle,
}
use testingmulti.Common.{
  Option-cases, String, arith, eq_iff, if◌then◌else◌, inl, inr, lookup, or_else, some, ◌&&◌, ◌≡◌,
  ◌≢◌,
}

-- The row that a step leaves.
abbrev pub row_after : PauseContext → Command → Row → Row
row_after pause_context command r =
    if writes_lifecycle command && names_status command
    then set_columns (status_update pause_context command) r
    else r

module _ (scope : Scope) (v : RowView) (pause_context : PauseContext) (command : Command)
    (db : Db) where
  -- A write replaces the row by the row that the step leaves.
  pub lookup-write_row :
      (r : Row)
      → lookup scope.lifecycle_id db.lifecycles ≡ some r
      → lookup scope.lifecycle_id (write_row scope (some v) pause_context command db).2.lifecycles
        ≡ some (row_after pause_context command r)
  unfolding write_row update_lifecycle
  lookup-write_row r h = ground (
    arith,
    lookup-update_where scope.lifecycle_id scope.lifecycle_id
        (set_columns (status_update pause_context command)) db.lifecycles,
    eq_iff scope.lifecycle_id scope.lifecycle_id,
  )

  -- No other row changes.
  pub lookup-write_row_ne :
      (j : String)
      → j ≢ scope.lifecycle_id
      → lookup j (write_row scope (some v) pause_context command db).2.lifecycles
        ≡ lookup j db.lifecycles
  unfolding write_row update_lifecycle
  lookup-write_row_ne j h = ground (
    arith,
    lookup-update_where scope.lifecycle_id j (set_columns (status_update pause_context command))
        db.lifecycles,
    eq_iff scope.lifecycle_id j,
  )

  -- The write leaves the log alone, and says whether it wrote the pause.
  pub write_row_log :
      ((write_row scope (some v) pause_context command db).2.activity_logs ≡ db.activity_logs)
      × ((write_row scope (some v) pause_context command db).1
          ≡ (writes_lifecycle command && names_status command))
  unfolding write_row update_lifecycle
  write_row_log = ground arith

-- The status and sub-status that a row shows in a log entry.
abbrev pub shown_status : Row → StatusType
shown_status r = status_for_log (status_type_from_db r.status)

abbrev pub shown_sub : Row → StatusSubType
shown_sub r = sub_status_for_log (sub_status_type_from_db r.sub_status)

-- After the write the row shows what the command names, and otherwise what it showed.
pub shown_status-set_columns :
    (p : PauseContext) (command : Command) (r : Row)
    → shown_status (set_columns (status_update p command) r)
      ≡ or_else command.to_status (shown_status r)
unfolding status_update
shown_status-set_columns p command r = elim (Option-cases command.to_status) [
  | inl e ↦ rw e
  | inr (s, e) ↦ rw e (rw (status_type_from_db-status_value s))
]

pub shown_sub-set_columns :
    (p : PauseContext) (command : Command) (r : Row)
    → shown_sub (set_columns (status_update p command) r)
      ≡ or_else command.to_sub_status (shown_sub r)
unfolding status_update
shown_sub-set_columns p command r = elim (Option-cases command.to_sub_status) [
  | inl e ↦ rw e
  | inr (s, e) ↦ rw e (rw (sub_status_type_from_db-sub_status_value s))
]
