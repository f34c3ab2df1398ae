-- ===== src/RoutingGuide/TenantSent.antt =====
-- `RoutingGuideLifecycleService.record_tenant_sent` (app/services/routing_guide_lifecycle_service.py):
-- the attempt in the metadata and the transitions of the lifecycle, in one transaction.
pub mod Agrees
mod Examples
use testingmulti.RoutingGuide.{
  Env, Phase, gelita_routing_guide_sub_status_for, routing_guide_attempt_from_metadata,
  routing_guide_has_attempt, sync_routing_guide_attempt_to_state,
}
use testingmulti.Status.{
  ActivityType, StatusSubType, action, is_snapshot_activity_type, sub_status_change, system,
}
use testingmulti.RoutingGuide.Store.{World, read_metadata, set_routing_guide_attempt}
use testingmulti.RoutingGuide.Service.{GuideScope, WorkflowState, workflow_scope}
use testingmulti.Lifecycle.Sequence.{apply_sequence_in_transaction}
use testingmulti.Lifecycle.Command.{Command}
use testingmulti.Lifecycle.Scope.{Result, Scope, err, ok, ◌>>=◌}
use testingmulti.Lifecycle.Store.{Db}
use testingmulti.Workflow.Routers.Tendering.{is_ftl_load_type}
use testingmulti.Common.{
  Bool, Option, String, [], false, if◌then◌else◌, none, not, some, true, ℕ, ◌∷◌,
}
use testingmulti.Common.Value.{Fields, clean_text, end, field, get, int, obj, pos, str}
use testingmulti.Common.Text.{non_empty}
use testingmulti.Lifecycle.Scope

-- The lifecycle table, by its metadata column and by the columns that transitions write, with the log
pub record Rows : Type 0 where
  pub world : World
  pub db : Db

-- `run_with_repos` (app/core/service_db.py): an exception rolls everything back.
unfoldable pub run_with_repos : {A : Type 0} → (Rows → Result A × Rows) → Rows → Result A × Rows
run_with_repos fn rows =
    let (r, rows') = fn rows in elim r [ ok a ↦ (ok a, rows') | err e ↦ (err e, rows) ]

-- `TENDER_SENT_TO_TENANT_ACTION` (app/domain/activity_log_constants.py)
abbrev pub tender_sent_to_tenant_action : String
tender_sent_to_tenant_action = "Tender email sent to Shipper"

-- `_lifecycle_command`
abbrev pub lifecycle_command :
    GuideScope
    → ActivityType
    → Option String
    → Fields
    → Option StatusSubType
    → Option String
    → Command
lifecycle_command scope activity_type description transition_meta to_sub_status communication_id =
    record {
      tenant_id = scope.tenant_id;
      activity_type = activity_type;
      workflow_lifecycle_id = scope.lifecycle_id;
      workflow_run_id = some scope.run_id;
      to_status = none;
      to_sub_status = to_sub_status;
      description = description;
      metadata = some (obj transition_meta);
      communication_id = communication_id;
      actor_type = some system;
      actor_id = none;
      from_status = none;
      from_sub_status = none;
      update_lifecycle = not (is_snapshot_activity_type activity_type);
      record_activity = true;
      require_lifecycle_row = true;
      pause_type = none;
    }

abbrev pub transition_meta : GuideScope → ℕ → Fields
transition_meta scope attempt =
    field "tender_id" (str scope.tender_id) (field "routing_guide_attempt" (int (pos attempt)) end)

-- The two commands of the sequence
abbrev pub sent_command : GuideScope → Option String → ℕ → Command
sent_command scope communication_id attempt =
    lifecycle_command scope action (some tender_sent_to_tenant_action)
      (transition_meta scope attempt) none communication_id

abbrev pub move_command : GuideScope → ℕ → Command
move_command scope attempt =
    lifecycle_command scope sub_status_change none (transition_meta scope attempt)
      (some (gelita_routing_guide_sub_status_for attempt Phase.tenant)) none

abbrev pub after_persist : WorkflowState → Result ℕ × Rows → Result Bool × (WorkflowState × Rows)
after_persist state (ok attempt, rows) = (
  ok true,
  (
    record state { state_data = sync_routing_guide_attempt_to_state state.state_data attempt },
    rows,
  ),
)
after_persist state (err e, rows) = (err e, (state, rows))

module _ (env : Env) where
  -- The attempt of the row, which is written where there is none
  abbrev pub tenant_attempt : String → World → ℕ × World
  tenant_attempt wl_id w =
      let lifecycle_meta = read_metadata wl_id w in
      if not (routing_guide_has_attempt lifecycle_meta)
      then (1, (set_routing_guide_attempt wl_id 1 w).1)
      else (routing_guide_attempt_from_metadata env lifecycle_meta, w)

module _ (env : Env) (transitions : Scope.Env) where
  abbrev pub log_tenant_sent : GuideScope → Option String → ℕ → World → Db → Result ℕ × Rows
  log_tenant_sent scope communication_id attempt w db =
      let (r, db') =
        apply_sequence_in_transaction transitions (sent_command scope communication_id attempt)
          (move_command scope attempt ∷ []) db in
      (r >>= (λ _. ok attempt), record { world = w; db = db' })

  -- `_persist` of `record_tenant_sent`
  abbrev pub persist_tenant_sent : GuideScope → Option String → Rows → Result ℕ × Rows
  persist_tenant_sent scope communication_id rows =
      let (attempt, w) = tenant_attempt env scope.lifecycle_id rows.world in
      log_tenant_sent scope communication_id attempt w rows.db

  abbrev pub tenant_sent_scoped :
      Option GuideScope → WorkflowState → Rows → Result Bool × (WorkflowState × Rows)
  tenant_sent_scoped none state rows = (ok false, (state, rows))
  tenant_sent_scoped (some scope) state rows =
      let communication_id =
        non_empty (clean_text env.render (get state.state_data "communication_id")) in
      after_persist state (run_with_repos (persist_tenant_sent scope communication_id) rows)

  -- `record_tenant_sent`, where the database answers
  unfoldable pub record_tenant_sent : WorkflowState → Rows → Result Bool × (WorkflowState × Rows)
  record_tenant_sent state rows =
      if not (is_ftl_load_type (env.resolve_load_type state.state_data))
      then (ok false, (state, rows))
      else tenant_sent_scoped (workflow_scope env state) state rows
