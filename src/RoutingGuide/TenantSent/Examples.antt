-- ===== src/RoutingGuide/TenantSent/Examples.antt =====
-- A full truckload whose tender is sent to the tenant.
use testingmulti.RoutingGuide.{
  gelita_routing_guide_sub_status_for, parse_attempt, routing_guide_attempt_from_metadata,
  routing_guide_has_attempt, sync_routing_guide_attempt_to_state,
}
use testingmulti.Status.{status_type_from_db, sub_status_type_from_db}
use testingmulti.RoutingGuide.TenantSent.{run_with_repos}
use testingmulti.RoutingGuide.Store.{read_metadata, set_routing_guide_attempt}
use testingmulti.Lifecycle.Sequence.{
  apply_sequence_in_transaction, check_scope, sequence_loop, sequence_step, write_pause,
}
use testingmulti.Lifecycle.Command.{build_activity_log_status_fields}
use testingmulti.Lifecycle.Step.{
  apply_one_step, effective_command, step_statuses, write_log, write_row,
}
use testingmulti.Lifecycle.Scope.{prepare_scope, resolve_current_status, resolve_pause_context}
use testingmulti.Lifecycle.Store.{get_for_update, insert_log, update_lifecycle, update_where}
use testingmulti.Common.Value.{set_field}
use testingmulti.RoutingGuide.{Env, routing_guide_attempt_from_state}
use testingmulti.RoutingGuide.Service.{GuideScope, WorkflowState, workflow_scope}
use testingmulti.RoutingGuide.TenantSent.{Rows, record_tenant_sent}
use testingmulti.Lifecycle.Scope.{Scope, ok}
use testingmulti.Lifecycle.Store.{Row}
use testingmulti.Common.{[], length, lookup, map_option, none, refl, some, true, ◌∷◌, ◌≡◌}
use testingmulti.Common.Value.{end, field, get, str}
use testingmulti.Common.Text.{strip}
use testingmulti.Lifecycle.Scope

abbrev sent_env : Env
sent_env = record {
  render = λ v. "?";
  int_of_text = λ s. none;
  configured_max_attempts = λ d. none;
  resolve_load_type = λ d. "ftl";
  accepts_revoke = λ id. true;
}

abbrev sent_transitions : Scope.Env
sent_transitions = record {
  canonical_uuid = λ s. some s;
  find_tenant_uuid_by_slug = λ s. none;
  log_id = λ n. "log";
}

abbrev lifecycle_row : Row
lifecycle_row = record {
  status = some "processing";
  sub_status = none;
  pause_type = none;
  tenant_id = some "gelita";
  workflow_name = "load_tendering";
}

abbrev sent_rows : Rows
sent_rows = record {
  world = record { metadata = ("life-1", end) ∷ []; revoked = [] };
  db = record { lifecycles = ("life-1", lifecycle_row) ∷ []; activity_logs = [] };
}

abbrev sent_state : WorkflowState
sent_state = record {
  tenant_id = "gelita";
  execution_id = "run-1";
  state_data =
      field "workflow_lifecycle_id" (str " life-1 ") (field "tender_id" (str "tender-7") end);
}

abbrev sent_scope : GuideScope
sent_scope = record {
  lifecycle_id = "life-1";
  tenant_id = "gelita";
  tender_id = "tender-7";
  run_id = "run-1";
}

-- The attempt is initialised, and the sub-status follows.
first_sent :
    let (r, (state, rows)) = record_tenant_sent sent_env sent_transitions sent_state sent_rows in
    (r ≡ ok true)
    × (routing_guide_attempt_from_state sent_env state.state_data ≡ 1)
    × (map_option (λ (x : Row). x.sub_status) (lookup "life-1" rows.db.lifecycles)
        ≡ some (some "tender_sent_to_tenant_for_carrier_1"))
    × (length rows.db.activity_logs ≡ 2)
unfolding record_tenant_sent run_with_repos workflow_scope strip get apply_sequence_in_transaction
    apply_one_step write_row write_log update_lifecycle effective_command prepare_scope
    get_for_update sequence_loop sequence_step check_scope resolve_current_status
    build_activity_log_status_fields resolve_pause_context write_pause status_type_from_db
    sub_status_type_from_db step_statuses insert_log update_where routing_guide_has_attempt
    routing_guide_attempt_from_state routing_guide_attempt_from_metadata set_routing_guide_attempt
    gelita_routing_guide_sub_status_for sync_routing_guide_attempt_to_state parse_attempt
    read_metadata set_field
first_sent = (refl, refl, refl, refl)
