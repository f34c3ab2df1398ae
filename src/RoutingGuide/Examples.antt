-- ===== src/RoutingGuide/Examples.antt =====
-- A lifecycle whose first carrier rejects.
use testingmulti.RoutingGuide.{optional_routing_guide_attempt, parse_attempt}
use testingmulti.RoutingGuide.Reminders.Cancelled.{attempt_ids}
use testingmulti.RoutingGuide.{
  Env, mark_stale_reminder_if_needed, routing_guide_attempt_from_metadata,
  routing_guide_attempt_from_state, routing_guide_max_attempts,
}
use testingmulti.RoutingGuide.Store.{World, read_metadata}
use testingmulti.RoutingGuide.Service.{GuideScope, WorkflowState, advance, workflow_scope}
use testingmulti.RoutingGuide.Reminders.{cancel_for_attempt, for_attempt}
use testingmulti.RoutingGuide.Service.Progress.{
  advance-InRange, advance-retires, advances-end, guide_domain,
}
use testingmulti.RoutingGuide.Service.Counter.{StandsAt, advances, advances_refine, carriers_tried}
use testingmulti.RoutingGuide.Reminders.Laws.{pending_of, spared}
use testingmulti.RoutingGuide.Reminders.Cancelled.{cancel_for_attempt_lem}
use testingmulti.Workflow.Routers.Guards.{Domain}
use testingmulti.Workflow.Routers.Tendering.{routing_guide_router}
use testingmulti.Common.{
  String, [], all, arith, false, if◌then◌else◌, none, not, refl, some, true, ℕ, ◌++◌, ◌<◌, ◌==◌,
  ◌∷◌, ◌≡◌, ◌≤◌,
}
use testingmulti.Common.Value.{
  Fields, Value, arr, bool, end, field, int, item_then, no_items, obj, pos, set_field, str, truthy,
}
use testingmulti.Common.Text.{strip}

abbrev env : Env
env = record {
  render = λ v. "?";
  int_of_text = λ s. if s == "2" then some (pos 2) else none;
  configured_max_attempts = λ d. some (int (pos 5));
  resolve_load_type = λ d. "ftl";
  accepts_revoke = λ id. true;
}

abbrev routers_env : Domain
routers_env = record {
  render = λ v. "?";
  is_multi_stop_shipment = λ d. false;
  is_past_delivery_cutoff = λ d. false;
  resolve_load_type = λ d. "FTL";
  routing_guide_max_attempts = λ d. 3;
  routing_guide_attempt = λ d. 1;
  has_recipients = λ v. truthy v;
}

abbrev task : String → ℕ → Value
task id n = obj (field "task_id" (str id) (field "attempt" (int (pos n)) end))

abbrev row : Fields
row = field "routing_guide_attempt" (int (pos 1)) (
    field "pending_reminder_tasks"
      (arr (item_then (task "t-1" 1) (item_then (task "t-2" 2) no_items))) end)

abbrev world : World
world = record { metadata = ("life-1", row) ∷ []; revoked = [] }

abbrev graph_data : Fields
graph_data =
    field "workflow_lifecycle_id" (str " life-1 ")
      (field "tender_id" (str "tender-7") (field "routing_guide_attempt" (int (pos 1)) end))

abbrev state : WorkflowState
state = record { tenant_id = "gelita"; execution_id = "run-1"; state_data = graph_data }

abbrev scope : GuideScope
scope = record {
  lifecycle_id = "life-1";
  tenant_id = "gelita";
  tender_id = "tender-7";
  run_id = "run-1";
}

cancel_for_attempt_lem_example :
    (pending_of env "life-1" ((cancel_for_attempt env "life-1" 1 world).1)
      ≡ spared env (attempt_ids env "life-1" world 1) (pending_of env "life-1" world))
    × (all
          (λ item. not (for_attempt env 1 item))
          (pending_of env "life-1" ((cancel_for_attempt env "life-1" 1 world).1))
        ≡ true)
    × ((cancel_for_attempt env "life-1" 1 world).1.revoked
        ≡ world.revoked ++ attempt_ids env "life-1" world 1)
unfolding strip
cancel_for_attempt_lem_example = cancel_for_attempt_lem env "life-1" world row refl 1 refl

one_revoked : (cancel_for_attempt env "life-1" 1 world).1.revoked ≡ "t-1" ∷ []
unfolding cancel_for_attempt optional_routing_guide_attempt parse_attempt
one_revoked = refl

advance-InRange_example :
    (routing_guide_attempt_from_state env state.state_data < (advance env state world).0)
    × ((advance env state world).0 ≤ routing_guide_max_attempts env state.state_data)
    × ((advance env state world).0 ≤ 3)
unfolding routing_guide_router workflow_scope routing_guide_attempt_from_state parse_attempt
    routing_guide_max_attempts routing_guide_attempt_from_metadata read_metadata
advance-InRange_example =
    advance-InRange env routers_env state world scope row refl refl refl (omega arith)

advance-retires_example :
    mark_stale_reminder_if_needed env end "reminder_due"
      (int (pos (routing_guide_attempt_from_state env state.state_data)))
      (read_metadata scope.lifecycle_id (advance env state world).1.1)
      true
    ≡ (true, set_field end "stale_routing_guide_reminder" (bool true))
unfolding routing_guide_router workflow_scope routing_guide_attempt_from_state parse_attempt
    routing_guide_max_attempts
advance-retires_example =
    advance-retires env routers_env state world scope row end "reminder_due" refl refl refl refl

stands : StandsAt env "life-1" 3 1 (state, world)
unfolding workflow_scope routing_guide_attempt_from_state routing_guide_attempt_from_metadata
    routing_guide_max_attempts read_metadata parse_attempt
stands = record {
  scoped = (scope, refl, refl);
  present = (row, refl);
  in_state = refl;
  in_row = refl;
  limited = refl;
}

advances_refine_example :
    StandsAt env "life-1" 3 (carriers_tried 3 4 1) (advances env 4 (state, world))
advances_refine_example = advances_refine env 4 "life-1" 3 1 (state, world) stands

advances-end_example :
    (routing_guide_router
        (guide_domain env routers_env)
        (advances env 3 (state, world)).0.state_data
      == "advance")
    ≡ false
advances-end_example = advances-end env routers_env "life-1" 3 1 (state, world) stands
