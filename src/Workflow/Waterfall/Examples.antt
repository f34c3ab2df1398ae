-- ===== src/Workflow/Waterfall/Examples.antt =====
-- A tender whose carrier does not answer.
use testingmulti.RoutingGuide.Service.{advance, workflow_scope}
use testingmulti.Workflow.Builder.{has_workflow_error}
use testingmulti.Workflow.Routers.Pod.{event_type_router}
use testingmulti.Workflow.Routers.Tendering.{
  load_type_router, post_read_tender_router, routing_guide_router, tender_status_router,
}
use testingmulti.Common.Value.{set_field}
use testingmulti.Common.Text.{strip}
use testingmulti.Workflow.Builder.{successor}
use testingmulti.Common.{map_option}
use testingmulti.Common.Value.{bool}
use testingmulti.RoutingGuide.Store.{World}
use testingmulti.RoutingGuide.Service.{WorkflowState, advance_carrier_routing_guide}
use testingmulti.Workflow.Builder.{execute}
use testingmulti.Workflow.Waterfall.{failed_over}
use testingmulti.Workflow.Routers.Guards.{Domain}
use testingmulti.Workflow.Routers.Registry.{router_registry}
use testingmulti.Workflow.Configs.LoadTendering.{load_tendering}
use testingmulti.Workflow.Waterfall.Ends.{
  advance_carrier-event_type, advance_carrier-failed_over, load_tendering_ends,
}
use testingmulti.Common.{
  Bool-cases, String, [], false, if◌then◌else◌, inl, inr, none, refl, some, true, ◌==◌, ◌∷◌, ◌≡◌,
}
use testingmulti.Common.Value.{Fields, end, field, get, str, truthy}
use testingmulti.RoutingGuide.{Env}

abbrev guide : Env
guide = record {
  render = λ v. "?";
  int_of_text = λ s. none;
  configured_max_attempts = λ d. none;
  resolve_load_type = λ d. "FTL";
  accepts_revoke = λ id. true;
}

abbrev routes : Domain
routes = record {
  render = λ v. "?";
  is_multi_stop_shipment = λ d. false;
  is_past_delivery_cutoff = λ d. false;
  resolve_load_type = λ d. "FTL";
  routing_guide_max_attempts = λ d. 3;
  routing_guide_attempt = λ d. 1;
  has_recipients = λ v. truthy v;
}

abbrev graph_state : WorkflowState
graph_state = record { tenant_id = "gelita"; execution_id = "run-1"; state_data = end }

abbrev one_row : World
one_row = record { metadata = ("life-1", end) ∷ []; revoked = [] }

abbrev advanced : Fields → Fields
advanced s =
    (advance_carrier_routing_guide guide (record graph_state { state_data = s })
      one_row).0.state_data

abbrev run_node : String → Fields → Fields
run_node node s = if node == "advance_carrier_routing_guide" then advanced s else s

keeps_event : (node : String) (s : Fields) → get (run_node node s) "event_type" ≡ get s "event_type"
keeps_event node s = elim (Bool-cases (node == "advance_carrier_routing_guide")) [
  | inl y ↦ rw y (advance_carrier-event_type guide (record graph_state { state_data = s }) one_row)
  | inr n ↦ rw n refl
]

keeps_mark :
    (node : String) (s : Fields) → failed_over s ≡ true → failed_over (run_node node s) ≡ true
keeps_mark node s h = elim (Bool-cases (node == "advance_carrier_routing_guide")) [
  | inl y ↦ rw y (advance_carrier-failed_over guide (record graph_state { state_data = s }) one_row)
  | inr n ↦ rw n h
]

abbrev overdue : Fields
overdue = field "event_type" (str "escalation_due") end

load_tendering_ends_example :
    (final : Fields) × (execute
        (router_registry routes)
        load_tendering
        run_node
        46
        "route_event"
        overdue
      ≡ some final)
unfolding get
load_tendering_ends_example =
    load_tendering_ends guide routes run_node "escalation_due" overdue keeps_event keeps_mark
      (λ s. (graph_state, one_row, refl)) refl refl

-- The run advances, asks the next carrier, and ends.
failed_over_at_end :
    map_option
      (λ d. get d "routing_guide_failover")
      (execute (router_registry routes) load_tendering run_node 46 "route_event" overdue)
    ≡ some (bool true)
unfolding get execute successor strip event_type_router post_read_tender_router routing_guide_router
    load_type_router has_workflow_error tender_status_router advance_carrier_routing_guide set_field
    advance workflow_scope
failed_over_at_end = refl
