-- ===== src/Workflow/Examples.antt =====
-- Runs of the deployed workflows on concrete states.
use testingmulti.Workflow.Compiler.{compile_graph, empty_overlay}
use testingmulti.Workflow.Compiler.Empty.{compile_graph_empty}
use testingmulti.Workflow.Compiler.Sound.{Sound}
use testingmulti.Workflow.{TenantWorkflowOverlay, validate_graph}
use testingmulti.Common.{[], ◌∷◌}
use testingmulti.Workflow.Routers.Pod.{pod_missing_dispatch_router}
use testingmulti.Workflow.Deployed.LoadTendering.{
  load_tendering_email_received, load_tendering_never_stops,
}
use testingmulti.Workflow.Runs.{
  appointment_scheduling_ends, driver_assignment_ends, pod_lifecycle_ends, ratecon_ends,
}
use testingmulti.Workflow.Builder.{execute, has_workflow_error, successor}
use testingmulti.Workflow.Routers.Guards.{Domain}
use testingmulti.Workflow.Routers.Registry.{router_registry}
use testingmulti.Workflow.Configs.DriverAssignment.{driver_assignment}
use testingmulti.Workflow.Configs.LoadTendering.{load_tendering}
use testingmulti.Workflow.Configs.AppointmentScheduling.{appointment_scheduling}
use testingmulti.Workflow.Configs.PodLifecycle.{pod_lifecycle}
use testingmulti.Workflow.Configs.Ratecon.{ratecon}
use testingmulti.Workflow.Builder.Progress.{Moves}
use testingmulti.Common.Value.{Fields, end, field, get, str, truthy}
use testingmulti.Common.{String, false, none, refl, some, ◌≡◌}

abbrev domain : Domain
domain = record {
  render = λ v. "?";
  is_multi_stop_shipment = λ d. false;
  is_past_delivery_cutoff = λ d. false;
  resolve_load_type = λ d. "FTL";
  routing_guide_max_attempts = λ d. 3;
  routing_guide_attempt = λ d. 1;
  has_recipients = λ v. truthy v;
}

abbrev on_event : String → Fields
on_event t = field "event_type" (str t) end

abbrev do_nothing_node : String → Fields → Fields
do_nothing_node node state = state

pod_lifecycle_ends_example :
    (final : Fields) × (execute
        (router_registry domain)
        pod_lifecycle
        do_nothing_node
        27
        "route_event"
        (on_event "manual_pod_upload")
      ≡ some final)
unfolding get
pod_lifecycle_ends_example =
    pod_lifecycle_ends domain do_nothing_node "manual_pod_upload" (on_event "manual_pod_upload")
      (λ n s. refl) refl refl

driver_assignment_ends_example :
    (final : Fields) × (execute
        (router_registry domain)
        driver_assignment
        do_nothing_node
        26
        "route_event"
        (on_event "reminder_due")
      ≡ some final)
unfolding get
driver_assignment_ends_example =
    driver_assignment_ends domain do_nothing_node "reminder_due" (on_event "reminder_due")
      (λ n s. refl) refl refl

appointment_scheduling_ends_example :
    (final : Fields) × (execute
        (router_registry domain)
        appointment_scheduling
        do_nothing_node
        24
        "route_event"
        (on_event "appointment_draft_send")
      ≡ some final)
unfolding get
appointment_scheduling_ends_example =
    appointment_scheduling_ends domain do_nothing_node "appointment_draft_send"
      (on_event "appointment_draft_send") (λ n s. refl) refl refl

ratecon_run :
    (final : Fields) × (execute
        (router_registry domain)
        ratecon
        do_nothing_node
        12
        "resolve_load_to_shipment"
        (on_event "email_received")
      ≡ some final)
ratecon_run = ratecon_ends domain do_nothing_node (on_event "email_received")

step_on_ack : Moves (router_registry domain) (on_event "ack_received") load_tendering (
    successor
      (router_registry domain)
      load_tendering
      "classify_carrier_ack"
      (on_event "ack_received"))
unfolding get
step_on_ack =
    load_tendering_never_stops domain "ack_received" refl (on_event "ack_received") refl
      "classify_carrier_ack" refl refl

load_tendering_email_received_example :
    successor (router_registry domain) load_tendering "route_event" (on_event "email_received")
    ≡ none
unfolding get has_workflow_error
load_tendering_email_received_example =
    load_tendering_email_received domain (on_event "email_received") refl refl

-- A reminder for a shipment without a POD goes to the eligibility check.
reminder_route :
    successor (router_registry domain) pod_lifecycle "check_existing_pod" (on_event "reminder_due")
    ≡ some "check_pod_reminder_eligibility"
unfolding successor get has_workflow_error pod_missing_dispatch_router
reminder_route = refl

compile_graph_empty_example : compile_graph pod_lifecycle empty_overlay ≡ some pod_lifecycle
unfolding validate_graph
compile_graph_empty_example = compile_graph_empty pod_lifecycle refl refl

-- A tenant without the location link of the rate confirmation workflow
abbrev no_link : TenantWorkflowOverlay
no_link = record {
  replace = [];
  add_edges = ("get_shipment" ∷ "resolve_workflow_lifecycle" ∷ []) ∷ [];
  remove_edges = ("check_ratecon_workflow_lifecycle" ∷ "end" ∷ []) ∷ [];
  disable_nodes = "link_shipment_locations" ∷ [];
}
