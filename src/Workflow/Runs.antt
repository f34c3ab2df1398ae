-- ===== src/Workflow/Runs.antt =====
-- Runs of the deployed workflows whose graphs have no cycle: every run reaches the exit.
use testingmulti.Workflow.Deployed.DriverAssignment.{driver_assignment_routes}
use testingmulti.Workflow.Deployed.AppointmentScheduling.{appointment_scheduling_routes}
use testingmulti.Workflow.Deployed.PodLifecycle.{pod_lifecycle_routes}
use testingmulti.Workflow.{validate_graph}
use testingmulti.Workflow.Builder.{execute}
use testingmulti.Workflow.Routers.Guards.{Domain}
use testingmulti.Workflow.Routers.Registry.{router_registry}
use testingmulti.Workflow.Configs.DriverAssignment.{
  driver_assignment, driver_assignment_event_types,
}
use testingmulti.Workflow.Configs.AppointmentScheduling.{
  appointment_scheduling, appointment_scheduling_event_types,
}
use testingmulti.Workflow.Configs.PodLifecycle.{pod_lifecycle, pod_lifecycle_event_types}
use testingmulti.Workflow.Configs.Ratecon.{ratecon}
use testingmulti.Workflow.Builder.Progress.{target-Moves}
use testingmulti.Workflow.Builder.Execution.{execute_ends}
use testingmulti.Common.Value.{Fields, get, str}
use testingmulti.Common.{List, String, [], arith, contains, refl, some, true, ◌∙◌, ◌∷◌, ◌≡◌}

abbrev pod_lifecycle_order : List String
pod_lifecycle_order =
    "route_event" ∷ "read_workflow_lifecycle" ∷ "get_shipment" ∷ "merge_pod_attachments_local"
    ∷ "pod_analysis" ∷ "record_pod_extraction_activity" ∷ "trim_ratecon_pages_from_pod"
    ∷ "upload_trimmed_pod_attachments" ∷ "record_pod_upload_activity" ∷ "pod_scoring"
    ∷ "record_pod_processed_activity" ∷ "notify_pod_analysis_teams"
    ∷ "record_multi_stop_pod_activity" ∷ "notify_multi_stop_pod_teams" ∷ "upload_to_turvo"
    ∷ "record_pod_tms_upload_activity" ∷ "update_shipment" ∷ "check_existing_pod"
    ∷ "record_and_schedule_pod_request" ∷ "record_pod_started_activity"
    ∷ "complete_pod_found_in_tms" ∷ "check_pod_reminder_eligibility" ∷ "send_email"
    ∷ "record_pod_reminder_activity" ∷ "record_workflow_failure" ∷ "end" ∷ []

abbrev ratecon_order : List String
ratecon_order =
    "resolve_load_to_shipment" ∷ "get_shipment" ∷ "link_shipment_locations"
    ∷ "resolve_workflow_lifecycle" ∷ "record_ratecon_received_activity"
    ∷ "upload_ratecon_attachments" ∷ "record_ratecon_upload_activity"
    ∷ "enqueue_driver_assignment_on_ratecon_complete" ∷ "check_ratecon_workflow_lifecycle"
    ∷ "record_workflow_failure" ∷ "end" ∷ []

abbrev driver_assignment_order : List String
driver_assignment_order =
    "route_event" ∷ "get_shipment" ∷ "route_driver_assignment_delayed_event"
    ∷ "check_driver_reminder_eligibility" ∷ "send_driver_reminder"
    ∷ "check_driver_escalation_eligibility" ∷ "escalate_driver_assignment"
    ∷ "complete_driver_assignment_from_tms" ∷ "classify_driver_details" ∷ "route_tms_searchable"
    ∷ "resolve_turvo_driver" ∷ "record_tms_driver_success" ∷ "send_driver_details_confirmation"
    ∷ "record_driver_details_confirmation_sent" ∷ "record_driver_assignment_completed"
    ∷ "record_tms_driver_not_resolved" ∷ "send_driver_details_partial_follow_up"
    ∷ "record_driver_reminder_sent" ∷ "record_tms_driver_error"
    ∷ "check_driver_assignment_eligibility" ∷ "resolve_workflow_lifecycle"
    ∷ "schedule_driver_reminders" ∷ "record_driver_assignment_started" ∷ "record_workflow_failure"
    ∷ "end" ∷ []

abbrev appointment_scheduling_order : List String
appointment_scheduling_order =
    "route_event" ∷ "read_appointment_lifecycle" ∷ "record_appointment_started"
    ∷ "run_appointment_intake" ∷ "compute_appointment_decision" ∷ "record_appointment_decision"
    ∷ "build_appointment_draft" ∷ "persist_appointment_draft_ready"
    ∷ "notify_appointment_draft_teams" ∷ "hydrate_appointment_send_context"
    ∷ "apply_weekend_shifted_pickup" ∷ "send_appointment_draft_email"
    ∷ "apply_turvo_delivery_placeholder" ∷ "finalize_appointment_awaiting_reply"
    ∷ "classify_appointment_customer_reply" ∷ "record_appointment_reply_rejected"
    ∷ "apply_ascend_dropoff_appointment" ∷ "apply_turvo_delivery_appointment"
    ∷ "send_appointment_confirmation_reply" ∷ "apply_turvo_tender_status"
    ∷ "record_appointment_reply_completed" ∷ "record_workflow_failure" ∷ "end" ∷ []

module _ (dom : Domain) where
  -- Every run of the `pod_lifecycle` workflow on an event type of its contract reaches the exit within 27
  -- nodes, whatever its nodes do to the state, if they keep the event type.
  pub pod_lifecycle_ends :
      (run : String → Fields → Fields) (t : String) (state : Fields)
      → ((node : String) (s : Fields) → get (run node s) "event_type" ≡ get s "event_type")
      → contains pod_lifecycle_event_types t ≡ true
      → get state "event_type" ≡ str t
      → (final : Fields) × (execute (router_registry dom) pod_lifecycle run 27 "route_event" state
          ≡ some final)
  unfolding validate_graph
  pod_lifecycle_ends run t state keeps c e =
      execute_ends pod_lifecycle_order (router_registry dom) pod_lifecycle run
        (λ s. get s "event_type" ≡ str t) (λ node s p. keeps node s ∙ p)
        (λ node s p inside not_exit.
          target-Moves (router_registry dom) s pod_lifecycle node refl refl
            (pod_lifecycle_routes dom t c s p) inside not_exit)
        refl 27 "route_event" state e refl (omega arith)

  -- Every run of the `ratecon` workflow, whatever its nodes do to the state, reaches the exit within 12
  -- nodes.
  pub ratecon_ends :
      (run : String → Fields → Fields) (state : Fields)
      → (final : Fields) × (execute
            (router_registry dom)
            ratecon
            run
            12
            "resolve_load_to_shipment"
            state
          ≡ some final)
  unfolding validate_graph
  ratecon_ends run state =
      execute_ends ratecon_order (router_registry dom) ratecon run (λ s. Unit) (λ node s p. tt)
        (λ node s p inside not_exit.
          target-Moves (router_registry dom) s ratecon node refl refl tt inside not_exit)
        refl 12 "resolve_load_to_shipment" state tt refl (omega arith)

  -- Every run of the `driver_assignment` workflow on an event type of its contract reaches the exit within 26
  -- nodes, whatever its nodes do to the state, if they keep the event type.
  pub driver_assignment_ends :
      (run : String → Fields → Fields) (t : String) (state : Fields)
      → ((node : String) (s : Fields) → get (run node s) "event_type" ≡ get s "event_type")
      → contains driver_assignment_event_types t ≡ true
      → get state "event_type" ≡ str t
      → (final : Fields) × (execute
            (router_registry dom)
            driver_assignment
            run
            26
            "route_event"
            state
          ≡ some final)
  unfolding validate_graph
  driver_assignment_ends run t state keeps c e =
      execute_ends driver_assignment_order (router_registry dom) driver_assignment run
        (λ s. get s "event_type" ≡ str t) (λ node s p. keeps node s ∙ p)
        (λ node s p inside not_exit.
          target-Moves (router_registry dom) s driver_assignment node refl refl
            (driver_assignment_routes dom t c s p) inside not_exit)
        refl 26 "route_event" state e refl (omega arith)

  -- Every run of the `appointment_scheduling` workflow on an event type of its contract reaches the exit within 24
  -- nodes, whatever its nodes do to the state, if they keep the event type.
  pub appointment_scheduling_ends :
      (run : String → Fields → Fields) (t : String) (state : Fields)
      → ((node : String) (s : Fields) → get (run node s) "event_type" ≡ get s "event_type")
      → contains appointment_scheduling_event_types t ≡ true
      → get state "event_type" ≡ str t
      → (final : Fields) × (execute
            (router_registry dom)
            appointment_scheduling
            run
            24
            "route_event"
            state
          ≡ some final)
  unfolding validate_graph
  appointment_scheduling_ends run t state keeps c e =
      execute_ends appointment_scheduling_order (router_registry dom) appointment_scheduling run
        (λ s. get s "event_type" ≡ str t) (λ node s p. keeps node s ∙ p)
        (λ node s p inside not_exit.
          target-Moves (router_registry dom) s appointment_scheduling node refl refl
            (appointment_scheduling_routes dom t c s p) inside not_exit)
        refl 24 "route_event" state e refl (omega arith)
