-- ===== src/Workflow/Configs/AppointmentScheduling.antt =====
-- The graph of `appointment_scheduling` in app/configs/workflow_configs.py and the event types of its contract in
-- app/configs/workflow_template_contracts.py.
use testingmulti.Workflow.{GraphDefinition}
use testingmulti.Common.{List, String, [], ◌∷◌}

abbrev pub appointment_scheduling : GraphDefinition
appointment_scheduling = record {
  entry = "route_event";
  exit = "end";
  nodes =
      "route_event" ∷ "read_appointment_lifecycle" ∷ "record_appointment_started"
      ∷ "run_appointment_intake" ∷ "compute_appointment_decision" ∷ "record_appointment_decision"
      ∷ "build_appointment_draft" ∷ "persist_appointment_draft_ready"
      ∷ "notify_appointment_draft_teams" ∷ "send_appointment_draft_email"
      ∷ "hydrate_appointment_send_context" ∷ "apply_weekend_shifted_pickup"
      ∷ "apply_turvo_delivery_placeholder" ∷ "finalize_appointment_awaiting_reply"
      ∷ "classify_appointment_customer_reply" ∷ "apply_ascend_dropoff_appointment"
      ∷ "apply_turvo_delivery_appointment" ∷ "send_appointment_confirmation_reply"
      ∷ "apply_turvo_tender_status" ∷ "record_appointment_reply_completed"
      ∷ "record_appointment_reply_rejected" ∷ "end" ∷ [];
  edges =
      ("record_appointment_started" ∷ "run_appointment_intake" ∷ [])
      ∷ ("compute_appointment_decision" ∷ "record_appointment_decision" ∷ [])
      ∷ ("record_appointment_decision" ∷ "build_appointment_draft" ∷ [])
      ∷ ("build_appointment_draft" ∷ "persist_appointment_draft_ready" ∷ [])
      ∷ ("persist_appointment_draft_ready" ∷ "notify_appointment_draft_teams" ∷ [])
      ∷ ("notify_appointment_draft_teams" ∷ "end" ∷ [])
      ∷ ("apply_weekend_shifted_pickup" ∷ "send_appointment_draft_email" ∷ [])
      ∷ ("send_appointment_draft_email" ∷ "apply_turvo_delivery_placeholder" ∷ [])
      ∷ ("apply_turvo_delivery_placeholder" ∷ "finalize_appointment_awaiting_reply" ∷ [])
      ∷ ("finalize_appointment_awaiting_reply" ∷ "end" ∷ [])
      ∷ ("apply_ascend_dropoff_appointment" ∷ "apply_turvo_delivery_appointment" ∷ [])
      ∷ ("apply_turvo_delivery_appointment" ∷ "send_appointment_confirmation_reply" ∷ [])
      ∷ ("send_appointment_confirmation_reply" ∷ "apply_turvo_tender_status" ∷ [])
      ∷ ("apply_turvo_tender_status" ∷ "record_appointment_reply_completed" ∷ [])
      ∷ ("record_appointment_reply_completed" ∷ "end" ∷ [])
      ∷ ("record_appointment_reply_rejected" ∷ "end" ∷ [])
      ∷ [];
  routers =
      (
        "route_event",
        record {
          router = "event_type";
          map =
              ("turvo_pickup_changed", "read_appointment_lifecycle")
              ∷ ("appointment_draft_send", "read_appointment_lifecycle")
              ∷ ("appointment_customer_reply_received", "read_appointment_lifecycle")
              ∷ ("missing", "end")
              ∷ [];
        },
      )
      ∷ (
        "read_appointment_lifecycle",
        record {
          router = "appointment_post_read_router";
          map =
              ("intake", "record_appointment_started")
              ∷ ("send", "hydrate_appointment_send_context")
              ∷ ("reply", "classify_appointment_customer_reply")
              ∷ ("end", "end")
              ∷ [];
        },
      )
      ∷ (
        "hydrate_appointment_send_context",
        record {
          router = "appointment_weekend_pickup_router";
          map =
              ("apply", "apply_weekend_shifted_pickup")
              ∷ ("skip", "send_appointment_draft_email")
              ∷ [];
        },
      )
      ∷ (
        "run_appointment_intake",
        record {
          router = "appointment_intake_router";
          map = ("continue", "compute_appointment_decision") ∷ [];
        },
      )
      ∷ (
        "classify_appointment_customer_reply",
        record {
          router = "customer_reply_router";
          map =
              ("accepted", "apply_ascend_dropoff_appointment")
              ∷ ("rejected", "record_appointment_reply_rejected")
              ∷ ("do_nothing", "end")
              ∷ [];
        },
      )
      ∷ [];
}

-- `event_types` of its contract
abbrev pub appointment_scheduling_event_types : List String
appointment_scheduling_event_types =
    "turvo_pickup_changed" ∷ "appointment_draft_send" ∷ "appointment_customer_reply_received" ∷ []
