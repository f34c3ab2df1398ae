-- ===== src/Workflow/Configs/DriverAssignment.antt =====
-- The graph of `driver_assignment` in app/configs/workflow_configs.py and the event types of its contract in
-- app/configs/workflow_template_contracts.py.
use testingmulti.Workflow.{GraphDefinition}
use testingmulti.Common.{List, String, [], ◌∷◌}

abbrev pub driver_assignment : GraphDefinition
driver_assignment = record {
  entry = "route_event";
  exit = "end";
  nodes =
      "route_event" ∷ "get_shipment" ∷ "check_driver_assignment_eligibility"
      ∷ "check_driver_reminder_eligibility" ∷ "check_driver_escalation_eligibility"
      ∷ "route_driver_assignment_delayed_event" ∷ "resolve_workflow_lifecycle"
      ∷ "schedule_driver_reminders" ∷ "record_driver_assignment_started" ∷ "send_driver_reminder"
      ∷ "record_driver_reminder_sent" ∷ "classify_driver_details" ∷ "route_tms_searchable"
      ∷ "resolve_turvo_driver" ∷ "record_tms_driver_success" ∷ "complete_driver_assignment_from_tms"
      ∷ "record_tms_driver_not_resolved" ∷ "record_tms_driver_error"
      ∷ "send_driver_details_confirmation" ∷ "record_driver_details_confirmation_sent"
      ∷ "record_driver_assignment_completed" ∷ "send_driver_details_partial_follow_up"
      ∷ "escalate_driver_assignment" ∷ "end" ∷ [];
  edges =
      ("resolve_workflow_lifecycle" ∷ "schedule_driver_reminders" ∷ [])
      ∷ ("schedule_driver_reminders" ∷ "record_driver_assignment_started" ∷ [])
      ∷ ("record_driver_assignment_started" ∷ "end" ∷ [])
      ∷ ("get_shipment" ∷ "route_driver_assignment_delayed_event" ∷ [])
      ∷ ("escalate_driver_assignment" ∷ "end" ∷ [])
      ∷ ("send_driver_reminder" ∷ "record_driver_reminder_sent" ∷ [])
      ∷ ("record_driver_reminder_sent" ∷ "end" ∷ [])
      ∷ ("send_driver_details_partial_follow_up" ∷ "record_driver_reminder_sent" ∷ [])
      ∷ ("record_tms_driver_not_resolved" ∷ "send_driver_details_partial_follow_up" ∷ [])
      ∷ ("record_tms_driver_success" ∷ "send_driver_details_confirmation" ∷ [])
      ∷ ("send_driver_details_confirmation" ∷ "record_driver_details_confirmation_sent" ∷ [])
      ∷ ("record_driver_details_confirmation_sent" ∷ "record_driver_assignment_completed" ∷ [])
      ∷ ("record_driver_assignment_completed" ∷ "end" ∷ [])
      ∷ ("record_tms_driver_error" ∷ "end" ∷ [])
      ∷ ("complete_driver_assignment_from_tms" ∷ "end" ∷ [])
      ∷ [];
  routers =
      (
        "route_event",
        record {
          router = "event_type";
          map =
              ("ratecon_completed", "check_driver_assignment_eligibility")
              ∷ ("reminder_due", "get_shipment")
              ∷ ("escalation_due", "get_shipment")
              ∷ ("driver_details_email_received", "classify_driver_details")
              ∷ [];
        },
      )
      ∷ (
        "route_driver_assignment_delayed_event",
        record {
          router = "driver_assignment_delayed_event_router";
          map =
              ("reminder_due", "check_driver_reminder_eligibility")
              ∷ ("escalation_due", "check_driver_escalation_eligibility")
              ∷ [];
        },
      )
      ∷ (
        "check_driver_assignment_eligibility",
        record {
          router = "driver_assignment_eligibility_router";
          map = ("eligible", "resolve_workflow_lifecycle") ∷ ("skip", "end") ∷ [];
        },
      )
      ∷ (
        "check_driver_reminder_eligibility",
        record {
          router = "driver_assignment_delayed_eligibility_router";
          map =
              ("eligible", "send_driver_reminder")
              ∷ ("driver_already_assigned", "complete_driver_assignment_from_tms")
              ∷ ("skip", "end")
              ∷ [];
        },
      )
      ∷ (
        "check_driver_escalation_eligibility",
        record {
          router = "driver_assignment_delayed_eligibility_router";
          map =
              ("eligible", "escalate_driver_assignment")
              ∷ ("driver_already_assigned", "complete_driver_assignment_from_tms")
              ∷ ("skip", "end")
              ∷ [];
        },
      )
      ∷ (
        "classify_driver_details",
        record {
          router = "driver_details_router";
          map =
              ("has_details", "resolve_turvo_driver")
              ∷ ("insufficient", "route_tms_searchable")
              ∷ ("do_nothing", "end")
              ∷ [];
        },
      )
      ∷ (
        "route_tms_searchable",
        record {
          router = "tms_searchable_router";
          map =
              ("searchable", "resolve_turvo_driver")
              ∷ ("follow_up_only", "send_driver_details_partial_follow_up")
              ∷ ("none", "end")
              ∷ [];
        },
      )
      ∷ (
        "resolve_turvo_driver",
        record {
          router = "tms_driver_router";
          map =
              ("assigned", "record_tms_driver_success")
              ∷ ("follow_up", "record_tms_driver_not_resolved")
              ∷ ("error", "record_tms_driver_error")
              ∷ [];
        },
      )
      ∷ [];
}

-- `event_types` of its contract
abbrev pub driver_assignment_event_types : List String
driver_assignment_event_types =
    "ratecon_completed" ∷ "reminder_due" ∷ "escalation_due" ∷ "driver_details_email_received" ∷ []
