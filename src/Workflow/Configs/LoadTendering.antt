-- ===== src/Workflow/Configs/LoadTendering.antt =====
-- The graph of `load_tendering` in app/configs/workflow_configs.py and the event types of its contract in
-- app/configs/workflow_template_contracts.py.
use testingmulti.Workflow.{GraphDefinition}
use testingmulti.Common.{List, String, [], ◌∷◌}

abbrev pub load_tendering : GraphDefinition
load_tendering = record {
  entry = "route_event";
  exit = "end";
  nodes =
      "route_event" ∷ "record_tender_created_activity" ∷ "calculate_tender_params"
      ∷ "send_tender_email" ∷ "log_tender_activity" ∷ "record_tender_sent_to_carrier"
      ∷ "schedule_tender_reminders" ∷ "guard_automatic_reply_ack" ∷ "classify_carrier_ack"
      ∷ "record_ack_received" ∷ "read_tender_row" ∷ "resolve_international_delivery_skip"
      ∷ "resolve_pack_code_skip" ∷ "record_tender_business_warnings" ∷ "send_tender_reminder"
      ∷ "update_reminder_status" ∷ "escalate_tender" ∷ "evaluate_reject_routing_guide"
      ∷ "evaluate_timeout_routing_guide" ∷ "advance_carrier_routing_guide" ∷ "end" ∷ [];
  edges =
      ("record_tender_created_activity" ∷ "read_tender_row" ∷ [])
      ∷ ("resolve_international_delivery_skip" ∷ "end" ∷ [])
      ∷ ("resolve_pack_code_skip" ∷ "end" ∷ [])
      ∷ ("send_tender_email" ∷ "record_tender_business_warnings" ∷ [])
      ∷ ("record_tender_business_warnings" ∷ "log_tender_activity" ∷ [])
      ∷ ("log_tender_activity" ∷ "end" ∷ [])
      ∷ ("record_tender_sent_to_carrier" ∷ "schedule_tender_reminders" ∷ [])
      ∷ ("schedule_tender_reminders" ∷ "end" ∷ [])
      ∷ ("record_ack_received" ∷ "end" ∷ [])
      ∷ ("send_tender_reminder" ∷ "update_reminder_status" ∷ [])
      ∷ ("update_reminder_status" ∷ "end" ∷ [])
      ∷ ("escalate_tender" ∷ "end" ∷ [])
      ∷ ("advance_carrier_routing_guide" ∷ "read_tender_row" ∷ [])
      ∷ [];
  routers =
      (
        "route_event",
        record {
          router = "event_type";
          map =
              ("tender_created", "record_tender_created_activity")
              ∷ ("carrier_email_received", "read_tender_row")
              ∷ ("ack_received", "guard_automatic_reply_ack")
              ∷ ("reminder_due", "read_tender_row")
              ∷ ("escalation_due", "read_tender_row")
              ∷ [];
        },
      )
      ∷ (
        "calculate_tender_params",
        record {
          router = "load_type_router";
          map = ("ltl_path", "send_tender_email") ∷ ("ftl_path", "send_tender_email") ∷ [];
        },
      )
      ∷ (
        "read_tender_row",
        record {
          router = "post_read_tender_router";
          map =
              ("international", "resolve_international_delivery_skip")
              ∷ ("pack_code_skipped", "resolve_pack_code_skip")
              ∷ ("domestic", "calculate_tender_params")
              ∷ ("completed", "end")
              ∷ ("carrier_email_received", "record_tender_sent_to_carrier")
              ∷ ("reminder_due", "send_tender_reminder")
              ∷ ("escalation_due", "evaluate_timeout_routing_guide")
              ∷ ("routing_guide_failover", "calculate_tender_params")
              ∷ ("missing", "end")
              ∷ [];
        },
      )
      ∷ (
        "guard_automatic_reply_ack",
        record {
          router = "automatic_reply_ack_router";
          map = ("skipped", "end") ∷ ("continue", "classify_carrier_ack") ∷ [];
        },
      )
      ∷ (
        "classify_carrier_ack",
        record {
          router = "carrier_ack_router";
          map =
              ("accepted", "record_ack_received")
              ∷ ("rejected", "evaluate_reject_routing_guide")
              ∷ ("do_nothing", "end")
              ∷ [];
        },
      )
      ∷ (
        "evaluate_reject_routing_guide",
        record {
          router = "routing_guide_router";
          map =
              ("advance", "advance_carrier_routing_guide")
              ∷ ("exhausted", "escalate_tender")
              ∷ ("ltl_terminal", "record_ack_received")
              ∷ [];
        },
      )
      ∷ (
        "evaluate_timeout_routing_guide",
        record {
          router = "routing_guide_router";
          map =
              ("advance", "advance_carrier_routing_guide")
              ∷ ("exhausted", "escalate_tender")
              ∷ ("ltl_terminal", "escalate_tender")
              ∷ [];
        },
      )
      ∷ [];
}

-- `event_types` of its contract
abbrev pub load_tendering_event_types : List String
load_tendering_event_types =
    "email_received" ∷ "tender_created" ∷ "carrier_email_received" ∷ "ack_received" ∷ "reminder_due"
    ∷ "escalation_due" ∷ []
