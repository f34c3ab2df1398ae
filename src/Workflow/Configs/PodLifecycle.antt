-- ===== src/Workflow/Configs/PodLifecycle.antt =====
-- The graph of `pod_lifecycle` in app/configs/workflow_configs.py and the event types of its contract in
-- app/configs/workflow_template_contracts.py.
use testingmulti.Workflow.{GraphDefinition}
use testingmulti.Common.{List, String, [], ◌∷◌}

abbrev pub pod_lifecycle : GraphDefinition
pod_lifecycle = record {
  entry = "route_event";
  exit = "end";
  nodes =
      "route_event" ∷ "get_shipment" ∷ "read_workflow_lifecycle" ∷ "check_existing_pod"
      ∷ "complete_pod_found_in_tms" ∷ "check_pod_reminder_eligibility" ∷ "send_email"
      ∷ "record_and_schedule_pod_request" ∷ "record_pod_started_activity"
      ∷ "record_pod_reminder_activity" ∷ "merge_pod_attachments_local" ∷ "pod_analysis"
      ∷ "record_pod_extraction_activity" ∷ "trim_ratecon_pages_from_pod"
      ∷ "upload_trimmed_pod_attachments" ∷ "record_pod_upload_activity" ∷ "pod_scoring"
      ∷ "record_pod_processed_activity" ∷ "notify_pod_analysis_teams"
      ∷ "record_multi_stop_pod_activity" ∷ "notify_multi_stop_pod_teams" ∷ "upload_to_turvo"
      ∷ "record_pod_tms_upload_activity" ∷ "update_shipment" ∷ "end" ∷ [];
  edges =
      ("pod_analysis" ∷ "record_pod_extraction_activity" ∷ [])
      ∷ ("record_pod_extraction_activity" ∷ "trim_ratecon_pages_from_pod" ∷ [])
      ∷ ("record_pod_upload_activity" ∷ "pod_scoring" ∷ [])
      ∷ ("pod_scoring" ∷ "record_pod_processed_activity" ∷ [])
      ∷ ("record_pod_processed_activity" ∷ "notify_pod_analysis_teams" ∷ [])
      ∷ ("record_multi_stop_pod_activity" ∷ "notify_multi_stop_pod_teams" ∷ [])
      ∷ ("upload_to_turvo" ∷ "record_pod_tms_upload_activity" ∷ [])
      ∷ ("record_pod_tms_upload_activity" ∷ "end" ∷ [])
      ∷ ("update_shipment" ∷ "end" ∷ [])
      ∷ ("send_email" ∷ "record_pod_reminder_activity" ∷ [])
      ∷ ("record_pod_reminder_activity" ∷ "end" ∷ [])
      ∷ ("record_and_schedule_pod_request" ∷ "record_pod_started_activity" ∷ [])
      ∷ ("record_pod_started_activity" ∷ "end" ∷ [])
      ∷ ("complete_pod_found_in_tms" ∷ "end" ∷ [])
      ∷ [];
  routers =
      (
        "route_event",
        record {
          router = "event_type";
          map =
              ("route_completed", "get_shipment")
              ∷ ("email_received", "read_workflow_lifecycle")
              ∷ ("manual_pod_upload", "read_workflow_lifecycle")
              ∷ ("reminder_due", "check_existing_pod")
              ∷ [];
        },
      )
      ∷ (
        "get_shipment",
        record {
          router = "shipment_router";
          map =
              ("convoy", "end")
              ∷ ("non_convoy", "check_existing_pod")
              ∷ ("valid_shipment_status", "merge_pod_attachments_local")
              ∷ ("manual_pod_stored", "upload_to_turvo")
              ∷ ("manual_pod_process", "merge_pod_attachments_local")
              ∷ ("invalid_shipment_status", "end")
              ∷ [];
        },
      )
      ∷ (
        "check_existing_pod",
        record {
          router = "pod_missing_dispatch";
          map =
              ("exists", "end")
              ∷ ("exists_on_reminder", "complete_pod_found_in_tms")
              ∷ ("schedule_initial", "record_and_schedule_pod_request")
              ∷ ("send_now", "check_pod_reminder_eligibility")
              ∷ ("skip_send", "end")
              ∷ [];
        },
      )
      ∷ (
        "check_pod_reminder_eligibility",
        record {
          router = "pod_reminder_eligibility_router";
          map = ("eligible", "send_email") ∷ ("skip", "end") ∷ [];
        },
      )
      ∷ (
        "read_workflow_lifecycle",
        record {
          router = "read_workflow_lifecycle_router";
          map = ("is_found", "get_shipment") ∷ ("missing", "end") ∷ [];
        },
      )
      ∷ (
        "merge_pod_attachments_local",
        record {
          router = "pod_stop_type_router";
          map =
              ("is_single_stop", "pod_analysis")
              ∷ ("is_multi_stop", "upload_trimmed_pod_attachments")
              ∷ [];
        },
      )
      ∷ (
        "upload_trimmed_pod_attachments",
        record {
          router = "pod_stop_type_router";
          map =
              ("is_single_stop", "record_pod_upload_activity")
              ∷ ("is_multi_stop", "record_multi_stop_pod_activity")
              ∷ [];
        },
      )
      ∷ (
        "trim_ratecon_pages_from_pod",
        record {
          router = "trim_ratecon_pages_router";
          map = ("continue", "upload_trimmed_pod_attachments") ∷ ("only_ratecon", "end") ∷ [];
        },
      )
      ∷ (
        "notify_pod_analysis_teams",
        record {
          router = "post_pod_processing_router";
          map = ("manual", "upload_to_turvo") ∷ ("email", "update_shipment") ∷ [];
        },
      )
      ∷ (
        "notify_multi_stop_pod_teams",
        record {
          router = "post_pod_processing_router";
          map = ("manual", "upload_to_turvo") ∷ ("email", "update_shipment") ∷ [];
        },
      )
      ∷ [];
}

-- `event_types` of its contract
abbrev pub pod_lifecycle_event_types : List String
pod_lifecycle_event_types =
    "route_completed" ∷ "email_received" ∷ "manual_pod_upload" ∷ "reminder_due" ∷ []
