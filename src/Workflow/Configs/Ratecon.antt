-- ===== src/Workflow/Configs/Ratecon.antt =====
-- The graph of `ratecon` in app/configs/workflow_configs.py and the event types of its contract in
-- app/configs/workflow_template_contracts.py.
use testingmulti.Workflow.{GraphDefinition}
use testingmulti.Common.{List, String, [], ◌∷◌}

abbrev pub ratecon : GraphDefinition
ratecon = record {
  entry = "resolve_load_to_shipment";
  exit = "end";
  nodes =
      "resolve_load_to_shipment" ∷ "get_shipment" ∷ "link_shipment_locations"
      ∷ "resolve_workflow_lifecycle" ∷ "record_ratecon_received_activity"
      ∷ "upload_ratecon_attachments" ∷ "record_ratecon_upload_activity"
      ∷ "enqueue_driver_assignment_on_ratecon_complete" ∷ "check_ratecon_workflow_lifecycle" ∷ "end"
      ∷ [];
  edges =
      ("resolve_load_to_shipment" ∷ "get_shipment" ∷ [])
      ∷ ("get_shipment" ∷ "link_shipment_locations" ∷ [])
      ∷ ("link_shipment_locations" ∷ "resolve_workflow_lifecycle" ∷ [])
      ∷ ("resolve_workflow_lifecycle" ∷ "record_ratecon_received_activity" ∷ [])
      ∷ ("record_ratecon_received_activity" ∷ "upload_ratecon_attachments" ∷ [])
      ∷ ("upload_ratecon_attachments" ∷ "record_ratecon_upload_activity" ∷ [])
      ∷ ("record_ratecon_upload_activity" ∷ "enqueue_driver_assignment_on_ratecon_complete" ∷ [])
      ∷ ("enqueue_driver_assignment_on_ratecon_complete" ∷ "check_ratecon_workflow_lifecycle" ∷ [])
      ∷ ("check_ratecon_workflow_lifecycle" ∷ "end" ∷ [])
      ∷ [];
  routers = [];
}

-- `event_types` of its contract
abbrev pub ratecon_event_types : List String
ratecon_event_types = "email_received" ∷ []
