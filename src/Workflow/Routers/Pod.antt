-- ===== src/Workflow/Routers/Pod.antt =====
-- Routers of the POD workflow, and those that several workflows share.
use testingmulti.Workflow.Routers.Guards.{Domain, get_dict, pod_email_status_eligible}
use testingmulti.Common.{Bool, List, String, [], contains, if◌then◌else◌, not, ◌==◌, ◌||◌, ◌∷◌}
use testingmulti.Common.Value.{Fields, Value, as_dict, clean_text, get, is_text, str, truthy}
use testingmulti.Common.Text.{strip}

unfoldable pub pod_exists_router : Fields → String
pod_exists_router state = if truthy (get state "pod_exists") then "exists" else "missing"

unfoldable pub pod_missing_dispatch_router : Fields → String
pod_missing_dispatch_router state =
    if truthy (get state "pod_exists")
    then (if is_text (get state "event_type") "reminder_due"
        then "exists_on_reminder"
        else "exists")
    else (if is_text (get state "event_type") "route_completed"
        then "schedule_initial"
        else if is_text (get state "event_type") "reminder_due"
        then "send_now"
        else "skip_send")

abbrev pub tendering_event_types : List String
tendering_event_types =
    "tender_created" ∷ "carrier_email_received" ∷ "ack_received" ∷ "reminder_due" ∷ "escalation_due"
    ∷ []

abbrev route_text : String → String
route_text event_type =
    if contains tendering_event_types event_type
    then event_type
    else if event_type == "email_received"
    then "email_received"
    else if event_type == "manual_pod_upload"
    then "manual_pod_upload"
    else if event_type == "ratecon_completed"
    then "ratecon_completed"
    else if event_type == "driver_details_email_received"
    then "driver_details_email_received"
    else if event_type == "turvo_pickup_changed"
    then "turvo_pickup_changed"
    else if event_type == "appointment_draft_send"
    then "appointment_draft_send"
    else if event_type == "appointment_customer_reply_received"
    then "appointment_customer_reply_received"
    else "route_completed"

abbrev route_value : Value → String
route_value (str event_type) = route_text event_type
route_value _ = "route_completed"

unfoldable pub event_type_router : Fields → String
event_type_router state = route_value (get state "event_type")

abbrev is_pod_input : String → Bool
is_pod_input event_type = event_type == "email_received" || event_type == "manual_pod_upload"

unfoldable pub post_pod_processing_router : Fields → String
post_pod_processing_router state =
    if is_text (get state "event_type") "manual_pod_upload" then "manual" else "email"

-- `lookup or payload or ratecon or {}`
abbrev found_lifecycle : Fields → Value
found_lifecycle state =
    let lookup = get state "lookup_workflow_lifecycle" in
    let payload = get state "workflow_lifecycle_payload" in
    if truthy lookup
    then lookup
    else if truthy payload
    then payload
    else get state "ratecon_workflow_lifecycle"

unfoldable pub read_workflow_lifecycle_router : Fields → String
unfolding event_type_router
read_workflow_lifecycle_router state =
    if is_pod_input (event_type_router state)
    then (if truthy (get (as_dict (found_lifecycle state)) "found") then "is_found" else "missing")
    else "missing"

unfoldable pub pod_reminder_eligibility_router : Fields → String
pod_reminder_eligibility_router state =
    if truthy (get state "pod_reminder_eligible") then "eligible" else "skip"

module _ (dom : Domain) where
  unfoldable pub shipment_router : Fields → String
  unfolding event_type_router pod_email_status_eligible
  shipment_router state =
      let event_type = event_type_router state in
      if is_pod_input event_type
      then (let status_ok = pod_email_status_eligible dom (get_dict state "shipment") in
          if event_type == "manual_pod_upload"
          then (if not status_ok
              then "invalid_shipment_status"
              else if is_text (get state "manual_pod_upload_source") "stored"
              then "manual_pod_stored"
              else "manual_pod_process")
          else if status_ok
          then "valid_shipment_status"
          else "invalid_shipment_status")
      else if truthy (get state "is_convoy")
      then "convoy"
      else "non_convoy"

  unfoldable pub trim_ratecon_pages_router : Fields → String
  unfolding strip
  trim_ratecon_pages_router state =
      let outcome = clean_text dom.render (get state "pod_trim_outcome") in
      if outcome == "only_ratecon" then "only_ratecon" else "continue"

  unfoldable pub pod_stop_type_router : Fields → String
  pod_stop_type_router state =
      if dom.is_multi_stop_shipment (get_dict state "shipment")
      then "is_multi_stop"
      else "is_single_stop"

  unfoldable pub manual_tms_upload_router : Fields → String
  unfolding strip
  manual_tms_upload_router state =
      let outcome = clean_text dom.render (get state "pod_tms_upload_outcome") in
      if not (contains ("uploaded" ∷ "skipped" ∷ []) outcome)
      then "stop"
      else if is_text (get state "manual_pod_upload_source") "stored"
      then "stop"
      else "continue"
