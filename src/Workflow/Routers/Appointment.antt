-- ===== src/Workflow/Routers/Appointment.antt =====
-- Routers of the appointment scheduling workflow.
use testingmulti.Status.{appointment_scheduled, rejected, resolved_manually}
use testingmulti.Common.Value.{Value, end, obj}
use testingmulti.Status.{
  StatusSubType, StatusType, awaiting_customer_reply, completed, failed, status_type_from_db,
  sub_status_type_from_db,
}
use testingmulti.Workflow.Routers.Guards.{Domain, get_dict, is_weekend_shifted_truthy, str_of}
use testingmulti.Common.{
  Bool, Option, String, [], contains, false, if◌then◌else◌, not, some, true, ◌&&◌, ◌==◌, ◌∷◌,
}
use testingmulti.Common.Value.{Fields, clean_text, get, truthy}
use testingmulti.Common.Text.{is_empty, strip}

abbrev pub appointment_intake_router : Fields → String
appointment_intake_router state = "continue"

module _ (dom : Domain) where
  -- `v or {}`
  abbrev or_dict : Value → Value
  or_dict v = if truthy v then v else obj end

  abbrev row_status : String × String → Value → String × String
  row_status found (obj row) =
      (clean_text dom.render (get row "status"), clean_text dom.render (get row "sub_status"))
  row_status found _ = found

  -- `_lifecycle_status_from_state`
  unfoldable pub lifecycle_status_from_state : Fields → String × String
  unfolding strip
  lifecycle_status_from_state state =
      let status = clean_text dom.render (get state "workflow_lifecycle_status") in
      let sub_status = clean_text dom.render (get state "workflow_lifecycle_sub_status") in
      if not (is_empty status) && not (is_empty sub_status)
      then (status, sub_status)
      else row_status (status, sub_status) (or_dict (get state "workflow_lifecycle_row"))

  abbrev is_terminal_status : Option StatusType → Bool
  is_terminal_status (some completed) = true
  is_terminal_status (some failed) = true
  is_terminal_status _ = false

  abbrev is_terminal_sub_status : Option StatusSubType → Bool
  is_terminal_sub_status (some resolved_manually) = true
  is_terminal_sub_status (some rejected) = true
  is_terminal_sub_status (some appointment_scheduled) = true
  is_terminal_sub_status _ = false

  abbrev awaits_reply : Option StatusSubType → Bool
  awaits_reply (some awaiting_customer_reply) = true
  awaits_reply _ = false

  abbrev reply_route : String × String → String
  reply_route (status_raw, sub_status_raw) =
      if is_terminal_status (status_type_from_db (some status_raw))
      then "end"
      else if is_terminal_sub_status (sub_status_type_from_db (some sub_status_raw))
      then "end"
      else if awaits_reply (sub_status_type_from_db (some sub_status_raw))
      then "reply"
      else "end"

  abbrev draft_is_complete : Fields → Bool
  draft_is_complete draft =
      dom.has_recipients (get draft "to")
      && (not (is_empty (clean_text dom.render (get draft "subject")))
          && not (is_empty (clean_text dom.render (get draft "full_html"))))

  abbrev send_route : String × String → Fields → String
  send_route (status, sub_status) draft =
      if not (status == "pending_review")
      then "end"
      else if not (sub_status == "appointment_draft_created")
      then "end"
      else if draft_is_complete draft
      then "send"
      else "end"

  unfoldable pub appointment_post_read_router : Fields → String
  unfolding strip lifecycle_status_from_state
  appointment_post_read_router state =
      let event_type = clean_text dom.render (get state "event_type") in
      if event_type == "appointment_customer_reply_received"
      then reply_route (lifecycle_status_from_state state)
      else if event_type == "appointment_draft_send"
      then send_route (lifecycle_status_from_state state) (get_dict state "email_draft")
      else "intake"

  unfoldable pub appointment_weekend_pickup_router : Fields → String
  unfolding is_weekend_shifted_truthy
  appointment_weekend_pickup_router state =
      if is_weekend_shifted_truthy dom
        (get (get_dict state "llm_appointment_decision") "weekend_shifted")
      then "apply"
      else "skip"

  unfoldable pub customer_reply_router : Fields → String
  unfolding strip
  customer_reply_router state =
      let value = get state "customer_reply_decision" in
      let decision = strip (if truthy value then str_of dom value else "do_nothing") in
      if contains ("accepted" ∷ "rejected" ∷ "do_nothing" ∷ []) decision
      then decision
      else "do_nothing"
