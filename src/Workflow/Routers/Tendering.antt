-- ===== src/Workflow/Routers/Tendering.antt =====
-- Routers of the load tendering workflow.
use testingmulti.Workflow.Routers.Guards.{
  Domain, get_tender_products, pack_code_for_product_gap, str_of, tender_of,
}
use testingmulti.Common.Value.{items_of}
use testingmulti.Common.{
  Bool, List, String, [], any, contains, if◌then◌else◌, ltb, not, ◌==◌, ◌||◌, ◌∷◌,
}
use testingmulti.Common.Value.{Fields, Value, clean_text, elements, get, is_text, truthy}
use testingmulti.Common.Text.{map_chars, strip, upper_char}

-- `is_ftl_load_type`
abbrev pub is_ftl_load_type : String → Bool
is_ftl_load_type load_type = map_chars upper_char (strip load_type) == "FTL"

unfoldable pub automatic_reply_ack_router : Fields → String
automatic_reply_ack_router state =
    if truthy (get state "retired_carrier_thread_ack")
      || truthy (get state "automatic_reply_skipped")
    then "skipped"
    else "continue"

unfoldable pub domestic_delivery_router : Fields → String
domestic_delivery_router state =
    if truthy (get state "is_domestic_delivery") then "domestic" else "international"

module _ (dom : Domain) where
  unfoldable pub load_type_router : Fields → String
  unfolding strip
  load_type_router state =
      let load_type =
        map_chars upper_char (clean_text dom.render (get (tender_of state) "load_type")) in
      if load_type == "FTL" then "ftl_path" else "ltl_path"

  unfoldable pub tender_status_router : Fields → String
  tender_status_router state =
      if truthy (get state "stale_routing_guide_reminder")
      then "completed"
      else if is_text (get state "workflow_lifecycle_status") "completed"
      then "completed"
      else if is_text (get state "event_type") "reminder_due"
      then (if dom.is_past_delivery_cutoff state then "completed" else "reminder_due")
      else if is_text (get state "event_type") "escalation_due"
      then (if dom.is_past_delivery_cutoff state then "completed" else "escalation_due")
      else "missing"

  unfoldable pub carrier_ack_router : Fields → String
  unfolding strip
  carrier_ack_router state =
      let value = get state "carrier_ack_decision" in
      let decision = strip (if truthy value then str_of dom value else "do_nothing") in
      if contains ("accepted" ∷ "rejected" ∷ "do_nothing" ∷ []) decision
      then decision
      else "do_nothing"

  unfoldable pub routing_guide_router : Fields → String
  routing_guide_router state =
      if truthy (get state "routing_guide_shipper_domain_reject")
      then "ltl_terminal"
      else if not (is_ftl_load_type (dom.resolve_load_type state))
      then "ltl_terminal"
      else if ltb (dom.routing_guide_attempt state) (dom.routing_guide_max_attempts state)
      then "advance"
      else "exhausted"

  abbrev is_skipped : List Value → Fields → Bool
  is_skipped codes product = any (λ v. is_text v (pack_code_for_product_gap dom product)) codes

  abbrev created_route : Fields → String
  created_route state =
      if not (truthy (get state "is_domestic_delivery"))
      then "international"
      else if any (is_skipped (elements (items_of (get state "skipped_pack_codes"))))
          (get_tender_products (tender_of state))
      then "pack_code_skipped"
      else "domestic"

  unfoldable pub post_read_tender_router : Fields → String
  unfolding strip tender_status_router
  post_read_tender_router state =
      let event_type = clean_text dom.render (get state "event_type") in
      if truthy (get state "routing_guide_failover")
      then "routing_guide_failover"
      else if event_type == "carrier_email_received"
      then "carrier_email_received"
      else if event_type == "tender_created"
      then created_route state
      else tender_status_router state
