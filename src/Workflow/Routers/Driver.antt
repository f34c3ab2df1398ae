-- ===== src/Workflow/Routers/Driver.antt =====
-- Routers of the driver assignment workflow.
use testingmulti.Workflow.Routers.Guards.{
  Domain, has_partial_driver_fields, has_tms_searchable_fields, str_of,
}
use testingmulti.Common.{String, [], contains, if◌then◌else◌, ◌==◌, ◌∷◌}
use testingmulti.Common.Value.{Fields, Value, clean_text, end, get, is_text, obj, truthy}
use testingmulti.Common.Text.{strip}

unfoldable pub driver_assignment_eligibility_router : Fields → String
driver_assignment_eligibility_router state =
    if truthy (get state "driver_assignment_eligible") then "eligible" else "skip"

unfoldable pub driver_assignment_delayed_eligibility_router : Fields → String
driver_assignment_delayed_eligibility_router state =
    if truthy (get state "driver_assignment_eligible")
    then "eligible"
    else if is_text (get state "driver_assignment_skip_reason") "driver_already_assigned"
    then "driver_already_assigned"
    else "skip"

unfoldable pub driver_assignment_delayed_event_router : Fields → String
driver_assignment_delayed_event_router state =
    if is_text (get state "event_type") "escalation_due" then "escalation_due" else "reminder_due"

-- `extraction.get("driver") if isinstance(extraction, dict) else {}`
abbrev pub driver_of : Value → Value
driver_of (obj extraction) = get extraction "driver"
driver_of _ = obj end

abbrev pub searchable : Value → String
searchable (obj driver) =
    if has_tms_searchable_fields driver
    then "searchable"
    else if has_partial_driver_fields driver
    then "follow_up_only"
    else "none"
searchable _ = "none"

-- `v or {}`
abbrev pub or_dict : Value → Value
or_dict v = if truthy v then v else obj end

unfoldable pub tms_searchable_router : Fields → String
tms_searchable_router state =
    searchable (driver_of (or_dict (get state "driver_details_extraction")))

module _ (dom : Domain) where
  unfoldable pub driver_details_router : Fields → String
  unfolding strip
  driver_details_router state =
      let value = get state "driver_details_decision" in
      let decision = strip (if truthy value then str_of dom value else "do_nothing") in
      if contains ("has_details" ∷ "insufficient" ∷ "do_nothing" ∷ []) decision
      then decision
      else "do_nothing"

  unfoldable pub tms_driver_router : Fields → String
  unfolding strip
  tms_driver_router state =
      let outcome = clean_text dom.render (get state "tms_driver_outcome") in
      if outcome == "assigned"
      then "assigned"
      else if outcome == "follow_up"
      then "follow_up"
      else if outcome == "error"
      then "error"
      else "error"
