-- ===== src/RoutingGuide.antt =====
-- The carrier waterfall of the routing guide: the attempt counter in lifecycle metadata and graph state
-- (app/domain/gelita/routing_guide_lifecycle.py).
pub mod Store
pub mod Reminders
pub mod Lanes
pub mod Service
pub mod TenantSent
mod Examples
use testingmulti.Status.{
  StatusSubType, tender_sent_to_carrier_1, tender_sent_to_carrier_2, tender_sent_to_carrier_3,
  tender_sent_to_tenant_for_carrier_1, tender_sent_to_tenant_for_carrier_2,
  tender_sent_to_tenant_for_carrier_3,
}
use testingmulti.Common.{
  Bool, Option, String, and_then, eqb, false, if◌then◌else◌, ltb, none, not, or_else, some, suc,
  true, zero, ℕ, ◌&&◌, ◌==◌, ◌||◌,
}
use testingmulti.Common.Value.{
  Fields, Value, as_dict, bool, clean_text, end, field, get, int, negsuc, null, pos, set_field, str,
  ℤ,
}
use testingmulti.Common.Text.{is_empty, strip}

-- `GELITA_MAX_CARRIER_ATTEMPTS`
abbrev pub max_carrier_attempts : ℕ
max_carrier_attempts = 3

abbrev pub attempt_key : String
attempt_key = "routing_guide_attempt"

abbrev pub scheduled_key : String
scheduled_key = "reminders_scheduled_for_attempt"

-- `RoutingGuidePhase`
pub data Phase : Type 0 where
  tenant : Phase
  carrier : Phase

-- What the routing guide asks of Python and of the components that are not modelled: the text of values
-- that are no texts, `int` of a text, the attempt limit that the tenant settings name (`none` where
-- they do not validate), the load type of a tender, and whether Celery accepts to revoke a task.
pub record Env : Type 0 where
  pub render : Value → String
  pub int_of_text : String → Option ℤ
  pub configured_max_attempts : Fields → Option Value
  pub resolve_load_type : Fields → String
  pub accepts_revoke : String → Bool

module _ (env : Env) where
  -- `int(raw)`, where it raises no error
  abbrev pub int_of : Value → Option ℤ
  int_of (int z) = some z
  int_of (bool true) = some (pos 1)
  int_of (bool false) = some (pos 0)
  int_of (str s) = env.int_of_text s
  int_of _ = none

  abbrev pub positive : ℤ → Option ℕ
  positive (pos zero) = none
  positive (pos (suc n)) = some (suc n)
  positive (negsuc n) = none

  -- `_parse_attempt`
  unfoldable pub parse_attempt : Value → Option ℕ
  parse_attempt raw = and_then (int_of raw) positive

  -- `optional_routing_guide_attempt`
  unfoldable pub optional_routing_guide_attempt : Value → Option ℕ
  optional_routing_guide_attempt null = none
  optional_routing_guide_attempt raw = parse_attempt raw

  -- `routing_guide_attempt_from_metadata`
  unfoldable pub routing_guide_attempt_from_metadata : Value → ℕ
  unfolding get
  routing_guide_attempt_from_metadata metadata =
      or_else (parse_attempt (get (as_dict metadata) attempt_key)) 1

  -- `routing_guide_attempt_from_state`
  unfoldable pub routing_guide_attempt_from_state : Fields → ℕ
  unfolding get
  routing_guide_attempt_from_state state_data =
      or_else (parse_attempt (get state_data attempt_key))
        (routing_guide_attempt_from_metadata (get state_data "workflow_lifecycle_metadata"))

  abbrev differ : Option ℕ → Option ℕ → Bool
  differ (some payload) (some live) = not (eqb payload live)
  differ _ _ = false

  -- `routing_guide_attempt_is_stale`
  unfoldable pub routing_guide_attempt_is_stale : Value → Value → Bool
  routing_guide_attempt_is_stale payload_attempt live_attempt =
      differ (parse_attempt payload_attempt) (parse_attempt live_attempt)

  abbrev behind : Option ℕ → Option ℕ → Bool
  behind (some thread) (some live) = ltb thread live
  behind _ _ = false

  -- `routing_guide_thread_is_retired`
  unfoldable pub routing_guide_thread_is_retired : Value → Value → Bool
  routing_guide_thread_is_retired thread_attempt live_attempt =
      behind (parse_attempt thread_attempt) (parse_attempt live_attempt)

  -- `routing_guide_same_attempt_thread_conflict`
  unfoldable pub same_attempt_thread_conflict : Value → Value → Bool
  unfolding strip
  same_attempt_thread_conflict linked_thread incoming_thread =
      let linked = clean_text env.render linked_thread in
      let incoming = clean_text env.render incoming_thread in
      not (is_empty linked) && not (is_empty incoming) && not (linked == incoming)

  -- `routing_guide_order_matches_lifecycle`
  unfoldable pub order_matches_lifecycle : Value → Value → Bool
  unfolding strip
  order_matches_lifecycle resolved_tender_id lifecycle_tender_id =
      clean_text env.render resolved_tender_id == clean_text env.render lifecycle_tender_id

  abbrev same_number : Option ℤ → ℕ → Bool
  same_number (some (pos n)) attempt = eqb n attempt
  same_number _ attempt = false

  -- `routing_guide_reminders_scheduled_for_attempt`
  unfoldable pub reminders_scheduled_for_attempt : Value → ℕ → Bool
  unfolding get
  reminders_scheduled_for_attempt metadata attempt =
      same_number (int_of (get (as_dict metadata) scheduled_key)) attempt

  abbrev is_reminder : String → Bool
  is_reminder event_type = event_type == "reminder_due" || event_type == "escalation_due"

  abbrev is_null : Value → Bool
  is_null null = true
  is_null _ = false

  -- `mark_stale_routing_guide_reminder_if_needed`: the flag that it returns, and the graph state
  unfoldable pub mark_stale_reminder_if_needed :
      Fields → String → Value → Value → Bool → Bool × Fields
  unfolding set_field
  mark_stale_reminder_if_needed state_data event_type payload_attempt lifecycle_metadata is_ftl =
      let live_attempt = int (pos (routing_guide_attempt_from_metadata lifecycle_metadata)) in
      if not (is_reminder event_type)
      then (false, state_data)
      else if is_null payload_attempt || not is_ftl
      then (false, state_data)
      else if not (routing_guide_attempt_is_stale payload_attempt live_attempt)
      then (false, state_data)
      else (true, set_field state_data "stale_routing_guide_reminder" (bool true))

  abbrev pub clamped : Option ℤ → ℕ
  clamped none = max_carrier_attempts
  clamped (some (negsuc n)) = max_carrier_attempts
  clamped (some (pos n)) =
      if ltb n 1
      then max_carrier_attempts
      else if ltb max_carrier_attempts n
      then max_carrier_attempts
      else n

  -- `tenant_settings_root` (app/domain/load_tendering_settings.py)
  abbrev pub tenant_settings_root : Fields → Fields
  tenant_settings_root state_data = as_dict (get state_data "tenant_settings")

  -- `routing_guide_max_attempts` (app/domain/load_tendering_settings.py)
  unfoldable pub routing_guide_max_attempts : Fields → ℕ
  unfolding get
  routing_guide_max_attempts state_data =
      clamped
        (and_then (env.configured_max_attempts (as_dict (get state_data "tenant_settings"))) int_of)

-- `max(1, n)`
abbrev pub at_least_one : ℕ → ℕ
at_least_one n = if ltb n 1 then 1 else n

-- `sync_routing_guide_attempt_to_state`
unfoldable pub sync_routing_guide_attempt_to_state : Fields → ℕ → Fields
unfolding set_field
sync_routing_guide_attempt_to_state state_data attempt =
    set_field state_data attempt_key (int (pos (at_least_one attempt)))

-- `mark_routing_guide_reminders_scheduled_for_attempt`
abbrev pub mark_reminders_scheduled_for_attempt : ℕ → Fields
mark_reminders_scheduled_for_attempt attempt =
    field scheduled_key (int (pos (at_least_one attempt))) end

-- `key in d`
abbrev pub has_key : Fields → String → Bool
has_key end k = false
has_key (field j v d) k = j == k || has_key d k

-- `routing_guide_has_attempt`
unfoldable pub routing_guide_has_attempt : Value → Bool
routing_guide_has_attempt metadata = has_key (as_dict metadata) attempt_key

-- `_TENANT_SUB_STATUS_BY_ATTEMPT` and `_CARRIER_SUB_STATUS_BY_ATTEMPT`, for the attempts 1 to 3
abbrev sub_status_by_attempt : Phase → ℕ → StatusSubType
sub_status_by_attempt Phase.tenant n =
    if eqb n 1
    then tender_sent_to_tenant_for_carrier_1
    else if eqb n 2
    then tender_sent_to_tenant_for_carrier_2
    else tender_sent_to_tenant_for_carrier_3
sub_status_by_attempt Phase.carrier n =
    if eqb n 1
    then tender_sent_to_carrier_1
    else if eqb n 2
    then tender_sent_to_carrier_2
    else tender_sent_to_carrier_3

-- `gelita_routing_guide_sub_status_for`
unfoldable pub gelita_routing_guide_sub_status_for : ℕ → Phase → StatusSubType
gelita_routing_guide_sub_status_for attempt phase =
    let raised = at_least_one attempt in
    let capped = if ltb max_carrier_attempts raised then max_carrier_attempts else raised in
    sub_status_by_attempt phase capped
