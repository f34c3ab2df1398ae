-- ===== src/Workflow/Routers/Guards.antt =====
-- The tests on graph state that the routers use (app/domain/pod_lifecycle/guards.py,
-- app/tools/driver_details.py, app/domain/ingest_source_fields.py, app/domain/load_tendering_state.py,
-- app/tools/appointment_scheduling/dates.py).
use testingmulti.Common.Value.{dictionaries, items_of}
use testingmulti.Common.{
  Bool, List, String, [], contains, false, if◌then◌else◌, not, true, ℕ, ◌&&◌, ◌==◌, ◌||◌, ◌∷◌,
}
use testingmulti.Common.Value.{Fields, Value, as_dict, bool, clean_text, get, null, str, truthy}
use testingmulti.Common.Text.{is_empty, lower_char, map_chars, strip}

-- What the routers ask of Python and of the components that are not modelled: Python's text of values
-- that are no texts, the stop count of a Turvo shipment, the clock against a tender's cutoff, the load
-- type and the attempt limit of a tender, the attempt in the state, and whether a value holds an
-- e-mail address.
pub record Domain : Type 0 where
  pub render : Value → String
  pub is_multi_stop_shipment : Fields → Bool
  pub is_past_delivery_cutoff : Fields → Bool
  pub resolve_load_type : Fields → String
  pub routing_guide_max_attempts : Fields → ℕ
  pub routing_guide_attempt : Fields → ℕ
  pub has_recipients : Value → Bool

-- `d.get(k) or {}`, for an entry that is read as a dictionary
abbrev pub get_dict : Fields → String → Fields
get_dict d k = as_dict (get d k)

-- `has_tms_searchable_fields` and `has_partial_driver_fields`, on fields that are texts or missing
abbrev optional_text : Value → String
optional_text (str s) = s
optional_text _ = ""

unfoldable pub has_tms_searchable_fields : Fields → Bool
has_tms_searchable_fields driver =
    not (is_empty (strip (optional_text (get driver "name"))))
    || not (is_empty (strip (optional_text (get driver "phone"))))

unfoldable pub validate_minimum_driver_fields : Fields → String
validate_minimum_driver_fields driver =
    if truthy (get driver "name") && (truthy (get driver "phone") || truthy (get driver "email"))
    then "has_details"
    else "insufficient"

unfoldable pub has_partial_driver_fields : Fields → Bool
unfolding validate_minimum_driver_fields
has_partial_driver_fields driver =
    if validate_minimum_driver_fields driver == "has_details"
    then false
    else truthy (get driver "name") || (truthy (get driver "phone") || truthy (get driver "email"))

-- `get_tender(state.data) or {}`
abbrev pub tender_of : Fields → Fields
tender_of state = get_dict state "tender"

-- `get_tender_products`
abbrev pub get_tender_products : Fields → List Fields
get_tender_products tender = dictionaries (items_of (get tender "tender_products"))

module _ (dom : Domain) where
  -- `str(v)`
  abbrev pub str_of : Value → String
  str_of (str s) = s
  str_of v = dom.render v

  -- `pod_email_status_eligible_from_turvo_payload`
  unfoldable pub pod_email_status_eligible : Fields → Bool
  pod_email_status_eligible shipment =
      contains ("2116" ∷ "2106" ∷ "2105" ∷ [])
        (str_of (get (get_dict (get_dict (get_dict shipment "details") "status") "code") "key"))

  -- `is_weekend_shifted_truthy`
  unfoldable pub is_weekend_shifted_truthy : Value → Bool
  unfolding strip
  is_weekend_shifted_truthy (bool true) = true
  is_weekend_shifted_truthy null = false
  is_weekend_shifted_truthy v =
      contains ("true" ∷ "1" ∷ "yes" ∷ "y" ∷ "on" ∷ []) (map_chars lower_char (strip (str_of v)))

  -- `source_pack_code`
  abbrev source_pack_code : Fields → String
  source_pack_code product =
      let direct = clean_text dom.render (get product "source_pack_code") in
      if is_empty direct
      then clean_text dom.render (get (get_dict (get_dict product "metadata") "source") "pack_code")
      else direct

  -- `pack_code_for_product_gap`
  unfoldable pub pack_code_for_product_gap : Fields → String
  unfolding strip
  pack_code_for_product_gap product =
      let catalog = clean_text dom.render (get product "pack_code") in
      if is_empty catalog then source_pack_code product else catalog
