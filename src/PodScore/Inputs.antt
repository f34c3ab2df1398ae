-- ===== src/PodScore/Inputs.antt =====
-- The PoD-scoring inputs of a Turvo shipment (app/integrations/turvo/pod_inputs.py).
pub mod Notes
pub mod Laws
use testingmulti.PodScore.{
  StopType, TurvoPurchaseOrder, TurvoShipmentPodInputs, TurvoStop, delivery, pickup,
}
use testingmulti.PodScore.ScoredFields.{Python, same_stop, str_value}
use testingmulti.PodScore.Bounds.{details}
use testingmulti.PodScore.Inputs.Notes.{join_parts, pallet_count}
use testingmulti.Common.{
  Bool, List, Option, String, [], eqb, false, first_some, if◌then◌else◌, length, map, none, some, ℕ,
  ◌&&◌, ◌++◌, ◌==◌, ◌∷◌,
}
use testingmulti.Common.Value.{
  Fields, Value, as_dict, clean_text, elements, get, items_of, obj, text_of,
}
use testingmulti.Common.Text.{is_empty, lower_char, map_chars, non_empty, strip}
use testingmulti.Turvo.Route.{active_route_stops, global_route_stops_from_payload, value_or}

-- `_EMPTY_STOP`
abbrev pub empty_stop : TurvoStop
empty_stop = record {
  name = "";
  address = "";
  po_numbers = [];
  time_zone = none;
  stop_id = "";
  stop_type = none;
}

module _ (py : Python) where
  -- `str(v or "").strip()`
  abbrev pub clean_str : Value → String
  clean_str v = clean_text py.render v

  abbrev type_of_key : String → Option StopType
  type_of_key key =
      if key == "1500"
      then some StopType.pickup
      else if key == "1501"
      then some StopType.delivery
      else none

  abbrev type_of_value : String → Option StopType
  type_of_value value =
      if value == "pickup"
      then some StopType.pickup
      else if value == "delivery"
      then some StopType.delivery
      else none

  abbrev classify : Value → Option StopType
  classify (obj d) =
      first_some (type_of_key (clean_str (get d "key")))
        (type_of_value (map_chars lower_char (clean_str (get d "value"))))
  classify _ = none

  -- `_stop_type`
  unfoldable pub stop_type_of : Fields → Option StopType
  unfolding get strip
  stop_type_of stop = classify (get stop "stopType")

  -- `_address_line`
  unfoldable pub address_line : Fields → String
  unfolding get strip
  address_line address = join_parts (
      clean_str (get address "line1")
      ∷ clean_str (get address "city")
      ∷ clean_str (get address "state")
      ∷ clean_str (value_or (get address "countryCode") (get address "country"))
      ∷ [])

  abbrev pub numbers : List Value → List String
  numbers [] = []
  numbers (v ∷ vs) =
      let rest = numbers vs in
      if is_empty (clean_str v) then rest else strip (str_value py v) ∷ rest

  -- `_po_numbers_from_stop`
  unfoldable pub po_numbers_from_stop : Fields → List String
  unfolding get strip
  po_numbers_from_stop stop = numbers (elements (items_of (get stop "poNumbers")))

  -- `_turvo_stop_from_global_route`
  unfoldable pub turvo_stop_from_global_route : Fields → StopType → TurvoStop
  unfolding get strip
  turvo_stop_from_global_route stop t = record {
    name = clean_str (get stop "name");
    address = address_line (as_dict (get stop "address"));
    po_numbers = po_numbers_from_stop stop;
    time_zone = non_empty (clean_str (value_or (get stop "timezone") (get stop "timeZone")));
    stop_id = clean_str (value_or (get stop "id") (get stop "globalRouteStopId"));
    stop_type = some t;
  }

  abbrev pub orders_of : StopType → String → List String → List TurvoPurchaseOrder
  orders_of t id [] = []
  orders_of t id (po ∷ rest) =
      record { po_number = po; stop_type = t; stop_id = id } ∷ orders_of t id rest

  -- `_purchase_orders_from_stops`
  unfoldable pub purchase_orders_from_stops : List (StopType × TurvoStop) → List TurvoPurchaseOrder
  purchase_orders_from_stops [] = []
  purchase_orders_from_stops ((t, stop) ∷ stops) =
      orders_of t stop.stop_id stop.po_numbers ++ purchase_orders_from_stops stops

  -- `_ordered_pallet_qty_from_stop`
  unfoldable pub ordered_pallet_qty_from_stop : Fields → Option ℕ
  unfolding get pallet_count
  ordered_pallet_qty_from_stop stop = pallet_count (text_of py.render (get stop "notes"))

  abbrev is_type : StopType → Option StopType → Bool
  is_type t none = false
  is_type t (some u) = same_stop py u t

  -- `[s for s in stops if _stop_type(s) == t]`
  unfoldable pub stops_of : StopType → List Fields → List Fields
  unfolding stop_type_of
  stops_of t [] = []
  stops_of t (s ∷ stops) =
      let rest = stops_of t stops in if is_type t (stop_type_of s) then s ∷ rest else rest

  abbrev pub typed : StopType → List Fields → List (StopType × TurvoStop)
  typed t [] = []
  typed t (s ∷ stops) = (t, turvo_stop_from_global_route s t) ∷ typed t stops

  abbrev first_stop : StopType → List Fields → TurvoStop
  first_stop t [] = empty_stop
  first_stop t (s ∷ stops) = turvo_stop_from_global_route s t

  abbrev first_qty : List Fields → Option ℕ
  first_qty [] = none
  first_qty (s ∷ stops) = ordered_pallet_qty_from_stop s

  -- `_clean_str(d.get("date")) if isinstance(d, dict) else None`
  abbrev date_of : Value → Option String
  date_of (obj d) = non_empty (clean_str (get d "date"))
  date_of _ = none

  abbrev inputs_of : List Fields → List Fields → Fields → TurvoShipmentPodInputs
  inputs_of pickup_stops delivery_stops details =
      let typed_stops =
        typed StopType.pickup pickup_stops ++ typed StopType.delivery delivery_stops in
      record {
        is_single_stop = eqb (length pickup_stops) 1 && eqb (length delivery_stops) 1;
        pickup = first_stop StopType.pickup pickup_stops;
        delivery = first_stop StopType.delivery delivery_stops;
        purchase_orders = purchase_orders_from_stops typed_stops;
        pickup_date = date_of (get details "startDate");
        delivery_date = date_of (get details "endDate");
        ordered_pallet_qty = first_qty pickup_stops;
        custom_id = non_empty (clean_str (get details "customId"));
        stops = map (λ p. p.1) typed_stops;
      }

  -- `extract_pod_inputs_from_shipment`, on a payload that is a dictionary
  unfoldable pub extract_pod_inputs_from_shipment : Fields → TurvoShipmentPodInputs
  unfolding get strip active_route_stops global_route_stops_from_payload
  extract_pod_inputs_from_shipment payload =
      let active = active_route_stops (global_route_stops_from_payload payload) in
      inputs_of (stops_of StopType.pickup active) (stops_of StopType.delivery active)
        (as_dict (get payload "details"))
