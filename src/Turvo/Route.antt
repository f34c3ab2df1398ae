-- ===== src/Turvo/Route.antt =====
-- The stops of a Turvo payload (app/integrations/turvo/shipments.py) and the endpoints of a route
-- (app/domain/shipment_route_locations.py).
use testingmulti.PodScore.Bounds.{details}
use testingmulti.Common.Value.{dictionaries}
use testingmulti.Common.{
  Bool, List, Option, String, [], if◌then◌else◌, length, ltb, map, none, some, ◌||◌, ◌∷◌,
}
use testingmulti.Common.Value.{
  Fields, Value, arr, as_dict, clean_text, end, field, get, obj, str, truthy,
}
use testingmulti.Common.Text.{is_empty, strip}

-- `v or w`
abbrev pub value_or : Value → Value → Value
value_or v w = if truthy v then v else w

-- `v.get("name") if isinstance(v, dict) else v`
abbrev name_of : Value → Value
name_of (obj d) = get d "name"
name_of v = v

-- `country.get("code") if isinstance(country, dict) else address.get("countryISO")`
abbrev country_code : Value → Fields → Value
country_code (obj d) address = get d "code"
country_code v address = get address "countryISO"

abbrev entries : List (String × Value) → Fields
entries [] = end
entries ((k, v) ∷ es) = field k v (entries es)

-- One stop of an exported route, under the names of the camel-case payload
unfoldable pub normalized_stop : Fields → Fields
unfolding get
normalized_stop stop =
    let stop_type = as_dict (get stop "type") in
    let address = as_dict (get stop "address") in
    entries (
      ("id", value_or (get stop "globalRouteStopId") (get stop "global_ship_location_id"))
      ∷ ("name", get stop "name")
      ∷ (
        "stopType",
        obj (entries (("key", get stop_type "key") ∷ ("value", get stop_type "value") ∷ [])),
      )
      ∷ ("timezone", get stop "timezone")
      ∷ (
        "address",
        obj (
            entries (
              ("line1", get address "line1")
              ∷ ("city", name_of (get address "city"))
              ∷ ("state", name_of (get address "state"))
              ∷ ("countryCode", country_code (get address "country") address)
              ∷ [])),
      )
      ∷ ("poNumbers", get stop "purchase_orders")
      ∷ ("notes", get stop "instructions")
      ∷ ("deleted", get stop "deleted")
      ∷ [])

-- The stops of an exported route, if it is a list
abbrev exported_stops : Value → List Fields
exported_stops (arr vs) = map normalized_stop (dictionaries vs)
exported_stops _ = []

-- The stops under `globalRoute` if that is a list, else the exported ones
abbrev route_stops : Value → Value → List Fields
route_stops (arr vs) exported_route = dictionaries vs
route_stops _ exported_route = exported_stops (get (as_dict exported_route) "ship_locations")

abbrev details_stops : Fields → List Fields
details_stops details = route_stops (get details "globalRoute") (get details "global_route")

-- `global_route_stops_from_payload`, on a payload that is a dictionary
unfoldable pub global_route_stops_from_payload : Fields → List Fields
unfolding get normalized_stop
global_route_stops_from_payload payload = details_stops (as_dict (get payload "details"))

-- `active_route_stops`
unfoldable pub active_route_stops : List Fields → List Fields
unfolding get
active_route_stops [] = []
active_route_stops (s ∷ stops) =
    let rest = active_route_stops stops in if truthy (get s "deleted") then rest else s ∷ rest

-- `is_multi_stop_route`
unfoldable pub is_multi_stop_route : List Fields → Bool
unfolding active_route_stops
is_multi_stop_route stops = ltb 2 (length (active_route_stops stops))

-- `is_multi_stop_shipment` of shipments.py
unfoldable pub is_multi_stop_shipment : Fields → Bool
unfolding is_multi_stop_route global_route_stops_from_payload
is_multi_stop_shipment payload = is_multi_stop_route (global_route_stops_from_payload payload)

-- `LocationLookup`
pub record LocationLookup : Type 0 where
  pub city : String
  pub state_code : String
  pub country : String

-- `RouteEndpoints`
pub record RouteEndpoints : Type 0 where
  pub pickup : LocationLookup
  pub delivery : LocationLookup

abbrev last : Fields → List Fields → Fields
last s [] = s
last s (t ∷ stops) = last t stops

module _ (render : Value → String) where
  -- `_location_lookup_from_address`; `none` is the error it raises
  unfoldable pub location_lookup_from_address : Fields → Option LocationLookup
  unfolding get strip
  location_lookup_from_address address =
      let city = clean_text render (get address "city") in
      let state_code = clean_text render (get address "state") in
      let country =
        clean_text render
          (value_or (value_or (get address "countryCode") (get address "country")) (str "US")) in
      if is_empty city || is_empty state_code
      then none
      else some (record {
        city = city;
        state_code = state_code;
        country = if is_empty country then "US" else country;
      })

  abbrev stop_lookup : Fields → Option LocationLookup
  stop_lookup stop = location_lookup_from_address (as_dict (get stop "address"))

  abbrev endpoints : Option LocationLookup → Option LocationLookup → Option RouteEndpoints
  endpoints (some p) (some d) = some (record { pickup = p; delivery = d })
  endpoints _ _ = none

  abbrev endpoints_of : List Fields → Option RouteEndpoints
  endpoints_of [] = none
  endpoints_of (s ∷ stops) = endpoints (stop_lookup s) (stop_lookup (last s stops))

  -- `endpoints_from_route_stops`; `none` is the error it raises
  unfoldable pub endpoints_from_route_stops : List Fields → Option RouteEndpoints
  unfolding active_route_stops location_lookup_from_address get
  endpoints_from_route_stops stops = endpoints_of (active_route_stops stops)
