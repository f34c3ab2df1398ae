-- ===== src/Turvo/Projection.antt =====
-- `shipment_workflow_state_projection` (app/integrations/turvo/shipments.py) and what it keeps.
use testingmulti.Common.Value.{arr, as_dict, bool, int, str}
use testingmulti.Common.Dicts.{get-set_field}
use testingmulti.Turvo.Route.{global_route_stops_from_payload}
use testingmulti.Common.{ap, eq_iff, refl, true}
use testingmulti.Workflow.{keys}
use testingmulti.PodScore.Bounds.{details}
use testingmulti.Common.{
  Bool-cases, List, String, [], arith, contains, if◌then◌else◌, inl, inr, ◌==◌, ◌∷◌, ◌≡◌,
}
use testingmulti.Common.Value.{Fields, Value, end, field, get, null, obj, set_field}

abbrev top_level_keys : List String
top_level_keys =
    "id" ∷ "shipmentId" ∷ "shipment_id" ∷ "convoy" ∷ "error" ∷ "turvo_connection_timed_out" ∷ []

abbrev detail_keys : List String
detail_keys =
    "id" ∷ "shipmentId" ∷ "customId" ∷ "status" ∷ "transportation" ∷ "carrierOrder"
    ∷ "customerOrder" ∷ "globalRoute" ∷ "global_route" ∷ "startDate" ∷ "endDate" ∷ []

-- The entries of a dictionary under the keys of a set
unfoldable pub keep_keys : List String → Fields → Fields
keep_keys keys end = end
keep_keys keys (field k v d) =
    let rest = keep_keys keys d in if contains keys k then field k v rest else rest

abbrev with_details : Value → Fields → Fields
with_details (obj details) projected =
    set_field projected "details" (obj (keep_keys detail_keys details))
with_details _ projected = projected

-- `shipment_workflow_state_projection`, on a payload that is a dictionary
unfoldable pub shipment_workflow_state_projection : Fields → Fields
unfolding keep_keys set_field get
shipment_workflow_state_projection payload =
    with_details (get payload "details") (keep_keys top_level_keys payload)

-- A kept key reads as before, another key is missing.
get-keep_keys :
    (keys : List String) (d : Fields) (k : String)
    → get (keep_keys keys d) k ≡ (if contains keys k then get d k else null)
unfolding get keep_keys
get-keep_keys keys end k = ground arith
get-keep_keys keys (field j v d) k = elim (Bool-cases (j == k)) [
  | inl same ↦
      let agree = ap (contains keys) ((eq_iff j k).0 same) in ground (arith, get-keep_keys keys d k)
  | inr other ↦ ground (arith, get-keep_keys keys d k)
]

kept_details_lem :
    (v : Value) (projected : Fields) (k : String)
    → get projected "details" ≡ null
    → contains detail_keys k ≡ true
    → get (as_dict (get (with_details v projected) "details")) k ≡ get (as_dict v) k
kept_details_lem (obj details) projected k h c = rw (
  get-set_field projected "details" "details" (obj (keep_keys detail_keys details)),
  get-keep_keys detail_keys details k,
  c,
)
kept_details_lem (arr vs) projected k h c = rw h
kept_details_lem (str vs) projected k h c = rw h
kept_details_lem (int vs) projected k h c = rw h
kept_details_lem (bool vs) projected k h c = rw h
kept_details_lem null projected k h c = rw h

-- Every kept key of the details reads as in the payload.
pub details_kept :
    (payload : Fields) (k : String)
    → contains detail_keys k ≡ true
    → get (as_dict (get (shipment_workflow_state_projection payload) "details")) k
      ≡ get (as_dict (get payload "details")) k
unfolding shipment_workflow_state_projection
details_kept payload k c =
    kept_details_lem (get payload "details") (keep_keys top_level_keys payload) k
      (get-keep_keys top_level_keys payload "details") c

-- The route of a projected shipment is the route of the shipment.
pub route_kept :
    (payload : Fields)
    → global_route_stops_from_payload (shipment_workflow_state_projection payload)
      ≡ global_route_stops_from_payload payload
unfolding global_route_stops_from_payload
route_kept payload =
    rw (details_kept payload "globalRoute" refl, details_kept payload "global_route" refl)
