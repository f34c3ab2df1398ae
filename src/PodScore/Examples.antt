-- ===== src/PodScore/Examples.antt =====
-- The scoring of a concrete proof of delivery.
use testingmulti.PodScore.ScoredFields.{po_stop_match}
use testingmulti.PodScore.Rounding.{round_ratio}
use testingmulti.PodScore.Inputs.{po_numbers_from_stop, turvo_stop_from_global_route}
use testingmulti.PodScore.DetailFields.{shipment_detail_fields}
use testingmulti.PodScore.{StopType, TurvoShipmentPodInputs}
use testingmulti.PodScore.ScoredFields.{Python, pos_of}
use testingmulti.PodScore.Verdict.{
  score_pod-InRange, score_pod_mono, score_pod_total, score_pod_unsigned, uncapped_score,
}
use testingmulti.PodScore.Inputs.{
  extract_pod_inputs_from_shipment, ordered_pallet_qty_from_stop, purchase_orders_from_stops,
  stop_type_of, stops_of, typed,
}
use testingmulti.PodScore.Flags.{score_pod_flags}
use testingmulti.PodScore.Matched.{score_pod_matched}
use testingmulti.PodScore.Words.{mentions_refusal, tokens}
use testingmulti.PodScore.Bounds.{StopInRange}
use testingmulti.PodScore.Scoring.{no_pos, score_pod}
use testingmulti.PodScore.Inputs.Notes.{pallet_count}
use testingmulti.PodScore.Inputs.Laws.{extract_projected, pos_of-extract, score_deleted}
use testingmulti.Common.{
  All, String, [], arith, false, if◌then◌else◌, refl, some, true, ◌∷◌, ◌≡◌, ◌≤◌,
}
use testingmulti.Common.Value.{
  Fields, arr, bool, end, field, get, item_then, no_items, obj, set_field, str,
}
use testingmulti.Common.Text.{is_empty, lower_char, map_chars}
use testingmulti.Turvo.Route.{active_route_stops, global_route_stops_from_payload}
use testingmulti.Turvo.Projection.{shipment_workflow_state_projection}

abbrev py : Python
py = record {
  Instant = String;
  render = λ v. "?";
  casefold = map_chars lower_char;
  fromisoformat = λ s. some s;
  has_tzinfo = λ d. true;
  replace_utc = λ d. d;
  astimezone = λ d z. some d;
  date = λ d. if is_empty d then 0 else 20;
}

abbrev text_field : String → String → Fields → Fields
text_field k v rest = field k (str v) rest

abbrev route_stop : String → String → String → Fields
route_stop key name po = field "stopType" (obj (text_field "key" key end)) (
    field "name" (str name) (
      field "poNumbers" (arr (item_then (str po) no_items))
        (field "notes" (str "Pallets: 12 | dry") end)))

abbrev payload : Fields
payload =
    field "details"
      (obj (
        field "globalRoute"
          (arr (
            item_then (obj (route_stop "1500" "Acme Plant" "PO-1"))
              (item_then (obj (route_stop "1501" "Cold Store" "PO-2")) no_items)))
          end))
      end

abbrev inputs : TurvoShipmentPodInputs
inputs = extract_pod_inputs_from_shipment py payload

abbrev reference_texts : Fields → Fields
reference_texts rest =
    field "extracted_reference_numbers"
      (arr (item_then (str "po-1 ") (item_then (str "PO-2") no_items))) rest

abbrev unsigned : Fields
unsigned = reference_texts end

abbrev signed : Fields
signed = field "delivery_signature_present" (bool true) (reference_texts end)

abbrev half : Fields
half =
    field "delivery_signature_present" (bool true)
      (field "extracted_reference_numbers" (arr (item_then (str "PO-2") no_items)) end)

-- The pallet count of the pickup's notes
twelve_pallets : inputs.ordered_pallet_qty ≡ some 12
unfolding extract_pod_inputs_from_shipment get stops_of stop_type_of active_route_stops
    global_route_stops_from_payload ordered_pallet_qty_from_stop pallet_count
twelve_pallets = refl

refusal_word : mentions_refusal "Was Refused." ≡ true
unfolding mentions_refusal
refusal_word = refl

no_refusal_word : mentions_refusal "refuses" ≡ false
unfolding mentions_refusal
no_refusal_word = refl

three_tokens : tokens "Acme PL-01 plant" ≡ ("acme" ∷ "plant" ∷ [])
unfolding tokens
three_tokens = refl

score_pod_unsigned_example : (score_pod py unsigned inputs).final_score ≤ 40
unfolding get
score_pod_unsigned_example = score_pod_unsigned py unsigned inputs refl

score_pod-InRange_example :
    ((score_pod py half inputs).final_score ≤ 100)
    × All StopInRange (score_pod py half inputs).stops
score_pod-InRange_example = score_pod-InRange py half inputs

score_pod_total_example :
    (score_pod py half inputs).final_score
    ≡ (if no_pos py inputs.purchase_orders then 0 else uncapped_score py inputs half)
score_pod_total_example = score_pod_total py half inputs

score_pod_matched_example : (score_pod py signed inputs).final_score ≡ 100
unfolding extract_pod_inputs_from_shipment purchase_orders_from_stops stops_of
    turvo_stop_from_global_route po_numbers_from_stop po_stop_match
score_pod_matched_example = score_pod_matched py signed inputs refl refl refl refl

score_pod_mono_example :
    (score_pod py half inputs).final_score ≤ (score_pod py signed inputs).final_score
unfolding get extract_pod_inputs_from_shipment purchase_orders_from_stops stops_of
    turvo_stop_from_global_route po_numbers_from_stop round_ratio po_stop_match
    shipment_detail_fields
score_pod_mono_example =
    score_pod_mono py half signed inputs (omega arith) (omega arith) (omega arith)

score_pod_flags_example :
    (score_pod py (set_field half "damage_detected" (bool true)) inputs).final_score
    ≡ (score_pod py half inputs).final_score
score_pod_flags_example = score_pod_flags py half "damage_detected" (bool true) refl inputs

delivery_orders :
    pos_of py StopType.delivery inputs.purchase_orders
    ≡ purchase_orders_from_stops py (
        typed py StopType.delivery (
          stops_of py StopType.delivery
            (active_route_stops (global_route_stops_from_payload payload))))
delivery_orders = pos_of-extract py StopType.delivery payload

extract_projected_example :
    extract_pod_inputs_from_shipment py (shipment_workflow_state_projection payload) ≡ inputs
extract_projected_example = extract_projected py payload

abbrev deleted_payload : Fields
deleted_payload =
    field "details"
      (obj (
        field "globalRoute"
          (arr (
            item_then (obj (field "deleted" (bool true) (route_stop "1500" "Acme" "PO-1")))
              no_items))
          end))
      end

deleted_scores_nothing :
    (score_pod py signed (extract_pod_inputs_from_shipment py deleted_payload)).final_score ≡ 0
unfolding global_route_stops_from_payload
deleted_scores_nothing = score_deleted py deleted_payload signed refl
