-- ===== src/PodScore/Flags.antt =====
-- The damage and quantity flags never move the score (the contract of `PodException` in
-- app/domain/pod_lifecycle/pod_score_result.py).
use testingmulti.PodScore.ScoredFields.{is_matched}
use testingmulti.Common.Value.{truthy}
use testingmulti.Common.{ap}
use testingmulti.PodScore.{StopType, TurvoPurchaseOrder, TurvoShipmentPodInputs}
use testingmulti.PodScore.ScoredFields.{
  Python, count_matched, po_stop_match, pos_of, reference_id_score,
}
use testingmulti.PodScore.Verdict.{score_pod_total}
use testingmulti.PodScore.DetailFields.{shipment_detail_fields}
use testingmulti.PodScore.Scoring.{score_pod}
use testingmulti.Common.Value.{Fields, Value, get, set_field}
use testingmulti.Common.{
  List, String, [], all, all-contains, arith, contains, not, refl, true, ◌==◌, ◌∙◌, ◌∷◌, ◌≡◌,
}
use testingmulti.Common.Dicts.{get-set_field}

-- The observations that only `_exceptions_from_observations` reads
abbrev pub flag_keys : List String
flag_keys = "damage_detected" ∷ "damage_detail" ∷ "refused_delivery" ∷ "pallets_shipped" ∷ []

-- Writing a flag leaves every other observation as it is.
read_apart :
    (obs : Fields) (k j : String) (v : Value)
    → contains flag_keys k ≡ true
    → all (λ f. not (f == j)) flag_keys ≡ true
    → get (set_field obs k v) j ≡ get obs j
read_apart obs k j v h apart =
    let differs = all-contains (λ f. not (f == j)) flag_keys k apart h in
    get-set_field obs k j v ∙ ground (arith, differs)

module _ (py : Python) (obs : Fields) (k : String) (v : Value)
    (h : contains flag_keys k ≡ true) where
  po_stop_match_apart :
      (po_number : String)
      → po_stop_match py po_number (set_field obs k v) ≡ po_stop_match py po_number obs
  unfolding po_stop_match
  po_stop_match_apart po_number = rw (
    po_stop_match,
    read_apart obs k "po_matches" v h refl,
    read_apart obs k "extracted_reference_numbers" v h refl,
  )

  is_matched_apart :
      (po : TurvoPurchaseOrder) → is_matched py (set_field obs k v) po ≡ is_matched py obs po
  is_matched_apart po =
      ap (λ m. truthy (get m "reference_and_stop_match")) (po_stop_match_apart po.po_number)

  count_matched_apart :
      (orders : List TurvoPurchaseOrder)
      → count_matched py (set_field obs k v) orders ≡ count_matched py obs orders
  count_matched_apart [] = refl
  count_matched_apart (po ∷ rest) =
      rw (count_matched, is_matched_apart po, count_matched_apart rest)

  reference_id_score_apart :
      (orders : List TurvoPurchaseOrder)
      → reference_id_score py (set_field obs k v) orders ≡ reference_id_score py obs orders
  reference_id_score_apart [] = refl
  reference_id_score_apart (po ∷ rest) = rw (count_matched_apart (po ∷ rest))

  details_apart :
      (t : StopType) (inputs : TurvoShipmentPodInputs)
      → shipment_detail_fields py t inputs (set_field obs k v)
        ≡ shipment_detail_fields py t inputs obs
  unfolding shipment_detail_fields
  details_apart StopType.pickup inputs = rw (
    read_apart obs k "pickup_date" v h refl,
    read_apart obs k "pickup_location" v h refl,
    read_apart obs k "pickup_address" v h refl,
  )
  details_apart StopType.delivery inputs = rw (
    read_apart obs k "delivery_date" v h refl,
    read_apart obs k "delivery_location" v h refl,
    read_apart obs k "delivery_address" v h refl,
  )

  -- Writing any flag, with any value, leaves the final score as it is.
  pub score_pod_flags :
      (inputs : TurvoShipmentPodInputs)
      → (score_pod py (set_field obs k v) inputs).final_score
        ≡ (score_pod py obs inputs).final_score
  score_pod_flags inputs = rw (
    score_pod_total py (set_field obs k v) inputs,
    score_pod_total py obs inputs,
    read_apart obs k "delivery_signature_present" v h refl,
    reference_id_score_apart (pos_of py StopType.pickup inputs.purchase_orders),
    reference_id_score_apart (pos_of py StopType.delivery inputs.purchase_orders),
    details_apart StopType.pickup inputs,
    details_apart StopType.delivery inputs,
  )
