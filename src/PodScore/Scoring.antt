-- ===== src/PodScore/Scoring.antt =====
-- `score_pod` (app/services/pod_lifecycle/pod_scoring.py): the stops, the sums and the final score.
use testingmulti.PodScore.{
  FieldCategory, PodException, PodScoreResult, ScoredField, StopScore, StopType, TurvoPurchaseOrder,
  TurvoShipmentPodInputs, label_signature, pass_threshold,
}
use testingmulti.PodScore.Remarks.{remark_no_turvo_po}
use testingmulti.PodScore.ScoredFields.{Python, reference_id_field, signature_field, str_value}
use testingmulti.PodScore.Rounding.{validation_bucket}
use testingmulti.PodScore.DetailFields.{shipment_detail_fields}
use testingmulti.PodScore.Exceptions.{exceptions_from_observations}
use testingmulti.Common.Value.{items_of}
use testingmulti.Common.{
  Bool, List, Option, String, [], false, find, if◌then◌else◌, ltb, none, not, some, true, ℕ, ◌&&◌,
  ◌+◌, ◌==◌, ◌∷◌,
}
use testingmulti.Common.Value.{Fields, Value, arr, elements, get, truthy}

abbrev list_or_none {ℓ} : {A : Type ℓ} → List A → Option (List A)
list_or_none [] = none
list_or_none (x ∷ xs) = some (x ∷ xs)

abbrev is_identity : FieldCategory → Bool
is_identity FieldCategory.identity = true
is_identity FieldCategory.shipment_detail = false

-- The points of the fields that a test selects, over all stops
abbrev pub sum_fields : (ScoredField → Bool) → List ScoredField → ℕ
sum_fields p [] = 0
sum_fields p (f ∷ fs) = if p f then f.score + sum_fields p fs else sum_fields p fs

abbrev pub sum_stops : (ScoredField → Bool) → List StopScore → ℕ
sum_stops p [] = 0
sum_stops p (s ∷ ss) = sum_fields p s.fields + sum_stops p ss

-- `_sum_identity_scores`
unfoldable pub sum_identity_scores : List StopScore → Bool → ℕ
sum_identity_scores stops exclude_signature =
    sum_stops
      (λ f.
        if is_identity f.category
        then not (exclude_signature && f.label == label_signature)
        else false)
      stops

-- `_sum_shipment_detail_scores`
unfoldable pub sum_shipment_detail_scores : List StopScore → ℕ
sum_shipment_detail_scores stops = sum_stops (λ f. not (is_identity f.category)) stops

-- `_get_signature_score`
unfoldable pub get_signature_score : StopScore → ℕ
get_signature_score delivery_stop =
    elim (find (λ f. f.label == label_signature) delivery_stop.fields) [
      | none ↦ 0
      | some f ↦ f.score
    ]

-- `min(a, b)`
abbrev pub min : ℕ → ℕ → ℕ
min a b = if ltb b a then b else a

module _ (py : Python) where
  abbrev reasons : List Value → List String
  reasons [] = []
  reasons (v ∷ vs) = if truthy v then str_value py v ∷ reasons vs else reasons vs

  -- `_delivery_review_reasons`
  unfoldable pub delivery_review_reasons : Value → List String
  delivery_review_reasons (arr vs) = reasons (elements vs)
  delivery_review_reasons _ = []

  abbrev stop_fields : StopType → TurvoShipmentPodInputs → Fields → List ScoredField
  stop_fields StopType.pickup turvo_inputs pod_observations =
      reference_id_field py StopType.pickup turvo_inputs pod_observations
      ∷ shipment_detail_fields py StopType.pickup turvo_inputs pod_observations
  stop_fields StopType.delivery turvo_inputs pod_observations =
      signature_field py pod_observations
      ∷ reference_id_field py StopType.delivery turvo_inputs pod_observations
      ∷ shipment_detail_fields py StopType.delivery turvo_inputs pod_observations

  -- `_build_stop`
  unfoldable pub build_stop : StopType → ℕ → TurvoShipmentPodInputs → Fields → StopScore
  unfolding get
  build_stop t stop_order turvo_inputs pod_observations = record {
    stop_type = t;
    stop_order = stop_order;
    fields = stop_fields t turvo_inputs pod_observations;
    stop_times = list_or_none (elements (items_of (get pod_observations "stop_times")));
  }

  -- The result for a shipment without purchase orders
  abbrev unscorable : List PodException → PodScoreResult
  unscorable exceptions = record {
    final_score = 0;
    max_score = 100;
    threshold = pass_threshold;
    stops = [];
    exceptions = list_or_none exceptions;
    remarks = some (remark_no_turvo_po ∷ []);
    review_reasons = some (remark_no_turvo_po ∷ []);
    needs_action = true;
  }

  abbrev scored : StopScore → StopScore → Fields → List PodException → PodScoreResult
  scored pickup_stop delivery_stop pod_observations exceptions =
      let stops = pickup_stop ∷ delivery_stop ∷ [] in
      let ref_id_total = sum_identity_scores stops true in
      let detail_raw = sum_shipment_detail_scores stops in
      record {
        final_score =
            min 100 (get_signature_score delivery_stop + validation_bucket ref_id_total detail_raw);
        max_score = 100;
        threshold = pass_threshold;
        stops = stops;
        exceptions = list_or_none exceptions;
        remarks = none;
        review_reasons =
            list_or_none (delivery_review_reasons (get pod_observations "review_reasons"));
        needs_action = true;
      }

  abbrev pub no_pos : List TurvoPurchaseOrder → Bool
  no_pos [] = true
  no_pos (_ ∷ _) = false

  -- `score_pod`
  unfoldable pub score_pod : Fields → TurvoShipmentPodInputs → PodScoreResult
  unfolding get
  score_pod pod_observations turvo_inputs =
      let exceptions = exceptions_from_observations py pod_observations turvo_inputs in
      let pickup_stop = build_stop StopType.pickup 1 turvo_inputs pod_observations in
      let delivery_stop = build_stop StopType.delivery 2 turvo_inputs pod_observations in
      if no_pos turvo_inputs.purchase_orders
      then unscorable exceptions
      else scored pickup_stop delivery_stop pod_observations exceptions
