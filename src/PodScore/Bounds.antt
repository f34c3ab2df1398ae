-- ===== src/PodScore/Bounds.antt =====
-- Bounds of the scored fields and of the final score.
use testingmulti.PodScore.Scoring.{get_signature_score, sum_shipment_detail_scores}
use testingmulti.Common.{if◌then◌else◌, refl, ◌+◌, ◌≡◌}
use testingmulti.Common.Value.{get, truthy}
use testingmulti.PodScore.ScoredFields.{reference_id_score}
use testingmulti.PodScore.DetailFields.{shipment_detail_fields}
use testingmulti.PodScore.Scoring.{build_stop, sum_identity_scores}
use testingmulti.Common.{true, ℕ}
use native.Mathlib.Nat.{mul-le-mul_left}
use testingmulti.PodScore.{
  ScoredField, StopScore, StopType, TurvoPurchaseOrder, TurvoShipmentPodInputs,
}
use testingmulti.PodScore.ScoredFields.{
  Python, count_matched, pos_of, reference_id_field, signature_field,
}
use testingmulti.PodScore.DetailFields.{date_field, identifiable_text_field}
use testingmulti.PodScore.Rounding.Laws.{round_ratio-le}
use testingmulti.Common.Value.{Fields, Value}
use testingmulti.Common.{All, List, Option, String, [], arith, length, ◌*◌, ◌∷◌, ◌≤◌}

-- A field whose score is at most its maximum
abbrev pub InRange : ScoredField → Type 0
InRange f = f.score ≤ f.max_score

abbrev pub StopInRange : StopScore → Type 0
StopInRange s = All InRange s.fields

module _ (py : Python) where
  signature_field-InRange : (obs : Fields) → InRange (signature_field py obs)
  unfolding signature_field
  signature_field-InRange obs = ground arith

  count_matched-le :
      (obs : Fields) (orders : List TurvoPurchaseOrder)
      → count_matched py obs orders ≤ length orders
  count_matched-le obs [] = omega arith
  count_matched-le obs (po ∷ rest) = ground (arith, count_matched-le obs rest)

  reference_id_score-le :
      (obs : Fields) (orders : List TurvoPurchaseOrder) → reference_id_score py obs orders ≤ 20
  reference_id_score-le obs [] = omega arith
  reference_id_score-le obs (po ∷ rest) =
      round_ratio-le (20 * count_matched py obs (po ∷ rest)) (length (po ∷ rest)) 20 (omega arith)
        (mul-le-mul_left 20 (count_matched-le obs (po ∷ rest)))

  reference_id_field-InRange :
      (t : StopType) (inputs : TurvoShipmentPodInputs) (obs : Fields)
      → InRange (reference_id_field py t inputs obs)
  unfolding reference_id_field
  reference_id_field-InRange t inputs obs =
      reference_id_score-le obs (pos_of py t inputs.purchase_orders)

  date_field-le :
      (l : String) (t : Option String) (s : Value) (z : Option String)
      → (date_field py l t s z).score ≤ 10
  unfolding date_field
  date_field-le l t s z = ground arith

  identifiable_text_field-le :
      (l : String) (t : String) (s : Value) → (identifiable_text_field py l t s).score ≤ 5
  unfolding identifiable_text_field
  identifiable_text_field-le l t s = ground arith

  date_field-InRange :
      (l : String) (t : Option String) (s : Value) (z : Option String)
      → InRange (date_field py l t s z)
  unfolding date_field
  date_field-InRange l t s z = date_field-le l t s z

  identifiable_text_field-InRange :
      (l : String) (t : String) (s : Value) → InRange (identifiable_text_field py l t s)
  unfolding identifiable_text_field
  identifiable_text_field-InRange l t s = identifiable_text_field-le l t s

  details-InRange :
      (t : StopType) (inputs : TurvoShipmentPodInputs) (obs : Fields)
      → All InRange (shipment_detail_fields py t inputs obs)
  unfolding shipment_detail_fields
  details-InRange StopType.pickup inputs obs = (
    date_field-InRange _ _ _ _,
    (identifiable_text_field-InRange _ _ _, (identifiable_text_field-InRange _ _ _, tt)),
  )
  details-InRange StopType.delivery inputs obs = (
    date_field-InRange _ _ _ _,
    (identifiable_text_field-InRange _ _ _, (identifiable_text_field-InRange _ _ _, tt)),
  )

  pub build_stop-InRange :
      (t : StopType) (n : ℕ) (inputs : TurvoShipmentPodInputs) (obs : Fields)
      → StopInRange (build_stop py t n inputs obs)
  unfolding build_stop
  build_stop-InRange StopType.pickup n inputs obs = (
    reference_id_field-InRange StopType.pickup inputs obs,
    details-InRange StopType.pickup inputs obs,
  )
  build_stop-InRange StopType.delivery n inputs obs = (
    signature_field-InRange obs,
    (
      reference_id_field-InRange StopType.delivery inputs obs,
      details-InRange StopType.delivery inputs obs,
    ),
  )

  -- The reference points of a stop
  abbrev pub references : StopType → TurvoShipmentPodInputs → Fields → ℕ
  references t inputs obs = reference_id_score py obs (pos_of py t inputs.purchase_orders)

  abbrev pub sum_scores : List ScoredField → ℕ
  sum_scores [] = 0
  sum_scores (f ∷ fs) = f.score + sum_scores fs

  -- The detail points of a stop
  abbrev pub details : StopType → TurvoShipmentPodInputs → Fields → ℕ
  details t inputs obs = sum_scores (shipment_detail_fields py t inputs obs)

  abbrev pub both_stops : TurvoShipmentPodInputs → Fields → List StopScore
  both_stops inputs obs =
      build_stop py StopType.pickup 1 inputs obs ∷ build_stop py StopType.delivery 2 inputs obs ∷ []

  pub identity_total :
      (inputs : TurvoShipmentPodInputs) (obs : Fields)
      → sum_identity_scores (both_stops inputs obs) true
        ≡ references StopType.pickup inputs obs + references StopType.delivery inputs obs
  unfolding build_stop shipment_detail_fields sum_identity_scores reference_id_field date_field
      identifiable_text_field signature_field
  identity_total inputs obs = omega arith

  pub detail_total :
      (inputs : TurvoShipmentPodInputs) (obs : Fields)
      → sum_shipment_detail_scores (both_stops inputs obs)
        ≡ details StopType.pickup inputs obs + details StopType.delivery inputs obs
  unfolding build_stop shipment_detail_fields sum_shipment_detail_scores reference_id_field
      date_field identifiable_text_field signature_field
  detail_total inputs obs = omega arith

  pub signature_total :
      (inputs : TurvoShipmentPodInputs) (obs : Fields)
      → get_signature_score (build_stop py StopType.delivery 2 inputs obs)
        ≡ (if truthy (get obs "delivery_signature_present") then 60 else 0)
  unfolding build_stop get_signature_score signature_field
  signature_total inputs obs = refl

  pub references-le :
      (t : StopType) (inputs : TurvoShipmentPodInputs) (obs : Fields) → references t inputs obs ≤ 20
  references-le t inputs obs = reference_id_score-le obs (pos_of py t inputs.purchase_orders)

  three-le : {a b c : ℕ} → a ≤ 10 → b ≤ 5 → c ≤ 5 → a + (b + (c + 0)) ≤ 20
  three-le h i j = omega arith

  pub details-le :
      (t : StopType) (inputs : TurvoShipmentPodInputs) (obs : Fields) → details t inputs obs ≤ 20
  unfolding shipment_detail_fields
  details-le StopType.pickup inputs obs =
      three-le (date_field-le _ _ _ _) (identifiable_text_field-le _ _ _)
        (identifiable_text_field-le _ _ _)
  details-le StopType.delivery inputs obs =
      three-le (date_field-le _ _ _ _) (identifiable_text_field-le _ _ _)
        (identifiable_text_field-le _ _ _)
