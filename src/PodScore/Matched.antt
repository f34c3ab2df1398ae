-- ===== src/PodScore/Matched.antt =====
-- A signed proof of delivery that names every purchase order scores full marks.
use testingmulti.PodScore.Rounding.{validation_bucket}
use testingmulti.PodScore.Verdict.{all_details, all_references, score_pod_total}
use testingmulti.PodScore.Bounds.{references}
use testingmulti.PodScore.Rounding.Laws.{bucket_all_references}
use testingmulti.Common.{ap, ◌∙◌}
use testingmulti.PodScore.Scoring.{score_pod}
use testingmulti.Common.Value.{get, truthy}
use testingmulti.PodScore.{StopType, TurvoPurchaseOrder, TurvoShipmentPodInputs}
use testingmulti.PodScore.ScoredFields.{
  Python, count_matched, is_matched, pos_of, reference_id_score, same_stop,
}
use testingmulti.PodScore.Scoring.{no_pos}
use testingmulti.PodScore.Rounding.Laws.{round_ratio_whole}
use testingmulti.Common.{
  Bool, Bool-cases, List, [], all, arith, both_true, false, inl, inr, length, not, refl, true, ◌∷◌,
  ◌≡◌,
}
use testingmulti.Common.Value.{Fields}

module _ (py : Python) where
  matched-all :
      (obs : Fields) (orders : List TurvoPurchaseOrder)
      → all (is_matched py obs) orders ≡ true
      → count_matched py obs orders ≡ length orders
  matched-all obs [] h = refl
  matched-all obs (po ∷ rest) h =
      let (head_hit, rest_hit) = both_true (is_matched py obs po) h in
      rw (head_hit, matched-all obs rest rest_hit)

  all-pos_of :
      (p : TurvoPurchaseOrder → Bool) (t : StopType) (orders : List TurvoPurchaseOrder)
      → all p orders ≡ true
      → all p (pos_of py t orders) ≡ true
  all-pos_of p t [] h = refl
  all-pos_of p t (po ∷ rest) h =
      let (head_hit, rest_hit) = both_true (p po) h in
      elim (Bool-cases (same_stop py po.stop_type t)) [
        | inl listed ↦ rw (listed, head_hit, all-pos_of p t rest rest_hit)
        | inr elsewhere ↦ rw (elsewhere, all-pos_of p t rest rest_hit)
      ]

  -- Whether a shipment has a purchase order at a stop of a kind
  abbrev pub has_po : StopType → TurvoShipmentPodInputs → Bool
  has_po t inputs = not (no_pos py (pos_of py t inputs.purchase_orders))

  full_score :
      (obs : Fields) (orders : List TurvoPurchaseOrder)
      → no_pos py orders ≡ false
      → all (is_matched py obs) orders ≡ true
      → reference_id_score py obs orders ≡ 20
  full_score obs [] h m = ground (arith, h)
  full_score obs (po ∷ rest) h m =
      rw (matched-all obs (po ∷ rest) m) (round_ratio_whole 20 (length (po ∷ rest)) (omega arith))

  some-pos_of :
      (t : StopType) (orders : List TurvoPurchaseOrder)
      → not (no_pos py (pos_of py t orders)) ≡ true
      → no_pos py orders ≡ false
  some-pos_of t [] h = ground (arith, h)
  some-pos_of t (po ∷ rest) h = refl

  full_references :
      (t : StopType) (obs : Fields) (inputs : TurvoShipmentPodInputs)
      → has_po t inputs ≡ true
      → all (is_matched py obs) inputs.purchase_orders ≡ true
      → references py t inputs obs ≡ 20
  full_references t obs inputs h m =
      full_score obs (pos_of py t inputs.purchase_orders) (ground (arith, h))
        (all-pos_of (is_matched py obs) t inputs.purchase_orders m)

  -- With a purchase order at both stops, every one of them matched, and proof of delivery, the score is
  -- 100 whatever the dates, names and addresses say.
  pub score_pod_matched :
      (obs : Fields) (inputs : TurvoShipmentPodInputs)
      → truthy (get obs "delivery_signature_present") ≡ true
      → has_po StopType.pickup inputs ≡ true
      → has_po StopType.delivery inputs ≡ true
      → all (is_matched py obs) inputs.purchase_orders ≡ true
      → (score_pod py obs inputs).final_score ≡ 100
  score_pod_matched obs inputs signed picked delivered hits =
      let both : all_references py inputs obs ≡ 40 = omega (
        arith,
        full_references StopType.pickup obs inputs picked hits,
        full_references StopType.delivery obs inputs delivered hits,
      ) in
      let bucket =
        ap (λ r. validation_bucket r (all_details py inputs obs)) both
        ∙ bucket_all_references (all_details py inputs obs) in
      ground (
        arith,
        score_pod_total py obs inputs,
        some-pos_of StopType.pickup inputs.purchase_orders picked,
      )
