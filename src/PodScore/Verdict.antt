-- ===== src/PodScore/Verdict.antt =====
-- What the final score says of a proof of delivery.
use testingmulti.PodScore.Bounds.{StopInRange, build_stop-InRange}
use testingmulti.PodScore.Rounding.Laws.{bucket_mono}
use testingmulti.Common.{All, false}
use testingmulti.PodScore.Bounds.{detail_total, identity_total, signature_total}
use testingmulti.Common.{Bool-cases, inl, inr}
use testingmulti.PodScore.{StopType, TurvoShipmentPodInputs}
use testingmulti.PodScore.ScoredFields.{Python}
use testingmulti.PodScore.Rounding.{validation_bucket}
use testingmulti.PodScore.Bounds.{details, details-le, references, references-le}
use testingmulti.PodScore.Scoring.{min, no_pos, score_pod}
use testingmulti.PodScore.Rounding.Laws.{bucket-le}
use testingmulti.Common.{arith, if◌then◌else◌, ℕ, ◌+◌, ◌≡◌, ◌≤◌}
use testingmulti.Common.Value.{Fields, get, truthy}

module _ (py : Python) where
  -- All reference points and all detail points of a shipment
  abbrev pub all_references : TurvoShipmentPodInputs → Fields → ℕ
  all_references inputs obs =
      references py StopType.pickup inputs obs + references py StopType.delivery inputs obs

  abbrev pub all_details : TurvoShipmentPodInputs → Fields → ℕ
  all_details inputs obs =
      details py StopType.pickup inputs obs + details py StopType.delivery inputs obs

  abbrev pub signature_score : Fields → ℕ
  signature_score obs = if truthy (get obs "delivery_signature_present") then 60 else 0

  abbrev pub uncapped_score : TurvoShipmentPodInputs → Fields → ℕ
  uncapped_score inputs obs =
      signature_score obs + validation_bucket (all_references inputs obs) (all_details inputs obs)

  all_references-le :
      (inputs : TurvoShipmentPodInputs) (obs : Fields) → all_references inputs obs ≤ 40
  all_references-le inputs obs = omega (
    arith,
    references-le py StopType.pickup inputs obs,
    references-le py StopType.delivery inputs obs,
  )

  all_details-le : (inputs : TurvoShipmentPodInputs) (obs : Fields) → all_details inputs obs ≤ 40
  all_details-le inputs obs =
      omega (
        arith,
        details-le py StopType.pickup inputs obs,
        details-le py StopType.delivery inputs obs,
      )

  signature_score-le :
      (obs : Fields)
      → signature_score obs ≤ (if truthy (get obs "delivery_signature_present") then 60 else 0)
  signature_score-le obs = ground arith

  uncapped_score-le :
      (inputs : TurvoShipmentPodInputs) (obs : Fields)
      → uncapped_score inputs obs ≤ signature_score obs + 40
  uncapped_score-le inputs obs = omega (
    arith,
    bucket-le (all_references inputs obs) (all_details inputs obs) (all_references-le inputs obs)
        (all_details-le inputs obs),
  )

  signature_score-cap : (obs : Fields) → signature_score obs ≤ 60
  signature_score-cap obs = ground arith

  min_below : (n : ℕ) → n ≤ 100 → min 100 n ≡ n
  min_below n h = ground arith

  -- The final score is 0 without purchase orders; else it is the signature's 60 points and the
  -- validation bucket of the reference and detail points: the cap at 100 is never needed.
  pub score_pod_total :
      (obs : Fields) (inputs : TurvoShipmentPodInputs)
      → (score_pod py obs inputs).final_score
        ≡ (if no_pos py inputs.purchase_orders then 0 else uncapped_score inputs obs)
  unfolding score_pod
  score_pod_total obs inputs = elim (Bool-cases (no_pos py inputs.purchase_orders)) [
    | inl none_listed ↦ rw none_listed
    | inr listed ↦ rw (
      listed,
      signature_total py inputs obs,
      identity_total py inputs obs,
      detail_total py inputs obs,
      min_below (uncapped_score inputs obs)
          (omega (arith, uncapped_score-le inputs obs, signature_score-cap obs)),
    )
  ]

  scored-InRange :
      (obs : Fields) (inputs : TurvoShipmentPodInputs)
      → All StopInRange (score_pod py obs inputs).stops
  unfolding score_pod
  scored-InRange obs inputs = elim (Bool-cases (no_pos py inputs.purchase_orders)) [
    | inl none_listed ↦ rw none_listed tt
    | inr listed ↦ rw listed (
      build_stop-InRange py StopType.pickup 1 inputs obs,
      (build_stop-InRange py StopType.delivery 2 inputs obs, tt),
    )
  ]

  -- No field's score exceeds its maximum, and the final score is at most 100.
  pub score_pod-InRange :
      (obs : Fields) (inputs : TurvoShipmentPodInputs)
      → ((score_pod py obs inputs).final_score ≤ 100)
        × All StopInRange (score_pod py obs inputs).stops
  score_pod-InRange obs inputs = (
    ground
        (arith, score_pod_total obs inputs, uncapped_score-le inputs obs, signature_score-cap obs),
    scored-InRange obs inputs,
  )

  -- Without proof of delivery the score stays under the pass threshold, whatever else matches.
  pub score_pod_unsigned :
      (obs : Fields) (inputs : TurvoShipmentPodInputs)
      → truthy (get obs "delivery_signature_present") ≡ false
      → (score_pod py obs inputs).final_score ≤ 40
  score_pod_unsigned obs inputs unsigned =
      ground (arith, score_pod_total obs inputs, uncapped_score-le inputs obs)

  -- More evidence never lowers the score
  pub score_pod_mono :
      (obs more : Fields) (inputs : TurvoShipmentPodInputs)
      → signature_score obs ≤ signature_score more
      → all_references inputs obs ≤ all_references inputs more
      → all_details inputs obs ≤ all_details inputs more
      → (score_pod py obs inputs).final_score ≤ (score_pod py more inputs).final_score
  score_pod_mono obs more inputs h i j =
      let bucket =
        bucket_mono (all_references inputs obs) (all_references inputs more)
          (all_details inputs obs) (all_details inputs more) i (all_references-le inputs more) j
          (all_details-le inputs more) in
      ground (arith, score_pod_total obs inputs, score_pod_total more inputs)
