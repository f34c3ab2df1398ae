-- ===== src/PodScore/Inputs/Laws.antt =====
-- What the extraction of the scoring inputs keeps of a shipment.
use testingmulti.PodScore.Verdict.{score_pod_total}
use testingmulti.PodScore.Inputs.{turvo_stop_from_global_route}
use testingmulti.PodScore.Scoring.{score_pod}
use testingmulti.Common.Value.{get, truthy}
use testingmulti.Common.{all, both_true, true, ◌∙◌}
use mathlib.Core.List.{append-nil}
use testingmulti.PodScore.{TurvoStop}
use testingmulti.PodScore.Inputs.{purchase_orders_from_stops, stops_of, typed}
use testingmulti.Turvo.Route.{active_route_stops, global_route_stops_from_payload}
use mathlib.Core.List.{append_assoc}
use testingmulti.PodScore.{StopType, TurvoPurchaseOrder}
use testingmulti.PodScore.ScoredFields.{Python, pos_of, same_stop}
use testingmulti.PodScore.Inputs.{extract_pod_inputs_from_shipment, orders_of}
use testingmulti.Common.{
  Bool-cases, List, String, [], arith, if◌then◌else◌, inl, inr, refl, ◌++◌, ◌∷◌, ◌≡◌,
}
use testingmulti.Common.Value.{Fields}
use testingmulti.Turvo.Projection.{details_kept, route_kept, shipment_workflow_state_projection}

all_deleted :
    (stops : List Fields)
    → all (λ s. truthy (get s "deleted")) stops ≡ true
    → active_route_stops stops ≡ []
unfolding active_route_stops
all_deleted [] h = refl
all_deleted (s ∷ stops) h =
    let (gone, others) = both_true (truthy (get s "deleted")) h in
    rw (gone, all_deleted stops others)

module _ (py : Python) where
  -- The inputs are the same on the projected shipment that a workflow state keeps as on the payload.
  pub extract_projected :
      (payload : Fields)
      → extract_pod_inputs_from_shipment py (shipment_workflow_state_projection payload)
        ≡ extract_pod_inputs_from_shipment py payload
  unfolding extract_pod_inputs_from_shipment
  extract_projected payload = rw (
    route_kept payload,
    details_kept payload "startDate" refl,
    details_kept payload "endDate" refl,
    details_kept payload "customId" refl,
  )

  pos_of-append :
      (t : StopType) (xs ys : List TurvoPurchaseOrder)
      → pos_of py t (xs ++ ys) ≡ pos_of py t xs ++ pos_of py t ys
  pos_of-append t [] ys = refl
  pos_of-append t (x ∷ xs) ys = elim (Bool-cases (same_stop py x.stop_type t)) [
    | inl same ↦ rw (same, pos_of-append t xs ys)
    | inr other ↦ rw (other, pos_of-append t xs ys)
  ]

  pos_of-orders :
      (t u : StopType) (id : String) (ps : List String)
      → pos_of py t (orders_of py u id ps) ≡ (if same_stop py u t then orders_of py u id ps else [])
  pos_of-orders t u id [] = ground arith
  pos_of-orders t u id (p ∷ ps) = elim (Bool-cases (same_stop py u t)) [
    | inl same ↦ rw (pos_of-orders t u id ps, same)
    | inr other ↦ rw (pos_of-orders t u id ps, other)
  ]

  from_stops-append :
      (xs ys : List (StopType × TurvoStop))
      → purchase_orders_from_stops py (xs ++ ys)
        ≡ purchase_orders_from_stops py xs ++ purchase_orders_from_stops py ys
  unfolding purchase_orders_from_stops
  from_stops-append [] ys = refl
  from_stops-append ((t, stop) ∷ xs) ys = rw (
    from_stops-append xs ys,
    append_assoc (orders_of py t stop.stop_id stop.po_numbers) (purchase_orders_from_stops py xs)
        (purchase_orders_from_stops py ys),
  )

  pos_of-typed :
      (t u : StopType) (stops : List Fields)
      → pos_of py t (purchase_orders_from_stops py (typed py u stops))
        ≡ (if same_stop py u t then purchase_orders_from_stops py (typed py u stops) else [])
  unfolding purchase_orders_from_stops
  pos_of-typed t u [] = ground arith
  pos_of-typed t u (s ∷ stops) =
      let ts = turvo_stop_from_global_route py s u in
      let split =
        pos_of-append t (orders_of py u ts.stop_id ts.po_numbers)
          (purchase_orders_from_stops py (typed py u stops)) in
      let own = pos_of-orders t u ts.stop_id ts.po_numbers in
      let rest = pos_of-typed t u stops in
      elim (Bool-cases (same_stop py u t)) [
        | inl same ↦ rw (split, own, rest, same)
        | inr other ↦ rw (split, own, rest, other)
      ]

  pos_of-both :
      (t : StopType) (picks drops : List Fields)
      → pos_of py t (
          purchase_orders_from_stops py
            (typed py StopType.pickup picks ++ typed py StopType.delivery drops))
        ≡ (if same_stop py StopType.pickup t
            then purchase_orders_from_stops py (typed py StopType.pickup picks)
            else [])
          ++ (if same_stop py StopType.delivery t
              then purchase_orders_from_stops py (typed py StopType.delivery drops)
              else [])
  pos_of-both t picks drops = rw (
    from_stops-append (typed py StopType.pickup picks) (typed py StopType.delivery drops),
    pos_of-append t (purchase_orders_from_stops py (typed py StopType.pickup picks))
        (purchase_orders_from_stops py (typed py StopType.delivery drops)),
    pos_of-typed t StopType.pickup picks,
    pos_of-typed t StopType.delivery drops,
  )

  -- The purchase orders that a stop is scored on are those of the active stops of its kind, in the order
  -- of the route.
  pub pos_of-extract :
      (t : StopType) (payload : Fields)
      → pos_of py t (extract_pod_inputs_from_shipment py payload).purchase_orders
        ≡ purchase_orders_from_stops py (
            typed py t
              (stops_of py t (active_route_stops (global_route_stops_from_payload payload))))
  unfolding extract_pod_inputs_from_shipment
  pos_of-extract StopType.pickup payload =
      let active = active_route_stops (global_route_stops_from_payload payload) in
      pos_of-both StopType.pickup (stops_of py StopType.pickup active)
        (stops_of py StopType.delivery active)
      ∙ append-nil _
  pos_of-extract StopType.delivery payload =
      let active = active_route_stops (global_route_stops_from_payload payload) in
      pos_of-both StopType.delivery (stops_of py StopType.pickup active)
        (stops_of py StopType.delivery active)

  -- A shipment whose route stops are all deleted has no purchase order, and its score is 0.
  pub score_deleted :
      (payload obs : Fields)
      → all (λ s. truthy (get s "deleted")) (global_route_stops_from_payload payload) ≡ true
      → (score_pod py obs (extract_pod_inputs_from_shipment py payload)).final_score ≡ 0
  unfolding extract_pod_inputs_from_shipment purchase_orders_from_stops stops_of
  score_deleted payload obs h =
      score_pod_total py obs (extract_pod_inputs_from_shipment py payload)
      ∙ rw (all_deleted (global_route_stops_from_payload payload) h)
