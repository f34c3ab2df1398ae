-- ===== src/PodScore/Exceptions.antt =====
-- The damage and quantity flags of a proof of delivery, `_exceptions_from_observations`
-- (app/services/pod_lifecycle/pod_scoring.py).
use testingmulti.PodScore.{ExceptionType, PodException, TurvoShipmentPodInputs}
use testingmulti.PodScore.Remarks.{damage_default_detail, pallet_qty_detail}
use testingmulti.PodScore.ScoredFields.{Python, count_text, str_value}
use testingmulti.PodScore.Words.{mentions_refusal}
use testingmulti.Common.{
  List, Option, String, [], false, if◌then◌else◌, ltb, none, or_else, some, true, ℕ, ◌++◌, ◌||◌,
  ◌∷◌,
}
use testingmulti.Common.Value.{Fields, Value, bool, clean_text, get, int, negsuc, pos, truthy, ℤ}
use testingmulti.Common.Text.{non_empty, strip}

module _ (py : Python) where
  abbrev damage_type : Fields → String → ExceptionType
  damage_type pod_observations detail =
      if truthy (get pod_observations "refused_delivery") || mentions_refusal detail
      then ExceptionType.refused_delivery
      else ExceptionType.damage

  -- `str(pod_observations.get("damage_detail") or "").strip() or EXCEPTION_DAMAGE_DEFAULT_DETAIL`
  abbrev damage_detail : Fields → String
  damage_detail pod_observations =
      or_else (non_empty (clean_text py.render (get pod_observations "damage_detail")))
        damage_default_detail

  abbrev damage_exceptions : Fields → List PodException
  damage_exceptions pod_observations =
      let detail = damage_detail pod_observations in
      if truthy (get pod_observations "damage_detected")
      then record { exception_type = damage_type pod_observations detail; detail = detail } ∷ []
      else []

  -- `isinstance(v, (int, float))` and the number; in Python, a Boolean is an integer.
  abbrev number_of : Value → Option ℤ
  number_of (int z) = some z
  number_of (bool true) = some (pos 1)
  number_of (bool false) = some (pos 0)
  number_of _ = none

  abbrev quantity_exception : ExceptionType → ℕ → Value → List PodException
  quantity_exception t ordered_qty shipped =
      record {
        exception_type = t;
        detail = pallet_qty_detail (count_text py ordered_qty) (str_value py shipped);
      }
      ∷ []

  abbrev quantity_exceptions : Value → Option ℤ → Option ℕ → List PodException
  quantity_exceptions v (some (pos n)) (some q) =
      if ltb n q
      then quantity_exception ExceptionType.short_shipment q v
      else if ltb q n
      then quantity_exception ExceptionType.over_shipment q v
      else []
  quantity_exceptions v (some (negsuc n)) (some q) =
      quantity_exception ExceptionType.short_shipment q v
  quantity_exceptions v _ _ = []

  -- `_exceptions_from_observations`
  unfoldable pub exceptions_from_observations : Fields → TurvoShipmentPodInputs → List PodException
  unfolding get strip mentions_refusal
  exceptions_from_observations pod_observations turvo_inputs =
      let pallets_shipped = get pod_observations "pallets_shipped" in
      damage_exceptions pod_observations
      ++ quantity_exceptions pallets_shipped (number_of pallets_shipped)
          turvo_inputs.ordered_pallet_qty
