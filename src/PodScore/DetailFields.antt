-- ===== src/PodScore/DetailFields.antt =====
-- The shipment detail fields of a stop: dates, and texts that must share a token
-- (app/services/pod_lifecycle/pod_scoring.py).
use testingmulti.PodScore.{
  FieldCategory, ScoredField, StopType, TurvoShipmentPodInputs, date_points, text_points,
}
use testingmulti.PodScore.Remarks.{
  display_label_of, remark_does_not_match, remark_found, remark_matches, remark_missing,
}
use testingmulti.PodScore.ScoredFields.{Python}
use testingmulti.PodScore.Words.{tokens}
use testingmulti.Common.{
  Bool, Option, String, any, contains, eqb, false, if◌then◌else◌, map_option, none, or_else, some,
  true, ℕ, ◌||◌,
}
use testingmulti.Common.Value.{Fields, Value, clean_text, get, null, str}
use testingmulti.Common.Text.{is_empty, non_empty, replace, strip}
use Prim.Native.String.{[], ◌∷◌}
use mathlib.Core.List.{List, [], ◌∷◌}

module _ (py : Python) where
  abbrev in_zone : py.Instant → Option String → py.Instant
  in_zone parsed none = parsed
  in_zone parsed (some z) = if is_empty z then parsed else or_else (py.astimezone parsed z) parsed

  abbrev with_tzinfo : py.Instant → py.Instant
  with_tzinfo parsed = if py.has_tzinfo parsed then parsed else py.replace_utc parsed

  -- `_calendar_date_in_zone`
  unfoldable pub calendar_date_in_zone : Value → Option String → Option ℕ
  unfolding strip replace
  calendar_date_in_zone iso_value time_zone =
      let text = clean_text py.render iso_value in
      if is_empty text
      then none
      else map_option (λ parsed. py.date (in_zone (with_tzinfo parsed) time_zone))
          (py.fromisoformat (replace text "Z" "+00:00"))

  -- `_clean_iso_text`
  abbrev clean_iso_text : Value → Option String
  clean_iso_text v = non_empty (clean_text py.render v)

  abbrev text_value : Option String → Value
  text_value none = null
  text_value (some s) = str s

  -- `turvo_date is not None and turvo_date == pod_date`
  abbrev same_date : Option ℕ → Option ℕ → Bool
  same_date (some d) (some e) = eqb d e
  same_date _ _ = false

  abbrev date_remark : String → Bool → Option ℕ → String
  date_remark label true _ = remark_matches (display_label_of label)
  date_remark label false none = remark_missing (display_label_of label)
  date_remark label false (some _) = remark_does_not_match (display_label_of label)

  -- `_date_field`
  unfoldable pub date_field : String → Option String → Value → Option String → ScoredField
  unfolding strip
  date_field label target source time_zone =
      let turvo_date = calendar_date_in_zone (text_value target) time_zone in
      let pod_date = calendar_date_in_zone source time_zone in
      let hit = same_date turvo_date pod_date in
      record {
        label = label;
        category = FieldCategory.shipment_detail;
        score = if hit then date_points else 0;
        max_score = date_points;
        remark = some (date_remark label hit pod_date);
        source = clean_iso_text source;
        target = target;
        comparisons = none;
      }

  abbrev no_tokens : List String → Bool
  no_tokens [] = true
  no_tokens (_ ∷ _) = false

  -- `not turvo_tokens or bool(turvo_tokens & pod_tokens)`
  abbrev identifiable : List String → List String → Bool
  identifiable turvo_tokens pod_tokens =
      no_tokens turvo_tokens || any (contains pod_tokens) turvo_tokens

  abbrev text_remark : String → Bool → Bool → String
  text_remark label true _ = remark_missing (display_label_of label)
  text_remark label false true = remark_found (display_label_of label)
  text_remark label false false = remark_does_not_match (display_label_of label)

  -- `_identifiable_text_field`
  unfoldable pub identifiable_text_field : String → String → Value → ScoredField
  unfolding strip tokens
  identifiable_text_field label target source =
      let pod_text = clean_text py.render source in
      let missing = is_empty pod_text in
      let hit = identifiable (tokens target) (tokens pod_text) in
      record {
        label = label;
        category = FieldCategory.shipment_detail;
        score = if missing then 0 else if hit then text_points else 0;
        max_score = text_points;
        remark = some (text_remark label missing hit);
        source = non_empty pod_text;
        target = non_empty target;
        comparisons = none;
      }

  -- `_shipment_detail_fields`
  unfoldable pub shipment_detail_fields :
      StopType → TurvoShipmentPodInputs → Fields → List ScoredField
  unfolding get
  shipment_detail_fields StopType.pickup turvo_inputs pod_observations =
      date_field "pickup_date" turvo_inputs.pickup_date (get pod_observations "pickup_date")
        turvo_inputs.pickup.time_zone
      ∷ identifiable_text_field "pickup_location" turvo_inputs.pickup.name
          (get pod_observations "pickup_location")
      ∷ identifiable_text_field "pickup_address" turvo_inputs.pickup.address
          (get pod_observations "pickup_address")
      ∷ []
  shipment_detail_fields StopType.delivery turvo_inputs pod_observations =
      date_field "delivery_date" turvo_inputs.delivery_date (get pod_observations "delivery_date")
        turvo_inputs.delivery.time_zone
      ∷ identifiable_text_field "delivery_location" turvo_inputs.delivery.name
          (get pod_observations "delivery_location")
      ∷ identifiable_text_field "delivery_address" turvo_inputs.delivery.address
          (get pod_observations "delivery_address")
      ∷ []
