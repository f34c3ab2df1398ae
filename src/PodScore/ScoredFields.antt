-- ===== src/PodScore/ScoredFields.antt =====
-- The scored fields of a stop (app/services/pod_lifecycle/pod_scoring.py).
use testingmulti.PodScore.{
  FieldCategory, PoComparison, ScoredField, StopType, TurvoPurchaseOrder, TurvoShipmentPodInputs,
  label_reference_id, label_signature, reference_id_points_per_stop, signature_points,
}
use testingmulti.PodScore.Remarks.{
  confirmed_via, remark_reference_id_match, remark_reference_id_no_match,
  remark_reference_id_no_pos, remark_signature_absent, remark_signature_present,
}
use testingmulti.PodScore.Rounding.{round_ratio}
use testingmulti.Common.Value.{items_of}
use testingmulti.Common.{
  Bool, List, Option, String, [], any, eqb, false, if◌then◌else◌, length, lookup, map, none,
  or_else, some, suc, true, ℕ, ◌*◌, ◌==◌, ◌∷◌,
}
use testingmulti.Common.Value.{
  Fields, Value, arr, as_dict, bool, clean_text, elements, end, field, get, int, obj, pos, str,
  truthy,
}
use testingmulti.Common.Text.{strip}

-- What the scoring asks of Python: the text of values that are no texts, `str.casefold`, and the
-- calendar day of an ISO text in a time zone. An instant is what `datetime.fromisoformat` returns.
pub record Python : Type 1 where
  pub Instant : Type 0
  pub render : Value → String
  pub casefold : String → String
  pub fromisoformat : String → Option Instant
  pub has_tzinfo : Instant → Bool
  pub replace_utc : Instant → Instant
  pub astimezone : Instant → String → Option Instant
  pub date : Instant → ℕ

module _ (py : Python) where
  -- `str(v)`
  abbrev pub str_value : Value → String
  str_value (str s) = s
  str_value v = py.render v

  abbrev pub count_text : ℕ → String
  count_text n = py.render (int (pos n))

  abbrev display_source : Value → String
  display_source v =
      or_else
        (lookup (str_value v) (
          ("receiver_signature", "receiver signature")
          ∷ ("stamp", "stamp")
          ∷ ("delivery_sticker", "delivery sticker")
          ∷ []))
        (str_value v)

  abbrev signature_remark : List Value → String
  signature_remark [] = remark_signature_present
  signature_remark (s ∷ ss) = confirmed_via (map display_source (s ∷ ss))

  -- `_signature_field`, where the proof sources are texts
  unfoldable pub signature_field : Fields → ScoredField
  signature_field pod_observations =
      let present = truthy (get pod_observations "delivery_signature_present") in
      record {
        label = label_signature;
        category = FieldCategory.identity;
        score = if present then signature_points else 0;
        max_score = signature_points;
        remark = some (
            if present
            then signature_remark
                (elements (items_of (get pod_observations "delivery_proof_sources")))
            else remark_signature_absent);
        source = none;
        target = none;
        comparisons = none;
      }

  abbrev pub same_stop : StopType → StopType → Bool
  same_stop StopType.pickup StopType.pickup = true
  same_stop StopType.delivery StopType.delivery = true
  same_stop _ _ = false

  -- The purchase orders of one kind of stop
  abbrev pub pos_of : StopType → List TurvoPurchaseOrder → List TurvoPurchaseOrder
  pos_of t [] = []
  pos_of t (po ∷ rest) = if same_stop po.stop_type t then po ∷ pos_of t rest else pos_of t rest

  abbrev any_item : (Value → Bool) → Value → Bool
  any_item p (arr vs) = any p (elements vs)
  any_item p _ = false

  abbrev listed_reference : String → Fields → Bool
  listed_reference po_number pod_observations =
      any_item (λ v. py.casefold (clean_text py.render v) == py.casefold (strip po_number))
        (get pod_observations "extracted_reference_numbers")

  abbrev reference_match : Bool → Fields
  reference_match true = field "reference_and_stop_match" (bool true) end
  reference_match false = end

  -- `v` if it is a dictionary, else `fallback`
  abbrev dict_or : Value → Fields → Fields
  dict_or (obj d) fallback = d
  dict_or _ fallback = fallback

  -- `_po_stop_match`
  unfoldable pub po_stop_match : String → Fields → Fields
  unfolding get strip
  po_stop_match po_number pod_observations =
      dict_or (get (as_dict (get pod_observations "po_matches")) po_number)
        (reference_match (listed_reference po_number pod_observations))

  -- `is_matched` in `_reference_id_field`
  abbrev pub is_matched : Fields → TurvoPurchaseOrder → Bool
  is_matched pod_observations po =
      truthy (get (po_stop_match po.po_number pod_observations) "reference_and_stop_match")

  abbrev pub count_matched : Fields → List TurvoPurchaseOrder → ℕ
  count_matched pod_observations [] = 0
  count_matched pod_observations (po ∷ rest) =
      let n = count_matched pod_observations rest in
      if is_matched pod_observations po then suc n else n

  abbrev comparison : Fields → TurvoPurchaseOrder → PoComparison
  comparison pod_observations po =
      let hit = is_matched pod_observations po in
      record {
        po_number = po.po_number;
        matched = hit;
        source = if hit then some po.po_number else none;
        target = some po.po_number;
      }

  -- `round(REFERENCE_ID_POINTS_PER_STOP * matched_count / total)`, and 0 without purchase orders
  abbrev pub reference_id_score : Fields → List TurvoPurchaseOrder → ℕ
  reference_id_score pod_observations [] = 0
  reference_id_score pod_observations (po ∷ rest) =
      round_ratio (reference_id_points_per_stop * count_matched pod_observations (po ∷ rest))
        (length (po ∷ rest))

  abbrev reference_id_remark : StopType → Fields → List TurvoPurchaseOrder → String
  reference_id_remark t pod_observations [] = remark_reference_id_no_pos t
  reference_id_remark t pod_observations (po ∷ rest) =
      let matched_count = count_matched pod_observations (po ∷ rest) in
      if eqb matched_count 0
      then remark_reference_id_no_match t
      else remark_reference_id_match (count_text matched_count) (count_text (length (po ∷ rest))) t

  -- `_reference_id_field`
  unfoldable pub reference_id_field : StopType → TurvoShipmentPodInputs → Fields → ScoredField
  reference_id_field t turvo_inputs pod_observations =
      let stop_pos = pos_of t turvo_inputs.purchase_orders in
      record {
        label = label_reference_id;
        category = FieldCategory.identity;
        score = reference_id_score pod_observations stop_pos;
        max_score = reference_id_points_per_stop;
        remark = some (reference_id_remark t pod_observations stop_pos);
        source = none;
        target = none;
        comparisons = some (map (comparison pod_observations) stop_pos);
      }
