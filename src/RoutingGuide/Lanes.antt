-- ===== src/RoutingGuide/Lanes.antt =====
-- The lane of a tender among the rows of the guide, and the carrier of an attempt
-- (app/domain/gelita/routing_guide.py, app/domain/routing_guide/types.py).
pub mod Chosen
mod Examples
use testingmulti.RoutingGuide.{at_least_one}
use testingmulti.Common.{
  Bool, Dict, Option, String, eqb, false, if◌then◌else◌, leb, lookup, none, not, some, ℕ, ◌&&◌,
  ◌==◌, ◌||◌,
}
use testingmulti.Common.Value.{Fields}
use testingmulti.Common.Text.{is_digit, is_empty, lstrip, strip}
use Prim.Native.String
use Prim.Native.Char.{Char, code}
use Prim.Native.String.{[], ◌∷◌}
use mathlib.Core.List.{List, [], ◌∷◌}
use testingmulti.Common.Text.{is_space}

-- `PlanCarrierSlot`
pub record PlanCarrierSlot : Type 0 where
  pub name : String
  pub email : String

-- `RoutingGuideRow`
pub record RoutingGuideRow : Type 0 where
  pub id : String
  pub customer_name : String
  pub zipcode : String
  pub city : String
  pub state : String
  pub metadata : Fields
  pub customer_aliases : List String
  pub carriers : Dict PlanCarrierSlot

-- What the look-up asks of Python and of the package thefuzz: `str.casefold` and
-- `fuzz.token_set_ratio`.
pub record Matcher : Type 0 where
  pub casefold : String → String
  pub token_set_ratio : String → String → ℕ

-- `_PARTNER_FUZZY_THRESHOLD`
abbrev pub partner_fuzzy_threshold : ℕ
partner_fuzzy_threshold = 80

-- `" ".join(s.split())`, for a text without white space in front; the flag says that white space was
-- passed.
collapse_from : Bool → String → String
collapse_from passed [] = []
collapse_from passed (c ∷ s) =
    let rest = collapse_from (is_space c) s in
    if is_space c then rest else if passed then String.◌++◌ " " (c ∷ rest) else c ∷ rest

abbrev is_lower_alphanumeric : Char → Bool
is_lower_alphanumeric c = let n = code c in (leb b'a' n && leb n b'z') || is_digit c

-- `_NON_ALNUM_RE.sub("", s)`
abbrev only_alphanumeric : String → String
only_alphanumeric [] = []
only_alphanumeric (c ∷ s) =
    let rest = only_alphanumeric s in if is_lower_alphanumeric c then c ∷ rest else rest

abbrev pub only_one : List RoutingGuideRow → Option RoutingGuideRow
only_one (row ∷ []) = some row
only_one _ = none

module _ (py : Matcher) where
  -- `gelita_normalize_partner_label`
  unfoldable pub normalize_partner_label : String → String
  unfolding strip lstrip collapse_from
  normalize_partner_label value =
      only_alphanumeric (collapse_from false (lstrip (py.casefold (strip value))))

  abbrev candidate_matches : String → String → Bool
  candidate_matches needle haystack =
      not (is_empty haystack)
      && (needle == haystack || leb partner_fuzzy_threshold (py.token_set_ratio needle haystack))

  abbrev any_matches : String → List String → Bool
  any_matches needle [] = false
  any_matches needle (candidate ∷ candidates) =
      candidate_matches needle (normalize_partner_label candidate) || any_matches needle candidates

  -- `gelita_partner_matches_source_label`
  unfoldable pub partner_matches_source_label : String → String → List String → Bool
  unfolding normalize_partner_label
  partner_matches_source_label source_partner_label customer_name customer_aliases =
      let needle = normalize_partner_label source_partner_label in
      not (is_empty needle) && any_matches needle (customer_name ∷ customer_aliases)

  -- Whether a row is one of the partner
  abbrev pub row_matches : String → RoutingGuideRow → Bool
  row_matches needle row =
      partner_matches_source_label needle row.customer_name row.customer_aliases

  abbrev pub matched_rows : String → List RoutingGuideRow → List RoutingGuideRow
  matched_rows needle [] = []
  matched_rows needle (row ∷ rows) =
      let rest = matched_rows needle rows in if row_matches needle row then row ∷ rest else rest

  -- `gelita_select_lane`
  unfoldable pub gelita_select_lane : List RoutingGuideRow → String → Option RoutingGuideRow
  unfolding partner_matches_source_label strip
  gelita_select_lane [] source_partner_label = none
  gelita_select_lane (row ∷ []) source_partner_label = some row
  gelita_select_lane (row ∷ other ∷ rows) source_partner_label =
      let needle = strip source_partner_label in
      if is_empty needle then none else only_one (matched_rows needle (row ∷ other ∷ rows))

-- `gelita_plan_slot_for_attempt`
abbrev pub plan_slot_for_attempt : ℕ → String
plan_slot_for_attempt attempt =
    let raised = at_least_one attempt in
    if eqb raised 1 then "a" else if eqb raised 2 then "b" else "c"

abbrev pub carrier_of : Option PlanCarrierSlot → String × String
carrier_of none = ("", "")
carrier_of (some slot) = (slot.name, slot.email)

-- `gelita_plan_carrier_for_attempt`
abbrev pub plan_carrier_for_attempt : Dict PlanCarrierSlot → ℕ → String × String
plan_carrier_for_attempt carriers attempt =
    carrier_of (lookup (plan_slot_for_attempt attempt) carriers)
