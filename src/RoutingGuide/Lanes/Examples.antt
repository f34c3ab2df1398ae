-- ===== src/RoutingGuide/Lanes/Examples.antt =====
-- Two rows of one postal code.
use testingmulti.RoutingGuide.Lanes.{
  Matcher, RoutingGuideRow, gelita_select_lane, normalize_partner_label,
  partner_matches_source_label, plan_carrier_for_attempt,
}
use testingmulti.RoutingGuide.Lanes.Chosen.{OnlyMatch, gelita_select_lane-OnlyMatch}
use testingmulti.Common.Value.{end}
use testingmulti.Common.Text.{is_empty, lower_char, lstrip, map_chars, strip}
use testingmulti.Common.{String, [], false, refl, some, ◌↔◌, ◌∷◌, ◌≡◌}

abbrev exact : Matcher
exact = record { casefold = map_chars lower_char; token_set_ratio = λ a b. 0 }

abbrev lane : String → String → RoutingGuideRow
lane id customer_name = record {
  id = id;
  customer_name = customer_name;
  zipcode = "60601";
  city = "Chicago";
  state = "IL";
  metadata = end;
  customer_aliases = [];
  carriers = ("a", record { name = "First"; email = "first@carrier.test" }) ∷ [];
}

gelita_select_lane-OnlyMatch_example :
    (gelita_select_lane exact (lane "1" "Acme, Inc." ∷ lane "2" "Other" ∷ []) " ACME  inc "
      ≡ some (lane "1" "Acme, Inc."))
    ↔ ((is_empty (strip " ACME  inc ") ≡ false)
        × OnlyMatch exact
            (strip " ACME  inc ")
            (lane "1" "Acme, Inc." ∷ lane "2" "Other" ∷ [])
            (lane "1" "Acme, Inc."))
gelita_select_lane-OnlyMatch_example =
    gelita_select_lane-OnlyMatch exact (lane "1" "Acme, Inc.") (lane "2" "Other") [] " ACME  inc "
      (lane "1" "Acme, Inc.")

-- The row whose name has the letters of the label is chosen.
chosen :
    gelita_select_lane exact (lane "1" "Acme, Inc." ∷ lane "2" "Other" ∷ []) " ACME  inc "
    ≡ some (lane "1" "Acme, Inc.")
unfolding gelita_select_lane partner_matches_source_label normalize_partner_label strip lstrip
chosen = refl

first_carrier :
    plan_carrier_for_attempt (lane "1" "Acme").carriers 0 ≡ ("First", "first@carrier.test")
first_carrier = refl

no_third_carrier : plan_carrier_for_attempt (lane "1" "Acme").carriers 3 ≡ ("", "")
no_third_carrier = refl
