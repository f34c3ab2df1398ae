-- ===== src/PodScore/Remarks.antt =====
-- The remark templates of app/domain/pod_lifecycle/scoring_constants.py.
use Prim.Native.String.{◌++◌}
use testingmulti.Common.{List, String, [], lookup, or_else, ◌∷◌}
use testingmulti.PodScore.{StopType}

abbrev pub stop_type_text : StopType → String
stop_type_text StopType.pickup = "pickup"
stop_type_text StopType.delivery = "delivery"

abbrev pub remark_no_turvo_po : String
remark_no_turvo_po = "No Turvo PO found for this shipment; cannot score."

abbrev pub remark_signature_absent : String
remark_signature_absent = "No proof of delivery found on the document"

abbrev pub remark_signature_present : String
remark_signature_present = "Proof of delivery confirmed"

-- `" and ".join(parts)`
abbrev pub join_and : List String → String
join_and [] = ""
join_and (s ∷ []) = s
join_and (s ∷ t ∷ ss) = s ++ " and " ++ join_and (t ∷ ss)

abbrev pub confirmed_via : List String → String
confirmed_via display_sources = "Confirmed via " ++ join_and display_sources

-- `REMARK_REFERENCE_ID_MATCH_TEMPLATE`, with the texts of the two counts
abbrev pub remark_reference_id_match : String → String → StopType → String
remark_reference_id_match matched total t =
    matched ++ " of " ++ total ++ " " ++ stop_type_text t ++ " PO numbers matched"

abbrev pub remark_reference_id_no_match : StopType → String
remark_reference_id_no_match t = "None of the " ++ stop_type_text t ++ " PO numbers matched"

abbrev pub remark_reference_id_no_pos : StopType → String
remark_reference_id_no_pos t = "No PO numbers configured for " ++ stop_type_text t

abbrev pub remark_matches : String → String
remark_matches display_label = display_label ++ " matches"

-- `REMARK_DATE_MISMATCH_TEMPLATE` and `REMARK_TEXT_NO_MATCH_TEMPLATE`
abbrev pub remark_does_not_match : String → String
remark_does_not_match display_label = display_label ++ " does not match"

-- `REMARK_DATE_MISSING_TEMPLATE` and `REMARK_TEXT_MISSING_TEMPLATE`
abbrev pub remark_missing : String → String
remark_missing display_label = display_label ++ " not found on POD"

abbrev pub remark_found : String → String
remark_found display_label = display_label ++ " found on POD"

-- `FIELD_DISPLAY_LABELS.get(label, label)`
abbrev pub display_label_of : String → String
display_label_of label =
    or_else
      (lookup label (
        ("pickup_date", "Pickup date")
        ∷ ("delivery_date", "Delivery date")
        ∷ ("pickup_location", "Pickup location")
        ∷ ("pickup_address", "Pickup address")
        ∷ ("delivery_location", "Delivery location")
        ∷ ("delivery_address", "Delivery address")
        ∷ []))
      label

-- `EXCEPTION_DAMAGE_DEFAULT_DETAIL`
abbrev pub damage_default_detail : String
damage_default_detail = "Damage detected on POD."

-- `EXCEPTION_PALLET_QTY_TEMPLATE`, with the texts of the two quantities
abbrev pub pallet_qty_detail : String → String → String
pallet_qty_detail ordered_qty pallets_shipped =
    "Expected " ++ ordered_qty ++ " pallets, received " ++ pallets_shipped ++ "."
