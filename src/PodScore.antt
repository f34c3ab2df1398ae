-- ===== src/PodScore.antt =====
-- Scoring a proof of delivery against the Turvo shipment: the results of
-- app/domain/pod_lifecycle/pod_score_result.py and the inputs of app/integrations/turvo/pod_inputs.py,
-- with the points of app/domain/pod_lifecycle/scoring_constants.py.
pub mod Rounding
pub mod Remarks
pub mod Words
pub mod ScoredFields
pub mod DetailFields
pub mod Exceptions
pub mod Scoring
pub mod Bounds
pub mod Verdict
pub mod Matched
pub mod Flags
pub mod Inputs
mod Examples
use testingmulti.Common.{Bool, List, Option, String, ℕ}
use testingmulti.Common.Value.{Value}

pub data StopType : Type 0 where
  pickup : StopType
  delivery : StopType

pub data FieldCategory : Type 0 where
  identity : FieldCategory
  shipment_detail : FieldCategory

pub data ExceptionType : Type 0 where
  damage : ExceptionType
  short_shipment : ExceptionType
  over_shipment : ExceptionType
  refused_delivery : ExceptionType

abbrev pub pass_threshold : ℕ
pass_threshold = 90

abbrev pub signature_points : ℕ
signature_points = 60

abbrev pub reference_id_points_per_stop : ℕ
reference_id_points_per_stop = 20

abbrev pub date_points : ℕ
date_points = 10

abbrev pub text_points : ℕ
text_points = 5

abbrev pub label_signature : String
label_signature = "signature"

abbrev pub label_reference_id : String
label_reference_id = "reference_id"

-- One PO comparison within a reference_id field
pub record PoComparison : Type 0 where
  pub po_number : String
  pub matched : Bool
  pub source : Option String
  pub target : Option String

-- One scored field within a stop
pub record ScoredField : Type 0 where
  pub label : String
  pub category : FieldCategory
  pub score : ℕ
  pub max_score : ℕ
  pub remark : Option String
  pub source : Option String
  pub target : Option String
  pub comparisons : Option (List PoComparison)

pub record StopScore : Type 0 where
  pub stop_type : StopType
  pub stop_order : ℕ
  pub fields : List ScoredField
  pub stop_times : Option (List Value)

pub record PodException : Type 0 where
  pub exception_type : ExceptionType
  pub detail : String

pub record PodScoreResult : Type 0 where
  pub final_score : ℕ
  pub max_score : ℕ
  pub threshold : ℕ
  pub stops : List StopScore
  pub exceptions : Option (List PodException)
  pub remarks : Option (List String)
  pub review_reasons : Option (List String)
  pub needs_action : Bool

-- One stop-scoped PO of a shipment
pub record TurvoPurchaseOrder : Type 0 where
  pub po_number : String
  pub stop_type : StopType
  pub stop_id : String

pub record TurvoStop : Type 0 where
  pub name : String
  pub address : String
  pub po_numbers : List String
  pub time_zone : Option String
  pub stop_id : String
  pub stop_type : Option StopType

-- The Turvo side of a score
pub record TurvoShipmentPodInputs : Type 0 where
  pub is_single_stop : Bool
  pub pickup : TurvoStop
  pub delivery : TurvoStop
  pub purchase_orders : List TurvoPurchaseOrder
  pub pickup_date : Option String
  pub delivery_date : Option String
  pub ordered_pallet_qty : Option ℕ
  pub custom_id : Option String
  pub stops : List TurvoStop
