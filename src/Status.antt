-- ===== src/Status.antt =====
-- Lifecycle statuses and activity kinds: app/models/status.py, activity_type.py, pause_type.py and
-- app/domain/status_parsing.py.
pub mod Parsing
mod Examples
use testingmulti.Common.{
  ℕ, String, ◌≡◌, refl, Bool, true, false, Option, none, some, List, [], ◌∷◌, find, ◌==◌,
  if◌then◌else◌,
}
use testingmulti.Common.Text.{strip, is_empty, title, replace}

-- `StatusType`; `none_status` is its member NONE.
pub data StatusType : Type 0 where
  none_status pending_review processing completed failed : StatusType

-- `StatusSubType`; `none_sub` is its member NONE.
pub data StatusSubType : Type 0 where
  none_sub tender_created tender_sent_to_tenant : StatusSubType
  tender_sent_to_tenant_for_carrier_1 tender_sent_to_tenant_for_carrier_2 : StatusSubType
  tender_sent_to_tenant_for_carrier_3 tender_sent_to_carrier : StatusSubType
  tender_sent_to_carrier_1 tender_sent_to_carrier_2 tender_sent_to_carrier_3 : StatusSubType
  reminder_1_sent reminder_2_sent reminder_3_sent reminder_4_sent : StatusSubType
  pod_started driver_assignment_started accepted rejected do_nothing escalated : StatusSubType
  ratecon_started document_uploaded document_processed uploaded_to_tms cancelled : StatusSubType
  resolved_manually appointment_scheduling_started appointment_draft_created : StatusSubType
  awaiting_customer_reply appointment_scheduled : StatusSubType

-- `.value` of a status
abbrev pub status_value : StatusType → String
status_value none_status = "none"
status_value pending_review = "pending_review"
status_value processing = "processing"
status_value completed = "completed"
status_value failed = "failed"

-- `.value` of a sub-status
abbrev pub sub_status_value : StatusSubType → String
sub_status_value none_sub = "none"
sub_status_value tender_created = "tender_created"
sub_status_value tender_sent_to_tenant = "tender_sent_to_tenant"
sub_status_value tender_sent_to_tenant_for_carrier_1 = "tender_sent_to_tenant_for_carrier_1"
sub_status_value tender_sent_to_tenant_for_carrier_2 = "tender_sent_to_tenant_for_carrier_2"
sub_status_value tender_sent_to_tenant_for_carrier_3 = "tender_sent_to_tenant_for_carrier_3"
sub_status_value tender_sent_to_carrier = "tender_sent_to_carrier"
sub_status_value tender_sent_to_carrier_1 = "tender_sent_to_carrier_1"
sub_status_value tender_sent_to_carrier_2 = "tender_sent_to_carrier_2"
sub_status_value tender_sent_to_carrier_3 = "tender_sent_to_carrier_3"
sub_status_value reminder_1_sent = "reminder_1_sent"
sub_status_value reminder_2_sent = "reminder_2_sent"
sub_status_value reminder_3_sent = "reminder_3_sent"
sub_status_value reminder_4_sent = "reminder_4_sent"
sub_status_value pod_started = "pod_started"
sub_status_value driver_assignment_started = "driver_assignment_started"
sub_status_value accepted = "accepted"
sub_status_value rejected = "rejected"
sub_status_value do_nothing = "do_nothing"
sub_status_value escalated = "escalated"
sub_status_value ratecon_started = "ratecon_started"
sub_status_value document_uploaded = "document_uploaded"
sub_status_value document_processed = "document_processed"
sub_status_value uploaded_to_tms = "uploaded_to_tms"
sub_status_value cancelled = "cancelled"
sub_status_value resolved_manually = "resolved_manually"
sub_status_value appointment_scheduling_started = "appointment_scheduling_started"
sub_status_value appointment_draft_created = "appointment_draft_created"
sub_status_value awaiting_customer_reply = "awaiting_customer_reply"
sub_status_value appointment_scheduled = "appointment_scheduled"

-- The members, in the order of their declaration.
abbrev pub status_types : List StatusType
status_types = none_status ∷ pending_review ∷ processing ∷ completed ∷ failed ∷ []

abbrev pub sub_status_types : List StatusSubType
sub_status_types =
    none_sub ∷ tender_created ∷ tender_sent_to_tenant ∷ tender_sent_to_tenant_for_carrier_1
    ∷ tender_sent_to_tenant_for_carrier_2 ∷ tender_sent_to_tenant_for_carrier_3
    ∷ tender_sent_to_carrier ∷ tender_sent_to_carrier_1 ∷ tender_sent_to_carrier_2
    ∷ tender_sent_to_carrier_3 ∷ reminder_1_sent ∷ reminder_2_sent ∷ reminder_3_sent
    ∷ reminder_4_sent ∷ pod_started ∷ driver_assignment_started ∷ accepted ∷ rejected ∷ do_nothing
    ∷ escalated ∷ ratecon_started ∷ document_uploaded ∷ document_processed ∷ uploaded_to_tms
    ∷ cancelled ∷ resolved_manually ∷ appointment_scheduling_started ∷ appointment_draft_created
    ∷ awaiting_customer_reply ∷ appointment_scheduled ∷ []

-- `status_type_from_db`
unfoldable pub status_type_from_db : Option String → Option StatusType
unfolding strip
status_type_from_db none = none
status_type_from_db (some raw) =
    if is_empty (strip raw) then none else find (λ t. status_value t == strip raw) status_types

-- `sub_status_type_from_db`
unfoldable pub sub_status_type_from_db : Option String → Option StatusSubType
unfolding strip
sub_status_type_from_db none = none
sub_status_type_from_db (some raw) =
    if is_empty (strip raw)
    then none
    else find (λ t. sub_status_value t == strip raw) sub_status_types

-- `ActivityType`
pub data ActivityType : Type 0 where
  action exception info status_change sub_status_change : ActivityType

abbrev pub is_snapshot_activity_type : ActivityType → Bool
is_snapshot_activity_type action = true
is_snapshot_activity_type exception = true
is_snapshot_activity_type info = true
is_snapshot_activity_type _ = false

abbrev pub is_exception : ActivityType → Bool
is_exception exception = true
is_exception _ = false

-- `ActorType`
pub data ActorType : Type 0 where
  system user : ActorType

abbrev pub system_actor_id : String
system_actor_id = "00000000-0000-0000-0000-000000000001"

-- `PauseType` of app/models/pause_type.py
pub data PauseType : Type 0 where
  system_error business_exception : PauseType

-- The display labels of app/domain/status_display_labels.py
abbrev format_slug : String → String
format_slug slug = title (replace slug "_" " ")

unfoldable pub label_status : StatusType → String
unfolding title replace
label_status none_status = "None"
label_status s = format_slug (status_value s)

unfoldable pub label_sub_status : StatusSubType → String
unfolding title replace
label_sub_status none_sub = "None"
label_sub_status tender_sent_to_tenant = "Tender Sent To Shipper"
label_sub_status tender_sent_to_tenant_for_carrier_1 = "Tender Sent To Shipper For Carrier 1"
label_sub_status tender_sent_to_tenant_for_carrier_2 = "Tender Sent To Shipper For Carrier 2"
label_sub_status tender_sent_to_tenant_for_carrier_3 = "Tender Sent To Shipper For Carrier 3"
label_sub_status s = format_slug (replace (sub_status_value s) "tenant" "shipper")

label_sub_status_test : label_sub_status reminder_1_sent ≡ "Reminder 1 Sent"
unfolding label_sub_status
label_sub_status_test = refl
