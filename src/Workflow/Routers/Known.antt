-- ===== src/Workflow/Routers/Known.antt =====
-- Every router names one of its branches.
use testingmulti.Workflow.Routers.Guards.{Domain}
use testingmulti.Workflow.Routers.Pod.{
  pod_missing_dispatch_router, pod_reminder_eligibility_router, pod_stop_type_router,
  post_pod_processing_router, read_workflow_lifecycle_router, shipment_router,
  trim_ratecon_pages_router,
}
use testingmulti.Workflow.Routers.Appointment.{
  appointment_post_read_router, appointment_weekend_pickup_router, customer_reply_router,
}
use testingmulti.Workflow.Routers.Tendering.{
  automatic_reply_ack_router, carrier_ack_router, load_type_router, post_read_tender_router,
  routing_guide_router,
}
use testingmulti.Workflow.Routers.Driver.{
  driver_assignment_delayed_eligibility_router, driver_assignment_delayed_event_router,
  driver_assignment_eligibility_router, driver_details_router, driver_of, or_dict, searchable,
  tms_driver_router, tms_searchable_router,
}
use testingmulti.Common.{
  Bool, List, String, [], contains, false, if◌then◌else◌, refl, true, ◌∷◌, ◌≡◌,
}
use testingmulti.Common.Value.{Fields, Value, arr, bool, get, int, null, obj, str}

pub record Known (ks : List String) (s : String) : Type 0 where
  pub known : contains ks s ≡ true

branch :
    {ks : List String} (c : Bool) {x y : String}
    → Known ks x
    → Known ks y
    → Known ks (if c then x else y)
branch true h k = h
branch false h k = k

pub this : {ks : List String} {s : String} → contains ks s ≡ true → Known ks s
this h = record { known = h }

-- A text that is one of the branches, or else `d`
picked : (ks : List String) (s d : String) → Known ks d → Known ks (if contains ks s then s else d)
picked ks s d h = go (contains ks s) refl
  where
    go : (c : Bool) → contains ks s ≡ c → Known ks (if c then s else d)
    go true e = this e
    go false e = h

pub pod_missing_dispatch_router-Known :
    (state : Fields)
    → Known
        ("exists" ∷ "exists_on_reminder" ∷ "schedule_initial" ∷ "send_now" ∷ "skip_send" ∷ [])
        (pod_missing_dispatch_router state)
unfolding pod_missing_dispatch_router
pod_missing_dispatch_router-Known state = search (branch, this)

pub pod_reminder_eligibility_router-Known :
    (state : Fields) → Known ("eligible" ∷ "skip" ∷ []) (pod_reminder_eligibility_router state)
unfolding pod_reminder_eligibility_router
pod_reminder_eligibility_router-Known state = search (branch, this)

pub read_workflow_lifecycle_router-Known :
    (state : Fields) → Known ("is_found" ∷ "missing" ∷ []) (read_workflow_lifecycle_router state)
unfolding read_workflow_lifecycle_router
read_workflow_lifecycle_router-Known state = search (branch, this)

pub post_pod_processing_router-Known :
    (state : Fields) → Known ("manual" ∷ "email" ∷ []) (post_pod_processing_router state)
unfolding post_pod_processing_router
post_pod_processing_router-Known state = search (branch, this)

pub driver_assignment_delayed_event_router-Known :
    (state : Fields)
    → Known ("reminder_due" ∷ "escalation_due" ∷ []) (driver_assignment_delayed_event_router state)
unfolding driver_assignment_delayed_event_router
driver_assignment_delayed_event_router-Known state = search (branch, this)

pub driver_assignment_eligibility_router-Known :
    (state : Fields) → Known ("eligible" ∷ "skip" ∷ []) (driver_assignment_eligibility_router state)
unfolding driver_assignment_eligibility_router
driver_assignment_eligibility_router-Known state = search (branch, this)

pub driver_assignment_delayed_eligibility_router-Known :
    (state : Fields)
    → Known
        ("eligible" ∷ "driver_already_assigned" ∷ "skip" ∷ [])
        (driver_assignment_delayed_eligibility_router state)
unfolding driver_assignment_delayed_eligibility_router
driver_assignment_delayed_eligibility_router-Known state = search (branch, this)

pub automatic_reply_ack_router-Known :
    (state : Fields) → Known ("skipped" ∷ "continue" ∷ []) (automatic_reply_ack_router state)
unfolding automatic_reply_ack_router
automatic_reply_ack_router-Known state = search (branch, this)

searchable-Known :
    (v : Value) → Known ("searchable" ∷ "follow_up_only" ∷ "none" ∷ []) (searchable v)
searchable-Known (obj d) = search (branch, this)
searchable-Known null = this refl
searchable-Known (bool _) = this refl
searchable-Known (int _) = this refl
searchable-Known (str _) = this refl
searchable-Known (arr _) = this refl

pub tms_searchable_router-Known :
    (state : Fields)
    → Known ("searchable" ∷ "follow_up_only" ∷ "none" ∷ []) (tms_searchable_router state)
unfolding tms_searchable_router
tms_searchable_router-Known state =
    searchable-Known (driver_of (or_dict (get state "driver_details_extraction")))

module _ (dom : Domain) where
  pub shipment_router-Known :
      (state : Fields)
      → Known
          ("convoy" ∷ "non_convoy" ∷ "valid_shipment_status" ∷ "manual_pod_stored"
            ∷ "manual_pod_process" ∷ "invalid_shipment_status" ∷ [])
          (shipment_router dom state)
  unfolding shipment_router
  shipment_router-Known state = search (branch, this)

  pub pod_stop_type_router-Known :
      (state : Fields)
      → Known ("is_single_stop" ∷ "is_multi_stop" ∷ []) (pod_stop_type_router dom state)
  unfolding pod_stop_type_router
  pod_stop_type_router-Known state = search (branch, this)

  pub trim_ratecon_pages_router-Known :
      (state : Fields)
      → Known ("continue" ∷ "only_ratecon" ∷ []) (trim_ratecon_pages_router dom state)
  unfolding trim_ratecon_pages_router
  trim_ratecon_pages_router-Known state = search (branch, this)

  pub tms_driver_router-Known :
      (state : Fields)
      → Known ("assigned" ∷ "follow_up" ∷ "error" ∷ []) (tms_driver_router dom state)
  unfolding tms_driver_router
  tms_driver_router-Known state = search (branch, this)

  pub load_type_router-Known :
      (state : Fields) → Known ("ltl_path" ∷ "ftl_path" ∷ []) (load_type_router dom state)
  unfolding load_type_router
  load_type_router-Known state = search (branch, this)

  pub routing_guide_router-Known :
      (state : Fields)
      → Known ("advance" ∷ "exhausted" ∷ "ltl_terminal" ∷ []) (routing_guide_router dom state)
  unfolding routing_guide_router
  routing_guide_router-Known state = search (branch, this)

  pub appointment_weekend_pickup_router-Known :
      (state : Fields) → Known ("apply" ∷ "skip" ∷ []) (appointment_weekend_pickup_router dom state)
  unfolding appointment_weekend_pickup_router
  appointment_weekend_pickup_router-Known state = search (branch, this)

  pub driver_details_router-Known :
      (state : Fields)
      → Known ("has_details" ∷ "insufficient" ∷ "do_nothing" ∷ []) (driver_details_router dom state)
  unfolding driver_details_router
  driver_details_router-Known state = search (picked, this)

  pub carrier_ack_router-Known :
      (state : Fields)
      → Known ("accepted" ∷ "rejected" ∷ "do_nothing" ∷ []) (carrier_ack_router dom state)
  unfolding carrier_ack_router
  carrier_ack_router-Known state = search (picked, this)

  pub customer_reply_router-Known :
      (state : Fields)
      → Known ("accepted" ∷ "rejected" ∷ "do_nothing" ∷ []) (customer_reply_router dom state)
  unfolding customer_reply_router
  customer_reply_router-Known state = search (picked, this)

  pub post_read_tender_router-Known :
      (state : Fields)
      → Known
          ("international" ∷ "pack_code_skipped" ∷ "domestic" ∷ "completed"
            ∷ "carrier_email_received" ∷ "reminder_due" ∷ "escalation_due"
            ∷ "routing_guide_failover" ∷ "missing" ∷ [])
          (post_read_tender_router dom state)
  unfolding post_read_tender_router
  post_read_tender_router-Known state = search (branch, this) depth 9

  pub appointment_post_read_router-Known :
      (state : Fields)
      → Known ("intake" ∷ "send" ∷ "reply" ∷ "end" ∷ []) (appointment_post_read_router dom state)
  unfolding appointment_post_read_router
  appointment_post_read_router-Known state = search (branch, this) depth 9
