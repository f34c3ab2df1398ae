-- ===== src/Workflow/Routers/Registry.antt =====
-- `ROUTER_REGISTRY` of app/services/workflow_service.py.
use testingmulti.Workflow.Routers.Guards.{Domain}
use testingmulti.Workflow.Routers.Pod.{
  event_type_router, manual_tms_upload_router, pod_exists_router, pod_missing_dispatch_router,
  pod_reminder_eligibility_router, pod_stop_type_router, post_pod_processing_router,
  read_workflow_lifecycle_router, shipment_router, trim_ratecon_pages_router,
}
use testingmulti.Workflow.Routers.Appointment.{
  appointment_intake_router, appointment_post_read_router, appointment_weekend_pickup_router,
  customer_reply_router,
}
use testingmulti.Workflow.Routers.Tendering.{
  automatic_reply_ack_router, carrier_ack_router, domestic_delivery_router, load_type_router,
  post_read_tender_router, routing_guide_router, tender_status_router,
}
use testingmulti.Workflow.Routers.Driver.{
  driver_assignment_delayed_eligibility_router, driver_assignment_delayed_event_router,
  driver_assignment_eligibility_router, driver_details_router, tms_driver_router,
  tms_searchable_router,
}
use testingmulti.Common.Value.{Fields}
use testingmulti.Common.{Dict, String, [], ◌∷◌}

module _ (dom : Domain) where
  abbrev pub router_registry : Dict (Fields → String)
  router_registry =
      ("pod_exists", pod_exists_router)
      ∷ ("pod_missing_dispatch", pod_missing_dispatch_router)
      ∷ ("shipment_router", shipment_router dom)
      ∷ ("event_type", event_type_router)
      ∷ ("read_workflow_lifecycle_router", read_workflow_lifecycle_router)
      ∷ ("load_type_router", load_type_router dom)
      ∷ ("tender_status_router", tender_status_router dom)
      ∷ ("domestic_delivery_router", domestic_delivery_router)
      ∷ ("post_read_tender_router", post_read_tender_router dom)
      ∷ ("automatic_reply_ack_router", automatic_reply_ack_router)
      ∷ ("carrier_ack_router", carrier_ack_router dom)
      ∷ ("routing_guide_router", routing_guide_router dom)
      ∷ ("manual_tms_upload_router", manual_tms_upload_router dom)
      ∷ ("post_pod_processing_router", post_pod_processing_router)
      ∷ ("trim_ratecon_pages_router", trim_ratecon_pages_router dom)
      ∷ ("driver_assignment_eligibility_router", driver_assignment_eligibility_router)
      ∷ (
        "driver_assignment_delayed_eligibility_router",
        driver_assignment_delayed_eligibility_router,
      )
      ∷ ("driver_assignment_delayed_event_router", driver_assignment_delayed_event_router)
      ∷ ("pod_stop_type_router", pod_stop_type_router dom)
      ∷ ("pod_reminder_eligibility_router", pod_reminder_eligibility_router)
      ∷ ("driver_details_router", driver_details_router dom)
      ∷ ("tms_searchable_router", tms_searchable_router)
      ∷ ("tms_driver_router", tms_driver_router dom)
      ∷ ("appointment_intake_router", appointment_intake_router)
      ∷ ("appointment_post_read_router", appointment_post_read_router dom)
      ∷ ("appointment_weekend_pickup_router", appointment_weekend_pickup_router dom)
      ∷ ("customer_reply_router", customer_reply_router dom)
      ∷ []
