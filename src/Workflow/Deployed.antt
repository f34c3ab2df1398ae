-- ===== src/Workflow/Deployed.antt =====
-- The deployed workflows: what their routers must do, and, in a module for each workflow, that no run
-- stops before the exit.
pub mod PodLifecycle
pub mod Ratecon
pub mod DriverAssignment
pub mod LoadTendering
pub mod AppointmentScheduling
use testingmulti.Workflow.Builder.{has_workflow_error}
use testingmulti.Common.{none}
use testingmulti.Workflow.{GraphDefinition, validate_graph}
use testingmulti.Workflow.Builder.{successor}
use testingmulti.Workflow.Routers.Guards.{Domain}
use testingmulti.Workflow.Routers.Known.{
  Known, appointment_post_read_router-Known, appointment_weekend_pickup_router-Known,
  automatic_reply_ack_router-Known, carrier_ack_router-Known, customer_reply_router-Known,
  driver_assignment_delayed_eligibility_router-Known, driver_assignment_delayed_event_router-Known,
  driver_assignment_eligibility_router-Known, driver_details_router-Known, load_type_router-Known,
  pod_missing_dispatch_router-Known, pod_reminder_eligibility_router-Known,
  pod_stop_type_router-Known, post_pod_processing_router-Known, post_read_tender_router-Known,
  read_workflow_lifecycle_router-Known, routing_guide_router-Known, shipment_router-Known, this,
  tms_driver_router-Known, tms_searchable_router-Known, trim_ratecon_pages_router-Known,
}
use testingmulti.Workflow.Routers.Pod.{event_type_router}
use testingmulti.Workflow.Routers.Registry.{router_registry}
use testingmulti.Workflow.Configs.DriverAssignment.{
  driver_assignment, driver_assignment_event_types,
}
use testingmulti.Workflow.Configs.LoadTendering.{load_tendering}
use testingmulti.Workflow.Configs.AppointmentScheduling.{
  appointment_scheduling, appointment_scheduling_event_types,
}
use testingmulti.Workflow.Configs.PodLifecycle.{pod_lifecycle, pod_lifecycle_event_types}
use testingmulti.Workflow.Configs.Ratecon.{ratecon}
use testingmulti.Workflow.Builder.Progress.{Moves, RoutesKnown, successor-Moves}
use testingmulti.Common.{
  All, Bool-cases, List, String, [], ap, arith, contains, eq_iff, false, inl, inr, refl, subst, sym,
  true, ◌==◌, ◌||◌, ◌∙◌, ◌∷◌, ◌≡◌,
}
use testingmulti.Common.Value.{Fields, get, str}

-- What holds of all texts of a list holds of each.
pub All-contains :
    (P : String → Type 0) (ts : List String) (t : String) → All P ts → contains ts t ≡ true → P t
All-contains P [] t h c = ground (arith, c)
All-contains P (x ∷ ts) t (p, ps) c = elim (Bool-cases (x == t)) [
  | inl y ↦ subst P ((eq_iff x t).0 y) p
  | inr n ↦ All-contains P ts t ps (sym (ap (λ b. b || contains ts t) n) ∙ c)
]

module _ (dom : Domain) where
  -- The routers of `g` name branches of their maps in every state that carries the event type `t`.
  abbrev pub KnownOn : GraphDefinition → String → Type 0
  KnownOn g t =
      (state : Fields)
      → get state "event_type" ≡ str t
      → RoutesKnown (router_registry dom) state g.routers
