-- ===== src/Workflow/Deployed/DriverAssignment.antt =====
-- The `driver_assignment` workflow never stops before its exit.
use testingmulti.Workflow.{validate_graph}
use testingmulti.Workflow.Deployed.{All-contains, KnownOn}
use testingmulti.Workflow.Builder.{successor}
use testingmulti.Workflow.Routers.Guards.{Domain}
use testingmulti.Workflow.Routers.Known.{
  Known, driver_assignment_delayed_eligibility_router-Known,
  driver_assignment_delayed_event_router-Known, driver_assignment_eligibility_router-Known,
  driver_details_router-Known, this, tms_driver_router-Known, tms_searchable_router-Known,
}
use testingmulti.Workflow.Routers.Pod.{event_type_router}
use testingmulti.Workflow.Routers.Registry.{router_registry}
use testingmulti.Workflow.Configs.DriverAssignment.{
  driver_assignment, driver_assignment_event_types,
}
use testingmulti.Workflow.Builder.Progress.{Moves, successor-Moves}
use testingmulti.Common.Value.{Fields, get, str}
use testingmulti.Common.{All, String, [], contains, false, refl, true, ◌==◌, ◌∷◌, ◌≡◌}

module _ (dom : Domain) where
  driver_assignment-Known :
      (t : String)
      → ((state : Fields)
          → get state "event_type" ≡ str t
          → Known
              ("ratecon_completed" ∷ "reminder_due" ∷ "escalation_due"
                ∷ "driver_details_email_received" ∷ [])
              (event_type_router state))
      → KnownOn dom driver_assignment t
  driver_assignment-Known t first state e = (
    (_, refl, first state e),
    (
      (_, refl, driver_assignment_delayed_event_router-Known state),
      (
        (_, refl, driver_assignment_eligibility_router-Known state),
        (
          (_, refl, driver_assignment_delayed_eligibility_router-Known state),
          (
            (_, refl, driver_assignment_delayed_eligibility_router-Known state),
            (
              (_, refl, driver_details_router-Known dom state),
              (
                (_, refl, tms_searchable_router-Known state),
                ((_, refl, tms_driver_router-Known dom state), tt),
              ),
            ),
          ),
        ),
      ),
    ),
  )

  driver_assignment_events_known : All (KnownOn dom driver_assignment) (
      "ratecon_completed" ∷ "reminder_due" ∷ "escalation_due" ∷ "driver_details_email_received"
      ∷ [])
  unfolding event_type_router
  driver_assignment_events_known = (
    driver_assignment-Known "ratecon_completed" (λ state e. this (rw e)),
    (
      driver_assignment-Known "reminder_due" (λ state e. this (rw e)),
      (
        driver_assignment-Known "escalation_due" (λ state e. this (rw e)),
        (driver_assignment-Known "driver_details_email_received" (λ state e. this (rw e)), tt),
      ),
    ),
  )

  pub driver_assignment_routes :
      (t : String)
      → contains driver_assignment_event_types t ≡ true
      → KnownOn dom driver_assignment t
  driver_assignment_routes t c =
      All-contains (KnownOn dom driver_assignment) driver_assignment_event_types t
        driver_assignment_events_known c

  -- In every run of the `driver_assignment` workflow, for every event type of its contract and
  -- whatever its nodes have left in the state: every node but the exit has a successor, which is a node
  -- of the graph or the one that records a failure. No router names a branch that its map lacks.
  pub driver_assignment_never_stops :
      (t : String)
      → contains driver_assignment_event_types t ≡ true
      → (state : Fields) → get state "event_type" ≡ str t
      → (node : String) → contains driver_assignment.nodes node ≡ true
      → (node == "end") ≡ false
      → Moves
          (router_registry dom)
          state
          driver_assignment
          (successor (router_registry dom) driver_assignment node state)
  unfolding validate_graph
  driver_assignment_never_stops t c state e node inside not_exit =
      successor-Moves (router_registry dom) state driver_assignment node refl refl
        (driver_assignment_routes t c state e) inside not_exit
