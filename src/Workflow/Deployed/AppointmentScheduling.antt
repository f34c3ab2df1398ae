-- ===== src/Workflow/Deployed/AppointmentScheduling.antt =====
-- The `appointment_scheduling` workflow never stops before its exit.
use testingmulti.Workflow.{validate_graph}
use testingmulti.Workflow.Deployed.{All-contains, KnownOn}
use testingmulti.Workflow.Builder.{successor}
use testingmulti.Workflow.Routers.Guards.{Domain}
use testingmulti.Workflow.Routers.Known.{
  Known, appointment_post_read_router-Known, appointment_weekend_pickup_router-Known,
  customer_reply_router-Known, this,
}
use testingmulti.Workflow.Routers.Pod.{event_type_router}
use testingmulti.Workflow.Routers.Registry.{router_registry}
use testingmulti.Workflow.Configs.AppointmentScheduling.{
  appointment_scheduling, appointment_scheduling_event_types,
}
use testingmulti.Workflow.Builder.Progress.{Moves, successor-Moves}
use testingmulti.Common.Value.{Fields, get, str}
use testingmulti.Common.{All, String, [], contains, false, refl, true, ◌==◌, ◌∷◌, ◌≡◌}

module _ (dom : Domain) where
  appointment_scheduling-Known :
      (t : String)
      → ((state : Fields)
          → get state "event_type" ≡ str t
          → Known
              ("turvo_pickup_changed" ∷ "appointment_draft_send"
                ∷ "appointment_customer_reply_received" ∷ "missing" ∷ [])
              (event_type_router state))
      → KnownOn dom appointment_scheduling t
  appointment_scheduling-Known t first state e = (
    (_, refl, first state e),
    (
      (_, refl, appointment_post_read_router-Known dom state),
      (
        (_, refl, appointment_weekend_pickup_router-Known dom state),
        ((_, refl, this refl), ((_, refl, customer_reply_router-Known dom state), tt)),
      ),
    ),
  )

  appointment_scheduling_events_known : All (KnownOn dom appointment_scheduling) (
      "turvo_pickup_changed" ∷ "appointment_draft_send" ∷ "appointment_customer_reply_received"
      ∷ [])
  unfolding event_type_router
  appointment_scheduling_events_known = (
    appointment_scheduling-Known "turvo_pickup_changed" (λ state e. this (rw e)),
    (
      appointment_scheduling-Known "appointment_draft_send" (λ state e. this (rw e)),
      (
        appointment_scheduling-Known "appointment_customer_reply_received" (λ state e. this (rw e)),
        tt,
      ),
    ),
  )

  pub appointment_scheduling_routes :
      (t : String)
      → contains appointment_scheduling_event_types t ≡ true
      → KnownOn dom appointment_scheduling t
  appointment_scheduling_routes t c =
      All-contains (KnownOn dom appointment_scheduling) appointment_scheduling_event_types t
        appointment_scheduling_events_known c

  -- In every run of the `appointment_scheduling` workflow, for every event type of its contract and
  -- whatever its nodes have left in the state: every node but the exit has a successor, which is a node
  -- of the graph or the one that records a failure. No router names a branch that its map lacks.
  pub appointment_scheduling_never_stops :
      (t : String)
      → contains appointment_scheduling_event_types t ≡ true
      → (state : Fields) → get state "event_type" ≡ str t
      → (node : String) → contains appointment_scheduling.nodes node ≡ true
      → (node == "end") ≡ false
      → Moves
          (router_registry dom)
          state
          appointment_scheduling
          (successor (router_registry dom) appointment_scheduling node state)
  unfolding validate_graph
  appointment_scheduling_never_stops t c state e node inside not_exit =
      successor-Moves (router_registry dom) state appointment_scheduling node refl refl
        (appointment_scheduling_routes t c state e) inside not_exit
