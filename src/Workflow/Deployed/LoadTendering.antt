-- ===== src/Workflow/Deployed/LoadTendering.antt =====
-- The `load_tendering` workflow never stops before its exit.
use testingmulti.Workflow.{validate_graph}
use testingmulti.Workflow.Deployed.{All-contains, KnownOn}
use testingmulti.Workflow.Builder.{has_workflow_error, successor}
use testingmulti.Workflow.Routers.Guards.{Domain}
use testingmulti.Workflow.Routers.Known.{
  Known, automatic_reply_ack_router-Known, carrier_ack_router-Known, load_type_router-Known,
  post_read_tender_router-Known, routing_guide_router-Known, this,
}
use testingmulti.Workflow.Routers.Pod.{event_type_router}
use testingmulti.Workflow.Routers.Registry.{router_registry}
use testingmulti.Workflow.Configs.LoadTendering.{load_tendering}
use testingmulti.Workflow.Builder.Progress.{Moves, successor-Moves}
use testingmulti.Common.Value.{Fields, get, str}
use testingmulti.Common.{All, String, [], contains, false, none, refl, true, ◌==◌, ◌∷◌, ◌≡◌}

module _ (dom : Domain) where
  load_tendering-Known :
      (t : String)
      → ((state : Fields)
          → get state "event_type" ≡ str t
          → Known
              ("tender_created" ∷ "carrier_email_received" ∷ "ack_received" ∷ "reminder_due"
                ∷ "escalation_due" ∷ [])
              (event_type_router state))
      → KnownOn dom load_tendering t
  load_tendering-Known t first state e = (
    (_, refl, first state e),
    (
      (_, refl, load_type_router-Known dom state),
      (
        (_, refl, post_read_tender_router-Known dom state),
        (
          (_, refl, automatic_reply_ack_router-Known state),
          (
            (_, refl, carrier_ack_router-Known dom state),
            (
              (_, refl, routing_guide_router-Known dom state),
              ((_, refl, routing_guide_router-Known dom state), tt),
            ),
          ),
        ),
      ),
    ),
  )

  load_tendering_events_known : All (KnownOn dom load_tendering) (
      "tender_created" ∷ "carrier_email_received" ∷ "ack_received" ∷ "reminder_due"
      ∷ "escalation_due" ∷ [])
  unfolding event_type_router
  load_tendering_events_known = (
    load_tendering-Known "tender_created" (λ state e. this (rw e)),
    (
      load_tendering-Known "carrier_email_received" (λ state e. this (rw e)),
      (
        load_tendering-Known "ack_received" (λ state e. this (rw e)),
        (
          load_tendering-Known "reminder_due" (λ state e. this (rw e)),
          (load_tendering-Known "escalation_due" (λ state e. this (rw e)), tt),
        ),
      ),
    ),
  )

  pub load_tendering_routes :
      (t : String)
      → contains
          ("tender_created" ∷ "carrier_email_received" ∷ "ack_received" ∷ "reminder_due"
            ∷ "escalation_due" ∷ [])
          t
        ≡ true
      → KnownOn dom load_tendering t
  load_tendering_routes t c =
      All-contains (KnownOn dom load_tendering)
        ("tender_created" ∷ "carrier_email_received" ∷ "ack_received" ∷ "reminder_due"
          ∷ "escalation_due" ∷ [])
        t load_tendering_events_known c

  -- In every run of the `load_tendering` workflow, for every event type of its contract but `email_received` and
  -- whatever its nodes have left in the state: every node but the exit has a successor, which is a node
  -- of the graph or the one that records a failure. No router names a branch that its map lacks.
  pub load_tendering_never_stops :
      (t : String)
      → contains
          ("tender_created" ∷ "carrier_email_received" ∷ "ack_received" ∷ "reminder_due"
            ∷ "escalation_due" ∷ [])
          t
        ≡ true
      → (state : Fields) → get state "event_type" ≡ str t
      → (node : String) → contains load_tendering.nodes node ≡ true
      → (node == "end") ≡ false
      → Moves
          (router_registry dom)
          state
          load_tendering
          (successor (router_registry dom) load_tendering node state)
  unfolding validate_graph
  load_tendering_never_stops t c state e node inside not_exit =
      successor-Moves (router_registry dom) state load_tendering node refl refl
        (load_tendering_routes t c state e) inside not_exit

  -- A `load_tendering` run for `email_received`, an event type that its contract lists, has no branch to
  -- take at its entry: unless an error is recorded, nothing follows `route_event`.
  pub load_tendering_email_received :
      (state : Fields)
      → get state "event_type" ≡ str "email_received"
      → has_workflow_error state ≡ false
      → successor (router_registry dom) load_tendering "route_event" state ≡ none
  unfolding successor event_type_router
  load_tendering_email_received state e n = rw (n, e)
