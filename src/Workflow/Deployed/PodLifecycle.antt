-- ===== src/Workflow/Deployed/PodLifecycle.antt =====
-- The `pod_lifecycle` workflow never stops before its exit.
use testingmulti.Workflow.{validate_graph}
use testingmulti.Workflow.Deployed.{All-contains, KnownOn}
use testingmulti.Workflow.Builder.{successor}
use testingmulti.Workflow.Routers.Guards.{Domain}
use testingmulti.Workflow.Routers.Known.{
  Known, pod_missing_dispatch_router-Known, pod_reminder_eligibility_router-Known,
  pod_stop_type_router-Known, post_pod_processing_router-Known,
  read_workflow_lifecycle_router-Known, shipment_router-Known, this,
  trim_ratecon_pages_router-Known,
}
use testingmulti.Workflow.Routers.Pod.{event_type_router}
use testingmulti.Workflow.Routers.Registry.{router_registry}
use testingmulti.Workflow.Configs.PodLifecycle.{pod_lifecycle, pod_lifecycle_event_types}
use testingmulti.Workflow.Builder.Progress.{Moves, successor-Moves}
use testingmulti.Common.Value.{Fields, get, str}
use testingmulti.Common.{All, String, [], contains, false, refl, true, ◌==◌, ◌∷◌, ◌≡◌}

module _ (dom : Domain) where
  pod_lifecycle-Known :
      (t : String)
      → ((state : Fields)
          → get state "event_type" ≡ str t
          → Known
              ("route_completed" ∷ "email_received" ∷ "manual_pod_upload" ∷ "reminder_due" ∷ [])
              (event_type_router state))
      → KnownOn dom pod_lifecycle t
  pod_lifecycle-Known t first state e = (
    (_, refl, first state e),
    (
      (_, refl, shipment_router-Known dom state),
      (
        (_, refl, pod_missing_dispatch_router-Known state),
        (
          (_, refl, pod_reminder_eligibility_router-Known state),
          (
            (_, refl, read_workflow_lifecycle_router-Known state),
            (
              (_, refl, pod_stop_type_router-Known dom state),
              (
                (_, refl, pod_stop_type_router-Known dom state),
                (
                  (_, refl, trim_ratecon_pages_router-Known dom state),
                  (
                    (_, refl, post_pod_processing_router-Known state),
                    ((_, refl, post_pod_processing_router-Known state), tt),
                  ),
                ),
              ),
            ),
          ),
        ),
      ),
    ),
  )

  pod_lifecycle_events_known :
      All
        (KnownOn dom pod_lifecycle)
        ("route_completed" ∷ "email_received" ∷ "manual_pod_upload" ∷ "reminder_due" ∷ [])
  unfolding event_type_router
  pod_lifecycle_events_known = (
    pod_lifecycle-Known "route_completed" (λ state e. this (rw e)),
    (
      pod_lifecycle-Known "email_received" (λ state e. this (rw e)),
      (
        pod_lifecycle-Known "manual_pod_upload" (λ state e. this (rw e)),
        (pod_lifecycle-Known "reminder_due" (λ state e. this (rw e)), tt),
      ),
    ),
  )

  pub pod_lifecycle_routes :
      (t : String) → contains pod_lifecycle_event_types t ≡ true → KnownOn dom pod_lifecycle t
  pod_lifecycle_routes t c =
      All-contains (KnownOn dom pod_lifecycle) pod_lifecycle_event_types t
        pod_lifecycle_events_known c

  -- In every run of the `pod_lifecycle` workflow, for every event type of its contract and
  -- whatever its nodes have left in the state: every node but the exit has a successor, which is a node
  -- of the graph or the one that records a failure. No router names a branch that its map lacks.
  pub pod_lifecycle_never_stops :
      (t : String)
      → contains pod_lifecycle_event_types t ≡ true
      → (state : Fields) → get state "event_type" ≡ str t
      → (node : String) → contains pod_lifecycle.nodes node ≡ true
      → (node == "end") ≡ false
      → Moves
          (router_registry dom)
          state
          pod_lifecycle
          (successor (router_registry dom) pod_lifecycle node state)
  unfolding validate_graph
  pod_lifecycle_never_stops t c state e node inside not_exit =
      successor-Moves (router_registry dom) state pod_lifecycle node refl refl
        (pod_lifecycle_routes t c state e) inside not_exit
