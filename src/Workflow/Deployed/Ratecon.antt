-- ===== src/Workflow/Deployed/Ratecon.antt =====
-- The `ratecon` workflow never stops before its exit.
use testingmulti.Workflow.{validate_graph}
use testingmulti.Workflow.Builder.{successor}
use testingmulti.Workflow.Routers.Guards.{Domain}
use testingmulti.Workflow.Routers.Registry.{router_registry}
use testingmulti.Workflow.Configs.Ratecon.{ratecon}
use testingmulti.Workflow.Builder.Progress.{Moves, successor-Moves}
use testingmulti.Common.Value.{Fields}
use testingmulti.Common.{String, contains, false, refl, true, ◌==◌, ◌≡◌}

module _ (dom : Domain) where
  -- In every run of the `ratecon` workflow, whatever its nodes have left in the state, every node but
  -- the exit has a successor, which is a node of the graph or the one that records a failure.
  pub ratecon_never_stops :
      (state : Fields) (node : String)
      → contains ratecon.nodes node ≡ true
      → (node == "end") ≡ false
      → Moves
          (router_registry dom)
          state
          ratecon
          (successor (router_registry dom) ratecon node state)
  unfolding validate_graph
  ratecon_never_stops state node inside not_exit =
      successor-Moves (router_registry dom) state ratecon node refl refl tt inside not_exit
