-- ===== src/RoutingGuide/Service/Progress.antt =====
-- The router and the waterfall together: how far an advance goes, and that advancing ends.
use testingmulti.RoutingGuide.Service.Counter.{advances_refine}
use testingmulti.Common.{Bool-cases, eq_iff, inl, inr}
use testingmulti.RoutingGuide.{mark_stale_reminder_if_needed}
use testingmulti.RoutingGuide.Store.{read_metadata}
use testingmulti.RoutingGuide.Service.Advance.{attempt_after}
use testingmulti.RoutingGuide.Service.Attempts.{attempt_from_state-pos, attempt_is_stale-earlier}
use testingmulti.RoutingGuide.Service.Counter.{StandsAt, advances, carriers_tried, next_carrier}
use testingmulti.Common.{
  Bool, String, ap, false, if◌then◌else◌, ltb, refl, suc, true, zero, ℕ, ◌+◌, ◌==◌, ◌||◌,
}
use testingmulti.Common.Value.{bool, get, int, pos, set_field, truthy}
use testingmulti.RoutingGuide.{Env, routing_guide_attempt_from_state, routing_guide_max_attempts}
use testingmulti.RoutingGuide.Store.{World}
use testingmulti.RoutingGuide.Service.{GuideScope, WorkflowState, advance, workflow_scope}
use testingmulti.RoutingGuide.Service.Scoped.{max_attempts-InRange}
use testingmulti.RoutingGuide.Service.Advance.{advance-Agrees, live_attempt}
use testingmulti.Lifecycle.Sequence.Outcome.{returned}
use testingmulti.Workflow.Routers.Guards.{Domain}
use testingmulti.Workflow.Routers.Tendering.{routing_guide_router}
use testingmulti.Common.Value.{Fields}
use testingmulti.Common.{arith, lookup, some, ◌<◌, ◌≡◌, ◌≤◌}

-- The router's parameters, as the routing guide defines them
abbrev pub guide_domain : Env → Domain → Domain
guide_domain env dom = record dom {
  resolve_load_type = env.resolve_load_type;
  routing_guide_max_attempts = routing_guide_max_attempts env;
  routing_guide_attempt = routing_guide_attempt_from_state env;
}

-- The three tests of `routing_guide_router`
abbrev answer : Bool → Bool → Bool → String
answer shipper ltl below =
    if shipper
    then "ltl_terminal"
    else if ltl
    then "ltl_terminal"
    else if below
    then "advance"
    else "exhausted"

answers-advance : (shipper ltl below : Bool) → answer shipper ltl below ≡ "advance" → below ≡ true
answers-advance true ltl below h = ground (arith, ap (λ s. s == "advance") h)
answers-advance false true below h = ground (arith, ap (λ s. s == "advance") h)
answers-advance false false true h = refl
answers-advance false false false h = ground (arith, ap (λ s. s == "advance") h)

module _ (env : Env) (dom : Domain) where
  -- The router sends a run to the next carrier only below the limit.
  advance-below :
      (d : Fields)
      → routing_guide_router (guide_domain env dom) d ≡ "advance"
      → routing_guide_attempt_from_state env d < routing_guide_max_attempts env d
  unfolding routing_guide_router
  advance-below d h =
      let below =
        answers-advance (truthy (get d "routing_guide_shipper_domain_reject")) _
          (ltb (routing_guide_attempt_from_state env d) (routing_guide_max_attempts env d)) h in
      ground (arith, below)

  -- Where the router says to advance, and the row is not past the limit, the attempt grows and stays
  -- within the limit; so it is never past the third carrier.
  pub advance-InRange :
      (state : WorkflowState) (w : World) (scope : GuideScope) (d : Fields)
      → routing_guide_router (guide_domain env dom) state.state_data ≡ "advance"
      → workflow_scope env state ≡ some scope
      → lookup scope.lifecycle_id w.metadata ≡ some d
      → live_attempt env scope.lifecycle_id w ≤ routing_guide_max_attempts env state.state_data
      → (routing_guide_attempt_from_state env state.state_data < (advance env state w).0)
        × ((advance env state w).0 ≤ routing_guide_max_attempts env state.state_data)
        × ((advance env state w).0 ≤ 3)
  advance-InRange state w scope d says scoped found within =
      let (returned, in_state, in_row) = advance-Agrees env state w scope d scoped found in
      let below = advance-below state.state_data says in
      let (low, high) = max_attempts-InRange env state.state_data in
      (ground arith, ground arith, ground arith)

  -- After an advance, a reminder or escalation of the attempt before it is marked as stale.
  pub advance-retires :
      (state : WorkflowState) (w : World) (scope : GuideScope) (d graph : Fields)
      (event_type : String)
      → routing_guide_router (guide_domain env dom) state.state_data ≡ "advance"
      → workflow_scope env state ≡ some scope
      → lookup scope.lifecycle_id w.metadata ≡ some d
      → (event_type == "reminder_due" || event_type == "escalation_due") ≡ true
      → mark_stale_reminder_if_needed env graph event_type
          (int (pos (routing_guide_attempt_from_state env state.state_data)))
          (read_metadata scope.lifecycle_id (advance env state w).1.1)
          true
        ≡ (true, set_field graph "stale_routing_guide_reminder" (bool true))
  unfolding mark_stale_reminder_if_needed
  advance-retires state w scope d graph event_type says scoped found reminder =
      let (returned, in_state, in_row) = advance-Agrees env state w scope d scoped found in
      let prior = routing_guide_attempt_from_state env state.state_data in
      let limit = routing_guide_max_attempts env state.state_data in
      let after = attempt_after env prior limit (live_attempt env scope.lifecycle_id w) in
      let below = advance-below state.state_data says in
      let later : prior < after = ground arith in
      let stale =
        attempt_is_stale-earlier env prior after (attempt_from_state-pos env state.state_data)
          later in
      rw (reminder, in_row, stale)

  -- The counter has reached the limit after as many steps.
  tried-all : (n limit attempt : ℕ) → limit ≤ n + attempt → limit ≤ carriers_tried limit n attempt
  unfolding carriers_tried next_carrier
  tried-all zero limit attempt h = omega (arith, h)
  tried-all (suc n) limit attempt h =
      tried-all n limit (next_carrier limit attempt) (ground (arith, h))

  -- Where the state has its four ids, its lifecycle has a row, and graph state and row stand at the
  -- same attempt, after three advances the router no longer says to advance.
  pub advances-end :
      (lid : String) (limit attempt : ℕ) (s : WorkflowState × World)
      → StandsAt env lid limit attempt s
      → (routing_guide_router (guide_domain env dom) (advances env 3 s).0.state_data == "advance")
        ≡ false
  advances-end lid limit attempt s h =
      let ended = advances_refine env 3 lid limit attempt s h in
      let graph = (advances env 3 s).0.state_data in
      let (low, high) = max_attempts-InRange env s.0.state_data in
      let spent = tried-all 3 limit attempt (omega (arith, high, h.limited)) in
      elim (Bool-cases (routing_guide_router (guide_domain env dom) graph == "advance")) [
        | inl says ↦
            let below = advance-below graph ((eq_iff _ _).0 says) in
            ground (arith, below, ended.in_state, ended.limited, spent)
        | inr other ↦ other
      ]
