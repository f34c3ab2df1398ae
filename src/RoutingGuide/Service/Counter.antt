-- ===== src/RoutingGuide/Service/Counter.antt =====
-- The waterfall as a counter that stops at a limit.
use testingmulti.RoutingGuide.Service.Advance.{attempt_after}
use testingmulti.Common.{ap, arith}
use testingmulti.RoutingGuide.Service.Advance.{advance-Agrees}
use testingmulti.RoutingGuide.Service.Kept.{HasRow, advance-HasRow, advance_limit, advance_scope}
use testingmulti.Lifecycle.Sequence.Outcome.{returned}
use testingmulti.Common.{subst, sym, ◌∙◌}
use testingmulti.RoutingGuide.{Env, routing_guide_attempt_from_state, routing_guide_max_attempts}
use testingmulti.RoutingGuide.Store.{World}
use testingmulti.RoutingGuide.Service.{GuideScope, WorkflowState, advance, workflow_scope}
use testingmulti.RoutingGuide.Service.Advance.{live_attempt}
use testingmulti.Common.{String, if◌then◌else◌, leb, lookup, some, suc, zero, ℕ, ◌≡◌}

-- The abstract waterfall: the next attempt, unless the limit is reached
unfoldable pub next_carrier : ℕ → ℕ → ℕ
next_carrier limit attempt = if leb limit attempt then attempt else suc attempt

unfoldable pub carriers_tried : ℕ → ℕ → ℕ → ℕ
carriers_tried limit zero attempt = attempt
carriers_tried limit (suc n) attempt = carriers_tried limit n (next_carrier limit attempt)

module _ (env : Env) where
  level_step :
      (limit attempt : ℕ) → attempt_after env attempt limit attempt ≡ next_carrier limit attempt
  unfolding next_carrier
  level_step limit attempt = ground arith

  abbrev after_advance : WorkflowState × World → WorkflowState × World
  after_advance s = (advance env (s.0) (s.1)).1

  -- Advancing a number of times
  unfoldable pub advances : ℕ → WorkflowState × World → WorkflowState × World
  advances zero s = s
  advances (suc n) s = advances n (after_advance s)

  -- The graph state and the row of its lifecycle both stand at an attempt, under a limit.
  pub record StandsAt (lid : String) (limit : ℕ) (attempt : ℕ) (s : WorkflowState × World)
      : Type 0 where
    pub scoped :
        (scope : GuideScope) × (workflow_scope env s.0 ≡ some scope) × (scope.lifecycle_id ≡ lid)
    pub present : HasRow lid s.1
    pub in_state : routing_guide_attempt_from_state env s.0.state_data ≡ attempt
    pub in_row : live_attempt env lid s.1 ≡ attempt
    pub limited : routing_guide_max_attempts env s.0.state_data ≡ limit

  -- One advance is one step of the counter.
  advance-StandsAt :
      (lid : String) (limit attempt : ℕ) (s : WorkflowState × World)
      → StandsAt lid limit attempt s
      → StandsAt lid limit (next_carrier limit attempt) (after_advance s)
  advance-StandsAt lid limit attempt s h =
      let (scope, scoped, id) = h.scoped in
      let (d, present) = h.present in
      let found : lookup scope.lifecycle_id s.1.metadata ≡ some d =
        subst (λ l. lookup l s.1.metadata ≡ some d) (sym id) present in
      let (returned, in_state, in_row) = advance-Agrees env s.0 s.1 scope d scoped found in
      let lived : live_attempt env scope.lifecycle_id s.1 ≡ attempt =
        ap (λ l. live_attempt env l s.1) id ∙ h.in_row in
      let step : attempt_after env (routing_guide_attempt_from_state env s.0.state_data)
            (routing_guide_max_attempts env s.0.state_data)
            (live_attempt env scope.lifecycle_id s.1)
          ≡ next_carrier limit attempt =
        rw (h.in_state, h.limited, lived) (level_step limit attempt) in
      record {
        scoped = (scope, advance_scope env s.0 s.1 ∙ scoped, id);
        present =
            subst (λ l. HasRow l (after_advance s).1) id
              (advance-HasRow env s.0 s.1 scope d scoped found);
        in_state = in_state ∙ step;
        in_row =
            subst (λ l. live_attempt env l (after_advance s).1 ≡ next_carrier limit attempt) id
              (in_row ∙ step);
        limited = advance_limit env s.0 s.1 ∙ h.limited;
      }

  -- Where the state has its four ids, its lifecycle has a row, and graph state and row stand at the
  -- same attempt, any number of advances leaves both at the attempt of a counter that took as many
  -- steps and stops at the limit.
  pub advances_refine :
      (n : ℕ) (lid : String) (limit attempt : ℕ) (s : WorkflowState × World)
      → StandsAt lid limit attempt s
      → StandsAt lid limit (carriers_tried limit n attempt) (advances n s)
  unfolding advances carriers_tried
  advances_refine zero lid limit attempt s h = h
  advances_refine (suc n) lid limit attempt s h =
      advances_refine n lid limit (next_carrier limit attempt) (after_advance s)
        (advance-StandsAt lid limit attempt s h)
