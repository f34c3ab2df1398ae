-- ===== src/RoutingGuide/TenantSent/Agrees.antt =====
-- What recording a sent tender leaves in the graph state, the metadata, the lifecycle row and the log.
use testingmulti.Common.{OnSome, is_some, none, ◌⊎◌}
use testingmulti.RoutingGuide.TenantSent.{after_persist}
use testingmulti.Lifecycle.Scope.{◌>>=◌}
use testingmulti.Lifecycle.Scope
use testingmulti.RoutingGuide.{
  Phase, gelita_routing_guide_sub_status_for, routing_guide_attempt_from_state,
}
use testingmulti.RoutingGuide.Service.{GuideScope, WorkflowState, workflow_scope}
use testingmulti.RoutingGuide.TenantSent.{Rows, move_command, run_with_repos, sent_command}
use testingmulti.Lifecycle.Sequence.{SequenceResult, apply_sequence_in_transaction}
use testingmulti.Lifecycle.Scope.{Result, Scope, err, ok}
use testingmulti.Lifecycle.Store.{Db, Row}
use testingmulti.Lifecycle.Sequence.Announced.{Announced}
use testingmulti.Workflow.Routers.Tendering.{is_ftl_load_type}
use testingmulti.Common.Value.{clean_text}
use testingmulti.Common.Text.{non_empty}
use testingmulti.Common.{Bool, Option, [], true, ℕ, ◌∷◌}
use testingmulti.RoutingGuide.{Env}
use testingmulti.RoutingGuide.TenantSent.{tenant_attempt}
use testingmulti.RoutingGuide.Service.Advance.{live_attempt}
use testingmulti.Common.{String, false, lookup, some, ◌≡◌}
use testingmulti.Common.Value.{Fields, get}

module _ (env : Env) where
  -- What a call on the lifecycle `lid` with the row `r` may leave, by its result.
  abbrev pub Recorded :
      String → String → Row → WorkflowState → Rows → Result Bool × (WorkflowState × Rows) → Type 0
  Recorded lid k r state rows (ok true, (state', rows')) =
      (is_ftl_load_type (env.resolve_load_type state.state_data) ≡ true)
      × (is_some (workflow_scope env state) ≡ true)
      × (routing_guide_attempt_from_state env state'.state_data ≡ live_attempt env lid rows.world)
      × (live_attempt env lid rows'.world ≡ live_attempt env lid rows.world)
      × Announced
          (gelita_routing_guide_sub_status_for (live_attempt env lid rows.world) Phase.tenant) r
          rows.db.activity_logs (lookup k rows'.db.lifecycles) rows'.db.activity_logs
  Recorded lid k r state rows (ok false, left) =
      ((is_ftl_load_type (env.resolve_load_type state.state_data) ≡ false)
        ⊎ (workflow_scope env state ≡ none))
      × (left ≡ (state, rows))
  Recorded lid k r state rows (err e, left) = left ≡ (state, rows)

  module _ (transitions : Scope.Env) (state : WorkflowState) (rows : Rows) (scope : GuideScope)
      (d : Fields) (k : String) (r : Row) where
    abbrev communication : Option String
    communication = non_empty (clean_text env.render (get state.state_data "communication_id"))

    abbrev attempt : ℕ
    attempt = (tenant_attempt env scope.lifecycle_id rows.world).0

    abbrev sequence : Result SequenceResult × Db
    sequence =
        apply_sequence_in_transaction transitions (sent_command scope communication attempt)
          (move_command scope attempt ∷ []) rows.db

    -- What the transaction leaves, from what the sequence of transitions left.
    abbrev concluded : Result SequenceResult × Db → Result Bool × (WorkflowState × Rows)
    concluded outcome = after_persist state (
        run_with_repos
          (λ _. (
            (outcome.0 >>= (λ _. ok attempt)),
            record { world = (tenant_attempt env scope.lifecycle_id rows.world).1; db = outcome.1 },
          ))
          rows)

  -- The lifecycle that a state names has a row.
  abbrev pub RowOf : Scope.Env → WorkflowState → Rows → String → String → Row → Type 0
  RowOf transitions state rows lid k r =
      OnSome (λ (scope : GuideScope). scope.lifecycle_id ≡ lid) (workflow_scope env state)
      × ((d : Fields) × (lookup lid rows.world.metadata ≡ some d))
      × (transitions.canonical_uuid lid ≡ some k)
      × (lookup k rows.db.lifecycles ≡ some r)
