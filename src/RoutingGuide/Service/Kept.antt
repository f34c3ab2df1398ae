-- ===== src/RoutingGuide/Service/Kept.antt =====
-- What an advance keeps: the scope, the limit and the row.
use testingmulti.RoutingGuide.{
  Env, attempt_key, routing_guide_attempt_from_state, routing_guide_max_attempts,
}
use testingmulti.RoutingGuide.Store.{World, patch_metadata, set_routing_guide_attempt}
use testingmulti.RoutingGuide.Service.{
  GuideScope, WorkflowState, advance, advance_scoped, next_attempt, persist_advance, workflow_scope,
}
use testingmulti.RoutingGuide.Reminders.{cancel_for_attempt}
use testingmulti.RoutingGuide.Store.Laws.{lookup-patch_metadata}
use testingmulti.RoutingGuide.Service.Scoped.{
  max_attempts-sync, workflow_scope-IsClean, workflow_scope-sync,
}
use testingmulti.RoutingGuide.Service.Advance.{cancelled-live, live_attempt}
use testingmulti.Common.{
  Bool-cases, Option-cases, String, inl, inr, leb, lookup, ltb, some, subst, sym, ℕ, ◌||◌, ◌∙◌, ◌≡◌,
}
use testingmulti.Common.Value.{Fields, end, field, int, pos, set_field}
use testingmulti.Common.Text.{is_empty, strip}

-- The row of a lifecycle is there.
abbrev pub HasRow : String → World → Type 0
HasRow lid w = (d : Fields) × (lookup lid w.metadata ≡ some d)

set_routing_guide_attempt-HasRow :
    (lid : String) (n : ℕ) (w : World)
    → strip lid ≡ lid
    → HasRow lid w
    → HasRow lid ((set_routing_guide_attempt lid n w).1)
unfolding set_routing_guide_attempt
set_routing_guide_attempt-HasRow lid n w clean_id (d, h) =
    let found = subst (λ l. lookup l w.metadata ≡ some d) (sym clean_id) h in
    let patched = lookup-patch_metadata (strip lid) attempt_key (int (pos n)) w d found in
    elim (Bool-cases (is_empty (strip lid) || ltb n 1)) [
      | inl refused ↦ rw refused (d, h)
      | inr written ↦ rw written (
        set_field d attempt_key (int (pos n)),
        subst
            (λ l.
              lookup l
                ((patch_metadata (strip lid) (field attempt_key (int (pos n)) end) w).1).metadata
              ≡ some (set_field d attempt_key (int (pos n))))
            clean_id patched,
      )
    ]

module _ (env : Env) where
  persist_advance-HasRow :
      (lid : String) (prior limit : ℕ) (w : World)
      → strip lid ≡ lid
      → HasRow lid w
      → HasRow lid ((persist_advance env lid prior limit w).1)
  persist_advance-HasRow lid prior limit w clean_id h =
      let live = live_attempt env lid w in
      elim (Bool-cases (ltb prior live)) [
        | inl behind ↦ rw behind h
        | inr level ↦ elim (Bool-cases (leb limit live)) [
          | inl exhausted ↦ rw (level, exhausted) h
          | inr open_ ↦
              rw (level, open_)
                (set_routing_guide_attempt-HasRow lid (next_attempt env live prior) w clean_id h)
        ]
      ]

  pub advance-HasRow :
      (state : WorkflowState) (w : World) (scope : GuideScope) (d : Fields)
      → workflow_scope env state ≡ some scope
      → lookup scope.lifecycle_id w.metadata ≡ some d
      → HasRow scope.lifecycle_id (advance env state w).1.1
  unfolding advance
  advance-HasRow state w scope d scoped found =
      let lid = scope.lifecycle_id in
      let prior = routing_guide_attempt_from_state env state.state_data in
      let (clean_id, named) = workflow_scope-IsClean env state scope scoped in
      let (e, there, kept) = cancelled-live env lid prior w d found clean_id named in
      subst (λ o. HasRow lid (advance_scoped env o state w).1.1) (sym scoped)
        (persist_advance-HasRow lid prior (routing_guide_max_attempts env state.state_data)
          ((cancel_for_attempt env lid prior w).1) clean_id (e, there))

  -- The attempt that an advance writes to the state
  abbrev written_attempt : WorkflowState → World → GuideScope → ℕ
  written_attempt state w scope =
      let prior = routing_guide_attempt_from_state env state.state_data in
      (persist_advance env scope.lifecycle_id prior
        (routing_guide_max_attempts env state.state_data)
        ((cancel_for_attempt env scope.lifecycle_id prior w).1)).0

  pub advance_scope :
      (state : WorkflowState) (w : World)
      → workflow_scope env (advance env state w).1.0 ≡ workflow_scope env state
  unfolding advance
  advance_scope state w = elim (Option-cases (workflow_scope env state)) [
    | inl outside ↦ rw (outside, outside)
    | inr (scope, inside) ↦
        rw inside (workflow_scope-sync env state (written_attempt state w scope) ∙ inside)
  ]

  pub advance_limit :
      (state : WorkflowState) (w : World)
      → routing_guide_max_attempts env (advance env state w).1.0.state_data
        ≡ routing_guide_max_attempts env state.state_data
  unfolding advance
  advance_limit state w = elim (Option-cases (workflow_scope env state)) [
    | inl outside ↦ rw outside
    | inr (scope, inside) ↦
        rw inside (max_attempts-sync env state.state_data (written_attempt state w scope))
  ]
