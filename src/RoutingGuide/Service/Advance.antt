-- ===== src/RoutingGuide/Service/Advance.antt =====
-- One advance of the waterfall.
use testingmulti.RoutingGuide.{attempt_key, parse_attempt, sync_routing_guide_attempt_to_state}
use testingmulti.RoutingGuide.Service.{advance_in, advance_scoped}
use testingmulti.RoutingGuide.Reminders.{cancel_for_attempt}
use testingmulti.RoutingGuide.Service.Scoped.{workflow_scope-IsClean}
use testingmulti.RoutingGuide.Service.Attempts.{attempt_from_metadata-pos, attempt_from_state-sync}
use testingmulti.RoutingGuide.Reminders.Cancelled.{row-cancel_for_attempt}
use testingmulti.Lifecycle.Sequence.Outcome.{returned}
use testingmulti.Common.{ap, or_else, ◌∙◌, ◌≤◌}
use testingmulti.Common.Value.{get}
use testingmulti.RoutingGuide.Service.Attempts.{attempt_from_metadata-set}
use testingmulti.Common.{arith, subst, sym}
use testingmulti.RoutingGuide.Service.{persist_advance}
use testingmulti.RoutingGuide.Store.{set_routing_guide_attempt}
use testingmulti.Common.{Bool-cases, false, inl, inr, refl}
use testingmulti.Common.Text.{is_empty, strip}
use testingmulti.RoutingGuide.{
  Env, routing_guide_attempt_from_metadata, routing_guide_attempt_from_state,
  routing_guide_max_attempts,
}
use testingmulti.RoutingGuide.Store.{World, read_metadata}
use testingmulti.RoutingGuide.Service.{
  GuideScope, WorkflowState, advance, next_attempt, workflow_scope,
}
use testingmulti.Common.{String, if◌then◌else◌, leb, lookup, ltb, some, ℕ, ◌≡◌}
use testingmulti.Common.Value.{Fields}

module _ (env : Env) where
  -- The attempt in the row of a lifecycle
  abbrev pub live_attempt : String → World → ℕ
  live_attempt lid w = routing_guide_attempt_from_metadata env (read_metadata lid w)

  -- The attempt after an advance, from the three numbers that decide it
  abbrev pub attempt_after : ℕ → ℕ → ℕ → ℕ
  attempt_after prior limit live =
      if ltb prior live then live else if leb limit live then live else next_attempt env live prior

  persist_advance_lem :
      (lid : String) (prior limit : ℕ) (w : World) (d : Fields)
      → lookup lid w.metadata ≡ some d
      → strip lid ≡ lid
      → is_empty (strip lid) ≡ false
      → ((persist_advance env lid prior limit w).0 ≡ attempt_after prior limit (live_attempt lid w))
        × (live_attempt lid ((persist_advance env lid prior limit w).1)
            ≡ attempt_after prior limit (live_attempt lid w))
  persist_advance_lem lid prior limit w d h clean_id named =
      let live = live_attempt lid w in
      elim (Bool-cases (ltb prior live)) [
        | inl behind ↦ rw behind (refl, refl)
        | inr level ↦ elim (Bool-cases (leb limit live)) [
          | inl exhausted ↦ rw (level, exhausted) (refl, refl)
          | inr open_ ↦
              let n = next_attempt env live prior in
              let written : live_attempt lid ((set_routing_guide_attempt lid n w).1) ≡ n =
                subst (λ l. live_attempt l ((set_routing_guide_attempt lid n w).1) ≡ n) clean_id
                  (attempt_from_metadata-set env lid n w d
                    (subst (λ l. lookup l w.metadata ≡ some d) (sym clean_id) h) named
                    (omega arith)) in
              rw (level, open_) (refl, written)
        ]
      ]

  live_attempt-row :
      (lid : String) (w : World) (d : Fields)
      → lookup lid w.metadata ≡ some d
      → live_attempt lid w ≡ or_else (parse_attempt env (get d attempt_key)) 1
  unfolding routing_guide_attempt_from_metadata read_metadata
  live_attempt-row lid w d h = rw h

  -- Cancelling reminders keeps the row and its attempt.
  pub cancelled-live :
      (lid : String) (prior : ℕ) (w : World) (d : Fields)
      → lookup lid w.metadata ≡ some d
      → strip lid ≡ lid
      → is_empty (strip lid) ≡ false
      → (e : Fields) × (lookup lid ((cancel_for_attempt env lid prior w).1).metadata ≡ some e)
        × (live_attempt lid ((cancel_for_attempt env lid prior w).1) ≡ live_attempt lid w)
  cancelled-live lid prior w d h clean_id named =
      let after = (cancel_for_attempt env lid prior w).1 in
      let (e, there, kept) =
        row-cancel_for_attempt env lid w d
          (subst (λ l. lookup l w.metadata ≡ some d) (sym clean_id) h) prior named in
      let found : lookup lid after.metadata ≡ some e =
        subst (λ l. lookup l after.metadata ≡ some e) clean_id there in
      (
        e,
        found,
        live_attempt-row lid after e found
            ∙ (ap (λ v. or_else (parse_attempt env v) 1) kept ∙ sym (live_attempt-row lid w d h)),
      )

  attempt_after-pos : (prior limit live : ℕ) → 1 ≤ live → 1 ≤ attempt_after prior limit live
  attempt_after-pos prior limit live h = ground arith

  -- What an advance leaves: `n` is returned, and the graph state and the row agree on it.
  abbrev pub Agrees : String → ℕ → ℕ × (WorkflowState × World) → Type 0
  Agrees lid n r =
      (r.0 ≡ n)
      × (routing_guide_attempt_from_state env r.1.0.state_data ≡ n)
      × (live_attempt lid r.1.1 ≡ n)

  advance_in-Agrees :
      (state : WorkflowState) (w : World) (scope : GuideScope) (d : Fields)
      → (strip scope.lifecycle_id ≡ scope.lifecycle_id)
        × (is_empty (strip scope.lifecycle_id) ≡ false)
      → lookup scope.lifecycle_id w.metadata ≡ some d
      → Agrees scope.lifecycle_id
          (attempt_after
            (routing_guide_attempt_from_state env state.state_data)
            (routing_guide_max_attempts env state.state_data)
            (live_attempt scope.lifecycle_id w))
          (advance_in env scope state w)
  advance_in-Agrees state w scope d (clean_id, named) found =
      let lid = scope.lifecycle_id in
      let prior = routing_guide_attempt_from_state env state.state_data in
      let limit = routing_guide_max_attempts env state.state_data in
      let (e, there, kept) = cancelled-live lid prior w d found clean_id named in
      let (returned, stored) =
        persist_advance_lem lid prior limit ((cancel_for_attempt env lid prior w).1) e there
          clean_id named in
      let n = attempt_after prior limit (live_attempt lid w) in
      let same = ap (attempt_after prior limit) kept in
      let synced = attempt_from_state-sync env state.state_data n (
        attempt_after-pos prior limit (live_attempt lid w)
          (attempt_from_metadata-pos env (read_metadata lid w))) in
      (
        returned ∙ same,
        ap
              (λ k.
                routing_guide_attempt_from_state env
                  (sync_routing_guide_attempt_to_state state.state_data k))
              (returned ∙ same)
            ∙ synced,
        stored ∙ same,
      )

  pub advance-Agrees :
      (state : WorkflowState) (w : World) (scope : GuideScope) (d : Fields)
      → workflow_scope env state ≡ some scope
      → lookup scope.lifecycle_id w.metadata ≡ some d
      → Agrees scope.lifecycle_id
          (attempt_after
            (routing_guide_attempt_from_state env state.state_data)
            (routing_guide_max_attempts env state.state_data)
            (live_attempt scope.lifecycle_id w))
          (advance env state w)
  unfolding advance
  advance-Agrees state w scope d scoped found =
      subst
        (λ o.
          Agrees scope.lifecycle_id
            (attempt_after (routing_guide_attempt_from_state env state.state_data)
              (routing_guide_max_attempts env state.state_data) (live_attempt scope.lifecycle_id w))
            (advance_scoped env o state w))
        (sym scoped)
        (advance_in-Agrees state w scope d (workflow_scope-IsClean env state scope scoped) found)
