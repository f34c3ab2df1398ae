-- ===== src/RoutingGuide/Service.antt =====
-- `RoutingGuideLifecycleService.advance` and `mark_reminders_scheduled_for_attempt`
-- (app/services/routing_guide_lifecycle_service.py), and the node that advances the waterfall
-- (app/workflows/nodes/routing_guide.py).
pub mod Scoped
pub mod Attempts
pub mod Advance
pub mod Kept
pub mod Counter
pub mod Progress
use testingmulti.RoutingGuide.{
  Env, mark_reminders_scheduled_for_attempt, routing_guide_attempt_from_metadata,
  routing_guide_attempt_from_state, routing_guide_max_attempts, sync_routing_guide_attempt_to_state,
}
use testingmulti.RoutingGuide.Store.{
  World, merge_fields, patch_metadata, read_metadata, set_routing_guide_attempt,
}
use testingmulti.RoutingGuide.Reminders.{cancel_for_attempt}
use testingmulti.Common.{
  Bool, Option, String, false, if◌then◌else◌, leb, ltb, none, some, suc, true, ℕ, ◌||◌,
}
use testingmulti.Common.Value.{Fields, as_dict, bool, clean_text, get, obj, set_field, text_of}
use testingmulti.Common.Text.{is_empty, strip}

-- `WorkflowState`
pub record WorkflowState : Type 0 where
  pub tenant_id : String
  pub execution_id : String
  pub state_data : Fields

-- The result of `_workflow_scope`, without the graph state
pub record GuideScope : Type 0 where
  pub lifecycle_id : String
  pub tenant_id : String
  pub tender_id : String
  pub run_id : String

abbrev with_data : WorkflowState → Fields → WorkflowState
with_data state d = record state { state_data = d }

module _ (env : Env) where
  -- `_workflow_scope`
  unfoldable pub workflow_scope : WorkflowState → Option GuideScope
  unfolding get strip
  workflow_scope state =
      let wl_id = clean_text env.render (get state.state_data "workflow_lifecycle_id") in
      let tenant = strip (
        if is_empty state.tenant_id
        then text_of env.render (get state.state_data "tenant_id")
        else state.tenant_id) in
      let tender = clean_text env.render (get state.state_data "tender_id") in
      let run = strip state.execution_id in
      if is_empty wl_id || is_empty tenant || is_empty tender || is_empty run
      then none
      else some
          (record { lifecycle_id = wl_id; tenant_id = tenant; tender_id = tender; run_id = run })

  -- `max(live, state_prior) + 1`
  abbrev pub next_attempt : ℕ → ℕ → ℕ
  next_attempt live state_prior = suc (if ltb live state_prior then state_prior else live)

  -- `_persist` of `advance`
  abbrev pub persist_advance : String → ℕ → ℕ → World → ℕ × World
  persist_advance wl_id state_prior max_attempts w =
      let live = routing_guide_attempt_from_metadata env (read_metadata wl_id w) in
      if ltb state_prior live then (live, w) else if leb max_attempts live then (live, w) else (
        next_attempt live state_prior,
        (set_routing_guide_attempt wl_id (next_attempt live state_prior) w).1,
      )

  abbrev pub advance_in : GuideScope → WorkflowState → World → ℕ × (WorkflowState × World)
  advance_in scope state w =
      let state_prior = routing_guide_attempt_from_state env state.state_data in
      let cancelled = (cancel_for_attempt env scope.lifecycle_id state_prior w).1 in
      let (new_attempt, written) =
        persist_advance scope.lifecycle_id state_prior
          (routing_guide_max_attempts env state.state_data) cancelled in
      (
        new_attempt,
        (
          with_data state (sync_routing_guide_attempt_to_state state.state_data new_attempt),
          written,
        ),
      )

  abbrev pub advance_scoped :
      Option GuideScope → WorkflowState → World → ℕ × (WorkflowState × World)
  advance_scoped none state w = (routing_guide_attempt_from_state env state.state_data, (state, w))
  advance_scoped (some scope) state w = advance_in scope state w

  -- `advance`, where the database answers
  unfoldable pub advance : WorkflowState → World → ℕ × (WorkflowState × World)
  unfolding workflow_scope routing_guide_attempt_from_state routing_guide_attempt_from_metadata
      read_metadata cancel_for_attempt set_routing_guide_attempt routing_guide_max_attempts
      sync_routing_guide_attempt_to_state
  advance state w = advance_scoped (workflow_scope state) state w

  -- `advance_carrier_routing_guide`
  unfoldable pub advance_carrier_routing_guide : WorkflowState → World → WorkflowState × World
  unfolding advance set_field
  advance_carrier_routing_guide state w =
      let (new_attempt, (moved, written)) = advance state w in
      (with_data moved (set_field moved.state_data "routing_guide_failover" (bool true)), written)

  abbrev cached_metadata : WorkflowState → ℕ → Fields
  cached_metadata state attempt = set_field state.state_data "workflow_lifecycle_metadata" (
      obj (
        merge_fields (as_dict (get state.state_data "workflow_lifecycle_metadata"))
          (mark_reminders_scheduled_for_attempt attempt)))

  abbrev mark_scheduled_in :
      Option GuideScope → WorkflowState → ℕ → World → Bool × (WorkflowState × World)
  mark_scheduled_in none state attempt w = (false, (state, w))
  mark_scheduled_in (some scope) state attempt w =
      let (found, written) =
        patch_metadata scope.lifecycle_id (mark_reminders_scheduled_for_attempt attempt) w in
      if found
      then (true, (with_data state (cached_metadata state attempt), written))
      else (false, (state, written))

  -- `mark_reminders_scheduled_for_attempt`
  unfoldable pub mark_scheduled : WorkflowState → ℕ → World → Bool × (WorkflowState × World)
  unfolding workflow_scope patch_metadata merge_fields get set_field
  mark_scheduled state attempt w = mark_scheduled_in (workflow_scope state) state attempt w
