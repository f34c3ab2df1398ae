-- ===== src/RoutingGuide/Service/Scoped.antt =====
-- The scope of a graph state, and what it does not depend on.
use testingmulti.Common.{Bool, OnSome, OnSome-elim, ap, if◌then◌else◌, refl, true, ◌∙◌}
use testingmulti.Common.Value.{text_of}
use testingmulti.Common.Stripped.{strip_idem}
use testingmulti.RoutingGuide.{clamped, int_of}
use testingmulti.Common.{Option, and_then, arith, none}
use testingmulti.Common.Value.{as_dict, get, negsuc, ℤ}
use testingmulti.RoutingGuide.{
  Env, at_least_one, attempt_key, routing_guide_max_attempts, sync_routing_guide_attempt_to_state,
}
use testingmulti.RoutingGuide.Service.{GuideScope, WorkflowState, workflow_scope}
use testingmulti.Common.Value.{Fields, int, pos}
use testingmulti.Common.Text.{is_empty, strip}
use testingmulti.Common.Dicts.{get-set_field}
use testingmulti.Common.{false, some, ℕ, ◌≡◌, ◌≤◌}

unless-OnSome :
    {A : Type 0} (P : A → Type 0) (b : Bool) (a : A)
    → (b ≡ false → P a)
    → OnSome P (if b then none else some a)
unless-OnSome P true a h = tt
unless-OnSome P false a h = h refl

module _ (env : Env) where
  abbrev CleanId : GuideScope → Type 0
  CleanId s = (strip s.lifecycle_id ≡ s.lifecycle_id) × (is_empty (strip s.lifecycle_id) ≡ false)

  scope-CleanId : (state : WorkflowState) → OnSome CleanId (workflow_scope env state)
  unfolding workflow_scope
  scope-CleanId state =
      let named = text_of env.render (get state.state_data "workflow_lifecycle_id") in
      unless-OnSome CleanId _ _
        (λ present. (strip_idem named, ap is_empty (strip_idem named) ∙ ground (arith, present)))

  -- A scope names a lifecycle, by an id without white space at its ends.
  pub workflow_scope-IsClean :
      (state : WorkflowState) (scope : GuideScope)
      → workflow_scope env state ≡ some scope
      → (strip scope.lifecycle_id ≡ scope.lifecycle_id)
        × (is_empty (strip scope.lifecycle_id) ≡ false)
  workflow_scope-IsClean state scope h =
      OnSome-elim CleanId (workflow_scope env state) scope (scope-CleanId state) h

  -- The attempt counter is no part of the scope, nor of the tenant settings.
  pub workflow_scope-sync :
      (state : WorkflowState) (n : ℕ)
      → workflow_scope env
          (record state { state_data = sync_routing_guide_attempt_to_state state.state_data n })
        ≡ workflow_scope env state
  unfolding workflow_scope sync_routing_guide_attempt_to_state
  workflow_scope-sync state n =
      let v = int (pos (at_least_one n)) in
      rw (
        get-set_field state.state_data attempt_key "workflow_lifecycle_id" v,
        get-set_field state.state_data attempt_key "tenant_id" v,
        get-set_field state.state_data attempt_key "tender_id" v,
      )

  pub max_attempts-sync :
      (d : Fields) (n : ℕ)
      → routing_guide_max_attempts env (sync_routing_guide_attempt_to_state d n)
        ≡ routing_guide_max_attempts env d
  unfolding routing_guide_max_attempts sync_routing_guide_attempt_to_state
  max_attempts-sync d n =
      rw (get-set_field d attempt_key "tenant_settings" (int (pos (at_least_one n))))

  clamped-InRange : (o : Option ℤ) → (1 ≤ clamped env o) × (clamped env o ≤ 3)
  clamped-InRange none = (omega arith, omega arith)
  clamped-InRange (some (negsuc n)) = (omega arith, omega arith)
  clamped-InRange (some (pos n)) = (ground arith, ground arith)

  -- The limit is between 1 and 3.
  pub max_attempts-InRange :
      (d : Fields) → (1 ≤ routing_guide_max_attempts env d) × (routing_guide_max_attempts env d ≤ 3)
  unfolding routing_guide_max_attempts
  max_attempts-InRange d =
      clamped-InRange
        (and_then (env.configured_max_attempts (as_dict (get d "tenant_settings"))) (int_of env))
