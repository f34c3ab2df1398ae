-- ===== src/Lifecycle/Identity.antt =====
-- The identifiers of a scope.
use testingmulti.Lifecycle.Scope.{invalid_lifecycle_id, lifecycle_id_required}
use testingmulti.Lifecycle.Command.{Command}
use testingmulti.Lifecycle.Scope.{Env, Scope, TransitionError, ok, prepare_scope, uuid_or_raise}
use testingmulti.Common.{Option-cases, String, arith, inl, inr, some, ◌≡◌}
use testingmulti.Common.Text.{non_empty, strip}

non_empty-eq : (s raw : String) → non_empty s ≡ some raw → raw ≡ s
non_empty-eq String.[] raw h = absurd (cc)
non_empty-eq (String.◌∷◌ c s) raw h = ground arith

uuid_or_raise_ok :
    (env : Env) (value k : String) (required invalid : TransitionError)
    → uuid_or_raise env value required invalid ≡ ok k
    → env.canonical_uuid (strip value) ≡ some k
unfolding uuid_or_raise
uuid_or_raise_ok env value k required invalid h = elim (Option-cases (non_empty (strip value))) [
  | inl e ↦ ground arith
  | inr (raw, e) ↦ rw (← (non_empty-eq (strip value) raw e)) (ground arith)
]

-- The lifecycle of a scope is the one that the command names, as a UUID in its usual form.
pub lifecycle_id_of_scope :
    (env : Env) (c : Command) (scope : Scope)
    → prepare_scope env c ≡ ok scope
    → env.canonical_uuid (strip c.workflow_lifecycle_id) ≡ some scope.lifecycle_id
unfolding prepare_scope
lifecycle_id_of_scope env c scope h = ground (
  arith,
  uuid_or_raise_ok env c.workflow_lifecycle_id scope.lifecycle_id lifecycle_id_required
      invalid_lifecycle_id,
)
