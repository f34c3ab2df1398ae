-- ===== src/Lifecycle/FromState.antt =====
-- `LifecycleTransitionCommand.from_workflow_state` (app/domain/lifecycle_transition.py) and
-- `apply_from_state` (app/services/lifecycle_transition_service.py): commands from a graph state.
-- The keyword arguments that say what changes
use testingmulti.Lifecycle.Sequence.{same_run}
use testingmulti.Lifecycle.Scope.{
  clean, invalid_lifecycle_id, lifecycle_id_required, resolve_graph_tenant_to_uuid,
}
use testingmulti.Common.{refl, true}
use text.Mathlib.TextPositions.{eq_refl}
use testingmulti.Lifecycle.Scope.{Env}
use testingmulti.Status.{ActivityType, ActorType, PauseType, StatusSubType, StatusType}
use testingmulti.RoutingGuide.Service.{WorkflowState}
use testingmulti.Lifecycle.Sequence.{Action, TransitionResult, apply, check_scope}
use testingmulti.Lifecycle.Command.{Command}
use testingmulti.Lifecycle.Scope.{Scope, ok, prepare_scope, run_id_of, uuid_or_raise}
use testingmulti.Common.{Bool, Option, String, and_then, arith, none, some, ◌≡◌}
use testingmulti.Common.Value.{Value, clean_text, get, null, str}
use testingmulti.Common.Text.{non_empty, strip}

pub record Change : Type 0 where
  pub activity_type : ActivityType
  pub to_status : Option StatusType
  pub to_sub_status : Option StatusSubType
  pub description : Option String
  pub metadata : Option Value
  pub actor_type : Option ActorType
  pub actor_id : Option String
  pub from_status : Option StatusType
  pub from_sub_status : Option StatusSubType
  pub update_lifecycle : Bool
  pub record_activity : Bool
  pub require_lifecycle_row : Bool
  pub communication_id : Option String
  pub pause_type : Option PauseType

-- The keyword arguments that say whose change it is, which the state gives where they are missing
pub record Owner : Type 0 where
  pub tenant_id : Option String
  pub workflow_lifecycle_id : Option String
  pub workflow_run_id : Option String

abbrev pub given : Option String → Value → Value
given none v = v
given (some s) v = str s

abbrev pub unless_null : Value → Value → Value
unless_null null w = w
unless_null v w = v

module _ (env : Env) (render : Value → String) where
  -- `_normalize_uuid`
  abbrev pub normalize_uuid : Value → Option String
  normalize_uuid null = none
  normalize_uuid (str s) = and_then (non_empty (strip s)) env.canonical_uuid
  normalize_uuid v = and_then (non_empty (strip (render v))) env.canonical_uuid

  -- `from_workflow_state`, without the thread, which the service never reads
  unfoldable pub from_workflow_state : WorkflowState → Owner → Change → Command
  unfolding strip get
  from_workflow_state state owner change = record {
    tenant_id = clean_text render (
        given owner.tenant_id
          (unless_null (get state.state_data "tenant_id") (str state.tenant_id)));
    activity_type = change.activity_type;
    workflow_lifecycle_id =
        clean_text render
          (given owner.workflow_lifecycle_id (get state.state_data "workflow_lifecycle_id"));
    workflow_run_id =
        non_empty (clean_text render (given owner.workflow_run_id (str state.execution_id)));
    to_status = change.to_status;
    to_sub_status = change.to_sub_status;
    description = change.description;
    metadata = change.metadata;
    communication_id =
        normalize_uuid (given change.communication_id (get state.state_data "communication_id"));
    actor_type = change.actor_type;
    actor_id = change.actor_id;
    from_status = change.from_status;
    from_sub_status = change.from_sub_status;
    update_lifecycle = change.update_lifecycle;
    record_activity = change.record_activity;
    require_lifecycle_row = change.require_lifecycle_row;
    pause_type = change.pause_type;
  }

  -- `apply_from_state`
  unfoldable pub apply_from_state : WorkflowState → Owner → Change → Action TransitionResult
  unfolding from_workflow_state apply
  apply_from_state state owner change = apply env (from_workflow_state state owner change)

-- Two commands of one owner
abbrev SameOwner : Command → Command → Type 0
SameOwner c d =
    (c.tenant_id ≡ d.tenant_id)
    × (c.workflow_lifecycle_id ≡ d.workflow_lifecycle_id)
    × (c.workflow_run_id ≡ d.workflow_run_id)

-- The parts of a scope
Parts : Env → Command → Scope → Type 0
Parts env c scope =
    (resolve_graph_tenant_to_uuid env (clean (some c.tenant_id)) ≡ some scope.tenant_uuid)
    × (uuid_or_raise env c.workflow_lifecycle_id lifecycle_id_required invalid_lifecycle_id
        ≡ ok scope.lifecycle_id)
    × (run_id_of env c ≡ ok scope.run_id)

Parts-of_scope :
    (env : Env) (c : Command) (scope : Scope) → prepare_scope env c ≡ ok scope → Parts env c scope
unfolding Parts prepare_scope
Parts-of_scope env c scope h = (ground (arith), ground (arith), ground (arith))

same_run_refl : (run : Option String) → same_run run run ≡ true
same_run_refl none = refl
same_run_refl (some s) = eq_refl s

check_scope-of_Parts :
    (env : Env) (d : Command) (scope : Scope) → Parts env d scope → check_scope env scope d ≡ ok tt
unfolding Parts check_scope
check_scope-of_Parts env d scope (t, l, r) =
    rw (t, l, r, eq_refl scope.tenant_uuid, eq_refl scope.lifecycle_id, same_run_refl scope.run_id)

-- A command of the same owner as the first is in its scope.
pub checked_of_owner :
    (env : Env) (c d : Command) (scope : Scope)
    → SameOwner c d
    → prepare_scope env c ≡ ok scope
    → check_scope env scope d ≡ ok tt
unfolding Parts run_id_of
checked_of_owner env c d scope (t, l, r) h =
    let (t', l', r') = Parts-of_scope env c scope h in
    check_scope-of_Parts env d scope (rw (← t) t', rw (← l) l', rw (← r) r')
