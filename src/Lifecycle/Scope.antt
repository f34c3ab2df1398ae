-- ===== src/Lifecycle/Scope.antt =====
-- The preparations of `LifecycleTransitionService`: pause context, identifiers and current status
-- (app/services/lifecycle_transition_service.py).
use testingmulti.Common.{
  ℕ, String, Bool, true, false, not, ◌&&◌, ◌||◌, Option, none, some, List, [], ◌∷◌, is_some,
  or_else, first_some, if◌then◌else◌,
}
use testingmulti.Common.Text.{strip, non_empty, is_empty}
use testingmulti.Status.{
  StatusType, StatusSubType, is_snapshot_activity_type, is_exception, ActorType, system,
  system_actor_id, PauseType, system_error, status_type_from_db, sub_status_type_from_db,
}
use testingmulti.Lifecycle.Command.{Command}
use testingmulti.Lifecycle.Store.{RowView}

-- What the service takes from outside: `str(uuid.UUID(s))` (`none` for its ValueError), the look-up
-- of a tenant's id by its slug, and the id that the database gives the n-th log row.
pub record Env : Type 0 where
  pub canonical_uuid : String → Option String
  pub find_tenant_uuid_by_slug : String → Option String
  pub log_id : ℕ → String

-- `LifecycleTransitionError`, by its message
pub data TransitionError : Type 0 where
  tenant_unresolved lifecycle_id_required invalid_lifecycle_id : TransitionError
  run_id_required invalid_run_id lifecycle_not_found : TransitionError
  tenant_differs lifecycle_differs run_differs : TransitionError

pub data Result {ℓ} (A : Type ℓ) : Type ℓ where
  ok : A → Result A
  err : TransitionError → Result A

infixl 5 ◌>>=◌ ◌>>◌
abbrev pub ◌>>=◌ {ℓ κ} : {A : Type ℓ} {B : Type κ} → Result A → (A → Result B) → Result B
ok a >>= f = f a
err e >>= f = err e

abbrev pub ◌>>◌ {ℓ κ} : {A : Type ℓ} {B : Type κ} → Result A → Result B → Result B
m >> k = m >>= λ _. k

abbrev pub raise_unless : Bool → TransitionError → Result (Unit {0})
raise_unless true e = ok tt
raise_unless false e = err e

abbrev pub or_raise {ℓ} : {A : Type ℓ} → Option A → TransitionError → Result A
or_raise (some a) e = ok a
or_raise none e = err e

-- `_PauseContext`
pub record PauseContext : Type 0 where
  pub has_exception : Bool
  pub pause_type : Option PauseType

-- The loop of `_resolve_pause_context`.
unfoldable pub pause_loop : List Command → PauseContext → PauseContext
pause_loop [] p = p
pause_loop (command ∷ commands) p = pause_loop commands (
    if is_exception command.activity_type
    then record { has_exception = true; pause_type = first_some p.pause_type command.pause_type }
    else p)

unfoldable pub resolve_pause_context : List Command → PauseContext
unfolding pause_loop
resolve_pause_context commands =
    let p = pause_loop commands (record { has_exception = false; pause_type = none }) in
    if p.has_exception && not (is_some p.pause_type)
    then record p { pause_type = some system_error }
    else p

-- `_clean`
unfoldable pub clean : Option String → Option String
clean none = none
clean (some value) = non_empty (strip value)

-- `_uuid_or_raise`
unfoldable pub uuid_or_raise : Env → String → TransitionError → TransitionError → Result String
unfolding clean
uuid_or_raise env value required invalid = do
  raw ← or_raise (clean (some value)) required
  or_raise (env.canonical_uuid raw) invalid

-- `resolve_graph_tenant_to_uuid` of app/repositories/tenants_db_repository.py
unfoldable pub resolve_graph_tenant_to_uuid : Env → Option String → Option String
resolve_graph_tenant_to_uuid env tenant_id =
    let cleaned = strip (or_else tenant_id "") in
    if is_empty cleaned
    then none
    else if is_some (env.canonical_uuid cleaned)
    then some cleaned
    else env.find_tenant_uuid_by_slug cleaned

-- `_resolve_current_status`
unfoldable pub resolve_current_status :
    Command → Option RowView → Option StatusType × Option StatusSubType
resolve_current_status command none = (command.from_status, command.from_sub_status)
resolve_current_status command (some row) =
    if is_snapshot_activity_type command.activity_type
    then (status_type_from_db row.status, sub_status_type_from_db row.sub_status)
    else (
      first_some command.from_status (status_type_from_db row.status),
      first_some command.from_sub_status (sub_status_type_from_db row.sub_status),
    )

-- The tuple that `_prepare_scope` returns.
pub record Scope : Type 0 where
  pub tenant_uuid : String
  pub lifecycle_id : String
  pub run_id : Option String
  pub actor_type : ActorType
  pub actor_id : Option String

-- The `run_id` of a command: None when blank, else a UUID.
unfoldable pub run_id_of : Env → Command → Result (Option String)
unfolding clean uuid_or_raise
run_id_of env command = elim (clean command.workflow_run_id) [
  | none ↦ ok none
  | some raw ↦ uuid_or_raise env raw run_id_required invalid_run_id >>= λ id. ok (some id)
]

abbrev is_system : ActorType → Bool
is_system system = true
is_system _ = false

unfoldable pub prepare_scope : Env → Command → Result Scope
unfolding clean uuid_or_raise resolve_graph_tenant_to_uuid run_id_of
prepare_scope env command = do
  tenant_uuid ←
      or_raise (resolve_graph_tenant_to_uuid env (clean (some command.tenant_id))) tenant_unresolved
  lifecycle_id ←
      uuid_or_raise env command.workflow_lifecycle_id lifecycle_id_required invalid_lifecycle_id
  run_id ← run_id_of env command
  let actor_type = or_else command.actor_type system
  let actor_id = clean command.actor_id
  ok (record {
    tenant_uuid = tenant_uuid;
    lifecycle_id = lifecycle_id;
    run_id = run_id;
    actor_type = actor_type;
    actor_id =
        if is_some actor_id || not (is_system actor_type) then actor_id else some system_actor_id;
  })
