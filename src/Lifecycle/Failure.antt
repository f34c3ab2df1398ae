-- ===== src/Lifecycle/Failure.antt =====
-- `record_workflow_failure_node` (app/workflows/nodes/error_handler.py) up to its alert, with
-- `PauseType.from_error_category` (app/models/pause_type.py) and `resolve_shipment_id`
-- (app/workflows/shipment_resolver.py).
use testingmulti.RunQueue.Serializer.{result}
use testingmulti.Common.{and_then}
pub mod Recorded
pub mod Node
mod Examples
use testingmulti.Status.{
  PauseType, business_exception, exception, pending_review, status_change, system, system_error,
}
use testingmulti.Lifecycle.Sequence.{SequenceResult, apply_sequence}
use testingmulti.Lifecycle.Command.{Command}
use testingmulti.Lifecycle.FromState.{Change, Owner, from_workflow_state, normalize_uuid}
use testingmulti.Lifecycle.Scope.{TransitionError, err, ok}
use testingmulti.Lifecycle.Store.{Db}
use testingmulti.Common.{
  Bool, Option, String, [], false, first_some, if◌then◌else◌, is_some, none, not, or_else, some,
  true, ◌&&◌, ◌||◌, ◌∷◌,
}
use testingmulti.Common.Value.{
  Fields, Value, as_dict, clean_text, end, get, is_text, null, obj, set_field, str, truthy,
}
use testingmulti.Common.Text.{is_empty, non_empty, strip}
use testingmulti.Lifecycle.Scope.{Env}
use testingmulti.RoutingGuide.Service.{WorkflowState}

abbrev is_business : PauseType → Bool
is_business business_exception = true
is_business system_error = false

-- `PauseType.from_error_category`, for a value of a graph state
unfoldable pub from_error_category : Value → PauseType
from_error_category category =
    if is_text category "business" then business_exception else system_error

-- The pause type that the node gives the exception: none for a business error
unfoldable pub failure_pause : Value → Option PauseType
unfolding from_error_category
failure_pause category =
    if is_text category "business" || is_business (from_error_category category)
    then none
    else some (from_error_category category)

-- What the node does: it skips a state without its three ids, fails on a `workflow_lifecycle` that
-- is not a dictionary, logs what `apply_sequence` raises, or has the entries recorded.
pub data Outcome : Type 0 where
  skipped attribute_error : Outcome
  refused : TransitionError → Outcome
  recorded : SequenceResult → Outcome

-- The keyword arguments of a status change by the system, where nothing more is said
abbrev no_change : Change
no_change = record {
  activity_type = status_change;
  to_status = none;
  to_sub_status = none;
  description = none;
  metadata = none;
  actor_type = some system;
  actor_id = none;
  from_status = none;
  from_sub_status = none;
  update_lifecycle = true;
  record_activity = true;
  require_lifecycle_row = true;
  communication_id = none;
  pause_type = none;
}

abbrev no_owner : Owner
no_owner = record { tenant_id = none; workflow_lifecycle_id = none; workflow_run_id = none }

-- `metadata[key] = v`, under a condition
abbrev set_if : Bool → String → Value → Fields → Fields
set_if c key v metadata = if c then set_field metadata key v else metadata

-- `metadata or None`
abbrev unless_empty : Fields → Option Value
unless_empty end = none
unless_empty metadata = some (obj metadata)

-- The message of an error, which is a text where there is one
abbrev message_of : Value → Option String
message_of (str s) = some s
message_of _ = none

-- `data.get("workflow_lifecycle") or {}`; none where the `get` that follows is not there
abbrev lifecycle_of : Value → Option Fields
lifecycle_of (obj d) = some d
lifecycle_of v = if truthy v then none else some end

module _ (env : Env) (render : Value → String) where
  -- `_strip_shipment_id`
  abbrev strip_shipment_id : Value → String
  strip_shipment_id null = ""
  strip_shipment_id (str s) = strip s
  strip_shipment_id v = strip (render v)

  -- `resolve_shipment_id_for_fetch`, where the outer `none` is an AttributeError
  unfoldable pub resolve_shipment_id_for_fetch : Fields → Option (Option String)
  unfolding get strip
  resolve_shipment_id_for_fetch state_data =
      and_then (lifecycle_of (get state_data "workflow_lifecycle")) λ lifecycle. some (
        first_some (non_empty (strip_shipment_id (get lifecycle "shipment_id")))
          (non_empty (strip_shipment_id (get state_data "shipment_id"))))

  -- `resolve_shipment_id`
  unfoldable pub resolve_shipment_id : Fields → Option (Option String)
  unfolding resolve_shipment_id_for_fetch get strip
  resolve_shipment_id state_data =
      let sid = strip_shipment_id (get (as_dict (get state_data "shipment")) "shipment_id") in
      if is_empty sid then resolve_shipment_id_for_fetch state_data else some (some sid)

  -- The metadata of the exception
  unfoldable pub failure_metadata : Fields → Fields → Option String → Fields
  unfolding get set_field strip
  failure_metadata error state_data shipment_id =
      let code = truthy (get error "code") in
      let category = code && truthy (get error "category") in
      let message = code && truthy (get error "message") in
      let load_id = clean_text render (get state_data "load_id") in
      let m₁ = set_if code "error" (get error "code") end in
      let m₂ = set_if category "error_category" (get error "category") m₁ in
      let m₃ = set_if message "error_description" (get error "message") m₂ in
      let m₄ = set_if (is_some shipment_id) "shipment_id" (str (or_else shipment_id "")) m₃ in
      set_if (not (is_empty load_id)) "load_id" (str load_id) m₄

  -- `exception_cmd`, with the communication that `_failure_communication_id` gives it
  unfoldable pub exception_command : WorkflowState → Fields → Option String → Command
  unfolding from_workflow_state failure_pause failure_metadata get
  exception_command state error shipment_id =
      record (from_workflow_state env render state no_owner (record no_change {
        activity_type = exception;
        metadata = unless_empty (failure_metadata error state.state_data shipment_id);
        description = message_of (get error "message");
        update_lifecycle = false;
        pause_type = failure_pause (get error "category");
      })) { communication_id = normalize_uuid env render (get error "communication_id") }

  -- `status_cmd`
  unfoldable pub status_command : WorkflowState → Command
  unfolding from_workflow_state
  status_command state =
      record (from_workflow_state env render state no_owner
        (record no_change { to_status = some pending_review })) { communication_id = none }

  -- Whether the state names its lifecycle, its tenant and its run
  unfoldable pub has_ids : WorkflowState → Bool
  unfolding get strip
  has_ids state =
      not (is_empty (clean_text render (get state.state_data "workflow_lifecycle_id")))
      && not (is_empty (strip state.tenant_id))
      && not (is_empty (strip state.execution_id))

  -- The two commands in one transaction
  unfoldable pub record_failure : WorkflowState → Fields → Option String → Db → Outcome × Db
  unfolding exception_command status_command apply_sequence
  record_failure state error shipment_id db =
      let (r, db') =
        apply_sequence env (exception_command state error shipment_id ∷ status_command state ∷ [])
          db in
      elim r [ ok result ↦ (recorded result, db') | err e ↦ (refused e, db') ]

  -- `record_workflow_failure_node`
  unfoldable pub record_workflow_failure_node : WorkflowState → Db → Outcome × Db
  unfolding has_ids resolve_shipment_id record_failure get
  record_workflow_failure_node state db =
      if has_ids state
      then elim (resolve_shipment_id state.state_data) [
        | none ↦ (attribute_error, db)
        | some shipment_id ↦
            record_failure state (as_dict (get state.state_data "error")) shipment_id db
      ]
      else (skipped, db)
