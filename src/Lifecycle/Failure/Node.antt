-- ===== src/Lifecycle/Failure/Node.antt =====
-- The whole of `record_workflow_failure_node`: what it records, whatever the error's category.
use testingmulti.RunQueue.Serializer.{result}
use testingmulti.Lifecycle.Sequence.{apply_sequence}
use testingmulti.Common.{List, ap}
use testingmulti.Status.{system_error}
use testingmulti.Lifecycle.Sequence.{SequenceResult}
use testingmulti.Lifecycle.Command.{Command}
use testingmulti.Lifecycle.FromState.{checked_of_owner, from_workflow_state}
use testingmulti.Lifecycle.Scope.{ok, resolve_pause_context}
use testingmulti.Lifecycle.Failure.{
  exception_command, failure_pause, from_error_category, has_ids, record_failure,
  record_workflow_failure_node, recorded, resolve_shipment_id, status_command,
}
use testingmulti.Lifecycle.Store.{Db, Row}
use testingmulti.Lifecycle.Sequence.Pause.{resolve_pause_context_lem}
use testingmulti.Lifecycle.Failure.Recorded.{IsRecorded, commands-IsRecorded}
use testingmulti.Common.{
  Option, String, [], arith, lookup, or_else, refl, some, true, ◌∙◌, ◌∷◌, ◌≡◌,
}
use testingmulti.Common.Value.{Fields, Value, as_dict, get}
use testingmulti.Lifecycle.Scope.{Env, Scope, prepare_scope}
use testingmulti.RoutingGuide.Service.{WorkflowState}

-- A business error names no pause type, so that both kinds come to a system error.
failure_pause_system :
    (category : Value) → or_else (failure_pause category) system_error ≡ system_error
unfolding failure_pause from_error_category
failure_pause_system category = ground arith

module _ (env : Env) (render : Value → String) (state : WorkflowState) where
  pauses :
      (error : Fields) (shipment_id : Option String)
      → resolve_pause_context (
          exception_command env render state error shipment_id
          ∷ status_command env render state
          ∷ [])
        ≡ record { has_exception = true; pause_type = some system_error }
  unfolding exception_command status_command
  pauses error shipment_id =
      resolve_pause_context_lem _ ∙ ground (arith, failure_pause_system (get error "category"))

  abbrev commands : Fields → Option String → List Command
  commands error shipment_id =
      exception_command env render state error shipment_id ∷ status_command env render state ∷ []

  record_failure_ok :
      (error : Fields) (shipment_id : Option String) (db : Db) (result : SequenceResult)
      → (apply_sequence env (commands error shipment_id) db).0 ≡ ok result
      → record_failure env render state error shipment_id db
        ≡ (recorded result, (apply_sequence env (commands error shipment_id) db).1)
  unfolding record_failure
  record_failure_ok error shipment_id db result e = rw (record_failure, e) refl

  record_failure-IsRecorded :
      (error : Fields) (shipment_id : Option String) (db : Db) (scope : Scope) (r : Row)
      → prepare_scope env (status_command env render state) ≡ ok scope
      → lookup scope.lifecycle_id db.lifecycles ≡ some r
      → (result : SequenceResult) × ((record_failure env render state error shipment_id db).0
          ≡ recorded result)
        × IsRecorded scope.lifecycle_id r db result.activity_log_ids
            (record_failure env render state error shipment_id db).1
  unfolding exception_command status_command from_workflow_state prepare_scope
  record_failure-IsRecorded error shipment_id db scope r h found =
      let c : Command = exception_command env render state error shipment_id in
      let d : Command = status_command env render state in
      let done : (result : SequenceResult) × ((apply_sequence env (commands error shipment_id) db).0
            ≡ ok result)
          × IsRecorded scope.lifecycle_id r db result.activity_log_ids
              (apply_sequence env (commands error shipment_id) db).1 =
        commands-IsRecorded env scope r c d db found (pauses error shipment_id) h
          (checked_of_owner env d c scope (refl, refl, refl) h)
          (checked_of_owner env d d scope (refl, refl, refl) h) in
      let whole = record_failure_ok error shipment_id db done.0 done.1 in
      (done.0, ap (λ x. x.0) whole, rw whole done.2)

  -- Where the state has its three ids, its scope can be prepared, its `workflow_lifecycle` can be read
  -- and the row is there, the failure is recorded whatever its category: the call returns the ids of
  -- two new log entries, an exception that shows the old status, and behind it a change from that
  -- status to pending_review. The row is left at pending_review with its sub-status as it was, and is
  -- paused for a system error, also where the error is a business one.
  pub record_workflow_failure_node-IsRecorded :
      (shipment_id : Option String) (db : Db) (scope : Scope) (r : Row)
      → has_ids env render state ≡ true
      → resolve_shipment_id env render state.state_data ≡ some shipment_id
      → prepare_scope env (status_command env render state) ≡ ok scope
      → lookup scope.lifecycle_id db.lifecycles ≡ some r
      → (result : SequenceResult) × ((record_workflow_failure_node env render state db).0
          ≡ recorded result)
        × IsRecorded scope.lifecycle_id r db result.activity_log_ids
            (record_workflow_failure_node env render state db).1
  unfolding record_workflow_failure_node
  record_workflow_failure_node-IsRecorded shipment_id db scope r ids shipment h found =
      let done =
        record_failure-IsRecorded (as_dict (get state.state_data "error")) shipment_id db scope r h
          found in
      rw (ids, shipment) done
