-- ===== src/Lifecycle/Failure/Examples.antt =====
-- A run of `record_workflow_failure_node` on a business error.
use testingmulti.Lifecycle.Failure.{resolve_shipment_id_for_fetch, skipped}
use testingmulti.Lifecycle.Sequence.{SequenceResult}
use testingmulti.Lifecycle.Failure.{
  has_ids, record_workflow_failure_node, recorded, resolve_shipment_id, status_command,
}
use testingmulti.Lifecycle.Store.{Db, Row}
use testingmulti.Lifecycle.Failure.Recorded.{IsRecorded}
use testingmulti.Lifecycle.Failure.Node.{record_workflow_failure_node-IsRecorded}
use testingmulti.Common.{String, [], eqb, if◌then◌else◌, none, refl, some, ◌∷◌, ◌≡◌}
use testingmulti.Common.Value.{Value, end, field, get, obj, str}
use testingmulti.Common.Text.{strip}
use testingmulti.Lifecycle.Scope.{Env, Scope, prepare_scope}
use testingmulti.Status.{system, system_actor_id}
use testingmulti.RoutingGuide.Service.{WorkflowState}

abbrev env : Env
env = record {
  canonical_uuid = λ s. some s;
  find_tenant_uuid_by_slug = λ s. none;
  log_id = λ n. if eqb n 0 then "log-0" else "log-1";
}

abbrev render : Value → String
render v = "?"

abbrev state : WorkflowState
state = record {
  tenant_id = "t3ra";
  execution_id = "R1";
  state_data = field "workflow_lifecycle_id" (str "L1") (
      field "shipment" (obj (field "shipment_id" (str "S7") end)) (
        field "error"
          (obj
            (field "code" (str "missing_delivery_address") (field "category" (str "business") end)))
          end));
}

abbrev in_transit : Row
in_transit = record {
  status = some "processing";
  sub_status = some "pod_started";
  pause_type = none;
  tenant_id = some "t3ra";
  workflow_name = "pod_lifecycle";
}

abbrev store : Db
store = record { lifecycles = ("L1", in_transit) ∷ []; activity_logs = [] }

abbrev scope : Scope
scope = record {
  tenant_uuid = "t3ra";
  lifecycle_id = "L1";
  run_id = some "R1";
  actor_type = system;
  actor_id = some system_actor_id;
}

record_workflow_failure_node-IsRecorded_example :
    (result : SequenceResult) × ((record_workflow_failure_node env render state store).0
      ≡ recorded result)
    × IsRecorded "L1" in_transit store result.activity_log_ids
        (record_workflow_failure_node env render state store).1
unfolding has_ids resolve_shipment_id prepare_scope status_command strip get
record_workflow_failure_node-IsRecorded_example =
    record_workflow_failure_node-IsRecorded env render state (some "S7") store scope in_transit refl
      refl refl refl

-- A state without a lifecycle is skipped.
skipped_run :
    record_workflow_failure_node env render (record state { state_data = end }) store
    ≡ (skipped, store)
unfolding record_workflow_failure_node has_ids strip get
skipped_run = refl

-- A `workflow_lifecycle` that is a text has no `get`.
unreadable_run : resolve_shipment_id env render (field "workflow_lifecycle" (str "L1") end) ≡ none
unfolding resolve_shipment_id resolve_shipment_id_for_fetch strip get
unreadable_run = refl
