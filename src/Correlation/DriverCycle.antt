-- ===== src/Correlation/DriverCycle.antt =====
-- `resolve_driver_assignment_cycle` (app/services/workflow_lifecycle_service.py) with the policy that
-- says which cycle is still active (app/configs/workflow_cancellation_policies.py,
-- app/domain/workflow_cancellation.py).
-- `WorkflowCancellationPolicy`, by the sets that a look-up reads
use testingmulti.Correlation.{CorrelationRow, Moment, find_in_progress_lifecycle_id, fresh_row}
use testingmulti.Correlation.Service.{
  Env, Resolution, db_tenant_of, extract_db_shipment_id, named_lifecycle, refused, resolved,
  shipment_required, tenant_required, tenant_unknown, uuid_or_none,
}
use testingmulti.Status.{
  StatusSubType, StatusType, cancelled, pending_review, processing, status_value, sub_status_value,
  uploaded_to_tms,
}
use testingmulti.Lifecycle.Scope.{resolve_graph_tenant_to_uuid}
use testingmulti.Common.{
  List, Option, String, [], and_then, false, if◌then◌else◌, map, none, some, true, ◌++◌, ◌∷◌,
}
use testingmulti.Common.Value.{Fields, Value, str}
use testingmulti.Common.Text.{is_empty, strip}

pub record CancellationPolicy : Type 0 where
  pub workflow_name : String
  pub cancellable_statuses : List StatusType
  pub success_terminal_sub_statuses : List StatusSubType
  pub cancel_to_sub_status : StatusSubType

-- `in_progress_status_values`
abbrev pub in_progress_status_values : CancellationPolicy → List String
in_progress_status_values policy = map status_value policy.cancellable_statuses

-- `excluded_sub_status_values`
abbrev pub excluded_sub_status_values : CancellationPolicy → List String
excluded_sub_status_values policy =
    map sub_status_value (policy.cancel_to_sub_status ∷ policy.success_terminal_sub_statuses)

-- `DRIVER_ASSIGNMENT_CANCEL_POLICY`
abbrev pub driver_assignment_cancel_policy : CancellationPolicy
driver_assignment_cancel_policy = record {
  workflow_name = "driver_assignment";
  cancellable_statuses = processing ∷ pending_review ∷ [];
  success_terminal_sub_statuses = uploaded_to_tms ∷ [];
  cancel_to_sub_status = cancelled;
}

-- The look-up of a policy's active lifecycle, by a shipment's id
abbrev pub active_in : CancellationPolicy → String → String → List CorrelationRow → Option String
active_in policy tid sid rows =
    find_in_progress_lifecycle_id tid policy.workflow_name sid (in_progress_status_values policy)
      (excluded_sub_status_values policy) rows

module _ (env : Env) where
  -- `find_in_progress_lifecycle_id` of the service
  unfoldable pub find_in_progress :
      CancellationPolicy → String → Value → List CorrelationRow → Option String
  unfolding uuid_or_none find_in_progress_lifecycle_id resolve_graph_tenant_to_uuid
  find_in_progress policy tenant_id shipment_id rows =
      and_then (db_tenant_of env (strip tenant_id))
        (λ tid. and_then (uuid_or_none env shipment_id) (λ sid. active_in policy tid sid rows))

  abbrev pub insert_cycle :
      Moment → String → String → List CorrelationRow → Resolution × List CorrelationRow
  insert_cycle moment db_tenant shipment_id rows = (
    resolved moment.new_id false,
    rows ++ fresh_row moment db_tenant "driver_assignment" none (some shipment_id) ∷ [],
  )

  abbrev pub cycle_of :
      Option String
      → Moment
      → String
      → String
      → List CorrelationRow
      → Resolution × List CorrelationRow
  cycle_of (some active_id) moment db_tenant shipment_id rows = (resolved active_id true, rows)
  cycle_of none moment db_tenant shipment_id rows = insert_cycle moment db_tenant shipment_id rows

  abbrev pub cycle_for :
      Option String
      → Moment
      → String
      → String
      → List CorrelationRow
      → Resolution × List CorrelationRow
  cycle_for none moment tenant_id db_tenant rows = (refused shipment_required, rows)
  cycle_for (some shipment_id) moment tenant_id db_tenant rows =
      cycle_of (find_in_progress driver_assignment_cancel_policy tenant_id (str shipment_id) rows)
        moment db_tenant shipment_id rows

  abbrev pub cycle_named :
      Option String
      → Moment
      → String
      → String
      → Fields
      → List CorrelationRow
      → Resolution × List CorrelationRow
  cycle_named (some id) moment tenant_id db_tenant payload rows = (resolved id true, rows)
  cycle_named none moment tenant_id db_tenant payload rows =
      cycle_for (extract_db_shipment_id env payload) moment tenant_id db_tenant rows

  abbrev pub cycle_tenant :
      Option String
      → Moment
      → String
      → Fields
      → List CorrelationRow
      → Resolution × List CorrelationRow
  cycle_tenant none moment tenant_id payload rows = (refused tenant_unknown, rows)
  cycle_tenant (some db_tenant) moment tenant_id payload rows =
      cycle_named (named_lifecycle env payload) moment tenant_id db_tenant payload rows

  -- `resolve_driver_assignment_cycle`
  unfoldable pub resolve_driver_assignment_cycle :
      Moment → String → Fields → List CorrelationRow → Resolution × List CorrelationRow
  unfolding strip named_lifecycle extract_db_shipment_id resolve_graph_tenant_to_uuid
      find_in_progress
  resolve_driver_assignment_cycle moment tenant_id payload rows =
      if is_empty (strip tenant_id)
      then (refused tenant_required, rows)
      else cycle_tenant (db_tenant_of env (strip tenant_id)) moment (strip tenant_id) payload rows
