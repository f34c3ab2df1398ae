-- ===== src/Correlation/Service.antt =====
-- `WorkflowLifecycleService` (app/services/workflow_lifecycle_service.py), and
-- `LifecycleRunSerializerService.resolve_then_enqueue`
-- (app/services/lifecycle_run_serializer_service.py).
use testingmulti.Correlation.{CorrelationRow, Moment, resolve_or_create, update_shipment_id}
use testingmulti.Lifecycle.Scope.{Scope, clean, resolve_graph_tenant_to_uuid}
use testingmulti.Common.{
  Bool, List, Option, String, and_then, false, first_some, if◌then◌else◌, is_some, map_option, none,
  or_else, some, true, ℕ, ◌||◌,
}
use testingmulti.Common.Value.{Fields, Value, get, null, str}
use testingmulti.Common.Text.{is_empty, non_empty, strip}
use testingmulti.Lifecycle.Scope

-- What the service takes from outside: the UUIDs and the tenants of Lifecycle, Python's text of values
-- that are no texts, and the id of the shipment with a number, by the tenant and the number
-- (`ShipmentsService.get_by_shipment_number`).
pub record Env : Type 0 where
  pub transitions : Scope.Env
  pub render : Value → String
  pub shipment_by_number : String → String → Option Value

-- The ValueErrors of `resolve_or_create_lifecycle` and `resolve_driver_assignment_cycle`
pub data ResolveError : Type 0 where
  tenant_and_workflow_required tenant_required tenant_unknown shipment_required : ResolveError

-- `LifecycleResolution`, or the error that is raised
pub data Resolution : Type 0 where
  refused : ResolveError → Resolution
  resolved : String → Bool → Resolution

module _ (env : Env) where
  -- `_clean` of a value
  abbrev pub clean_value : Value → Option String
  clean_value null = none
  clean_value (str s) = non_empty (strip s)
  clean_value v = non_empty (strip (env.render v))

  -- `_uuid_or_none`
  unfoldable pub uuid_or_none : Value → Option String
  unfolding strip
  uuid_or_none value = and_then (clean_value value) env.transitions.canonical_uuid

  -- `_extract_db_shipment_id`
  unfoldable pub extract_db_shipment_id : Fields → Option String
  unfolding uuid_or_none get
  extract_db_shipment_id payload =
      first_some (uuid_or_none (get payload "shipments_row_id"))
        (uuid_or_none (get payload "shipment_id"))

  -- `_extract_tender_id`
  unfoldable pub extract_tender_id : Fields → Option String
  unfolding uuid_or_none get
  extract_tender_id payload = uuid_or_none (get payload "tender_id")

  -- `CAST(:tenant_id AS uuid)`
  abbrev pub cast_uuid : String → String
  cast_uuid text = or_else (env.transitions.canonical_uuid text) text

  -- `resolve_graph_tenant_to_uuid` of a tenant that was cleaned
  abbrev pub db_tenant_of : String → Option String
  db_tenant_of tenant_id =
      map_option cast_uuid (resolve_graph_tenant_to_uuid env.transitions (some tenant_id))

  -- The lifecycle that the payload names, if it is a UUID
  unfoldable pub named_lifecycle : Fields → Option String
  unfolding strip get
  named_lifecycle payload =
      and_then (clean_value (get payload "workflow_lifecycle_id"))
        (λ raw. if is_some (env.transitions.canonical_uuid raw) then some raw else none)

  abbrev pub resolve_in :
      Moment → String → String → Fields → List CorrelationRow → Resolution × List CorrelationRow
  resolve_in moment db_tenant workflow_name payload rows =
      let ((id, existed), left) =
        resolve_or_create moment db_tenant workflow_name (extract_tender_id payload)
          (extract_db_shipment_id payload) rows in
      (resolved id existed, left)

  abbrev pub resolve_named :
      Option String
      → Moment
      → String
      → String
      → Fields
      → List CorrelationRow
      → Resolution × List CorrelationRow
  resolve_named (some id) moment db_tenant workflow_name payload rows = (resolved id true, rows)
  resolve_named none moment db_tenant workflow_name payload rows =
      resolve_in moment db_tenant workflow_name payload rows

  abbrev pub resolve_tenant :
      Option String
      → Moment
      → String
      → Fields
      → List CorrelationRow
      → Resolution × List CorrelationRow
  resolve_tenant none moment workflow_name payload rows = (refused tenant_unknown, rows)
  resolve_tenant (some db_tenant) moment workflow_name payload rows =
      resolve_named (named_lifecycle payload) moment db_tenant workflow_name payload rows

  -- `resolve_or_create_lifecycle`
  unfoldable pub resolve_or_create_lifecycle :
      Moment → String → String → Fields → List CorrelationRow → Resolution × List CorrelationRow
  unfolding strip named_lifecycle resolve_graph_tenant_to_uuid resolve_or_create
  resolve_or_create_lifecycle moment tenant_id workflow_name payload rows =
      let tenant = strip tenant_id in
      let name = strip workflow_name in
      if is_empty tenant || is_empty name
      then (refused tenant_and_workflow_required, rows)
      else resolve_tenant (db_tenant_of tenant) moment name payload rows

  abbrev pub link_found :
      ℕ → String → Option String → List CorrelationRow → Bool × List CorrelationRow
  link_found now lid none rows = (false, rows)
  link_found now lid (some sid) rows =
      if is_empty lid then (false, rows) else update_shipment_id now lid sid rows

  -- `link_shipment_row`
  abbrev pub link_shipment_row :
      ℕ → String → Value → List CorrelationRow → Bool × List CorrelationRow
  link_shipment_row now lifecycle_id shipments_row_id rows =
      link_found now (strip lifecycle_id) (uuid_or_none shipments_row_id) rows

  -- The look-up by an external number
  abbrev pub shipment_of_number : String → Option String → Option String
  shipment_of_number tenant_id none = none
  shipment_of_number tenant_id (some external) =
      and_then (resolve_graph_tenant_to_uuid env.transitions (clean (some tenant_id)))
        (λ tid. and_then (env.shipment_by_number tid external) uuid_or_none)

  -- `resolve_shipments_row_id`
  unfoldable pub resolve_shipments_row_id : String → Fields → Option String
  unfolding extract_db_shipment_id resolve_graph_tenant_to_uuid clean strip get
  resolve_shipments_row_id tenant_id payload =
      first_some (extract_db_shipment_id payload)
        (shipment_of_number tenant_id (clean_value (get payload "shipment_id")))

  -- `ensure_lifecycle_shipment_linked`
  unfoldable pub ensure_lifecycle_shipment_linked :
      ℕ → String → String → Fields → List CorrelationRow → Option String × List CorrelationRow
  unfolding resolve_shipments_row_id update_shipment_id strip uuid_or_none
  ensure_lifecycle_shipment_linked now lifecycle_id tenant_id payload rows =
      elim (resolve_shipments_row_id tenant_id payload) [
        | none ↦ (none, rows)
        | some row_id ↦ (some row_id, (link_shipment_row now lifecycle_id (str row_id) rows).1)
      ]
