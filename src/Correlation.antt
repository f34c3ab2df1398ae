-- ===== src/Correlation.antt =====
-- Which lifecycle an event belongs to: the correlation columns of `workflow_lifecycles`, and the
-- statements that find, insert and link a row
-- (app/repositories/workflow_lifecycles_repository.py).
pub mod Newest
pub mod Service
pub mod Enqueue
pub mod Again
pub mod Together
pub mod Meeting
pub mod DriverCycle
pub mod Active
mod Examples
use testingmulti.Workflow.{values}
use testingmulti.Status.{cancelled, sub_status_value}
use testingmulti.Common.{
  Bool, List, Option, String, [], contains, false, first_some, if◌then◌else◌, is_some, ltb, none,
  not, some, true, ℕ, ◌&&◌, ◌++◌, ◌==◌, ◌||◌, ◌∷◌,
}
use testingmulti.Common.Text.{is_empty, non_empty}

-- A row of `workflow_lifecycles`, by the columns that correlate it; no value is NULL.
pub record CorrelationRow : Type 0 where
  pub id : String
  pub tenant_id : String
  pub workflow_name : String
  pub tender_id : Option String
  pub shipment_id : Option String
  pub status : Option String
  pub sub_status : Option String
  pub updated_at : ℕ

-- What a call takes from outside: `str(uuid.uuid4())` and the time of its transaction.
pub record Moment : Type 0 where
  pub new_id : String
  pub now : ℕ

-- `column = value` in SQL, which is not true of NULL
abbrev pub sql_equal : Option String → String → Bool
sql_equal none value = false
sql_equal (some column) value = column == value

-- `column != value` in SQL, which is not true of NULL either
abbrev pub sql_differs : Option String → String → Bool
sql_differs none value = false
sql_differs (some column) value = not (column == value)

-- `column IN (values)` and `column NOT IN (values)`
abbrev pub sql_in : Option String → List String → Bool
sql_in none values = false
sql_in (some column) values = contains values column

abbrev pub sql_not_in : Option String → List String → Bool
sql_not_in none values = false
sql_not_in (some column) values = not (contains values column)

-- ORDER BY updated_at DESC LIMIT 1; of rows with the same time, the one that stands first
abbrev pub later : CorrelationRow → Option CorrelationRow → Option CorrelationRow
later row none = some row
later row (some other) = if ltb row.updated_at other.updated_at then some other else some row

unfoldable pub newest : (CorrelationRow → Bool) → List CorrelationRow → Option CorrelationRow
newest p [] = none
newest p (row ∷ rows) = let rest = newest p rows in if p row then later row rest else rest

-- A primary key is no NULL, and no empty text.
abbrev pub id_of : Option CorrelationRow → Option String
id_of none = none
id_of (some row) = some row.id

-- `_WHERE_TENANT_WORKFLOW`
abbrev pub of_tenant_workflow : String → String → CorrelationRow → Bool
of_tenant_workflow tenant_id workflow_name row =
    row.tenant_id == tenant_id && row.workflow_name == workflow_name

-- `_fetch_lifecycle_id`, for a predicate on the row
abbrev pub fetch_lifecycle_id :
    String → String → (CorrelationRow → Bool) → List CorrelationRow → Option String
fetch_lifecycle_id tenant_id workflow_name extra_predicate rows =
    id_of
      (newest (λ row. of_tenant_workflow tenant_id workflow_name row && extra_predicate row) rows)

abbrev pub of_shipment : String → CorrelationRow → Bool
of_shipment shipment_id row = sql_equal row.shipment_id shipment_id

abbrev pub of_tender : String → CorrelationRow → Bool
of_tender tender_id row = sql_equal row.tender_id tender_id

abbrev pub not_cancelled : CorrelationRow → Bool
not_cancelled row = sql_differs row.sub_status (sub_status_value cancelled)

-- The condition of `_find_existing_lifecycle_id_shipment_first`
abbrev pub shipment_first : String → String → CorrelationRow → Bool
shipment_first workflow_name shipment_id row =
    of_shipment shipment_id row && (not (workflow_name == "ratecon") || not_cancelled row)

-- `_find_existing_lifecycle_id_shipment_first`
abbrev pub find_shipment_first :
    String → String → Option String → List CorrelationRow → Option String
find_shipment_first tenant_id workflow_name none rows = none
find_shipment_first tenant_id workflow_name (some shipment_id) rows =
    fetch_lifecycle_id tenant_id workflow_name (shipment_first workflow_name shipment_id) rows

abbrev pub fetch_by :
    String
    → String
    → (String → CorrelationRow → Bool)
    → Option String
    → List CorrelationRow
    → Option String
fetch_by tenant_id workflow_name column none rows = none
fetch_by tenant_id workflow_name column (some key) rows =
    fetch_lifecycle_id tenant_id workflow_name (column key) rows

abbrev pub is_shipment_workflow : String → Bool
is_shipment_workflow workflow_name = workflow_name == "ratecon" || workflow_name == "pod_lifecycle"

-- `find_existing_lifecycle_id`; the keys are UUIDs in their usual form, or missing.
unfoldable pub find_existing_lifecycle_id :
    String → String → Option String → Option String → List CorrelationRow → Option String
unfolding newest
find_existing_lifecycle_id tenant_id workflow_name tender_id shipment_id rows =
    if is_shipment_workflow workflow_name
    then find_shipment_first tenant_id workflow_name shipment_id rows
    else first_some (fetch_by tenant_id workflow_name of_tender tender_id rows)
        (fetch_by tenant_id workflow_name of_shipment shipment_id rows)

-- The row that `insert_lifecycle` inserts; the other columns have no default but the time.
abbrev pub fresh_row : Moment → String → String → Option String → Option String → CorrelationRow
fresh_row moment tenant_id workflow_name tender_id shipment_id = record {
  id = moment.new_id;
  tenant_id = tenant_id;
  workflow_name = workflow_name;
  tender_id = tender_id;
  shipment_id = shipment_id;
  status = none;
  sub_status = none;
  updated_at = moment.now;
}

-- `resolve_or_create`: the id, whether it existed, and the table
unfoldable pub resolve_or_create :
    Moment
    → String
    → String
    → Option String
    → Option String
    → List CorrelationRow
    → (String × Bool) × List CorrelationRow
unfolding find_existing_lifecycle_id
resolve_or_create moment tenant_id workflow_name tender_id shipment_id rows =
    elim (find_existing_lifecycle_id tenant_id workflow_name tender_id shipment_id rows) [
      | some existing_id ↦ ((existing_id, true), rows)
      | none ↦ (
        (moment.new_id, false),
        rows ++ fresh_row moment tenant_id workflow_name tender_id shipment_id ∷ [],
      )
    ]

-- `update_shipment_id`; the flag is `rowcount > 0`.
abbrev linkable : String → CorrelationRow → Bool
linkable lifecycle_id row = row.id == lifecycle_id && not (is_some row.shipment_id)

unfoldable pub update_shipment_id :
    ℕ → String → String → List CorrelationRow → Bool × List CorrelationRow
update_shipment_id now lifecycle_id shipment_id [] = (false, [])
update_shipment_id now lifecycle_id shipment_id (row ∷ rows) =
    let (found, rest) = update_shipment_id now lifecycle_id shipment_id rows in
    if linkable lifecycle_id row
    then (true, record row { shipment_id = some shipment_id; updated_at = now } ∷ rest)
    else (found, row ∷ rest)

abbrev pub no_texts : List String → Bool
no_texts [] = true
no_texts (t ∷ ts) = false

-- `find_in_progress_lifecycle_id`
unfoldable pub find_in_progress_lifecycle_id :
    String → String → String → List String → List String → List CorrelationRow → Option String
unfolding newest
find_in_progress_lifecycle_id tenant_id workflow_name shipment_id in_progress excluded rows =
    if is_empty shipment_id || no_texts in_progress
    then none
    else fetch_lifecycle_id tenant_id workflow_name
        (λ row.
          of_shipment shipment_id row
          && sql_in row.status in_progress
          && (no_texts excluded || sql_not_in row.sub_status excluded))
        rows
