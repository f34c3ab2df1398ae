-- ===== src/Correlation/Active.antt =====
-- When a driver assignment cycle is created, and when an active one is used.
-- A row that is an active cycle of a shipment: its status is in progress, and its sub-status is known and
-- neither a success nor a cancellation.
use testingmulti.Correlation.{
  CorrelationRow, Moment, find_in_progress_lifecycle_id, fresh_row, id_of, newest, sql_equal,
  sql_in, sql_not_in,
}
use testingmulti.Correlation.Service.{
  Env, Resolution, db_tenant_of, extract_db_shipment_id, named_lifecycle, resolved, uuid_or_none,
}
use testingmulti.RunQueue.Serializer.{result}
use testingmulti.Correlation.DriverCycle.{
  active_in, cycle_of, driver_assignment_cancel_policy, find_in_progress,
  resolve_driver_assignment_cycle,
}
use testingmulti.Correlation.Newest.{is_some-newest, newest-Mem, newest-OnSome}
use testingmulti.Common.{
  Bool, List, OnSome-elim, Option-cases, String, [], any, false, inl, inr, none, refl, some, sym,
  true, ◌&&◌, ◌++◌, ◌==◌, ◌∙◌, ◌∷◌, ◌≡◌, ◌⊎◌,
}
use testingmulti.Common.Value.{Fields, str}
use testingmulti.Common.Text.{is_empty, strip}
use testingmulti.Common.Stripped.{strip_idem}
use mathlib.Core.List.{Memᴰ}

abbrev pub is_active : String → String → CorrelationRow → Bool
is_active tid sid row =
    (row.tenant_id == tid && row.workflow_name == "driver_assignment")
    && (sql_equal row.shipment_id sid
        && sql_in row.status ("processing" ∷ "pending_review" ∷ [])
        && sql_not_in row.sub_status ("cancelled" ∷ "uploaded_to_tms" ∷ []))

-- What the call does: an active cycle of the table is used, or there is none and one is created.
abbrev pub UsesActive :
    Moment → String → String → List CorrelationRow → Resolution × List CorrelationRow → Type 0
UsesActive moment tid sid rows result =
    ((row : CorrelationRow) × Memᴰ row rows
      × (is_active tid sid row ≡ true)
      × (result ≡ (resolved row.id true, rows)))
    ⊎ ((any (is_active tid sid) rows ≡ false)
        × (result ≡ (
          resolved moment.new_id false,
          rows ++ fresh_row moment tid "driver_assignment" none (some sid) ∷ [],
        )))

active_in_lem :
    (tid sid : String) (rows : List CorrelationRow)
    → is_empty sid ≡ false
    → active_in driver_assignment_cancel_policy tid sid rows
      ≡ id_of (newest (is_active tid sid) rows)
unfolding find_in_progress_lifecycle_id
active_in_lem tid sid rows named = rw named refl

cycle-UsesActive :
    (env : Env) (moment : Moment) (tid sid : String) (rows : List CorrelationRow)
    → is_empty sid ≡ false
    → UsesActive moment tid sid rows
        (cycle_of env (active_in driver_assignment_cancel_policy tid sid rows) moment tid sid rows)
cycle-UsesActive env moment tid sid rows named =
    let p = is_active tid sid in
    elim (Option-cases (newest p rows)) [
      | inl missing ↦ inr (
        sym (is_some-newest p rows) ∙ rw missing refl,
        rw (active_in_lem tid sid rows named, missing) refl,
      )
      | inr (row, e) ↦ inl (
        row,
        OnSome-elim (λ r. Memᴰ r rows) (newest p rows) row (newest-Mem p rows) e,
        OnSome-elim (λ r. p r ≡ true) (newest p rows) row (newest-OnSome p rows) e,
        rw (active_in_lem tid sid rows named, e) refl,
      )
    ]

-- For a known tenant, a payload that names no lifecycle and a shipment with a UUID in its usual form: if
-- the table has an active cycle of the shipment, the call uses such a row of the table and writes
-- nothing, and it creates one only if there is none.
pub resolve_driver_assignment_cycle-UsesActive :
    (env : Env) (moment : Moment) (tenant_id tid sid : String) (payload : Fields)
    (rows : List CorrelationRow)
    → is_empty (strip tenant_id) ≡ false
    → db_tenant_of env (strip tenant_id) ≡ some tid
    → named_lifecycle env payload ≡ none
    → extract_db_shipment_id env payload ≡ some sid
    → uuid_or_none env (str sid) ≡ some sid
    → is_empty sid ≡ false
    → UsesActive moment tid sid rows
        (resolve_driver_assignment_cycle env moment tenant_id payload rows)
unfolding resolve_driver_assignment_cycle find_in_progress
resolve_driver_assignment_cycle-UsesActive env moment tenant_id tid sid payload rows named known
      anonymous shipment uuid present =
    rw (named, known, anonymous, shipment, uuid, strip_idem tenant_id)
      (rw known (cycle-UsesActive env moment tid sid rows present))
