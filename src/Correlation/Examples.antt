-- ===== src/Correlation/Examples.antt =====
-- Two events of one shipment.
use testingmulti.Correlation.{CorrelationRow, find_in_progress_lifecycle_id}
use testingmulti.Correlation.Service.{named_lifecycle, resolved}
use testingmulti.Correlation.Active.{UsesActive, resolve_driver_assignment_cycle-UsesActive}
use testingmulti.Correlation.DriverCycle.{find_in_progress, resolve_driver_assignment_cycle}
use testingmulti.Correlation.{
  Moment, find_existing_lifecycle_id, fresh_row, newest, resolve_or_create,
}
use testingmulti.Correlation.Service.{Env, extract_db_shipment_id, extract_tender_id, uuid_or_none}
use testingmulti.RunQueue.Serializer.{World}
use testingmulti.RunQueue.Redis.{redis}
use testingmulti.Correlation.Again.{is_found_again, resolve_or_create-Again}
use testingmulti.Correlation.Meeting.{
  EnqueuesFor, IsAddressed, IsEvent, resolve_then_enqueue-Together,
}
use testingmulti.Correlation.Enqueue.{resolve_then_enqueue}
use testingmulti.Lifecycle.Scope.{resolve_graph_tenant_to_uuid}
use testingmulti.Common.{
  [], false, if◌then◌else◌, length, none, refl, some, true, ◌++◌, ◌==◌, ◌||◌, ◌∷◌, ◌≡◌,
}
use testingmulti.Common.Value.{Fields, end, field, get, str}
use testingmulti.Common.Text.{strip}

abbrev sample_env : Env
sample_env = record {
  transitions = record {
    canonical_uuid = λ s. if s == "123" then none else some s;
    find_tenant_uuid_by_slug = λ s. none;
    log_id = λ n. "log";
  };
  render = λ v. "?";
  shipment_by_number = λ tid number. some (str "s-1");
}

abbrev first_moment : Moment
first_moment = record { new_id = "life-1"; now = 1 }

abbrev next_moment : Moment
next_moment = record { new_id = "life-2"; now = 2 }

abbrev quiet : World redis
quiet = record { store = λ k. []; published = [] }

abbrev pod_event : Fields
pod_event = field "shipments_row_id" (str " s-1 ") end

resolve_or_create-Again_example :
    resolve_or_create next_moment "gelita" "ratecon" none
      (some "s-1")
      (resolve_or_create first_moment "gelita" "ratecon" none (some "s-1") []).1
    ≡ (if (resolve_or_create first_moment "gelita" "ratecon" none (some "s-1") []).0.1
          || is_found_again "ratecon" none (some "s-1")
        then (
          ((resolve_or_create first_moment "gelita" "ratecon" none (some "s-1") []).0.0, true),
          (resolve_or_create first_moment "gelita" "ratecon" none (some "s-1") []).1,
        )
        else (
          ("life-2", false),
          (resolve_or_create first_moment "gelita" "ratecon" none (some "s-1") []).1
              ++ fresh_row next_moment "gelita" "ratecon" none (some "s-1") ∷ [],
        ))
resolve_or_create-Again_example =
    resolve_or_create-Again first_moment next_moment "gelita" "ratecon" none (some "s-1") []

-- Two lifecycles of one rate confirmation
two_ratecons :
    length
      (resolve_or_create next_moment "gelita" "ratecon" none
        (some "s-1")
        (resolve_or_create first_moment "gelita" "ratecon" none (some "s-1") []).1).1
    ≡ 2
unfolding resolve_or_create find_existing_lifecycle_id newest
two_ratecons = refl

addressed : IsAddressed sample_env redis "gelita" "pod_lifecycle" "gelita" none (some "s-1")
unfolding strip resolve_graph_tenant_to_uuid
addressed = record { tenant_named = refl; workflow_named = refl; known = refl }

pod_keys : IsEvent sample_env redis "gelita" "pod_lifecycle" "gelita" none (some "s-1") pod_event
unfolding get strip extract_tender_id extract_db_shipment_id uuid_or_none
pod_keys = record { anonymous = refl; by_tender = refl; by_shipment = refl }

resolve_then_enqueue-Together_example :
    let first =
      resolve_then_enqueue sample_env redis first_moment "gelita" "gelita" "pod_lifecycle" pod_event
        (record { rows = []; world = quiet }) in
    EnqueuesFor sample_env redis "gelita" "pod_lifecycle" "gelita" none
      (some "s-1")
      "life-1"
      "gelita"
      pod_event
      quiet
      first
    × EnqueuesFor sample_env redis "gelita" "pod_lifecycle" "gelita" none
        (some "s-1")
        "life-1"
        "gelita"
        pod_event
        quiet
        (resolve_then_enqueue sample_env redis next_moment "gelita" "gelita" "pod_lifecycle"
          pod_event
          (record { rows = first.1.rows; world = quiet }))
unfolding strip find_existing_lifecycle_id newest
resolve_then_enqueue-Together_example =
    resolve_then_enqueue-Together sample_env redis "gelita" "pod_lifecycle" "gelita" none
      (some "s-1") first_moment next_moment "gelita" "gelita" pod_event pod_event [] quiet quiet
      addressed pod_keys pod_keys refl refl refl tt

abbrev driver_row : CorrelationRow
driver_row = record {
  id = "cycle-1";
  tenant_id = "gelita";
  workflow_name = "driver_assignment";
  tender_id = none;
  shipment_id = some "s-1";
  status = some "processing";
  sub_status = some "reminder_1_sent";
  updated_at = 0;
}

resolve_driver_assignment_cycle-UsesActive_example :
    UsesActive next_moment "gelita" "s-1"
      (driver_row ∷ [])
      (resolve_driver_assignment_cycle sample_env next_moment "gelita" pod_event (driver_row ∷ []))
unfolding strip resolve_graph_tenant_to_uuid named_lifecycle extract_db_shipment_id uuid_or_none get
resolve_driver_assignment_cycle-UsesActive_example =
    resolve_driver_assignment_cycle-UsesActive sample_env next_moment "gelita" "gelita" "s-1"
      pod_event (driver_row ∷ []) refl refl refl refl refl refl

-- An active cycle is used; one that was just inserted is not active yet.
uses_active :
    (resolve_driver_assignment_cycle sample_env next_moment "gelita" pod_event (driver_row ∷ [])).0
    ≡ resolved "cycle-1" true
unfolding resolve_driver_assignment_cycle find_in_progress find_in_progress_lifecycle_id newest
    strip resolve_graph_tenant_to_uuid named_lifecycle extract_db_shipment_id uuid_or_none get
uses_active = refl
