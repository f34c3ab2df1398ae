-- ===== src/Lifecycle/Store.antt =====
-- The two tables that a transition writes: app/repositories/workflow_lifecycles_repository.py
-- (`get_for_update`, `update_lifecycle`) and activity_logs_repository.py (`insert`).
use testingmulti.Common.{
  String, ◌≡◌, Bool, false, ◌||◌, Option, none, List, [], ◌∷◌, ◌++◌, ◌==◌, Dict, lookup, is_some,
  first_some, if◌then◌else◌, arith, eq_iff,
}
use mathlib.Core.Option
use testingmulti.Common.Value.{Value}
use testingmulti.Status.{
  StatusType, StatusSubType, status_value, sub_status_value, ActivityType, ActorType, PauseType,
}

-- A row of `workflow_lifecycles`; the enum columns are read as text.
pub record Row : Type 0 where
  pub status : Option String
  pub sub_status : Option String
  pub pause_type : Option PauseType
  pub tenant_id : Option String
  pub workflow_name : String

-- What `get_for_update` selects.
pub record RowView : Type 0 where
  pub status : Option String
  pub sub_status : Option String
  pub tenant_id : Option String
  pub workflow_name : String

-- A row of `activity_logs`
pub record LogRow : Type 0 where
  pub id : String
  pub tenant_id : String
  pub workflow_lifecycle_id : String
  pub workflow_run_id : Option String
  pub activity_type : ActivityType
  pub description : Option String
  pub from_status : StatusType
  pub to_status : StatusType
  pub from_sub_status : StatusSubType
  pub to_sub_status : StatusSubType
  pub actor_type : ActorType
  pub actor_id : Option String
  pub metadata : Value
  pub communication_id : Option String

-- The newest log row is the last one.
pub record Db : Type 0 where
  pub lifecycles : Dict Row
  pub activity_logs : List LogRow

-- `LifecycleUpdate`
pub record LifecycleUpdate : Type 0 where
  pub status : Option StatusType
  pub sub_status : Option StatusSubType
  pub pause_type : Option PauseType
  pub clear_pause : Bool

abbrev pub has_changes : LifecycleUpdate → Bool
has_changes u = is_some u.status || is_some u.sub_status || is_some u.pause_type || u.clear_pause

abbrev pub view : Row → RowView
view r = record {
  status = r.status;
  sub_status = r.sub_status;
  tenant_id = r.tenant_id;
  workflow_name = r.workflow_name;
}

-- `get_for_update`
unfoldable pub get_for_update : String → Db → Option RowView
get_for_update lifecycle_id db = Option.map view (lookup lifecycle_id db.lifecycles)

-- The SET clause of the statement that `update_lifecycle` builds.
abbrev pub set_columns : LifecycleUpdate → Row → Row
set_columns u r = record r {
  status = first_some (Option.map status_value u.status) r.status;
  sub_status = first_some (Option.map sub_status_value u.sub_status) r.sub_status;
  pause_type = first_some u.pause_type (if u.clear_pause then none else r.pause_type);
}

-- UPDATE … WHERE id = k
unfoldable pub update_where : String → (Row → Row) → Dict Row → Dict Row
update_where k f [] = []
update_where k f ((j, r) ∷ rows) =
    if j == k then (j, f r) ∷ rows else (j, r) ∷ update_where k f rows

-- `update_lifecycle`; the flag is `rowcount > 0`.
unfoldable pub update_lifecycle : String → LifecycleUpdate → Db → Bool × Db
update_lifecycle lifecycle_id u db =
    if has_changes u
    then (
      is_some (lookup lifecycle_id db.lifecycles),
      record db { lifecycles = update_where lifecycle_id (set_columns u) db.lifecycles },
    )
    else (false, db)

-- `insert`, for a row that has its id.
unfoldable pub insert_log : LogRow → Db → Db
insert_log row db = record db { activity_logs = db.activity_logs ++ row ∷ [] }

-- A row that is updated is found with its new columns, and no other row changes.
pub lookup-update_where :
    (k j : String) (f : Row → Row) (rows : Dict Row)
    → lookup j (update_where k f rows)
      ≡ (if k == j then Option.map f (lookup j rows) else lookup j rows)
unfolding update_where
lookup-update_where k j f [] = ground arith
lookup-update_where k j f ((i, r) ∷ rows) =
    ground (arith, eq_iff k j, eq_iff i k, eq_iff i j, lookup-update_where k j f rows)
