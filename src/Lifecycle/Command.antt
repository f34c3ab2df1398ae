-- ===== src/Lifecycle/Command.antt =====
-- app/domain/lifecycle_transition.py, activity_log_fields.py, and the generated texts of
-- activity_log_descriptions.py.
use testingmulti.Common.{String, Bool, Option, none, some, ◌==◌, or_else, if◌then◌else◌}
use Prim.Native.String
use testingmulti.Common.Value.{Value}
use testingmulti.Status.{
  StatusType, StatusSubType, none_status, none_sub, status_value, sub_status_value, ActivityType,
  status_change, sub_status_change, is_snapshot_activity_type, ActorType, PauseType, label_status,
  label_sub_status,
}

-- `LifecycleTransitionCommand`, without `email_thread_id`, which the service never reads.
pub record Command : Type 0 where
  pub tenant_id : String
  pub activity_type : ActivityType
  pub workflow_lifecycle_id : String
  pub workflow_run_id : Option String
  pub to_status : Option StatusType
  pub to_sub_status : Option StatusSubType
  pub description : Option String
  pub metadata : Option Value
  pub communication_id : Option String
  pub actor_type : Option ActorType
  pub actor_id : Option String
  pub from_status : Option StatusType
  pub from_sub_status : Option StatusSubType
  pub update_lifecycle : Bool
  pub record_activity : Bool
  pub require_lifecycle_row : Bool
  pub pause_type : Option PauseType

abbrev pub status_for_log : Option StatusType → StatusType
status_for_log value = or_else value none_status

abbrev pub sub_status_for_log : Option StatusSubType → StatusSubType
sub_status_for_log value = or_else value none_sub

-- The tuple that `build_activity_log_status_fields` returns.
pub record LogFields : Type 0 where
  pub from_status : StatusType
  pub to_status : StatusType
  pub from_sub : StatusSubType
  pub to_sub : StatusSubType

unfoldable pub build_activity_log_status_fields :
    Command → Option StatusType → Option StatusSubType → LogFields
build_activity_log_status_fields command current_status current_sub =
    let log_from_status = status_for_log current_status in
    let log_from_sub = sub_status_for_log current_sub in
    if is_snapshot_activity_type command.activity_type
    then record {
      from_status = log_from_status;
      to_status = log_from_status;
      from_sub = log_from_sub;
      to_sub = log_from_sub;
    }
    else record {
      from_status = log_from_status;
      to_status = or_else command.to_status log_from_status;
      from_sub = log_from_sub;
      to_sub = or_else command.to_sub_status log_from_sub;
    }

abbrev status_line : LogFields → String
status_line f =
    String.◌++◌ "Status changed from "
      (String.◌++◌ (label_status f.from_status) (String.◌++◌ " to " (label_status f.to_status)))

abbrev sub_status_line : LogFields → String
sub_status_line f =
    String.◌++◌ "Sub-status changed from "
      (String.◌++◌ (label_sub_status f.from_sub) (String.◌++◌ " to " (label_sub_status f.to_sub)))

abbrev same_status : LogFields → Bool
same_status f = status_value f.from_status == status_value f.to_status

abbrev same_sub_status : LogFields → Bool
same_sub_status f = sub_status_value f.from_sub == sub_status_value f.to_sub

-- `generate_activity_log_description`; an enum member is compared by its text.
unfoldable pub generate_activity_log_description : ActivityType → LogFields → Option String
generate_activity_log_description status_change f =
    if same_status f
    then if same_sub_status f then none else some (sub_status_line f)
    else some (status_line f)
generate_activity_log_description sub_status_change f =
    if same_sub_status f then none else some (sub_status_line f)
generate_activity_log_description _ f = none
