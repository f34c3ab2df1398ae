-- ===== src/RoutingGuide/Reminders.antt =====
-- The delayed reminder tasks of a lifecycle: their records in its metadata
-- (app/domain/pending_reminder_tasks.py) and their revocation
-- (app/services/workflow_reminder_cancel_service.py).
pub mod Laws
pub mod Cancelled
use testingmulti.RoutingGuide.{Env, int_of, optional_routing_guide_attempt}
use testingmulti.RoutingGuide.Store.{World, patch_metadata, read_metadata}
use testingmulti.Lifecycle.Step.Effect.{entry}
use testingmulti.Common.{
  Bool, List, Option, String, [], contains, eqb, false, if◌then◌else◌, map, none, not, some, suc,
  true, ℕ, ◌++◌, ◌∷◌,
}
use testingmulti.Common.Value.{
  Fields, Items, Value, arr, as_dict, clean_text, dictionaries, end, field, get, int, item_then,
  items_of, no_items, obj, pos, set_field, str, ℤ,
}
use testingmulti.Common.Text.{is_empty, strip}

abbrev pub pending_key : String
pending_key = "pending_reminder_tasks"

-- A list of dictionaries as a value
abbrev pub items_from : List Fields → Items
items_from [] = no_items
items_from (d ∷ ds) = item_then (obj d) (items_from ds)

-- `[x for x in xs if p(x)]`
abbrev pub keep_if {ℓ} : {A : Type ℓ} → (A → Bool) → List A → List A
keep_if p [] = []
keep_if p (x ∷ xs) = let rest = keep_if p xs in if p x then x ∷ rest else rest

module _ (env : Env) where
  -- `str(item.get("task_id") or "").strip()`
  abbrev pub task_id : Fields → String
  task_id item = clean_text env.render (get item "task_id")

  -- `pending_reminder_tasks_from_metadata`
  unfoldable pub pending_reminder_tasks_from_metadata : Value → List Fields
  unfolding get strip
  pending_reminder_tasks_from_metadata metadata =
      keep_if (λ item. not (is_empty (task_id item)))
        (dictionaries (items_of (get (as_dict metadata) pending_key)))

  -- `merge_pending_reminder_tasks`
  unfoldable pub merge_pending_reminder_tasks : Value → List Fields → Fields
  unfolding pending_reminder_tasks_from_metadata
  merge_pending_reminder_tasks metadata new_entries =
      field pending_key
        (arr (items_from (pending_reminder_tasks_from_metadata metadata ++ new_entries))) end

  -- `filter_pending_reminder_tasks`
  unfoldable pub filter_pending_reminder_tasks : Value → List String → Fields
  unfolding pending_reminder_tasks_from_metadata
  filter_pending_reminder_tasks metadata remove_task_ids =
      field pending_key
        (arr (
          items_from (
            keep_if (λ item. not (contains remove_task_ids (task_id item)))
              (pending_reminder_tasks_from_metadata metadata))))
        end

  -- `clear_pending_reminder_tasks`
  abbrev clear_pending_reminder_tasks : Fields
  clear_pending_reminder_tasks = field pending_key (arr no_items) end

  -- The ids of the pending tasks that a test selects
  abbrev pub matching_ids : (Fields → Bool) → List Fields → List String
  matching_ids matches tasks = map task_id (keep_if matches tasks)

  abbrev count_accepted : List String → ℕ
  count_accepted [] = 0
  count_accepted (id ∷ ids) =
      let n = count_accepted ids in if env.accepts_revoke id then suc n else n

  abbrev no_ids : List String → Bool
  no_ids [] = true
  no_ids (_ ∷ _) = false

  abbrev pub send_revocations : List String → World → World
  send_revocations ids w = record w { revoked = w.revoked ++ ids }

  -- The patch that `_persist` of `_cancel_matching` writes
  abbrev cancel_patch : Bool → Value → List String → Fields
  cancel_patch true metadata revoke_ids = clear_pending_reminder_tasks
  cancel_patch false metadata revoke_ids = filter_pending_reminder_tasks metadata revoke_ids

  abbrev pub cancel_ids : String → Bool → List String → World → ℕ × World
  cancel_ids lid clear_all revoke_ids w =
      let asked = send_revocations revoke_ids w in
      let patch = cancel_patch clear_all (read_metadata lid asked) revoke_ids in
      if no_ids revoke_ids
      then (0, w)
      else (count_accepted revoke_ids, (patch_metadata lid patch asked).1)

  -- `_cancel_matching`, where the database answers
  unfoldable pub cancel_matching : String → (Fields → Bool) → Bool → World → ℕ × World
  unfolding strip pending_reminder_tasks_from_metadata read_metadata patch_metadata
      filter_pending_reminder_tasks
  cancel_matching lifecycle_id matches clear_all w =
      let lid = strip lifecycle_id in
      let pending = pending_reminder_tasks_from_metadata (read_metadata lid w) in
      if is_empty lid then (0, w) else cancel_ids lid clear_all (matching_ids matches pending) w

  abbrev same_attempt : Option ℕ → ℕ → Bool
  same_attempt none target = false
  same_attempt (some n) target = eqb n target

  -- `_match` of `cancel_for_attempt`
  abbrev pub for_attempt : ℕ → Fields → Bool
  for_attempt target item =
      same_attempt (optional_routing_guide_attempt env (get item "attempt")) target

  -- `cancel_for_attempt`
  unfoldable pub cancel_for_attempt : String → ℕ → World → ℕ × World
  unfolding cancel_matching get
  cancel_for_attempt lifecycle_id attempt w =
      cancel_matching lifecycle_id (for_attempt attempt) false w

  -- `cancel_all`
  unfoldable pub cancel_all : String → World → ℕ × World
  unfolding cancel_matching
  cancel_all lifecycle_id w = cancel_matching lifecycle_id (λ item. true) true w

  -- One record of `register_tasks`
  abbrev with_attempt : Option ℕ → Fields → Fields
  with_attempt none row = row
  with_attempt (some n) row = set_field row "attempt" (int (pos n))

  abbrev with_event_type : String → Fields → Fields
  with_event_type event_type row =
      if is_empty event_type then row else set_field row "event_type" (str event_type)

  abbrev with_step : Option ℤ → Fields → Fields
  with_step none row = row
  with_step (some n) row = set_field row "step" (int n)

  abbrev pub task_record : Fields → Fields
  task_record entry = with_step (int_of env (get entry "step")) (
      with_event_type (clean_text env.render (get entry "event_type")) (
        with_attempt (optional_routing_guide_attempt env (get entry "attempt"))
          (field "task_id" (str (task_id entry)) end)))

  abbrev pub normalized_entries : List Fields → List Fields
  normalized_entries [] = []
  normalized_entries (entry ∷ entries) =
      let rest = normalized_entries entries in
      if is_empty (task_id entry) then rest else task_record entry ∷ rest

  abbrev append_tasks : String → List Fields → World → World
  append_tasks lid [] w = w
  append_tasks lid (e ∷ es) w =
      (patch_metadata lid (merge_pending_reminder_tasks (read_metadata lid w) (e ∷ es)) w).1

  -- `register_tasks`, where the database answers
  unfoldable pub register_tasks : String → List Fields → World → World
  unfolding strip get read_metadata patch_metadata merge_pending_reminder_tasks set_field
      optional_routing_guide_attempt
  register_tasks lifecycle_id entries w =
      let lid = strip lifecycle_id in
      if is_empty lid then w else append_tasks lid (normalized_entries entries) w
