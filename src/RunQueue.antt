-- ===== src/RunQueue.antt =====
-- The run queue of app/services/lifecycle_run_queue_service.py: a Redis list for each key, of which
-- the head is the work item in flight. The services on top of it are in Serializer, the facts about
-- one queue in Contents.
pub mod Serializer
pub mod EmailIngress
pub mod Redis
mod Keys
mod Contents
use testingmulti.Common.{and_then, map_option}
use Prim.Native.String
use testingmulti.Common.Value.{Fields, Value, obj}
use testingmulti.Common.Text.{is_empty, strip}
use testingmulti.Common.{
  ℕ, String, zero, suc, ◌+◌, ◌≡◌, Bool, true, false, Option, none, some, List, [], ◌∷◌, ◌++◌, ◌==◌,
  eqb, ltb, length, if◌then◌else◌, map, ap,
}

abbrev pub head? {ℓ} : {A : Type ℓ} → List A → Option A
head? [] = none
head? (x ∷ xs) = some x

abbrev pub tail {ℓ} : {A : Type ℓ} → List A → List A
tail [] = []
tail (x ∷ xs) = xs

-- What the service takes from outside: Redis lists with the documented effects of RPUSH, LINDEX 0,
-- LPOP and LLEN, `json.dumps` and `json.loads` (`none` for a decoding error), Python's text of
-- numbers and containers, the id of the
-- n-th task that Celery accepts, and the settings that name the Celery queues.
pub record Broker : Type 1 where
  pub Raw : Type 0
  pub Store : Type 0
  pub dumps : Fields → Raw
  pub loads : Raw → Option Value
  pub render : Value → String
  pub task_id : ℕ → Option String
  pub default_work_queue : String
  pub t3ra_work_queue : String
  pub items : Store → String → List Raw
  pub rpush : String → Raw → Store → ℕ × Store
  pub lindex_0 : String → Store → Option Raw
  pub lpop : String → Store → Option Raw × Store
  pub llen : String → Store → ℕ
  pub loads-dumps : (d : Fields) → loads (dumps d) ≡ some (obj d)
  pub rpush_length : (k : String) (x : Raw) (s : Store) → (rpush k x s).0 ≡ length (items s k) + 1
  pub items-rpush :
      (k j : String) (x : Raw) (s : Store)
      → items (rpush k x s).1 j ≡ (if k == j then items s j ++ x ∷ [] else items s j)
  pub lindex_0_lem : (k : String) (s : Store) → lindex_0 k s ≡ head? (items s k)
  pub lpop_value : (k : String) (s : Store) → (lpop k s).0 ≡ head? (items s k)
  pub items-lpop :
      (k j : String) (s : Store)
      → items (lpop k s).1 j ≡ (if k == j then tail (items s j) else items s j)
  pub llen_lem : (k : String) (s : Store) → llen k s ≡ length (items s k)

-- `_run_queue_key`; `none` is its ValueError.
unfoldable pub run_queue_key : String → String → Option String
unfolding strip
run_queue_key scope key_id =
    if is_empty (strip key_id)
    then none
    else some (String.◌++◌ "inbox:" (String.◌++◌ scope (String.◌++◌ ":" (strip key_id))))

abbrev pub lifecycle_run_queue_key : String → Option String
lifecycle_run_queue_key lifecycle_id = run_queue_key "lifecycle" lifecycle_id

abbrev pub email_ingress_work_queue_key : String → Option String
email_ingress_work_queue_key email_id = run_queue_key "email_ingress" email_id

-- `AdmitResult`
pub record AdmitResult : Type 0 where
  pub inbox_key : String
  pub length : ℕ
  pub should_enqueue : Bool

-- `CompleteResult`
pub record CompleteResult : Type 0 where
  pub inbox_key : String
  pub popped : Option Fields
  pub remaining : ℕ
  pub should_chain : Bool

-- A decoded item, if it is a dictionary.
abbrev pub dict_of : Option Value → Option Fields
dict_of (some (obj d)) = some d
dict_of _ = none

-- `str(inbox_key or "").strip()`; `none` is the ValueError for a blank key.
unfoldable pub clean_key : String → Option String
clean_key inbox_key = if is_empty (strip inbox_key) then none else some (strip inbox_key)

module _ (b : Broker) where
  -- The work item that a raw entry holds; `none` if it is corrupt or no dictionary.
  abbrev pub decode : b.Raw → Option Fields
  decode raw = dict_of (b.loads raw)

  abbrev pub popped_item : Option b.Raw → Option Fields
  popped_item none = none
  popped_item (some raw) = decode raw

  -- `admit`
  unfoldable pub admit : String → Fields → b.Store → Option (AdmitResult × b.Store)
  unfolding clean_key
  admit inbox_key work_item s =
      map_option
        (λ key.
          let (n, s') = b.rpush key (b.dumps work_item) s in
          (record { inbox_key = key; length = n; should_enqueue = eqb n 1 }, s'))
        (clean_key inbox_key)

  -- The loop of `peek_head`; `none` if the fuel runs out.
  unfoldable pub peek_loop : ℕ → String → b.Store → Option (Option Fields × b.Store)
  peek_loop zero key s = none
  peek_loop (suc fuel) key s = elim (b.lindex_0 key s) [
    | none ↦ some (none, s)
    | some raw ↦ elim (decode raw) [
      | none ↦ peek_loop fuel key (b.lpop key s).1
      | some item ↦ some (some item, s)
    ]
  ]

  -- `peek_head`: a round for each entry, and one more to find the list empty.
  unfoldable pub peek_head : String → b.Store → Option (Option Fields × b.Store)
  unfolding peek_loop clean_key
  peek_head inbox_key s =
      and_then (clean_key inbox_key) (λ key. peek_loop (suc (b.llen key s)) key s)

  -- `complete`: LPOP and LLEN in one transaction
  unfoldable pub complete : String → b.Store → Option (CompleteResult × b.Store)
  unfolding clean_key
  complete inbox_key s =
      map_option
        (λ key.
          let (raw, s') = b.lpop key s in
          let remaining = b.llen key s' in
          (
            record {
              inbox_key = key;
              popped = popped_item raw;
              remaining = remaining;
              should_chain = ltb 0 remaining;
            },
            s',
          ))
        (clean_key inbox_key)
