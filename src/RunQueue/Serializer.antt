-- ===== src/RunQueue/Serializer.antt =====
-- Serialized graph starts (app/services/lifecycle_run_serializer_service.py), published on the work
-- queue that app/services/worker_queue_routing.py chooses.
mod Arrivals
mod Flight
mod Jobs
mod Submit
mod Order
mod Drained
mod Examples
use testingmulti.Common.Value.{Value}
use testingmulti.RunQueue.{
  AdmitResult, Broker, CompleteResult, admit, complete, lifecycle_run_queue_key, peek_head,
  run_queue_key,
}
use testingmulti.Common.{
  List, Option, String, [], and_then, if◌then◌else◌, length, map_option, none, some, true, ℕ, ◌++◌,
  ◌==◌, ◌||◌, ◌∷◌,
}
use testingmulti.Common.Value.{Fields, bool, clean_text, end, field, get, obj, set_field, str}
use testingmulti.Common.Text.{is_empty, non_empty, strip}

-- What has been handed to Celery: `run_workflow_async.apply_async`.
pub record Task : Type 0 where
  pub queue : String
  pub tenant_slug : String
  pub workflow_name : String
  pub payload : Fields

-- `SerializeEnqueueResult.status`
pub data RunStatus : Type 0 where
  started buffered drained : RunStatus

-- `SerializeEnqueueResult`
pub record SerializeEnqueueResult : Type 0 where
  pub lifecycle_id : String
  pub inbox_key : String
  pub status : RunStatus
  pub length : ℕ
  pub celery_task_id : Option String
  pub workflow_lifecycle_id : String

abbrev pub serialized_flag : String
serialized_flag = "_lifecycle_run_serialized"

module _ (b : Broker) where
  -- Redis and the tasks published so far, oldest first
  pub record World : Type 0 where
    pub store : b.Store
    pub published : List Task

  -- `resolve_work_queue`
  unfoldable pub resolve_work_queue : String → String
  unfolding strip
  resolve_work_queue tenant_slug =
      let slug = strip tenant_slug in
      if is_empty slug
      then b.default_work_queue
      else if slug == "t3ra"
      then b.t3ra_work_queue
      else b.default_work_queue

  -- `_task_id` of the task that `apply_async_on_work_queue` returns
  abbrev pub new_task_id : World → Option String
  new_task_id w = and_then (b.task_id (length w.published)) non_empty

  -- `run_workflow_async` published by `apply_async_on_work_queue`
  abbrev pub publish : String → String → Fields → World → World
  publish slug name body w = record {
    store = w.store;
    published =
        w.published
        ++ record {
          queue = resolve_work_queue slug;
          tenant_slug = slug;
          workflow_name = name;
          payload = body;
        }
          ∷ [];
  }

  abbrev pub with_store : b.Store → World → World
  with_store s w = record { store = s; published = w.published }

  abbrev pub work_item : String → String → Fields → Fields
  work_item slug name body =
      field "tenant_slug" (str slug)
        (field "workflow_name" (str name) (field "payload" (obj body) end))

  abbrev pub flagged : Fields → Fields
  flagged payload = set_field payload serialized_flag (bool true)

  abbrev pub result : String → String → RunStatus → ℕ → Option String → SerializeEnqueueResult
  result lid key st n tid = record {
    lifecycle_id = lid;
    inbox_key = key;
    status = st;
    length = n;
    celery_task_id = tid;
    workflow_lifecycle_id = lid;
  }

  abbrev pub after_admit :
      String
      → String
      → String
      → String
      → Fields
      → World
      → AdmitResult × b.Store
      → SerializeEnqueueResult × World
  after_admit lid key slug name body w (adm, s) =
      if adm.should_enqueue
      then (
        result lid key started adm.length (new_task_id w),
        publish slug name body (with_store s w),
      )
      else (result lid key buffered adm.length none, with_store s w)

  -- `enqueue`; `none` is the ValueError for a payload without a lifecycle id.
  unfoldable pub enqueue :
      String → String → Fields → World → Option (SerializeEnqueueResult × World)
  unfolding run_queue_key admit
  enqueue tenant_slug workflow_name payload w =
      let lid = clean_text b.render (get payload "workflow_lifecycle_id") in
      let body = flagged payload in
      and_then (lifecycle_run_queue_key lid) (λ key.
        map_option (after_admit lid key tenant_slug workflow_name body w)
          (admit b key (work_item tenant_slug workflow_name body) w.store))

  -- The payload that the next run is started with.
  abbrev pub next_body : String → Fields → Fields
  next_body lid payload =
      if is_empty (clean_text b.render (get (flagged payload) "workflow_lifecycle_id"))
      then set_field (flagged payload) "workflow_lifecycle_id" (str lid)
      else flagged payload

  -- The next run is published, or its item is left for operators if it is invalid.
  abbrev pub start_payload :
      String → String → ℕ → String → String → Value → World → SerializeEnqueueResult × World
  start_payload lid key remaining slug name (obj payload) w =
      if is_empty slug || is_empty name then (result lid key buffered remaining none, w) else (
        result lid key started remaining (new_task_id w),
        publish slug name (next_body lid payload) w,
      )
  start_payload lid key remaining slug name _ w = (result lid key buffered remaining none, w)

  abbrev pub start_item : String → String → ℕ → Fields → World → SerializeEnqueueResult × World
  start_item lid key remaining item w =
      start_payload lid key remaining (clean_text b.render (get item "tenant_slug"))
        (clean_text b.render (get item "workflow_name")) (get item "payload") w

  abbrev pub start_next :
      String → String → ℕ → World → Option Fields × b.Store → SerializeEnqueueResult × World
  start_next lid key remaining w (none, s) = (result lid key drained remaining none, with_store s w)
  start_next lid key remaining w (some item, s) = start_item lid key remaining item (with_store s w)

  abbrev pub after_complete :
      String → String → World → CompleteResult × b.Store → Option (SerializeEnqueueResult × World)
  after_complete lid key w (c, s) =
      if c.should_chain
      then map_option (start_next lid key c.remaining w) (peek_head b key s)
      else some (result lid key drained 0 none, with_store s w)

  -- `complete_and_start_next`; `none` is its None for a blank lifecycle id.
  unfoldable pub complete_and_start_next : String → World → Option (SerializeEnqueueResult × World)
  unfolding run_queue_key complete peek_head
  complete_and_start_next lifecycle_id w =
      let lid = strip lifecycle_id in
      if is_empty lid
      then none
      else and_then (lifecycle_run_queue_key lid)
          (λ key. and_then (complete b key w.store) (after_complete lid key w))
