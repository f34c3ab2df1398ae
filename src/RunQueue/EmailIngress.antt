-- ===== src/RunQueue/EmailIngress.antt =====
-- Heavy ingress work, one delivery of an e-mail at a time
-- (app/services/email_ingress_work_queue_serializer_service.py).
mod Deliveries
mod Represents
mod Arrive
mod Fifo
mod Examples
use testingmulti.RunQueue.{
  AdmitResult, Broker, CompleteResult, admit, complete, email_ingress_work_queue_key, peek_head,
  run_queue_key,
}
use testingmulti.RunQueue.Serializer.{resolve_work_queue, work_item}
use testingmulti.RoutingGuide.Reminders.{task_id}
use testingmulti.Common.{
  Bool, List, Option, String, [], and_then, false, if◌then◌else◌, length, map_option, none, not,
  some, true, ℕ, ◌++◌, ◌||◌, ◌∷◌,
}
use testingmulti.Common.Value.{Fields, Value, clean_text, end, field, get, obj, str}
use testingmulti.Common.Text.{is_empty, non_empty, strip}

-- `run_email_webhook` as it is published: the Celery queue and the keyword arguments
pub record EmailTask : Type 0 where
  pub queue : String
  pub handler : String
  pub tenant_uuid : Value
  pub tenant_slug : Value
  pub payload : Value
  pub email_id : Value

pub data IngressStatus : Type 0 where
  started : IngressStatus
  buffered : IngressStatus

-- `EmailIngressAdmitResult`
pub record EmailIngressAdmitResult : Type 0 where
  pub email_id : String
  pub inbox_key : String
  pub status : IngressStatus
  pub length : ℕ
  pub celery_task_id : Option String

-- `HANDLER_INBOUND_UNIPILE_EMAIL` (app/tasks/email_handlers.py)
abbrev pub handler_inbound_unipile_email : String
handler_inbound_unipile_email = "inbound.unipile_email"

-- The work item that `admit` pushes
abbrev pub ingress_item : String → String → Fields → String → Fields
ingress_item tenant_uuid tenant_slug payload eid = field "tenant_uuid" (str tenant_uuid) (
    field "tenant_slug" (str tenant_slug)
      (field "payload" (obj payload) (field "email_id" (str eid) end)))

module _ (b : Broker) where
  -- Redis and the ingress tasks published so far, oldest first
  pub record IngressWorld : Type 0 where
    pub store : b.Store
    pub published : List EmailTask

  -- The task of a work item
  abbrev pub ingress_task : String → Fields → EmailTask
  ingress_task tenant_slug work_item = record {
    queue = resolve_work_queue b tenant_slug;
    handler = handler_inbound_unipile_email;
    tenant_uuid = get work_item "tenant_uuid";
    tenant_slug = get work_item "tenant_slug";
    payload = get work_item "payload";
    email_id = get work_item "email_id";
  }

  -- `_publish`
  abbrev pub publish_ingress : String → Fields → b.Store → IngressWorld → IngressWorld
  publish_ingress tenant_slug work_item s w = record {
    store = s;
    published = w.published ++ ingress_task tenant_slug work_item ∷ [];
  }

  abbrev pub with_ingress_store : b.Store → IngressWorld → IngressWorld
  with_ingress_store s w = record { store = s; published = w.published }

  abbrev ingress_task_id : IngressWorld → Option String
  ingress_task_id w = and_then (b.task_id (length w.published)) non_empty

  abbrev ingress_result :
      String → String → IngressStatus → ℕ → Option String → EmailIngressAdmitResult
  ingress_result eid key st n tid = record {
    email_id = eid;
    inbox_key = key;
    status = st;
    length = n;
    celery_task_id = tid;
  }

  abbrev pub after_ingress_admit :
      String
      → String
      → String
      → Fields
      → IngressWorld
      → AdmitResult × b.Store
      → EmailIngressAdmitResult × IngressWorld
  after_ingress_admit eid key tenant_slug item w (adm, s) =
      if adm.should_enqueue
      then (
        ingress_result eid key started adm.length (ingress_task_id w),
        publish_ingress tenant_slug item s w,
      )
      else (ingress_result eid key buffered adm.length none, with_ingress_store s w)

  -- `admit`; `none` is the ValueError for a blank e-mail id.
  unfoldable pub admit_email :
      String
      → String
      → String
      → Fields
      → IngressWorld
      → Option (EmailIngressAdmitResult × IngressWorld)
  unfolding strip run_queue_key admit get resolve_work_queue
  admit_email email_id tenant_uuid tenant_slug payload w =
      let eid = strip email_id in
      let item = ingress_item tenant_uuid tenant_slug payload eid in
      and_then (email_ingress_work_queue_key eid) (λ key.
        map_option (after_ingress_admit eid key tenant_slug item w) (admit b key item w.store))

  abbrev is_dict : Value → Bool
  is_dict (obj d) = true
  is_dict _ = false

  -- The next delivery is published, or its item is left for operators if it is invalid.
  abbrev pub start_ingress_item :
      String
      → String
      → ℕ
      → Fields
      → b.Store
      → IngressWorld
      → Option EmailIngressAdmitResult × IngressWorld
  start_ingress_item eid key remaining item s w =
      let tenant_slug = clean_text b.render (get item "tenant_slug") in
      if is_empty tenant_slug || not (is_dict (get item "payload"))
      then (some (ingress_result eid key buffered remaining none), with_ingress_store s w)
      else (
        some (ingress_result eid key started remaining (ingress_task_id w)),
        publish_ingress tenant_slug item s w,
      )

  abbrev pub start_next_ingress :
      String
      → String
      → ℕ
      → IngressWorld
      → Option Fields × b.Store
      → Option EmailIngressAdmitResult × IngressWorld
  start_next_ingress eid key remaining w (none, s) = (none, with_ingress_store s w)
  start_next_ingress eid key remaining w (some item, s) =
      start_ingress_item eid key remaining item s w

  abbrev pub after_ingress_complete :
      String
      → String
      → IngressWorld
      → CompleteResult × b.Store
      → Option (Option EmailIngressAdmitResult × IngressWorld)
  after_ingress_complete eid key w (c, s) =
      if c.should_chain
      then map_option (start_next_ingress eid key c.remaining w) (peek_head b key s)
      else some (none, with_ingress_store s w)

  -- `complete_and_start_next`; the inner `none` is its None. The outer one is an error, which is never
  -- raised.
  unfoldable pub complete_email :
      String → IngressWorld → Option (Option EmailIngressAdmitResult × IngressWorld)
  unfolding strip run_queue_key complete peek_head get resolve_work_queue
  complete_email email_id w =
      let eid = strip email_id in
      if is_empty eid
      then some (none, w)
      else and_then (email_ingress_work_queue_key eid)
          (λ key. and_then (complete b key w.store) (after_ingress_complete eid key w))
