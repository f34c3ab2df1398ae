-- ===== src/RunQueue/Serializer/Jobs.antt =====
-- The jobs of a lifecycle, what is asked of its queue, and what it means that it keeps their order.
use testingmulti.RunQueue.{Broker, lifecycle_run_queue_key, tail}
use testingmulti.RunQueue.Serializer.{
  Task, World, complete_and_start_next, enqueue, flagged, resolve_work_queue, work_item,
}
use testingmulti.Common.{
  All, List, Option, String, [], and_then, false, map, map_option, some, ◌++◌, ◌∷◌, ◌≡◌,
}
use testingmulti.Common.Value.{Fields, clean_text, get}
use testingmulti.Common.Text.{is_empty, strip}

pub record Job : Type 0 where
  pub tenant_slug : String
  pub workflow_name : String
  pub payload : Fields

-- An event for the lifecycle, or the end of a run.
pub data Event : Type 0 where
  submit : Job → Event
  finish : Event

-- The jobs asked for, in order.
abbrev pub jobs : List Event → List Job
jobs [] = []
jobs (submit j ∷ es) = j ∷ jobs es
jobs (finish ∷ es) = jobs es

module _ (b : Broker) where
  abbrev pub raw_item : Job → b.Raw
  raw_item j = b.dumps (work_item b j.tenant_slug j.workflow_name (flagged b j.payload))

  -- What is published for a job.
  abbrev pub task_of : Job → Task
  task_of j = record {
    queue = resolve_work_queue b j.tenant_slug;
    tenant_slug = j.tenant_slug;
    workflow_name = j.workflow_name;
    payload = flagged b j.payload;
  }

  -- A job of the queue `key` whose tenant and workflow are named, without white space around them.
  pub record IsClean (key : String) (j : Job) : Type 0 where
    pub slug_clean : strip j.tenant_slug ≡ j.tenant_slug
    pub slug_named : is_empty j.tenant_slug ≡ false
    pub name_clean : strip j.workflow_name ≡ j.workflow_name
    pub name_named : is_empty j.workflow_name ≡ false
    pub has_key :
        lifecycle_run_queue_key (clean_text b.render (get j.payload "workflow_lifecycle_id"))
        ≡ some key
    pub has_id : is_empty (clean_text b.render (get j.payload "workflow_lifecycle_id")) ≡ false

  abbrev pub handle : String → Event → World b → Option (World b)
  handle lid (submit j) w =
      map_option (λ o. o.1) (enqueue b j.tenant_slug j.workflow_name j.payload w)
  handle lid finish w = map_option (λ o. o.1) (complete_and_start_next b lid w)

  abbrev pub handle_all : String → List Event → World b → Option (World b)
  handle_all lid [] w = some w
  handle_all lid (e ∷ es) w = and_then (handle lid e w) (handle_all lid es)

  -- The tasks published and the jobs still waiting behind the one in flight are together the jobs
  -- `asked`, in that order.
  pub record InOrder (key : String) (asked : List Job) (w : World b) : Type 0 where
    pub queue : List Job
    pub all_clean : All (IsClean key) queue
    pub contents : b.items w.store key ≡ map raw_item queue
    pub in_order : w.published ++ map task_of (tail queue) ≡ map task_of asked
