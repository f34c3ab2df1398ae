-- ===== src/RunQueue/Serializer/Order.antt =====
-- The runs of a lifecycle start in the order in which they were asked for.
use testingmulti.RunQueue.{Broker, lifecycle_run_queue_key, popped_item, tail}
use testingmulti.RunQueue.Serializer.{
  Task, World, after_complete, complete_and_start_next, flagged, new_task_id, next_body, publish,
  result, serialized_flag, start_item, started, with_store, work_item,
}
use testingmulti.RunQueue.Keys.{clean_key-run_queue_key}
use testingmulti.RunQueue.Contents.{complete_clean, first_item, peek_head-Peeked, valid_from}
use testingmulti.RunQueue.Serializer.Jobs.{
  Event, InOrder, IsClean, Job, finish, handle, handle_all, jobs, raw_item, submit, task_of,
}
use testingmulti.RunQueue.Serializer.Submit.{submit-InOrder}
use testingmulti.Common.{
  All, List, String, [], arith, false, length, length-map, ltb, map, refl, some, subst, suc, sym,
  true, ℕ, ◌++◌, ◌∙◌, ◌∷◌, ◌≡◌,
}
use testingmulti.Common.Value.{bool, get}
use testingmulti.Common.Text.{is_empty, strip}
use testingmulti.Common.Dicts.{get-set_field, set_field_twice}
use mathlib.Core.List.{append-nil, append_assoc}
use text.Mathlib.TextPositions.{eq_refl}

module _ (b : Broker) where
  module _ (lifecycle_id key : String)
      (hk : lifecycle_run_queue_key (strip lifecycle_id) ≡ some key)
      (named : is_empty (strip lifecycle_id) ≡ false) where
    popped : World b → b.Store
    popped w = (b.lpop key w.store).1

    finish_clean :
        (w : World b) (m : ℕ)
        → b.llen key (popped w) ≡ m
        → complete_and_start_next b lifecycle_id w
          ≡ after_complete b (strip lifecycle_id) key w (
            record {
              inbox_key = key;
              popped = popped_item b (b.lpop key w.store).0;
              remaining = m;
              should_chain = ltb 0 m;
            },
            popped w,
          )
    unfolding complete_and_start_next popped
    finish_clean w m h = rw (
      named,
      hk,
      complete_clean b key w.store
          (clean_key-run_queue_key "lifecycle" (strip lifecycle_id) key hk),
      h,
    )

    after_pop :
        (w : World b) (queue : List Job)
        → b.items w.store key ≡ map (raw_item b) queue
        → b.items (popped w) key ≡ map (raw_item b) (tail queue)
    unfolding popped
    after_pop w [] h = rw (b.items-lpop key key w.store, eq_refl key, h)
    after_pop w (q ∷ qs) h = rw (b.items-lpop key key w.store, eq_refl key, h)

    after_pop_count :
        (w : World b) (queue : List Job)
        → b.items w.store key ≡ map (raw_item b) queue
        → b.llen key (popped w) ≡ length (tail queue)
    after_pop_count w queue h =
        rw (b.llen_lem key (popped w), after_pop w queue h, length-map (raw_item b) (tail queue))

    next_body_lem :
        (lid : String) (j : Job)
        → IsClean b key j
        → next_body b lid (flagged b j.payload) ≡ flagged b j.payload
    next_body_lem lid j c = rw (
      set_field_twice j.payload serialized_flag (bool true),
      get-set_field j.payload serialized_flag "workflow_lifecycle_id" (bool true),
      c.has_id,
    )

    start_item_lem :
        (lid : String) (m : ℕ) (j : Job) (w : World b)
        → IsClean b key j
        → start_item b lid key m (work_item b j.tenant_slug j.workflow_name (flagged b j.payload)) w
          ≡ (
            result b lid key started m (new_task_id b w),
            publish b j.tenant_slug j.workflow_name (flagged b j.payload) w,
          )
    unfolding get
    start_item_lem lid m j w c =
        rw (c.slug_clean, c.name_clean, c.slug_named, c.name_named, next_body_lem lid j c)

    more : (n : ℕ) → ltb 0 (suc n) ≡ true
    more n = ground arith

    -- The end of a run is handled, keeps the order and takes one job from the queue.
    abbrev pub Finishes : List Job → World b → List Job → Type 0
    Finishes asked w queue =
        (v : World b) × (handle b lifecycle_id finish w ≡ some v)
        × (o : InOrder b key asked v) × (o.queue ≡ tail queue)

    chain-InOrder :
        (asked : List Job) (w : World b) (q r : Job) (qs : List Job)
        → All (IsClean b key) (r ∷ qs)
        → b.items w.store key ≡ map (raw_item b) (q ∷ r ∷ qs)
        → w.published ++ map (task_of b) (r ∷ qs) ≡ map (task_of b) asked
        → Finishes asked w (q ∷ r ∷ qs)
    chain-InOrder asked w q r qs (hr, hqs) h ord =
        let rest = after_pop w (q ∷ r ∷ qs) h in
        let (t, e, kept, frame) =
          peek_head-Peeked b key key (popped w)
            (clean_key-run_queue_key "lifecycle" (strip lifecycle_id) key hk) in
        let found : first_item b (b.items (popped w) key)
            ≡ some (work_item b r.tenant_slug r.workflow_name (flagged b r.payload)) =
          rw (
            rest,
            first_item,
            b.loads-dumps (work_item b r.tenant_slug r.workflow_name (flagged b r.payload)),
          ) in
        let whole : valid_from b (b.items (popped w) key) ≡ map (raw_item b) (r ∷ qs) = rw (
          rest,
          valid_from,
          b.loads-dumps (work_item b r.tenant_slug r.workflow_name (flagged b r.payload)),
        ) in
        (
          publish b r.tenant_slug r.workflow_name (flagged b r.payload) (with_store b t w),
          rw (
            finish_clean w (suc (length qs)) (after_pop_count w (q ∷ r ∷ qs) h),
            more (length qs),
            e,
            found,
            start_item_lem (strip lifecycle_id) (suc (length qs)) r (with_store b t w) hr,
          ),
          record {
            queue = r ∷ qs;
            all_clean = (hr, hqs);
            contents = kept ∙ whole;
            in_order = append_assoc w.published ((task_of b) r ∷ []) (map (task_of b) qs) ∙ ord;
          },
          refl,
        )

    pub finish-InOrder :
        (asked : List Job) (w : World b) → (o : InOrder b key asked w) → Finishes asked w o.queue
    finish-InOrder asked w o = go o.queue o.all_clean o.contents o.in_order
      where
        go :
            (queue : List Job)
            → All (IsClean b key) queue
            → b.items w.store key ≡ map (raw_item b) queue
            → w.published ++ map (task_of b) (tail queue) ≡ map (task_of b) asked
            → Finishes asked w queue
        go [] a h ord = (
          with_store b (popped w) w,
          rw (finish_clean w 0 (after_pop_count w [] h)),
          record { queue = []; all_clean = tt; contents = after_pop w [] h; in_order = ord },
          refl,
        )
        go (q ∷ []) a h ord = (
          with_store b (popped w) w,
          rw (finish_clean w 0 (after_pop_count w (q ∷ []) h)),
          record { queue = []; all_clean = tt; contents = after_pop w (q ∷ []) h; in_order = ord },
          refl,
        )
        go (q ∷ r ∷ qs) (hq, hrs) h ord = chain-InOrder asked w q r qs hrs h ord

    pub handle_all-InOrder_from :
        (events : List Event) (asked : List Job) (w : World b)
        → All (IsClean b key) (jobs events)
        → InOrder b key asked w
        → (v : World b) × (handle_all b lifecycle_id events w ≡ some v)
          × InOrder b key (asked ++ jobs events) v
    handle_all-InOrder_from [] asked w cs o =
        (w, refl, subst (λ l. InOrder b key l w) (sym (append-nil asked)) o)
    handle_all-InOrder_from (submit j ∷ es) asked w (c, cs) o =
        let (v, e, o') = submit-InOrder b lifecycle_id key asked j w c o in
        let (u, e', o'') = handle_all-InOrder_from es (asked ++ j ∷ []) v cs o' in
        (u, rw (e, e'), subst (λ l. InOrder b key l u) (append_assoc asked (j ∷ []) (jobs es)) o'')
    handle_all-InOrder_from (finish ∷ es) asked w cs o =
        let (v, e, o', _) = finish-InOrder asked w o in
        let (u, e', o'') = handle_all-InOrder_from es asked v cs o' in (u, rw (e, e'), o'')

  -- From an idle lifecycle, every sequence of requests and finished runs is handled, and what is
  -- published, followed by what still waits in the queue behind the run in flight, is exactly what was
  -- asked for, in the order in which it was asked for; the queue holds nothing else. The requests
  -- name their tenant and workflow without white space around them.
  pub handle_all-InOrder :
      (lifecycle_id key : String)
      → lifecycle_run_queue_key (strip lifecycle_id) ≡ some key
      → is_empty (strip lifecycle_id) ≡ false
      → (events : List Event) (w : World b) → All (IsClean b key) (jobs events)
      → b.items w.store key ≡ []
      → w.published ≡ []
      → (v : World b) × (handle_all b lifecycle_id events w ≡ some v)
        × InOrder b key (jobs events) v
  handle_all-InOrder lifecycle_id key hk named events w cs idle fresh =
      handle_all-InOrder_from lifecycle_id key hk named events [] w cs (record {
        queue = [];
        all_clean = tt;
        contents = idle;
        in_order = rw (fresh, append-nil {A = Task} []);
      })
