-- ===== src/RunQueue/Serializer/Submit.antt =====
-- A request keeps the order of the jobs.
use testingmulti.RunQueue.{Broker, tail}
use testingmulti.RunQueue.Serializer.{
  World, after_admit, enqueue, flagged, publish, with_store, work_item,
}
use testingmulti.RunQueue.Keys.{clean_key-run_queue_key}
use testingmulti.RunQueue.Contents.{admit_clean}
use testingmulti.RunQueue.Serializer.Jobs.{InOrder, IsClean, Job, handle, raw_item, submit, task_of}
use testingmulti.Common.{
  All, List, String, [], ap, arith, eqb, false, length, length-map, map, map-snoc, some, suc, sym,
  ℕ, ◌++◌, ◌+◌, ◌∙◌, ◌∷◌, ◌≡◌,
}
use testingmulti.Common.Value.{clean_text, get}
use mathlib.Core.List.{append-nil, append_assoc}
use text.Mathlib.TextPositions.{eq_refl}

module _ (b : Broker) where
  module _ (lifecycle_id key : String) where
    enqueue_clean :
        (j : Job) (w : World b)
        → IsClean b key j
        → enqueue b j.tenant_slug j.workflow_name j.payload w
          ≡ some (
              after_admit b
                (clean_text b.render (get j.payload "workflow_lifecycle_id"))
                key
                j.tenant_slug
                j.workflow_name
                (flagged b j.payload)
                w
                (
                  record {
                    inbox_key = key;
                    length = (b.rpush key ((raw_item b) j) w.store).0;
                    should_enqueue = eqb (b.rpush key ((raw_item b) j) w.store).0 1;
                  },
                  (b.rpush key ((raw_item b) j) w.store).1,
                ))
    unfolding enqueue
    enqueue_clean j w c =
        let lid = clean_text b.render (get j.payload "workflow_lifecycle_id") in
        let item = work_item b j.tenant_slug j.workflow_name (flagged b j.payload) in
        rw (
          c.has_key,
          admit_clean b key item w.store (clean_key-run_queue_key "lifecycle" lid key c.has_key),
        )

    pushed :
        (j : Job) (w : World b) (queue : List Job)
        → b.items w.store key ≡ map (raw_item b) queue
        → b.items (b.rpush key ((raw_item b) j) w.store).1 key ≡ map (raw_item b) (queue ++ j ∷ [])
    pushed j w queue h = rw (
      b.items-rpush key key ((raw_item b) j) w.store,
      eq_refl key,
      h,
      map-snoc (raw_item b) queue j,
    )

    All-pushed :
        (j : Job) (queue : List Job)
        → All (IsClean b key) queue
        → IsClean b key j
        → All (IsClean b key) (queue ++ j ∷ [])
    All-pushed j [] h c = (c, tt)
    All-pushed j (q ∷ qs) (hq, h) c = (hq, All-pushed j qs h c)

    push_count :
        (j : Job) (w : World b) (queue : List Job)
        → b.items w.store key ≡ map (raw_item b) queue
        → (b.rpush key ((raw_item b) j) w.store).0 ≡ length queue + 1
    push_count j w queue h =
        rw (b.rpush_length key ((raw_item b) j) w.store, h, length-map (raw_item b) queue)

    later : (n : ℕ) → eqb (suc n + 1) 1 ≡ false
    later n = ground arith

    pub submit-InOrder :
        (asked : List Job) (j : Job) (w : World b)
        → IsClean b key j
        → InOrder b key asked w
        → (v : World b) × (handle b lifecycle_id (submit j) w ≡ some v)
          × InOrder b key (asked ++ j ∷ []) v
    submit-InOrder asked j w c o = go o.queue o.all_clean o.contents o.in_order
      where
        go :
            (queue : List Job)
            → All (IsClean b key) queue
            → b.items w.store key ≡ map (raw_item b) queue
            → w.published ++ map (task_of b) (tail queue) ≡ map (task_of b) asked
            → (v : World b) × (handle b lifecycle_id (submit j) w ≡ some v)
              × InOrder b key (asked ++ j ∷ []) v
        go [] a h ord = (
          publish b j.tenant_slug j.workflow_name (flagged b j.payload)
              (with_store b (b.rpush key ((raw_item b) j) w.store).1 w),
          rw (enqueue_clean j w c, push_count j w [] h),
          record {
            queue = j ∷ [];
            all_clean = (c, tt);
            contents = pushed j w [] h;
            in_order =
                append-nil (w.published ++ (task_of b) j ∷ [])
                ∙ (ap (λ l. l ++ (task_of b) j ∷ []) (sym (append-nil w.published) ∙ ord)
                    ∙ sym (map-snoc (task_of b) asked j));
          },
        )
        go (q ∷ qs) a h ord = (
          with_store b (b.rpush key ((raw_item b) j) w.store).1 w,
          rw (enqueue_clean j w c, push_count j w (q ∷ qs) h, later (length qs)),
          record {
            queue = q ∷ qs ++ j ∷ [];
            all_clean = All-pushed j (q ∷ qs) a c;
            contents = pushed j w (q ∷ qs) h;
            in_order =
                ap (λ l. w.published ++ l) (map-snoc (task_of b) qs j)
                ∙ (sym (append_assoc w.published (map (task_of b) qs) ((task_of b) j ∷ []))
                    ∙ (ap (λ l. l ++ (task_of b) j ∷ []) ord ∙ sym (map-snoc (task_of b) asked j)));
          },
        )
