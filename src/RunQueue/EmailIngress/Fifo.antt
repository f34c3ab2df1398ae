-- ===== src/RunQueue/EmailIngress/Fifo.antt =====
-- The ingress queue of an e-mail implements the abstract queue.
use testingmulti.RunQueue.EmailIngress.Arrive.{arrive-Implements, is_clean, more}
use testingmulti.RunQueue.EmailIngress.Represents.{
  Implements, IsNamed, Represents, email_task_of, handle_ingress_all, item_of, raw_of,
}
use testingmulti.RunQueue.{Broker, email_ingress_work_queue_key, popped_item, tail}
use testingmulti.RunQueue.Contents.{complete_clean, first_item, peek_head-Peeked, valid_from}
use testingmulti.RunQueue.EmailIngress.{
  IngressWorld, after_ingress_complete, complete_email, publish_ingress, start_ingress_item,
  with_ingress_store,
}
use testingmulti.RunQueue.EmailIngress.Deliveries.{
  Delivery, IngressEvent, Queue, arrive, attempt_ended, deliver, delivered, depart, fifo,
}
use testingmulti.Common.{
  All, List, String, [], ap, false, length, length-map, ltb, map, map-snoc, refl, some, suc, sym, ℕ,
  ◌++◌, ◌∙◌, ◌∷◌, ◌≡◌,
}
use testingmulti.Common.Value.{get}
use testingmulti.Common.Text.{is_empty, strip}
use mathlib.Core.List.{append-nil}
use text.Mathlib.TextPositions.{eq_refl}

module _ (b : Broker) (email_id key : String)
    (hk : email_ingress_work_queue_key (strip email_id) ≡ some key)
    (named : is_empty (strip email_id) ≡ false) where
  popped : IngressWorld b → b.Store
  popped w = (b.lpop key w.store).1

  after_pop :
      (w : IngressWorld b) (ds : List Delivery)
      → b.items w.store key ≡ map (raw_of b email_id) ds
      → b.items (popped w) key ≡ map (raw_of b email_id) (tail ds)
  unfolding popped
  after_pop w [] h = rw (b.items-lpop key key w.store, eq_refl key, h)
  after_pop w (q ∷ qs) h = rw (b.items-lpop key key w.store, eq_refl key, h)

  complete_email_clean :
      (w : IngressWorld b) (ds : List Delivery)
      → b.items w.store key ≡ map (raw_of b email_id) ds
      → complete_email b email_id w
        ≡ after_ingress_complete b (strip email_id) key w (
          record {
            inbox_key = key;
            popped = popped_item b (b.lpop key w.store).0;
            remaining = length (tail ds);
            should_chain = ltb 0 (length (tail ds));
          },
          popped w,
        )
  unfolding complete_email popped
  complete_email_clean w ds h =
      let left : b.llen key (popped w) ≡ length (tail ds) =
        rw
          (b.llen_lem key (popped w), after_pop w ds h, length-map (raw_of b email_id) (tail ds)) in
      rw (named, hk, complete_clean b key w.store (is_clean b email_id key hk named), left)

  start_ingress_clean :
      (n : ℕ) (d : Delivery) (s : b.Store) (w : IngressWorld b)
      → IsNamed d
      → (start_ingress_item b (strip email_id) key n (item_of b email_id d) s w).1
        ≡ publish_ingress b d.tenant_slug (item_of b email_id d) s w
  unfolding get
  start_ingress_clean n d s w (trimmed, present) = rw (trimmed, present)

  -- With another delivery behind the one in work
  chain-Implements :
      (w : IngressWorld b) (q r : Delivery) (qs bs : List Delivery)
      → Represents b email_id key (record { waiting = q ∷ r ∷ qs; begun = bs }) w
      → Implements b email_id key attempt_ended
          (depart (record { waiting = q ∷ r ∷ qs; begun = bs }))
          w
  chain-Implements w q r qs bs h =
      let rest = after_pop w (q ∷ r ∷ qs) h.contents in
      let (t, e, kept, frame) =
        peek_head-Peeked b key key (popped w) (is_clean b email_id key hk named) in
      let found : first_item b (b.items (popped w) key) ≡ some (item_of b email_id r) =
        rw (rest, first_item, b.loads-dumps (item_of b email_id r)) in
      let whole : valid_from b (b.items (popped w) key) ≡ map (raw_of b email_id) (r ∷ qs) =
        rw (rest, valid_from, b.loads-dumps (item_of b email_id r)) in
      let (hq, (hr, hqs)) = h.all_named in
      (
        publish_ingress b r.tenant_slug (item_of b email_id r) t w,
        rw (
          complete_email_clean w (q ∷ r ∷ qs) h.contents,
          (more b email_id key hk named) (length qs),
          e,
          found,
          start_ingress_clean (suc (length qs)) r t w hr,
        ),
        record {
          all_named = (hr, hqs);
          contents = kept ∙ whole;
          tasks =
              ap (λ l. l ++ email_task_of b email_id r ∷ []) h.tasks
              ∙ sym (map-snoc (email_task_of b email_id) bs r);
        },
      )

  depart-Implements :
      (w : IngressWorld b) (ds bs : List Delivery)
      → Represents b email_id key (record { waiting = ds; begun = bs }) w
      → Implements b email_id key attempt_ended (depart (record { waiting = ds; begun = bs })) w
  depart-Implements w [] bs h = (
    with_ingress_store b (popped w) w,
    rw (complete_email_clean w [] h.contents),
    record {
      all_named = tt;
      contents = after_pop w [] h.contents;
      tasks = h.tasks ∙ ap (map (email_task_of b email_id)) (sym (append-nil bs));
    },
  )
  depart-Implements w (q ∷ []) bs h = (
    with_ingress_store b (popped w) w,
    rw (complete_email_clean w (q ∷ []) h.contents),
    record {
      all_named = tt;
      contents = after_pop w (q ∷ []) h.contents;
      tasks = h.tasks ∙ ap (map (email_task_of b email_id)) (sym (append-nil bs));
    },
  )
  depart-Implements w (q ∷ r ∷ qs) bs h = chain-Implements w q r qs bs h

  -- For an e-mail whose id is not blank, from a state that represents the abstract queue, any ended
  -- attempts and any deliveries that name their tenant without white space around it are handled, and
  -- lead to a state that represents what the abstract queue has become.
  pub handle_ingress_refines :
      (events : List IngressEvent) (f : Queue) (w : IngressWorld b)
      → All IsNamed (delivered events)
      → Represents b email_id key f w
      → (v : IngressWorld b) × (handle_ingress_all b email_id events w ≡ some v)
        × Represents b email_id key (fifo events f) v
  unfolding handle_ingress_all fifo
  handle_ingress_refines [] f w cs h = (w, refl, h)
  handle_ingress_refines (deliver d ∷ es) f w (c, cs) h =
      let (v, e, r) = (arrive-Implements b email_id key hk named) d w f.waiting f.begun c h in
      let (u, e', r') = handle_ingress_refines es (arrive d f) v cs r in (u, rw (e, e'), r')
  handle_ingress_refines (attempt_ended ∷ es) f w cs h =
      let (v, e, r) = depart-Implements w f.waiting f.begun h in
      let (u, e', r') = handle_ingress_refines es (depart f) v cs r in (u, rw (e, e'), r')
