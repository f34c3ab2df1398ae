-- ===== src/RunQueue/EmailIngress/Arrive.antt =====
-- What the arrival of a delivery does to Redis and to the published tasks.
use testingmulti.RunQueue.{AdmitResult, Broker, clean_key, email_ingress_work_queue_key}
use testingmulti.RunQueue.Keys.{clean_key-run_queue_key}
use testingmulti.RunQueue.Contents.{admit_clean}
use testingmulti.RunQueue.EmailIngress.{
  IngressWorld, admit_email, after_ingress_admit, publish_ingress, with_ingress_store,
}
use testingmulti.RunQueue.EmailIngress.Represents.{
  Implements, IsNamed, Represents, email_task_of, item_of, raw_of,
}
use testingmulti.RunQueue.EmailIngress.Deliveries.{Delivery, arrive, deliver}
use testingmulti.Common.{
  All, List, String, [], ap, arith, eqb, false, length, length-map, ltb, map, map-snoc, some, suc,
  sym, true, ℕ, ◌++◌, ◌+◌, ◌∙◌, ◌∷◌, ◌≡◌,
}
use testingmulti.Common.Text.{is_empty, strip}
use mathlib.Core.List.{append-nil}
use text.Mathlib.TextPositions.{eq_refl}

module _ (b : Broker) (email_id key : String)
    (hk : email_ingress_work_queue_key (strip email_id) ≡ some key)
    (named : is_empty (strip email_id) ≡ false) where
  pub is_clean : clean_key key ≡ some key
  is_clean = clean_key-run_queue_key "email_ingress" (strip email_id) key hk

  All-snoc :
      (d : Delivery) (ds : List Delivery) → All IsNamed ds → IsNamed d → All IsNamed (ds ++ d ∷ [])
  All-snoc d [] h c = (c, tt)
  All-snoc d (q ∷ qs) (hq, h) c = (hq, All-snoc d qs h c)

  pushed :
      (d : Delivery) (w : IngressWorld b) (ds : List Delivery)
      → b.items w.store key ≡ map (raw_of b email_id) ds
      → b.items (b.rpush key (raw_of b email_id d) w.store).1 key
        ≡ map (raw_of b email_id) (ds ++ d ∷ [])
  pushed d w ds h = rw (
    b.items-rpush key key (raw_of b email_id d) w.store,
    eq_refl key,
    h,
    map-snoc (raw_of b email_id) ds d,
  )

  push_count :
      (d : Delivery) (w : IngressWorld b) (ds : List Delivery)
      → b.items w.store key ≡ map (raw_of b email_id) ds
      → (b.rpush key (raw_of b email_id d) w.store).0 ≡ length ds + 1
  push_count d w ds h =
      rw (b.rpush_length key (raw_of b email_id d) w.store, h, length-map (raw_of b email_id) ds)

  abbrev admitted : Delivery → IngressWorld b → AdmitResult × b.Store
  admitted d w = (
    record {
      inbox_key = key;
      length = (b.rpush key (raw_of b email_id d) w.store).0;
      should_enqueue = eqb (b.rpush key (raw_of b email_id d) w.store).0 1;
    },
    (b.rpush key (raw_of b email_id d) w.store).1,
  )

  admit_email_clean :
      (d : Delivery) (w : IngressWorld b)
      → admit_email b email_id d.tenant_uuid d.tenant_slug d.payload w
        ≡ some (
            after_ingress_admit b
              (strip email_id)
              key
              d.tenant_slug
              (item_of b email_id d)
              w
              (admitted d w))
  unfolding admit_email
  admit_email_clean d w = rw (hk, admit_clean b key (item_of b email_id d) w.store is_clean)

  later : (n : ℕ) → eqb (suc n + 1) 1 ≡ false
  later n = ground arith

  pub more : (n : ℕ) → ltb 0 (suc n) ≡ true
  more n = ground arith

  pub arrive-Implements :
      (d : Delivery) (w : IngressWorld b) (ds bs : List Delivery)
      → IsNamed d
      → Represents b email_id key (record { waiting = ds; begun = bs }) w
      → Implements b email_id key (deliver d) (arrive d (record { waiting = ds; begun = bs })) w
  arrive-Implements d w [] bs c r = (
    publish_ingress b d.tenant_slug (item_of b email_id d)
        (b.rpush key (raw_of b email_id d) w.store).1 w,
    rw (admit_email_clean d w, push_count d w [] r.contents),
    record {
      all_named = (c, tt);
      contents = pushed d w [] r.contents;
      tasks =
          ap (λ l. l ++ email_task_of b email_id d ∷ []) r.tasks
          ∙ sym (map-snoc (email_task_of b email_id) bs d);
    },
  )
  arrive-Implements d w (q ∷ qs) bs c r = (
    with_ingress_store b (b.rpush key (raw_of b email_id d) w.store).1 w,
    rw (admit_email_clean d w, push_count d w (q ∷ qs) r.contents, later (length qs)),
    record {
      all_named = All-snoc d (q ∷ qs) r.all_named c;
      contents = pushed d w (q ∷ qs) r.contents;
      tasks = r.tasks ∙ ap (map (email_task_of b email_id)) (sym (append-nil bs));
    },
  )
