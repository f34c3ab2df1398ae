-- ===== src/RunQueue/Serializer/Arrivals.antt =====
-- A request keeps at most one run of a lifecycle in flight.
-- One more run if it is this queue's and was started.
use testingmulti.RunQueue.{Broker, admit, lifecycle_run_queue_key}
use testingmulti.RunQueue.Serializer.{
  SerializeEnqueueResult, World, after_admit, enqueue, flagged, started, work_item,
}
use testingmulti.RunQueue.Keys.{clean_key-run_queue_key}
use testingmulti.RunQueue.Contents.{admit_clean}
use testingmulti.Common.{
  Bool, OnSome, String, [], and_then-OnSome, arith, eq_iff, eqb, false, if◌then◌else◌, length,
  length-append, map_option, refl, subst, sym, true, ℕ, ◌+◌, ◌==◌, ◌∷◌, ◌≡◌, ◌≤◌,
}
use testingmulti.Common.Value.{Fields, clean_text, get}

abbrev pub started_on : String → SerializeEnqueueResult → ℕ
started_on key r = elim r.status [ started ↦ if r.inbox_key == key then 1 else 0 | _ ↦ 0 ]

abbrev pub finished_on : String → SerializeEnqueueResult → ℕ
finished_on key r = if r.inbox_key == key then 1 else 0

module _ (b : Broker) where
  abbrev pub InFlightOk : String → (World b × ℕ) → Type 0
  InFlightOk key (w, n) = (n ≤ 1) × (n ≤ length (b.items w.store key))

  abbrev pub Arrived : String → ℕ → SerializeEnqueueResult × World b → Type 0
  Arrived key n (r, v) = InFlightOk key (v, n + started_on key r)

  admitted-InFlightOk :
      (key lid j slug name : String) (body : Fields) (w : World b) (n m : ℕ) (q : Bool) (x : b.Raw)
      → InFlightOk key (w, n)
      → (b.rpush j x w.store).0 ≡ m
      → eqb m 1 ≡ q
      → Arrived key n (
          after_admit b lid j slug name body w
            (record { inbox_key = j; length = m; should_enqueue = q }, (b.rpush j x w.store).1))
  admitted-InFlightOk key lid j slug name body w n m true x (one, len) hm hq = (
    ground (
      arith,
      eq_iff j key,
      hm,
      hq,
      b.rpush_length j x w.store,
      b.items-rpush j key x w.store,
      length-append (b.items w.store key) (x ∷ []),
    ),
    ground (
      arith,
      eq_iff j key,
      hm,
      hq,
      b.rpush_length j x w.store,
      b.items-rpush j key x w.store,
      length-append (b.items w.store key) (x ∷ []),
    ),
  )
  admitted-InFlightOk key lid j slug name body w n m false x (one, len) hm hq = (
    ground (arith, one),
    ground
        (arith, len, b.items-rpush j key x w.store, length-append (b.items w.store key) (x ∷ [])),
  )

  pub enqueue-InFlightOk :
      (key slug name : String) (payload : Fields) (w : World b) (n : ℕ)
      → InFlightOk key (w, n)
      → OnSome (Arrived key n) (enqueue b slug name payload w)
  unfolding enqueue
  enqueue-InFlightOk key slug name payload w n inv =
      let lid = clean_text b.render (get payload "workflow_lifecycle_id") in
      let body = flagged b payload in
      and_then-OnSome (Arrived key n)
        (λ j.
          map_option (after_admit b lid j slug name body w)
            (admit b j (work_item b slug name body) w.store))
        (lifecycle_run_queue_key lid)
        (λ j hj.
          let x = b.dumps (work_item b slug name body) in
          subst (λ o. OnSome (Arrived key n) (map_option (after_admit b lid j slug name body w) o))
            (sym (
              admit_clean b j (work_item b slug name body) w.store
                (clean_key-run_queue_key "lifecycle" lid j hj)))
            (admitted-InFlightOk key lid j slug name body w n (b.rpush j x w.store).0
              (eqb (b.rpush j x w.store).0 1) x inv refl refl))
