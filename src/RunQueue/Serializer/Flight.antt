-- ===== src/RunQueue/Serializer/Flight.antt =====
-- At most one run of a lifecycle is in flight.
use testingmulti.RunQueue.{Broker, clean_key, complete, lifecycle_run_queue_key, popped_item}
use testingmulti.RunQueue.Serializer.{
  SerializeEnqueueResult, World, after_complete, buffered, complete_and_start_next, drained,
  enqueue, result, start_item, start_next, start_payload, started, with_store,
}
use testingmulti.RunQueue.Keys.{clean_key-run_queue_key}
use testingmulti.RunQueue.Contents.{complete_clean, first_item, length-valid_from, peek_head-Peeked}
use testingmulti.RunQueue.Serializer.Arrivals.{
  Arrived, InFlightOk, enqueue-InFlightOk, finished_on, started_on,
}
use testingmulti.Common.{
  Bool, Bool-cases, OnSome, OnSome-elim, Option, String, and_then, and_then-OnSome, ap, arith,
  eq_iff, false, if◌then◌else◌, inl, inr, length, ltb, map_option, none, refl, some, subst, sym,
  true, ℕ, ◌+◌, ◌-◌, ◌<◌, ◌==◌, ◌||◌, ◌∙◌, ◌≡◌, ◌≤◌,
}
use testingmulti.Common.Value.{Fields, Value, arr, bool, clean_text, get, int, null, obj, str}
use testingmulti.Common.Text.{is_empty, strip}

module _ (b : Broker) where
  -- What can happen to the queue `key` and to the number of its runs in flight: an event arrives for
  -- some lifecycle, or a run that was in flight for some lifecycle finishes.
  pub data Step (key : String) : (World b × ℕ) → (World b × ℕ) → Type 0 where
    arrives :
        (slug name : String) (payload : Fields) (w v : World b) (n : ℕ) (r : SerializeEnqueueResult)
        → enqueue b slug name payload w ≡ some (r, v)
        → Step key (w, n) (v, n + started_on key r)
    finishes :
        (lifecycle_id : String) (w v : World b) (n : ℕ) (r : SerializeEnqueueResult)
        → complete_and_start_next b lifecycle_id w ≡ some (r, v)
        → finished_on key r ≤ n
        → Step key (w, n) (v, n - finished_on key r + started_on key r)

  pub data Reach (key : String) : (World b × ℕ) → (World b × ℕ) → Type 0 where
    here : (p : World b × ℕ) → Reach key p p
    then_step : {p q r : World b × ℕ} → Reach key p q → Step key q r → Reach key p r

  abbrev pub Finished : String → ℕ → SerializeEnqueueResult × World b → Type 0
  Finished key n (r, v) = InFlightOk b key (v, n - finished_on key r + started_on key r)

  finished_on_bound : (key : String) (r : SerializeEnqueueResult) → finished_on key r ≤ 1
  finished_on_bound key r = elim (Bool-cases (r.inbox_key == key)) [
    | inl y ↦ ground (arith, y)
    | inr n ↦ ground (arith, n)
  ]

  started_on_bound :
      (key : String) (r : SerializeEnqueueResult) → started_on key r ≤ finished_on key r
  started_on_bound key r =
      elim r.status
        as (λ st.
          elim st [ started ↦ if r.inbox_key == key then 1 else 0 | _ ↦ 0 ] ≤ finished_on key r) [
            | started ↦ omega arith
            | buffered ↦ omega arith
            | drained ↦ omega arith
          ]

  Finished-InFlightOk :
      (key j : String) (w v : World b) (n : ℕ) (r : SerializeEnqueueResult)
      → InFlightOk b key (w, n)
      → r.inbox_key ≡ j
      → ((j == key) ≡ false → b.items v.store key ≡ b.items w.store key)
      → started_on j r ≤ length (b.items v.store j)
      → Finished key n (r, v)
  Finished-InFlightOk key j w v n r (one, len) hr frame enough = elim (Bool-cases (j == key)) [
    | inl y ↦
        let same : started_on j r ≡ started_on key r =
          ap (λ k. started_on k r) ((eq_iff j key).0 y) in
        let fin : finished_on key r ≡ 1 = rw (hr, y) in
        let small = started_on_bound key r in
        let items_same : b.items v.store j ≡ b.items v.store key =
          ap (b.items v.store) ((eq_iff j key).0 y) in
        let len' = ap length items_same in
        (
          omega (arith, one, len, same, fin, small, enough, len'),
          omega (arith, one, len, same, fin, small, enough, len'),
        )
    | inr z ↦
        let fin : finished_on key r ≡ 0 = rw (hr, z) in
        let small = started_on_bound key r in
        let len' = ap length (frame z) in
        (omega (arith, one, fin, small), omega (arith, len, fin, small, len'))
  ]

  -- A start keeps the store and answers for the queue it was asked for.
  start_payload-store :
      (lid j : String) (m : ℕ) (slug name : String) (p : Value) (w : World b)
      → ((start_payload b lid j m slug name p w).0.inbox_key ≡ j)
        × ((start_payload b lid j m slug name p w).1.store ≡ w.store)
  start_payload-store lid j m slug name (obj p) w =
      elim (Bool-cases (is_empty slug || is_empty name)) [
        | inl y ↦ (rw (start_payload, y), rw (start_payload, y))
        | inr n ↦ (rw (start_payload, n), rw (start_payload, n))
      ]
  start_payload-store lid j m slug name null w = (refl, refl)
  start_payload-store lid j m slug name (bool _) w = (refl, refl)
  start_payload-store lid j m slug name (int _) w = (refl, refl)
  start_payload-store lid j m slug name (str _) w = (refl, refl)
  start_payload-store lid j m slug name (arr _) w = (refl, refl)

  settled-InFlightOk :
      (key j : String) (w : World b) (n : ℕ) (t : b.Store) (o : SerializeEnqueueResult × World b)
      → o.0.inbox_key ≡ j
      → o.1.store ≡ t
      → InFlightOk b key (w, n)
      → ((j == key) ≡ false → b.items t key ≡ b.items w.store key)
      → 0 < length (b.items t j)
      → Finished key n o
  settled-InFlightOk key j w n t (r, v) hk hs inv frame there =
      let small = started_on_bound j r in
      let le1 = finished_on_bound j r in
      let len' = ap (λ u. length (b.items u j)) hs in
      Finished-InFlightOk key j w v n r inv hk (λ d. ap (λ u. b.items u key) hs ∙ frame d)
        (omega (arith, there, small, le1, len'))

  -- What is left to do when the head has been looked at.
  chained-InFlightOk :
      (key lid j : String) (w : World b) (n m : ℕ) (o : Option Fields) (t : b.Store)
      → InFlightOk b key (w, n)
      → ((j == key) ≡ false → b.items t key ≡ b.items w.store key)
      → ((item : Fields) → o ≡ some item → 0 < length (b.items t j))
      → Finished key n (start_next b lid j m w (o, t))
  chained-InFlightOk key lid j w n m none t inv frame there =
      Finished-InFlightOk key j w (with_store b t w) n (start_next b lid j m w (none, t)).0 inv refl
        frame (omega arith)
  chained-InFlightOk key lid j w n m (some item) t inv frame there =
      let slug = clean_text b.render (get item "tenant_slug") in
      let name = clean_text b.render (get item "workflow_name") in
      let (hk, hs) =
        start_payload-store lid j m slug name (get item "payload") (with_store b t w) in
      settled-InFlightOk key j w n t (start_item b lid j m item (with_store b t w)) hk hs inv frame
        (there item refl)

  popped-InFlightOk :
      (key lid j : String) (w : World b) (n m : ℕ) (q : Bool) (item : Option Fields)
      → clean_key j ≡ some j
      → InFlightOk b key (w, n)
      → OnSome (Finished key n) (
          after_complete b lid j w (
            record { inbox_key = j; popped = item; remaining = m; should_chain = q },
            (b.lpop j w.store).1,
          ))
  popped-InFlightOk key lid j w n m true item is_clean inv =
      let s = (b.lpop j w.store).1 in
      let (t, r, v, frame) = peek_head-Peeked b j j s is_clean in
      subst (λ o. OnSome (Finished key n) (map_option (start_next b lid j m w) o)) (sym r)
        (chained-InFlightOk key lid j w n m (first_item b (b.items s j)) t inv
          (λ d. frame key d ∙ rw (b.items-lpop j key w.store, d))
          (λ d h. omega (arith, length-valid_from b (b.items s j) d h, ap length v)))
  popped-InFlightOk key lid j w n m false item is_clean inv =
      Finished-InFlightOk key j w (with_store b (b.lpop j w.store).1 w) n
        (result b lid j drained 0 none) inv refl (λ d. rw (b.items-lpop j key w.store, d))
        (omega arith)

  pub complete_and_start_next-InFlightOk :
      (key lifecycle_id : String) (w : World b) (n : ℕ)
      → InFlightOk b key (w, n)
      → OnSome (Finished key n) (complete_and_start_next b lifecycle_id w)
  unfolding complete_and_start_next
  complete_and_start_next-InFlightOk key lifecycle_id w n inv =
      let lid = strip lifecycle_id in
      elim (Bool-cases (is_empty lid)) [
        | inl y ↦ rw y tt
        | inr z ↦ rw z (
            and_then-OnSome (Finished key n)
              (λ j. and_then (complete b j w.store) (after_complete b lid j w))
              (lifecycle_run_queue_key lid)
              (λ j hj.
                let is_clean = clean_key-run_queue_key "lifecycle" lid j hj in
                let s = (b.lpop j w.store).1 in
                subst (λ o. OnSome (Finished key n) (and_then o (after_complete b lid j w)))
                  (sym (complete_clean b j w.store is_clean))
                  (popped-InFlightOk key lid j w n (b.llen j s) (ltb 0 (b.llen j s))
                    (popped_item b (b.lpop j w.store).0) is_clean inv)))
      ]

  Step-InFlightOk :
      (key : String) {p q : World b × ℕ} → Step key p q → InFlightOk b key p → InFlightOk b key q
  Step-InFlightOk key (arrives slug name payload w v n r e) inv =
      OnSome-elim (Arrived b key n) (enqueue b slug name payload w) (r, v)
        (enqueue-InFlightOk b key slug name payload w n inv) e
  Step-InFlightOk key (finishes lifecycle_id w v n r e le) inv =
      OnSome-elim (Finished key n) (complete_and_start_next b lifecycle_id w) (r, v)
        (complete_and_start_next-InFlightOk key lifecycle_id w n inv) e

  -- Whatever events arrive and whatever runs finish, for this and for other lifecycles: from a
  -- state with no run of the lifecycle in flight, at most one is at any time, and while one is, its queue is not
  -- empty.
  pub Reach-InFlightOk :
      (key : String) (w : World b) (p : World b × ℕ) → Reach key (w, 0) p → InFlightOk b key p
  Reach-InFlightOk key w p h = go h
    where
      go : {q : World b × ℕ} → Reach key (w, 0) q → InFlightOk b key q
      go (here _) = (omega arith, omega arith)
      go (then_step hs st) = Step-InFlightOk key st (go hs)
