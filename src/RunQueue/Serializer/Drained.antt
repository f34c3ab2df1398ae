-- ===== src/RunQueue/Serializer/Drained.antt =====
-- Every job that was asked for is started, once enough runs have finished.
use testingmulti.RunQueue.{Broker, lifecycle_run_queue_key, tail}
use testingmulti.RunQueue.Serializer.{World}
use testingmulti.RunQueue.Serializer.Jobs.{
  Event, InOrder, IsClean, Job, finish, handle, handle_all, jobs, task_of,
}
use testingmulti.RunQueue.Serializer.Order.{finish-InOrder, handle_all-InOrder}
use testingmulti.Common.{
  All, List, Option-cases, String, [], and_then, ap, arith, false, inl, inr, length, length-append,
  length-map, map, refl, some, suc, sym, zero, ℕ, ◌++◌, ◌∙◌, ◌∷◌, ◌≡◌, ◌≤◌,
}
use testingmulti.Common.Text.{is_empty, strip}
use mathlib.Core.List.{append-nil}

abbrev pub finishes_of : ℕ → List Event
finishes_of zero = []
finishes_of (suc n) = finish ∷ finishes_of n

length-tail : {A : Type 0} (xs : List A) (n : ℕ) → length xs ≤ suc n → length (tail xs) ≤ n
length-tail [] n h = omega arith
length-tail (x ∷ xs) n h = omega (arith, h)

module _ (b : Broker) where
  handle_all-append :
      (lid : String) (es fs : List Event) (w : World b)
      → handle_all b lid (es ++ fs) w ≡ and_then (handle_all b lid es w) (handle_all b lid fs)
  handle_all-append lid [] fs w = refl
  handle_all-append lid (e ∷ es) fs w = elim (Option-cases (handle b lid e w)) [
    | inl h ↦ rw h
    | inr (v, h) ↦ rw h (handle_all-append lid es fs v)
  ]

  -- An empty queue has published all.
  all_published :
      (key : String) (asked : List Job) (w : World b) (o : InOrder b key asked w)
      → length o.queue ≤ 0
      → w.published ≡ map (task_of b) asked
  all_published key asked w o h = go o.queue h o.in_order
    where
      go :
          (q : List Job)
          → length q ≤ 0
          → w.published ++ map (task_of b) (tail q) ≡ map (task_of b) asked
          → w.published ≡ map (task_of b) asked
      go [] h ord = sym (append-nil w.published) ∙ ord
      go (x ∷ xs) h ord = elim h [ ]

  queue_bound :
      (key : String) (asked : List Job) (w : World b) (o : InOrder b key asked w)
      → length o.queue ≤ suc (length asked)
  queue_bound key asked w o = go o.queue o.in_order
    where
      go :
          (q : List Job)
          → w.published ++ map (task_of b) (tail q) ≡ map (task_of b) asked
          → length q ≤ suc (length asked)
      go [] ord = omega arith
      go (x ∷ xs) ord =
          let counted = ap length ord in
          omega (
            arith,
            counted,
            length-append w.published (map (task_of b) xs),
            length-map (task_of b) xs,
            length-map (task_of b) asked,
          )

  module _ (lifecycle_id key : String)
      (hk : lifecycle_run_queue_key (strip lifecycle_id) ≡ some key)
      (named : is_empty (strip lifecycle_id) ≡ false) where
    drain :
        (n : ℕ) (asked : List Job) (w : World b) (o : InOrder b key asked w)
        → length o.queue ≤ n
        → (v : World b) × (handle_all b lifecycle_id (finishes_of n) w ≡ some v)
          × (v.published ≡ map (task_of b) asked)
    drain zero asked w o h = (w, refl, all_published key asked w o h)
    drain (suc n) asked w o h =
        let (v, e, o', shorter) = finish-InOrder b lifecycle_id key hk named asked w o in
        let bound : length o'.queue ≤ n = rw shorter (length-tail o.queue n h) in
        let (u, e', done) = drain n asked v o' bound in (u, rw (e, e'), done)

  -- No job is lost and none waits for ever: from an idle lifecycle, after any requests and finished
  -- runs, one more finished run than there were requests leaves published exactly what was asked for,
  -- in that order. The requests name their tenant and workflow without white space around them.
  pub handle_all-drained :
      (lifecycle_id key : String)
      → lifecycle_run_queue_key (strip lifecycle_id) ≡ some key
      → is_empty (strip lifecycle_id) ≡ false
      → (events : List Event) (w : World b) → All (IsClean b key) (jobs events)
      → b.items w.store key ≡ []
      → w.published ≡ []
      → (v : World b) × (handle_all b lifecycle_id
            (events ++ finishes_of (suc (length (jobs events))))
            w
          ≡ some v)
        × (v.published ≡ map (task_of b) (jobs events))
  handle_all-drained lifecycle_id key hk named events w cs idle fresh =
      let (v, e, o) = handle_all-InOrder b lifecycle_id key hk named events w cs idle fresh in
      let n = suc (length (jobs events)) in
      let (u, e', done) =
        drain lifecycle_id key hk named n (jobs events) v o (queue_bound key (jobs events) v o) in
      (u, rw (handle_all-append lifecycle_id events (finishes_of n) w, e, e'), done)
