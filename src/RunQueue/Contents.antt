-- ===== src/RunQueue/Contents.antt =====
-- What the operations of the run queue do to the Redis lists.
use testingmulti.Common.{Bool-cases, eq_iff, if◌then◌else◌, subst}
use testingmulti.RunQueue.{admit, complete, popped_item}
use testingmulti.Common.{eqb, ltb}
use testingmulti.RunQueue.{clean_key, peek_head}
use testingmulti.Common.{Option-cases, arith, inl, inr, zero, ◌∙◌}
use text.Mathlib.TextPositions.{eq_refl}
use testingmulti.RunQueue.{Broker, decode, peek_loop}
use testingmulti.Common.Value.{Fields}
use testingmulti.Common.{
  List, Option, String, [], false, length, none, refl, some, suc, ℕ, ◌<◌, ◌==◌, ◌∷◌, ◌≡◌,
}

module _ (b : Broker) where
  -- The entries from the first one that holds a work item on.
  abbrev pub valid_from : List b.Raw → List b.Raw
  valid_from [] = []
  valid_from (x ∷ xs) = elim (decode b x) [ none ↦ valid_from xs | some _ ↦ x ∷ xs ]

  -- The first work item of a queue.
  abbrev pub first_item : List b.Raw → Option Fields
  first_item [] = none
  first_item (x ∷ xs) = elim (decode b x) [ none ↦ first_item xs | some item ↦ some item ]

  -- What `peek_head` promises of a queue `key` that it found as `xs` in `s`.
  abbrev pub Peeked : String → b.Store → List b.Raw → Option (Option Fields × b.Store) → Type 0
  Peeked key s xs r =
      (t : b.Store) × (r ≡ some (first_item xs, t))
      × (b.items t key ≡ valid_from xs)
      × ((j : String) → (key == j) ≡ false → b.items t j ≡ b.items s j)

  -- A round that drops the head
  Peeked-skip :
      (key : String) (fuel : ℕ) (s : b.Store) (x : b.Raw) (xs : List b.Raw)
      → b.items s key ≡ x ∷ xs
      → decode b x ≡ none
      → Peeked key (b.lpop key s).1 xs (peek_loop b fuel key (b.lpop key s).1)
      → Peeked key s (x ∷ xs) (peek_loop b (suc fuel) key s)
  unfolding peek_loop
  Peeked-skip key fuel s x xs h bad (u, r, v, frame) = (
    u,
    rw (peek_loop, b.lindex_0_lem key s, h, bad, r, first_item),
    rw (valid_from, bad, v),
    λ j d. frame j d ∙ rw (b.items-lpop key j s, d),
  )

  peek_loop_lem :
      (key : String) (fuel : ℕ) (s : b.Store) (xs : List b.Raw)
      → b.items s key ≡ xs
      → length xs < fuel
      → Peeked key s xs (peek_loop b fuel key s)
  unfolding peek_loop
  peek_loop_lem key zero s xs h lt = elim lt [ ]
  peek_loop_lem key (suc fuel) s [] h lt =
      (s, rw (peek_loop, b.lindex_0_lem key s, h), h, λ j d. refl)
  peek_loop_lem key (suc fuel) s (x ∷ xs) h lt = elim (Option-cases (decode b x)) [
    | inl bad ↦ Peeked-skip key fuel s x xs h bad (
        peek_loop_lem key fuel (b.lpop key s).1 xs (rw (b.items-lpop key key s, eq_refl key, h))
          (omega (arith, lt)))
    | inr (item, good) ↦ (
      s,
      rw (peek_loop, b.lindex_0_lem key s, h, good, first_item),
      rw (valid_from, good, h),
      λ j d. refl,
    )
  ]

  pub peek_head-Peeked :
      (inbox_key key : String) (s : b.Store)
      → clean_key inbox_key ≡ some key
      → Peeked key s (b.items s key) (peek_head b inbox_key s)
  unfolding peek_head
  peek_head-Peeked inbox_key key s is_clean =
      let (t, r, v, frame) =
        peek_loop_lem key (suc (b.llen key s)) s (b.items s key) refl
          (omega (arith, b.llen_lem key s)) in
      (t, rw (is_clean, r), v, frame)

  -- Looking at the head of a queue always ends: it gives the first entry that holds a work item, if
  -- there is one, has dropped exactly the entries before it, and has not touched another queue.
  pub peek_head_lem :
      (inbox_key key : String) (s : b.Store)
      → clean_key inbox_key ≡ some key
      → (t : b.Store) × (peek_head b inbox_key s ≡ some (first_item (b.items s key), t))
        × ((j : String)
            → b.items t j ≡ (if key == j then valid_from (b.items s key) else b.items s j))
  peek_head_lem inbox_key key s is_clean =
      let (t, r, v, frame) = peek_head-Peeked inbox_key key s is_clean in
      (
        t,
        r,
        λ j. elim (Bool-cases (key == j)) [
          | inl y ↦
              rw y (subst (λ k. b.items t k ≡ valid_from (b.items s key)) ((eq_iff key j).0 y) v)
          | inr n ↦ rw n (frame j n)
        ],
      )

  pub admit_clean :
      (key : String) (item : Fields) (s : b.Store)
      → clean_key key ≡ some key
      → admit b key item s
        ≡ some (
          record {
            inbox_key = key;
            length = (b.rpush key (b.dumps item) s).0;
            should_enqueue = eqb (b.rpush key (b.dumps item) s).0 1;
          },
          (b.rpush key (b.dumps item) s).1,
        )
  unfolding admit
  admit_clean key item s h = rw h

  pub complete_clean :
      (key : String) (s : b.Store)
      → clean_key key ≡ some key
      → complete b key s
        ≡ some (
          record {
            inbox_key = key;
            popped = popped_item b (b.lpop key s).0;
            remaining = b.llen key (b.lpop key s).1;
            should_chain = ltb 0 (b.llen key (b.lpop key s).1);
          },
          (b.lpop key s).1,
        )
  unfolding complete
  complete_clean key s h = rw h

  pub length-valid_from :
      (xs : List b.Raw) (item : Fields) → first_item xs ≡ some item → 0 < length (valid_from xs)
  length-valid_from [] item h = ground (arith, h)
  length-valid_from (x ∷ xs) item h = elim (Option-cases (decode b x)) [
    | inl bad ↦
        let skip : first_item xs ≡ first_item (x ∷ xs) = rw (first_item, bad) in
        rw (valid_from, bad) (length-valid_from xs item (skip ∙ h))
    | inr (d, good) ↦ rw (valid_from, good) (omega arith)
  ]
