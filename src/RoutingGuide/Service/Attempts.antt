-- ===== src/RoutingGuide/Service/Attempts.antt =====
-- The attempt counter, read back after it is written.
use testingmulti.RoutingGuide.{at_least_one, attempt_key, positive}
use testingmulti.RoutingGuide.Store.Laws.{read-patch_metadata}
use testingmulti.Common.{Option, eqb, ltb, none, or_else}
use testingmulti.Common.Value.{as_dict, get, negsuc, ℤ}
use testingmulti.Common.Dicts.{get-set_field}
use testingmulti.RoutingGuide.{
  Env, int_of, parse_attempt, routing_guide_attempt_from_metadata, routing_guide_attempt_from_state,
  routing_guide_attempt_is_stale, sync_routing_guide_attempt_to_state,
}
use testingmulti.RoutingGuide.Store.{World, read_metadata, set_routing_guide_attempt}
use testingmulti.Common.{
  OnSome, String, and_then-OnSome, arith, false, lookup, refl, some, suc, true, zero, ℕ, ◌<◌, ◌≡◌,
  ◌≤◌,
}
use testingmulti.Common.Value.{Fields, Value, int, pos}
use testingmulti.Common.Text.{is_empty, strip}

or_else-pos : (o : Option ℕ) (n : ℕ) → OnSome (λ k. 1 ≤ k) o → 1 ≤ n → 1 ≤ or_else o n
or_else-pos none n h k = k
or_else-pos (some m) n h k = h

module _ (env : Env) where
  positive-pos : (z : ℤ) → OnSome (λ n. 1 ≤ n) (positive env z)
  positive-pos (pos zero) = tt
  positive-pos (pos (suc n)) = omega arith
  positive-pos (negsuc n) = tt

  parse_attempt-pos : (v : Value) → OnSome (λ n. 1 ≤ n) (parse_attempt env v)
  unfolding parse_attempt
  parse_attempt-pos v =
      and_then-OnSome (λ n. 1 ≤ n) (positive env) (int_of env v) (λ z e. positive-pos z)

  -- An attempt is at least 1.
  pub attempt_from_metadata-pos : (v : Value) → 1 ≤ routing_guide_attempt_from_metadata env v
  unfolding routing_guide_attempt_from_metadata
  attempt_from_metadata-pos v =
      or_else-pos _ 1 (parse_attempt-pos (get (as_dict v) attempt_key)) (omega arith)

  pub attempt_from_state-pos : (d : Fields) → 1 ≤ routing_guide_attempt_from_state env d
  unfolding routing_guide_attempt_from_state
  attempt_from_state-pos d =
      or_else-pos _ _ (parse_attempt-pos (get d attempt_key))
        (attempt_from_metadata-pos (get d "workflow_lifecycle_metadata"))

  parse_positive : (n : ℕ) → 1 ≤ n → parse_attempt env (int (pos n)) ≡ some n
  unfolding parse_attempt
  parse_positive zero h = ground (arith, h)
  parse_positive (suc n) h = refl

  -- The graph state holds the attempt that was written to it.
  pub attempt_from_state-sync :
      (d : Fields) (n : ℕ)
      → 1 ≤ n
      → routing_guide_attempt_from_state env (sync_routing_guide_attempt_to_state d n) ≡ n
  unfolding routing_guide_attempt_from_state sync_routing_guide_attempt_to_state
  attempt_from_state-sync d n h =
      let raised : at_least_one n ≡ n = ground (arith, h) in
      rw (raised, get-set_field d attempt_key attempt_key (int (pos n)), parse_positive n h)

  -- The row holds the attempt that was written to it.
  pub attempt_from_metadata-set :
      (lid : String) (n : ℕ) (w : World) (d : Fields)
      → lookup (strip lid) w.metadata ≡ some d
      → is_empty (strip lid) ≡ false
      → 1 ≤ n
      → routing_guide_attempt_from_metadata env
          (read_metadata (strip lid) ((set_routing_guide_attempt lid n w).1))
        ≡ n
  unfolding routing_guide_attempt_from_metadata set_routing_guide_attempt
  attempt_from_metadata-set lid n w d h named p =
      let valid : ltb n 1 ≡ false = ground (arith, p) in
      rw (
        named,
        valid,
        read-patch_metadata (strip lid) attempt_key attempt_key (int (pos n)) w d h,
        parse_positive n p,
      )

  -- An earlier attempt of a reminder is stale.
  pub attempt_is_stale-earlier :
      (a b : ℕ)
      → 1 ≤ a
      → a < b
      → routing_guide_attempt_is_stale env (int (pos a)) (int (pos b)) ≡ true
  unfolding routing_guide_attempt_is_stale
  attempt_is_stale-earlier a b h l =
      let distinct : eqb a b ≡ false = ground (arith, l) in
      rw (parse_positive a h, parse_positive b (omega arith), distinct)
