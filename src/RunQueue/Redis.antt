-- ===== src/RunQueue/Redis.antt =====
-- A concrete Redis, as functions from keys to lists.
use testingmulti.RunQueue.{Broker, head?, tail}
use testingmulti.Common.{
  List, Option, String, [], if◌then◌else◌, length, refl, some, ◌++◌, ◌+◌, ◌==◌, ◌∷◌,
}
use testingmulti.Common.Value.{Value, obj}

abbrev pub redis : Broker
redis = record {
  Raw = Option Value;
  Store = String → List (Option Value);
  dumps = λ d. some (obj d);
  loads = λ x. x;
  render = λ v. "?";
  task_id = λ n. some "task";
  default_work_queue = "celery";
  t3ra_work_queue = "t3ra";
  items = λ s k. s k;
  rpush = λ k x s. (length (s k) + 1, λ j. if k == j then s j ++ x ∷ [] else s j);
  lindex_0 = λ k s. head? (s k);
  lpop = λ k s. (head? (s k), λ j. if k == j then tail (s j) else s j);
  llen = λ k s. length (s k);
  loads-dumps = λ d. refl;
  rpush_length = λ k x s. refl;
  items-rpush = λ k j x s. refl;
  lindex_0_lem = λ k s. refl;
  lpop_value = λ k s. refl;
  items-lpop = λ k j s. refl;
  llen_lem = λ k s. refl;
}
