-- ===== src/RoutingGuide/Store.antt =====
-- The metadata column of `workflow_lifecycles` and its statements
-- (app/repositories/workflow_lifecycles_repository.py).
pub mod Laws
use testingmulti.Common.{
  Bool, Dict, List, String, [], false, if◌then◌else◌, is_some, lookup, ltb, or_else, ℕ, ◌==◌, ◌||◌,
  ◌∷◌,
}
use testingmulti.Common.Value.{Fields, Value, end, field, int, obj, pos, set_field}
use testingmulti.Common.Text.{is_empty, strip}

-- The metadata of each lifecycle row (no metadata is the empty object), and the Celery tasks for which a
-- revocation was sent.
pub record World : Type 0 where
  pub metadata : Dict Fields
  pub revoked : List String

-- `metadata || patch` on JSONB objects
unfoldable pub merge_fields : Fields → Fields → Fields
unfolding set_field
merge_fields d end = d
merge_fields d (field k v patch) = merge_fields (set_field d k v) patch

-- UPDATE … SET metadata = f(metadata) WHERE id = lid
unfoldable pub update_metadata : String → (Fields → Fields) → Dict Fields → Dict Fields
update_metadata lid f [] = []
update_metadata lid f ((j, d) ∷ rows) =
    if j == lid then (j, f d) ∷ rows else (j, d) ∷ update_metadata lid f rows

abbrev pub with_metadata : Dict Fields → World → World
with_metadata rows w = record w { metadata = rows }

-- `patch_metadata`; the flag is `rowcount > 0`.
unfoldable pub patch_metadata : String → Fields → World → Bool × World
unfolding merge_fields update_metadata
patch_metadata lid patch w = (
  is_some (lookup lid w.metadata),
  with_metadata (update_metadata lid (λ d. merge_fields d patch) w.metadata) w,
)

-- `set_routing_guide_attempt`
unfoldable pub set_routing_guide_attempt : String → ℕ → World → Bool × World
unfolding patch_metadata strip
set_routing_guide_attempt lifecycle_id attempt w =
    let lid = strip lifecycle_id in
    if is_empty lid || ltb attempt 1
    then (false, w)
    else patch_metadata lid (field "routing_guide_attempt" (int (pos attempt)) end) w

-- The metadata that `read_row_by_id` returns; no row reads as an empty object.
unfoldable pub read_metadata : String → World → Value
read_metadata lid w = obj (or_else (lookup lid w.metadata) end)
