-- ===== src/RoutingGuide/Store/Laws.antt =====
-- What the statements on the metadata column change.
use testingmulti.RoutingGuide.Store.{
  World, merge_fields, patch_metadata, read_metadata, update_metadata,
}
use testingmulti.Common.{
  Dict, String, [], arith, eq_iff, if◌then◌else◌, lookup, map_option, some, ◌==◌, ◌∷◌, ◌≡◌,
}
use testingmulti.Common.Value.{Fields, Value, as_dict, end, field, get, set_field}
use testingmulti.Common.Dicts.{get-set_field}
use text.Mathlib.TextPositions.{eq_refl}

pub lookup-update_metadata :
    (lid j : String) (f : Fields → Fields) (rows : Dict Fields)
    → lookup j (update_metadata lid f rows)
      ≡ (if lid == j then map_option f (lookup j rows) else lookup j rows)
unfolding update_metadata
lookup-update_metadata lid j f [] = ground arith
lookup-update_metadata lid j f ((i, d) ∷ rows) =
    ground (arith, eq_iff lid j, eq_iff i lid, eq_iff i j, lookup-update_metadata lid j f rows)

-- A patch of one entry reads back on the row, and leaves its other entries.
pub read-patch_metadata :
    (lid k j : String) (v : Value) (w : World) (d : Fields)
    → lookup lid w.metadata ≡ some d
    → get (as_dict (read_metadata lid ((patch_metadata lid (field k v end) w).1))) j
      ≡ (if k == j then v else get d j)
unfolding read_metadata patch_metadata merge_fields
read-patch_metadata lid k j v w d h = rw (
  lookup-update_metadata lid lid (λ e. merge_fields e (field k v end)) w.metadata,
  eq_refl lid,
  h,
  get-set_field d k j v,
)

-- The row is still there after a patch.
pub lookup-patch_metadata :
    (lid k : String) (v : Value) (w : World) (d : Fields)
    → lookup lid w.metadata ≡ some d
    → lookup lid ((patch_metadata lid (field k v end) w).1).metadata ≡ some (set_field d k v)
unfolding patch_metadata merge_fields
lookup-patch_metadata lid k v w d h = rw (
  lookup-update_metadata lid lid (λ e. merge_fields e (field k v end)) w.metadata,
  eq_refl lid,
  h,
)
