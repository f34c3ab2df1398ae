-- ===== src/Common/Dicts.antt =====
-- Reading a dictionary value after a write.
use testingmulti.Common.{String, arith, eq_iff, if◌then◌else◌, refl, ◌==◌, ◌≡◌}
use testingmulti.Common.Value.{Fields, Value, end, field, get, set_field}
use text.Mathlib.TextPositions.{eq_refl}

pub get-set_field :
    (d : Fields) (k j : String) (v : Value)
    → get (set_field d k v) j ≡ (if k == j then v else get d j)
unfolding get set_field
get-set_field end k j v = refl
get-set_field (field i w d) k j v =
    ground (arith, eq_iff k j, eq_iff i k, eq_iff i j, get-set_field d k j v)

-- Writing the same entry twice is writing it once.
pub set_field_twice :
    (d : Fields) (k : String) (v : Value) → set_field (set_field d k v) k v ≡ set_field d k v
unfolding set_field
set_field_twice end k v = rw (eq_refl k)
set_field_twice (field i w d) k v = ground (arith, set_field_twice d k v)
