-- ===== src/PodScore/Inputs/Notes.antt =====
-- The texts of a stop: its address line and the pallet count in its notes
-- (app/integrations/turvo/pod_inputs.py), on ASCII text.
use testingmulti.Common.{
  Option, String, and_then, eqb, first_some, if◌then◌else◌, none, some, ℕ, ◌*◌, ◌+◌, ◌-◌,
}
use testingmulti.Common.Text.{is_digit, is_empty, lower_char, lstrip}
use Prim.Native.Char.{code}
use Prim.Native.String.{◌++◌, [], ◌∷◌}
use mathlib.Core.List.{List, [], ◌∷◌}

-- `", ".join(p for p in parts if p)`
unfoldable pub join_parts : List String → String
join_parts [] = ""
join_parts (p ∷ parts) =
    let rest = join_parts parts in
    if is_empty p then rest else if is_empty rest then p else p ++ ", " ++ rest

abbrev more_digits : ℕ → String → ℕ
more_digits n [] = n
more_digits n (c ∷ s) =
    let rest = more_digits (10 * n + (code c - b'0')) s in if is_digit c then rest else n

-- `int` of the digits that a text starts with; `none` where it starts with none
abbrev leading_number : String → Option ℕ
leading_number [] = none
leading_number (c ∷ s) = if is_digit c then some (more_digits 0 (c ∷ s)) else none

-- What stands behind `pallets:`, in any case, at the start of a text
abbrev behind_label : String → String → Option String
behind_label [] s = some s
behind_label (p ∷ ps) [] = none
behind_label (p ∷ ps) (c ∷ s) =
    if eqb (code p) (code (lower_char c)) then behind_label ps s else none

abbrev pallets_here : String → Option ℕ
pallets_here s = and_then (behind_label "pallets:" s) (λ rest. leading_number (lstrip rest))

-- The number of the first match of `Pallets:\s*(\d+)`
unfoldable pub pallet_count : String → Option ℕ
unfolding lstrip
pallet_count [] = none
pallet_count (c ∷ s) = first_some (pallets_here (c ∷ s)) (pallet_count s)
