-- ===== src/Common/Value.antt =====
-- Values of Python's dynamic types, as far as JSON carries them: the entries of a graph state, of a
-- webhook payload or of a stored document. Numbers are integers.
use Prim.Native.String.{String, [], ◌∷◌}
use Prim.Native.Nat.{ℕ, zero, suc}
use mathlib.Core.Bool.{Bool, true, false}
use mathlib.Core.List.{List, [], ◌∷◌}
use text.Mathlib.Text.{◌==◌}
use testingmulti.Common.Bools.{if◌then◌else◌}
use testingmulti.Common.Text.{strip, is_empty}

-- `negsuc n` is -(n + 1)
pub data ℤ : Type 0 where
  pos : ℕ → ℤ
  negsuc : ℕ → ℤ

mutual
  -- A dictionary, by its entries in the order of insertion
  pub data Fields : Type 0 where
    end : Fields
    field : String → Value → Fields → Fields

  -- The elements of a list
  pub data Items : Type 0 where
    no_items : Items
    item_then : Value → Items → Items

  pub data Value : Type 0 where
    obj : Fields → Value
    arr : Items → Value
    str : String → Value
    int : ℤ → Value
    bool : Bool → Value
    null : Value

-- `d.get(k)`, with `null` for a missing key
unfoldable pub get : Fields → String → Value
get end k = null
get (field j v d) k = if j == k then v else get d k

-- `d` if it is a dictionary, else `{}`
abbrev pub as_dict : Value → Fields
as_dict (obj d) = d
as_dict _ = end

-- `bool(v)`
abbrev pub truthy : Value → Bool
truthy null = false
truthy (bool b) = b
truthy (int (pos zero)) = false
truthy (int (pos (suc n))) = true
truthy (int (negsuc n)) = true
truthy (str s) = if is_empty s then false else true
truthy (arr no_items) = false
truthy (arr (item_then _ _)) = true
truthy (obj end) = false
truthy (obj (field _ _ _)) = true

-- `v == s` for a text `s`
abbrev pub is_text : Value → String → Bool
is_text (str t) s = t == s
is_text _ s = false

-- The elements of a list value
abbrev pub elements : Items → List Value
elements no_items = []
elements (item_then v vs) = v ∷ elements vs

-- The dictionaries among the elements
abbrev pub dictionaries : Items → List Fields
dictionaries no_items = []
dictionaries (item_then (obj d) vs) = d ∷ dictionaries vs
dictionaries (item_then _ vs) = dictionaries vs

-- `v` if it is a list, else `[]`
abbrev pub items_of : Value → Items
items_of (arr vs) = vs
items_of _ = no_items

-- `str(v or "").strip()`, where `render` is Python's text of numbers and containers.
module _ (render : Value → String) where
  abbrev pub text_of : Value → String
  text_of (str s) = s
  text_of v = if truthy v then render v else ""

  abbrev pub clean_text : Value → String
  clean_text v = strip (text_of v)

-- `d[k] = v`
unfoldable pub set_field : Fields → String → Value → Fields
set_field end k v = field k v end
set_field (field j w d) k v = if j == k then field j v d else field j w (set_field d k v)
