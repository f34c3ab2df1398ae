-- ===== src/Common/Text.antt =====
-- Python's text operations that the program uses, on `String` as a list of code points.
use Prim.Native.Nat.{ℕ, zero, suc, pred}
use Prim.Native.Char.{Char, code}
use Prim.Native.String.{String, [], ◌∷◌, ◌++◌}
use mathlib.Core.Bool.{Bool, true, false, ◌&&◌, ◌||◌}
use mathlib.Core.Option.{Option, none, some}
use testingmulti.Common.Bools.{leb, eqb, if◌then◌else◌}

-- `str.isspace` on one character: the white space that `str.strip` removes.
abbrev pub is_space : Char → Bool
is_space c =
    let n = code c in
    (leb 9 n && leb n 13)
    || (leb 28 n && leb n 32)
    || eqb n 0x85
    || eqb n 0xa0
    || eqb n 0x1680
    || (leb 0x2000 n && leb n 0x200a)
    || eqb n 0x2028
    || eqb n 0x2029
    || eqb n 0x202f
    || eqb n 0x205f
    || eqb n 0x3000

abbrev pub is_empty : String → Bool
is_empty [] = true
is_empty (_ ∷ _) = false

-- `s.lstrip()`
unfoldable pub lstrip : String → String
lstrip [] = []
lstrip (c ∷ s) = let rest = lstrip s in if is_space c then rest else c ∷ s

-- Puts `c` in front, unless it is white space with nothing behind it.
abbrev pub keep : Char → String → String
keep c s = if is_space c && is_empty s then [] else c ∷ s

-- `s.rstrip()`
unfoldable pub rstrip : String → String
rstrip [] = []
rstrip (c ∷ s) = keep c (rstrip s)

-- `s.strip()`
unfoldable pub strip : String → String
unfolding lstrip rstrip
strip s = rstrip (lstrip s)

-- `s.strip() or None`
abbrev pub non_empty : String → Option String
non_empty [] = none
non_empty (c ∷ s) = some (c ∷ s)

-- The character of `to` at the place where `from` has `c`; `c` itself where it has none.
abbrev translate : String → String → Char → Char
translate [] to c = c
translate (f ∷ fs) [] c = c
translate (f ∷ fs) (t ∷ ts) c = if eqb (code f) (code c) then t else translate fs ts c

-- `str.upper` and `str.lower` on one ASCII character
abbrev pub upper_char : Char → Char
upper_char = translate "abcdefghijklmnopqrstuvwxyz" "ABCDEFGHIJKLMNOPQRSTUVWXYZ"

abbrev pub lower_char : Char → Char
lower_char = translate "ABCDEFGHIJKLMNOPQRSTUVWXYZ" "abcdefghijklmnopqrstuvwxyz"

abbrev pub map_chars : (Char → Char) → String → String
map_chars f [] = []
map_chars f (c ∷ s) = f c ∷ map_chars f s

abbrev pub is_letter : Char → Bool
is_letter c = let n = code c in (leb b'a' n && leb n b'z') || (leb b'A' n && leb n b'Z')

abbrev pub is_digit : Char → Bool
is_digit c = let n = code c in leb b'0' n && leb n b'9'

-- `str.title` on ASCII text; the flag says that a letter stands in front.
title_from : Bool → String → String
title_from inside [] = []
title_from inside (c ∷ s) =
    (if inside then lower_char c else upper_char c) ∷ title_from (is_letter c) s

unfoldable pub title : String → String
unfolding title_from
title s = title_from false s

abbrev starts_with : String → String → Bool
starts_with [] s = true
starts_with (p ∷ ps) [] = false
starts_with (p ∷ ps) (c ∷ s) = eqb (code p) (code c) && starts_with ps s

abbrev size : String → ℕ
size [] = 0
size (_ ∷ s) = suc (size s)

-- `s.replace(old, new)` for an `old` of `suc n` characters; the counter skips what was matched.
replace_from : String → String → ℕ → String → String
replace_from old new skip [] = []
replace_from old new (suc skip) (c ∷ s) = replace_from old new skip s
replace_from old new zero (c ∷ s) =
    let found = new ++ replace_from old new (pred (size old)) s in
    let missed = c ∷ replace_from old new 0 s in if starts_with old (c ∷ s) then found else missed

unfoldable pub replace : String → String → String → String
unfolding replace_from
replace s old new = replace_from old new 0 s
