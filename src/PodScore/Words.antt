-- ===== src/PodScore/Words.antt =====
-- The regular expressions of app/services/pod_lifecycle/pod_scoring.py, on ASCII text.
-- `_IDENTIFIABLE_TOKEN_PATTERN` and `_REFUSED_DELIVERY_PATTERN`.
use testingmulti.Common.{
  Bool, String, eqb, false, if◌then◌else◌, leb, not, suc, true, ℕ, ◌&&◌, ◌||◌,
}
use testingmulti.Common.Text.{is_digit, is_letter, lower_char, map_chars}
use Prim.Native.Char.{Char, code}
use Prim.Native.String.{[], ◌∷◌}
use mathlib.Core.List.{List, [], ◌∷◌}

abbrev is_alphanumeric : Char → Bool
is_alphanumeric c = is_letter c || is_digit c

-- The characters that `\b` calls word characters
abbrev is_word : Char → Bool
is_word c = is_alphanumeric c || eqb (code c) b'_'

abbrev push_word : String → List String → List String
push_word [] ws = ws
push_word (c ∷ w) ws = (c ∷ w) ∷ ws

-- The run of letters and digits that a text starts with, and the runs behind it
split_words : String → String × List String
split_words [] = ("", [])
split_words (c ∷ s) =
    let (w, ws) = split_words s in if is_alphanumeric c then (c ∷ w, ws) else ("", push_word w ws)

-- `re.findall(r"[A-Za-z0-9]+", s)`
unfoldable pub find_words : String → List String
unfolding split_words
find_words s = push_word ((split_words s).0) ((split_words s).1)

abbrev text_size : String → ℕ
text_size [] = 0
text_size (_ ∷ s) = suc (text_size s)

abbrev long_words : List String → List String
long_words [] = []
long_words (w ∷ ws) =
    if leb 3 (text_size w) then map_chars lower_char w ∷ long_words ws else long_words ws

-- `_tokens`, as the list of the elements of the set
unfoldable pub tokens : String → List String
unfolding find_words
tokens value = long_words (find_words value)

-- Whether a text starts with a word of `suffixes` that ends there
abbrev ends_word : String → Bool
ends_word [] = true
ends_word (c ∷ s) = not (is_word c)

abbrev word_starts : String → String → Bool
word_starts [] s = ends_word s
word_starts (p ∷ ps) [] = false
word_starts (p ∷ ps) (c ∷ s) = eqb (code p) (code (lower_char c)) && word_starts ps s

-- `\brefus(?:e|ed|al)\b` from a place on; the flag says that a word character stands in front
refused_from : Bool → String → Bool
refused_from inside [] = false
refused_from inside (c ∷ s) =
    (not inside
      && (word_starts "refuse" (c ∷ s)
          || word_starts "refused" (c ∷ s)
          || word_starts "refusal" (c ∷ s)))
    || refused_from (is_word c) s

-- `_REFUSED_DELIVERY_PATTERN.search(s)`
unfoldable pub mentions_refusal : String → Bool
unfolding refused_from
mentions_refusal s = refused_from false s
