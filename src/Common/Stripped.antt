-- ===== src/Common/Stripped.antt =====
-- Stripping a stripped text changes nothing.
use Prim.Native.Char.{Char}
use Prim.Native.String.{String, [], ◌∷◌}
use mathlib.Core.Path.{◌≡◌, refl, ap, ◌∙◌}
use mathlib.Core.Bool.{false}
use mathlib.Core.Logic.{inl, inr}
use native.Mathlib.Omega.{arith}
use testingmulti.Common.Bools.{Bool-cases, if◌then◌else◌}
use testingmulti.Common.Text.{is_empty, is_space, keep, lstrip, rstrip, strip}

pub keep_front : (c : Char) (s : String) → is_empty s ≡ false → (keep c s ≡ c ∷ s)
keep_front c [] h = ground arith
keep_front c (d ∷ s) h = elim (Bool-cases (is_space c)) [ inl y ↦ rw y | inr n ↦ rw n ]

rstrip-keep : (c : Char) (s : String) → rstrip s ≡ s → rstrip (keep c s) ≡ keep c s
unfolding rstrip
rstrip-keep c [] h = elim (Bool-cases (is_space c)) [ inl y ↦ rw y | inr n ↦ rw (n, rstrip, n) ]
rstrip-keep c (d ∷ s) h = rw (keep_front c (d ∷ s) refl) (ap (keep c) h ∙ keep_front c (d ∷ s) refl)

pub rstrip_idem : (s : String) → rstrip (rstrip s) ≡ rstrip s
unfolding rstrip
rstrip_idem [] = refl
rstrip_idem (c ∷ s) = rstrip-keep c (rstrip s) (rstrip_idem s)

lstrip_idem : (s : String) → lstrip (rstrip (lstrip s)) ≡ rstrip (lstrip s)
unfolding lstrip rstrip
lstrip_idem [] = refl
lstrip_idem (c ∷ s) = elim (Bool-cases (is_space c)) [
  | inl space ↦ rw (space, lstrip_idem s)
  | inr text ↦
      let kept : (if is_space c then lstrip (rstrip s) else c ∷ rstrip s) ≡ c ∷ rstrip s =
        rw text in
      rw (text, lstrip, text) kept
]

pub strip_idem : (s : String) → strip (strip s) ≡ strip s
unfolding strip
strip_idem s = ap rstrip (lstrip_idem s) ∙ rstrip_idem (lstrip s)
