-- ===== src/RunQueue/Keys.antt =====
-- The keys of the run queue need no cleaning: they neither start nor end with white space.
use testingmulti.Common.{and_then, if◌then◌else◌}
use testingmulti.Common.{arith}
use testingmulti.Common.{ap, ◌∙◌}
use testingmulti.Common.{Bool-cases, String, false, inl, inr, refl, ◌≡◌, sym, subst, some, none}
use testingmulti.Common.Stripped.{keep_front, rstrip_idem}
use testingmulti.Common.Text.{is_empty, is_space, rstrip, lstrip, strip, keep}
use testingmulti.RunQueue.{run_queue_key, clean_key}
use Prim.Native.String.{[], ◌∷◌, ◌++◌}
use Prim.Native.Char.{Char}
use text.Mathlib.TextLemmas.{cons-append, nil-append}

append_non_empty : (s t : String) → is_empty t ≡ false → is_empty (s ++ t) ≡ false
append_non_empty [] t n = rw (nil-append t, n)
append_non_empty (c ∷ s) t n = rw (cons-append c s t)

-- A text that ends in `t` loses no white space if `t` has none at its end.
rstrip-append : (s t : String) → is_empty t ≡ false → rstrip t ≡ t → rstrip (s ++ t) ≡ s ++ t
unfolding rstrip
rstrip-append [] t n h = rw (nil-append t, h)
rstrip-append (c ∷ s) t n h =
    rw (cons-append c s t)
      (ap (keep c) (rstrip-append s t n h) ∙ keep_front c (s ++ t) (append_non_empty s t n))

strip-prefix :
    (c : Char) (s t : String)
    → is_space c ≡ false
    → is_empty t ≡ false
    → rstrip t ≡ t
    → strip ((c ∷ s) ++ t) ≡ (c ∷ s) ++ t
unfolding strip
strip-prefix c s t nc n h =
    ap (λ x. rstrip (lstrip x)) (cons-append c s t)
    ∙ (ap (λ b. rstrip (if b then lstrip (s ++ t) else c ∷ (s ++ t))) nc
        ∙ (ap rstrip (sym (cons-append c s t)) ∙ rstrip-append (c ∷ s) t n h))

clean_key_of_prefix :
    (c : Char) (s t : String)
    → is_space c ≡ false
    → is_empty t ≡ false
    → rstrip t ≡ t
    → clean_key ((c ∷ s) ++ t) ≡ some ((c ∷ s) ++ t)
unfolding clean_key
clean_key_of_prefix c s t nc n h = rw (strip-prefix c s t nc n h, append_non_empty (c ∷ s) t n)

-- A key made by `_run_queue_key` is used as it is.
pub clean_key-run_queue_key :
    (scope key_id key : String) → run_queue_key scope key_id ≡ some key → clean_key key ≡ some key
unfolding run_queue_key strip
clean_key-run_queue_key scope key_id key h = elim (Bool-cases (is_empty (strip key_id))) [
  | inl y ↦ ground (arith, h, y)
  | inr n ↦
      let t = scope ++ (":" ++ strip key_id) in
      let colon : is_empty (":" ++ strip key_id) ≡ false = append_non_empty ":" (strip key_id) n in
      let e : some ("inbox:" ++ t) ≡ some key =
        ap (λ b. if b then none else some ("inbox:" ++ t)) (sym n) ∙ h in
      subst (λ o. and_then o clean_key ≡ o) e
        (clean_key_of_prefix "i" "nbox:" t refl (append_non_empty scope (":" ++ strip key_id) colon)
          (rstrip-append scope (":" ++ strip key_id) colon
            (rstrip-append ":" (strip key_id) n (rstrip_idem (lstrip key_id)))))
]
