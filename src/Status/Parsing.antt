-- ===== src/Status/Parsing.antt =====
-- What is written as a status value is read back as that status.
use testingmulti.Status.{sub_status_types}
use testingmulti.Common.{
  Bool, Bool-cases, List, OnSome, OnSome-elim, Option, String, [], ap, arith, eq_iff, find, inl,
  inr, map_option, none, sym, true, ◌==◌, ◌↔◌, ◌∙◌, ◌∷◌,
}
use testingmulti.Common.Text.{is_empty, strip}
use testingmulti.Common.Stripped.{strip_idem}
use testingmulti.Common.{◌≡◌, refl, some}
use testingmulti.Status.{
  StatusType, StatusSubType, status_value, sub_status_value, status_type_from_db,
  sub_status_type_from_db, none_status, none_sub,
}

-- Reading the text of a status gives that status.
pub status_type_from_db-status_value :
    (s : StatusType) → status_type_from_db (some (status_value s)) ≡ some s
unfolding status_type_from_db
status_type_from_db-status_value none_status = refl
status_type_from_db-status_value _ = refl

-- Reading the text of a sub-status gives that sub-status.
pub sub_status_type_from_db-sub_status_value :
    (s : StatusSubType) → sub_status_type_from_db (some (sub_status_value s)) ≡ some s
unfolding sub_status_type_from_db
sub_status_type_from_db-sub_status_value none_sub = refl
sub_status_type_from_db-sub_status_value _ = refl

-- What a search finds passes its test.
find-OnSome : {A : Type 0} (p : A → Bool) (xs : List A) → OnSome (λ a. p a ≡ true) (find p xs)
find-OnSome p [] = tt
find-OnSome p (x ∷ xs) = elim (Bool-cases (p x)) [
  | inl hit ↦ rw hit hit
  | inr miss ↦ rw miss (find-OnSome p xs)
]

-- A text without white space around it is all that is read of it.
read_stripped :
    (raw text : String)
    → strip raw ≡ text
    → strip text ≡ text
    → sub_status_type_from_db (some raw) ≡ sub_status_type_from_db (some text)
unfolding sub_status_type_from_db
read_stripped raw text e f = rw (e, f)

sub_status_of_read :
    (raw : String) (s : StatusSubType)
    → sub_status_type_from_db (some raw) ≡ some s
    → strip raw ≡ sub_status_value s
unfolding sub_status_type_from_db
sub_status_of_read raw s h = elim (Bool-cases (is_empty (strip raw))) [
  | inl blank ↦ absurd (ground (arith, h, blank))
  | inr text ↦
      let found : find (λ t. sub_status_value t == strip raw) sub_status_types ≡ some s =
        rw text at h in
      sym (
        (eq_iff (sub_status_value s) (strip raw)).0 (
          OnSome-elim (λ t. (sub_status_value t == strip raw) ≡ true)
            (find (λ t. sub_status_value t == strip raw) sub_status_types) s
            (find-OnSome (λ t. sub_status_value t == strip raw) sub_status_types) found))
]

-- A column, which may be NULL, is read as a sub-status exactly if it holds the sub-status's text, with
-- any white space around it; NULL, a blank and every other text are read as none.
pub sub_status_type_from_db_lem :
    (raw : Option String) (s : StatusSubType)
    → (sub_status_type_from_db raw ≡ some s) ↔ (map_option strip raw ≡ some (sub_status_value s))
unfolding sub_status_type_from_db
sub_status_type_from_db_lem none s = (λ h. absurd (cc), λ h. absurd (cc))
sub_status_type_from_db_lem (some raw) s = (
  λ h. ap some (sub_status_of_read raw s h),
  λ h.
      let e : strip raw ≡ sub_status_value s = ground (arith, h) in
      read_stripped raw (sub_status_value s) e (ap strip (sym e) ∙ strip_idem raw ∙ e)
      ∙ sub_status_type_from_db-sub_status_value s,
)
