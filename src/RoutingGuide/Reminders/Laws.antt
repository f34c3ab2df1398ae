-- ===== src/RoutingGuide/Reminders/Laws.antt =====
-- What the revocation of reminders leaves pending.
use testingmulti.RoutingGuide.Reminders.{pending_key}
use testingmulti.RoutingGuide.Store.Laws.{read-patch_metadata}
use testingmulti.Common.Value.{arr, as_dict, get, items_of}
use testingmulti.Common.Text.{is_empty}
use testingmulti.Common.{◌∙◌}
use testingmulti.RoutingGuide.Store.{World, patch_metadata, read_metadata}
use testingmulti.RoutingGuide.Reminders.{
  filter_pending_reminder_tasks, pending_reminder_tasks_from_metadata, send_revocations,
}
use testingmulti.Common.Text.{strip}
use testingmulti.Common.{arith, both_true, lookup, some}
use testingmulti.RoutingGuide.{Env}
use testingmulti.RoutingGuide.Reminders.{items_from, keep_if, matching_ids, task_id}
use testingmulti.Common.{
  Bool, Bool-cases, List, String, [], all, ap, contains, inl, inr, not, refl, true, ◌∷◌, ◌≡◌,
}
use testingmulti.Common.Value.{Fields, dictionaries}
use text.Mathlib.TextPositions.{eq_refl}

dictionaries-items_from : (ds : List Fields) → dictionaries (items_from ds) ≡ ds
dictionaries-items_from [] = refl
dictionaries-items_from (d ∷ ds) = ap (λ l. d ∷ l) (dictionaries-items_from ds)

module _ {ℓ} {A : Type ℓ} where
  -- Keeping again what was kept under the same test changes nothing, whatever was dropped between.
  keep_if_again :
      (p q : A → Bool) (xs : List A)
      → keep_if p (keep_if q (keep_if p xs)) ≡ keep_if q (keep_if p xs)
  keep_if_again p q [] = refl
  keep_if_again p q (x ∷ xs) = elim (Bool-cases (p x)) [
    | inl kept ↦ elim (Bool-cases (q x)) [
      | inl also ↦ rw (kept, also, kept, keep_if_again p q xs)
      | inr not_so ↦ rw (kept, not_so, keep_if_again p q xs)
    ]
    | inr dropped ↦ rw (dropped, keep_if_again p q xs)
  ]

  pub keep_all : (xs : List A) → keep_if (λ x. true) xs ≡ xs
  keep_all [] = refl
  keep_all (x ∷ xs) = ap (λ l. x ∷ l) (keep_all xs)

contains-head : (x : String) (xs : List String) → contains (x ∷ xs) x ≡ true
contains-head x xs = rw (eq_refl x)

-- The tasks that stay when those with the ids are removed
abbrev pub spared : Env → List String → List Fields → List Fields
spared env ids tasks = keep_if (λ item. not (contains ids (task_id env item))) tasks

module _ (env : Env) (matches : Fields → Bool) where
  -- None of the selected tasks is spared.
  pub spared-none :
      (ids : List String) (tasks : List Fields)
      → all (λ id. contains ids id) (matching_ids env matches tasks) ≡ true
      → all (λ item. not (matches item)) (spared env ids tasks) ≡ true
  spared-none ids [] h = refl
  spared-none ids (t ∷ tasks) h = elim (Bool-cases (matches t)) [
    | inl hit ↦
        let (gone, rest) = both_true (contains ids (task_id env t)) (rw hit at h) in
        rw (gone, spared-none ids tasks rest)
    | inr miss ↦ elim (Bool-cases (contains ids (task_id env t))) [
      | inl gone ↦ rw (gone, spared-none ids tasks (rw miss at h))
      | inr stays ↦ rw (stays, miss, spared-none ids tasks (rw miss at h))
    ]
  ]

pub all-contains_self :
    (ids all_ids : List String)
    → ((id : String) → contains ids id ≡ true → contains all_ids id ≡ true)
    → all (λ id. contains all_ids id) ids ≡ true
all-contains_self [] all_ids h = refl
all-contains_self (x ∷ ids) all_ids h =
    rw (h x (contains-head x ids), all-contains_self ids all_ids (λ id c. h id (ground (arith, c))))

-- The pending tasks of a lifecycle
abbrev pub pending_of : Env → String → World → List Fields
pending_of env lifecycle_id w =
    pending_reminder_tasks_from_metadata env (read_metadata (strip lifecycle_id) w)

module _ (env : Env) (lifecycle_id : String) (w : World) where
  pub pending_after_patch :
      (d : Fields) (ids : List String)
      → lookup (strip lifecycle_id) w.metadata ≡ some d
      → pending_of env lifecycle_id
          (patch_metadata
            (strip lifecycle_id)
            (filter_pending_reminder_tasks env
              (read_metadata (strip lifecycle_id) (send_revocations env ids w))
              ids)
            (send_revocations env ids w)).1
        ≡ spared env ids (pending_of env lifecycle_id w)
  unfolding pending_reminder_tasks_from_metadata filter_pending_reminder_tasks read_metadata
  pending_after_patch d ids h =
      let lid = strip lifecycle_id in
      let named : Fields → Bool = λ item. not (is_empty (task_id env item)) in
      let before = dictionaries (items_of (get (as_dict (read_metadata lid w)) pending_key)) in
      let left = spared env ids (keep_if named before) in
      let read =
        read-patch_metadata lid pending_key pending_key (arr (items_from left))
          (send_revocations env ids w) d h in
      ap (λ v. keep_if named (dictionaries (items_of v))) read
      ∙ (ap (keep_if named) (dictionaries-items_from left)
          ∙ keep_if_again named (λ item. not (contains ids (task_id env item))) before)
