-- ===== src/RoutingGuide/Reminders/Cancelled.antt =====
-- After the reminders of an attempt are cancelled.
use testingmulti.RoutingGuide.{attempt_key}
use testingmulti.RoutingGuide.Reminders.{
  cancel_for_attempt, cancel_matching, filter_pending_reminder_tasks, for_attempt, matching_ids,
  send_revocations,
}
use testingmulti.RoutingGuide.Store.{patch_metadata, read_metadata}
use testingmulti.RoutingGuide.Store.Laws.{lookup-patch_metadata}
use testingmulti.RoutingGuide.Reminders.Laws.{all-contains_self, spared-none}
use testingmulti.Common.Value.{Value, end, field, set_field}
use testingmulti.Common.Text.{is_empty}
use testingmulti.Common.{all, not, subst, true, ℕ}
use testingmulti.Common.Dicts.{get-set_field}
use testingmulti.RoutingGuide.{Env}
use testingmulti.RoutingGuide.Store.{World}
use testingmulti.RoutingGuide.Reminders.{cancel_ids, pending_key}
use testingmulti.RoutingGuide.Reminders.Laws.{keep_all, pending_after_patch, pending_of, spared}
use testingmulti.Common.{List, String, [], false, lookup, refl, some, sym, ◌++◌, ◌∷◌, ◌≡◌}
use testingmulti.Common.Value.{Fields, get}
use testingmulti.Common.Text.{strip}
use mathlib.Core.List.{append-nil}

-- The ids of the pending tasks of an attempt
abbrev pub attempt_ids : Env → String → World → ℕ → List String
attempt_ids env lifecycle_id w attempt =
    matching_ids env (for_attempt env attempt) (pending_of env lifecycle_id w)

module _ (env : Env) (lifecycle_id : String) (w : World) (d : Fields)
    (found : lookup (strip lifecycle_id) w.metadata ≡ some d) where
  abbrev after_ids : List String → World
  after_ids ids = (cancel_ids env (strip lifecycle_id) false ids w).1

  after_patch :
      (v : Value) (ids : List String)
      → lookup
          (strip lifecycle_id)
          (patch_metadata
            (strip lifecycle_id)
            (field pending_key v end)
            (send_revocations env ids w)).1.metadata
        ≡ some (set_field d pending_key v)
  after_patch v ids =
      lookup-patch_metadata (strip lifecycle_id) pending_key v (send_revocations env ids w) d found

  pending-after_ids :
      (ids : List String)
      → pending_of env lifecycle_id (after_ids ids) ≡ spared env ids (pending_of env lifecycle_id w)
  pending-after_ids [] = sym (keep_all (pending_of env lifecycle_id w))
  pending-after_ids (id ∷ ids) = pending_after_patch env lifecycle_id w d (id ∷ ids) found

  revoked-after_ids : (ids : List String) → (after_ids ids).revoked ≡ w.revoked ++ ids
  unfolding patch_metadata
  revoked-after_ids [] = sym (append-nil w.revoked)
  revoked-after_ids (id ∷ ids) = refl

  -- The row is there after the cancellation, with the attempt that it had.
  row-after_ids :
      (ids : List String)
      → (e : Fields) × (lookup (strip lifecycle_id) (after_ids ids).metadata ≡ some e)
        × (get e attempt_key ≡ get d attempt_key)
  unfolding filter_pending_reminder_tasks get
  row-after_ids [] = (d, found, refl)
  row-after_ids (id ∷ ids) =
      let v =
        get
          (filter_pending_reminder_tasks env
            (read_metadata (strip lifecycle_id) (send_revocations env (id ∷ ids) w)) (id ∷ ids))
          pending_key in
      (
        set_field d pending_key v,
        after_patch v (id ∷ ids),
        get-set_field d pending_key attempt_key v,
      )

  -- After the reminders of an attempt are cancelled, no pending task is one of that attempt, every task
  -- with another id is pending as before, and a revocation was sent for each task of the attempt.
  pub cancel_for_attempt_lem :
      (attempt : ℕ)
      → is_empty (strip lifecycle_id) ≡ false
      → (pending_of env lifecycle_id ((cancel_for_attempt env lifecycle_id attempt w).1)
          ≡ spared env (attempt_ids env lifecycle_id w attempt) (pending_of env lifecycle_id w))
        × (all
              (λ item. not (for_attempt env attempt item))
              (pending_of env lifecycle_id ((cancel_for_attempt env lifecycle_id attempt w).1))
            ≡ true)
        × ((cancel_for_attempt env lifecycle_id attempt w).1.revoked
            ≡ w.revoked ++ attempt_ids env lifecycle_id w attempt)
  unfolding cancel_for_attempt cancel_matching
  cancel_for_attempt_lem attempt named =
      let ids = attempt_ids env lifecycle_id w attempt in
      let left = pending-after_ids ids in
      let none_left =
        spared-none env (for_attempt env attempt) ids (pending_of env lifecycle_id w)
          (all-contains_self ids ids (λ id c. c)) in
      rw named (
        left,
        subst (λ ts. all (λ item. not (for_attempt env attempt item)) ts ≡ true) (sym left)
            none_left,
        revoked-after_ids ids,
      )

  pub row-cancel_for_attempt :
      (attempt : ℕ)
      → is_empty (strip lifecycle_id) ≡ false
      → (e : Fields) × (lookup
            (strip lifecycle_id)
            ((cancel_for_attempt env lifecycle_id attempt w).1).metadata
          ≡ some e)
        × (get e attempt_key ≡ get d attempt_key)
  unfolding cancel_for_attempt cancel_matching
  row-cancel_for_attempt attempt named =
      rw named (row-after_ids (attempt_ids env lifecycle_id w attempt))
