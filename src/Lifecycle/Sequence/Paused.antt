-- ===== src/Lifecycle/Sequence/Paused.antt =====
-- The row that `apply_sequence` leaves: its `pause_type`, and all other rows.
use testingmulti.Common.{Bool-cases, inl, inr, subst, ◌==◌}
use testingmulti.Status.{PauseType, system_error}
use testingmulti.Lifecycle.Identity.{lifecycle_id_of_scope}
use testingmulti.Lifecycle.Sequence.{LoopState, SequenceResult, apply_sequence, start, write_pause}
use testingmulti.Lifecycle.Command.{Command}
use testingmulti.Lifecycle.Scope.{
  Env, PauseContext, Scope, ok, resolve_current_status, resolve_pause_context,
}
use testingmulti.Lifecycle.Store.{
  Db, Row, RowView, lookup-update_where, set_columns, update_lifecycle, view,
}
use testingmulti.Lifecycle.Sequence.Outcome.{Ran, Ran-of_ok, lookup-write_pause, paused}
use testingmulti.Lifecycle.Sequence.Audit.{Ran-looped, Ran-out}
use testingmulti.Lifecycle.Sequence.Pause.{
  IsReasoned, named_pause, pause_target, raises_exception, resolve_pause_context_lem,
  sequence_loop-frame, sequence_loop-pause, writes_row,
}
use testingmulti.Common.{
  Bool, List, Option, String, any, arith, eq_iff, false, if◌then◌else◌, lookup, none, or_else, some,
  ◌||◌, ◌∙◌, ◌∷◌, ◌≡◌, ◌≢◌,
}
use testingmulti.Common.Text.{strip}

-- What a sequence leaves in `pause_type`.
abbrev pub pause_after : List Command → Option PauseType → Option PauseType
pause_after cs old =
    if any raises_exception cs
    then some (or_else (named_pause cs) system_error)
    else if any writes_row cs
    then none
    else old

resolved_IsReasoned : (cs : List Command) → IsReasoned (resolve_pause_context cs)
resolved_IsReasoned cs = rw (resolve_pause_context_lem cs) (ground arith)

pause-paused :
    (cs : List Command) (written : Bool) (old : Row) (r : Row)
    → r.pause_type
      ≡ (if any writes_row cs then pause_target (resolve_pause_context cs) else old.pause_type)
    → written ≡ (any writes_row cs || false)
    → (paused (resolve_pause_context cs) written r).pause_type ≡ pause_after cs old.pause_type
pause-paused cs written old r h w =
    let h' = rw (resolve_pause_context_lem cs) at h in
    rw (resolve_pause_context_lem cs) (ground arith)

lookup-write_pause_ne :
    (scope : Scope) (v : RowView) (p : PauseContext) (written : Bool) (db : Db) (j : String)
    → j ≢ scope.lifecycle_id
    → lookup j (write_pause scope (some v) p written db).lifecycles ≡ lookup j db.lifecycles
unfolding write_pause update_lifecycle
lookup-write_pause_ne scope v p written db j ne = ground (
  arith,
  lookup-update_where scope.lifecycle_id j
      (set_columns (record {
        status = none;
        sub_status = none;
        pause_type = p.pause_type;
        clear_pause = false;
      }))
      db.lifecycles,
  eq_iff scope.lifecycle_id j,
)

module _ (env : Env) (first : Command) (others : List Command) (db : Db)
    (ran : Ran env first others db) where
  Ran-pause :
      (r : Row)
      → lookup ran.scope.lifecycle_id db.lifecycles ≡ some r
      → ((r' : Row) × (lookup ran.scope.lifecycle_id
              (apply_sequence env (first ∷ others) db).1.lifecycles
            ≡ some r')
          × (r'.pause_type ≡ pause_after (first ∷ others) r.pause_type))
        × ((j : String)
            → j ≢ ran.scope.lifecycle_id
            → lookup j (apply_sequence env (first ∷ others) db).1.lifecycles
              ≡ lookup j db.lifecycles)
  Ran-pause r found =
      let cs : List Command = first ∷ others in
      let p : PauseContext = resolve_pause_context cs in
      let s : LoopState = start (resolve_current_status first (some (view r))) in
      let left = Ran-looped env first others db ran r found in
      let out = Ran-out env first others db ran r found in
      let written = ran.out.any_pause_written in
      let (r₂, found₂, pause, w) =
        sequence_loop-pause env ran.scope (view r) p (resolved_IsReasoned cs) cs s db r ran.out
          found out in
      (
        (
          paused p written r₂,
          rw left (lookup-write_pause ran.scope (view r) p written _ r₂ found₂),
          pause-paused cs written r r₂ pause w,
        ),
        λ j ne. rw left (
            lookup-write_pause_ne ran.scope (view r) p written _ j ne
            ∙ sequence_loop-frame env ran.scope (view r) p (resolved_IsReasoned cs) cs s db ran.out
                j ne out),
      )

sequence_pauses :
    (env : Env) (first : Command) (others : List Command) (db : Db) (k : String) (r : Row)
    (result : SequenceResult)
    → env.canonical_uuid (strip first.workflow_lifecycle_id) ≡ some k
    → lookup k db.lifecycles ≡ some r
    → (apply_sequence env (first ∷ others) db).0 ≡ ok result
    → ((r' : Row) × (lookup k (apply_sequence env (first ∷ others) db).1.lifecycles ≡ some r')
        × (r'.pause_type ≡ pause_after (first ∷ others) r.pause_type))
      × ((j : String)
          → j ≢ k
          → lookup j (apply_sequence env (first ∷ others) db).1.lifecycles ≡ lookup j db.lifecycles)
sequence_pauses env first others db k r result uuid found e =
    let ran = Ran-of_ok env first others db result e in
    let id = lifecycle_id_of_scope env first ran.scope ran.prepared in
    let same : ran.scope.lifecycle_id ≡ k = ground (arith, id) in
    rw (← same) (Ran-pause env first others db ran r (rw (← same) at found))

-- A sequence that has returned, with its lifecycle row there, leaves a pause in the row if one of
-- its commands is an exception: the first pause type that an exception names, or a system error. If
-- none is, a write of the row clears the pause, and without a write it stays. No other row changes.
pub apply_sequence-pause :
    (env : Env) (first : Command) (others : List Command) (db : Db) (k j : String) (r : Row)
    (result : SequenceResult)
    → env.canonical_uuid (strip first.workflow_lifecycle_id) ≡ some k
    → lookup k db.lifecycles ≡ some r
    → (apply_sequence env (first ∷ others) db).0 ≡ ok result
    → (r' : Row) × (r'.pause_type ≡ pause_after (first ∷ others) r.pause_type)
      × (lookup j (apply_sequence env (first ∷ others) db).1.lifecycles
          ≡ (if k == j then some r' else lookup j db.lifecycles))
apply_sequence-pause env first others db k j r result uuid found e =
    let ((r', here, paused_as), frame) =
      sequence_pauses env first others db k r result uuid found e in
    let after = (apply_sequence env (first ∷ others) db).1.lifecycles in
    elim (Bool-cases (k == j)) [
      | inl y ↦
          (r', paused_as, rw y (subst (λ z. lookup z after ≡ some r') ((eq_iff k j).0 y) here))
      | inr n ↦ (r', paused_as, rw n (frame j (λ same. ground (arith, n, same, eq_iff k j))))
    ]
