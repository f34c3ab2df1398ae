-- ===== src/Lifecycle/Sequence/Snapshot.antt =====
-- A snapshot entry (action, exception, info) inside a sequence.
use testingmulti.Lifecycle.Sequence.Loop.{sequence_loop-nil}
use testingmulti.Common.{ap, if◌then◌else◌}
use mathlib.Core.List.{append_assoc}
use testingmulti.Lifecycle.Identity.{lifecycle_id_of_scope}
use testingmulti.Lifecycle.Sequence.{SequenceResult, apply_sequence, start}
use testingmulti.Lifecycle.Scope.{resolve_current_status, resolve_pause_context}
use testingmulti.Lifecycle.Sequence.Chain.{apply_one_step-Moved}
use testingmulti.Lifecycle.Sequence.Outcome.{
  Ran, Ran-of_ok, lookup-write_pause, paused, write_pause_log,
}
use testingmulti.Lifecycle.Sequence.Audit.{Ran-looped, Ran-out, paused_shown, start-Agrees}
use testingmulti.Lifecycle.Step.Row.{row_after}
use testingmulti.Common.Text.{strip}
use testingmulti.Common.{String, none, sym, ◌∙◌}
use testingmulti.Status.{StatusSubType, StatusType, is_snapshot_activity_type}
use testingmulti.Lifecycle.Sequence.{LoopState, sequence_loop, sequence_step, step_scope}
use testingmulti.Lifecycle.Command.{Command, build_activity_log_status_fields}
use testingmulti.Lifecycle.Step.{activity_row, effective_command, step_statuses}
use testingmulti.Lifecycle.Scope.{Env, PauseContext, Scope, ok}
use testingmulti.Lifecycle.Store.{Db, LogRow, Row, RowView, view}
use testingmulti.Lifecycle.Sequence.Chain.{Agrees, IsMove}
use testingmulti.Lifecycle.Sequence.Loop.{check_scope_of_loop, sequence_loop-cons}
use testingmulti.Lifecycle.Step.Effect.{activity_logs-apply_one_step, entry, lookup-apply_one_step}
use testingmulti.Lifecycle.Step.Row.{shown_status, shown_sub}
use testingmulti.Common.{Option, [], arith, lookup, some, true, ◌++◌, ◌∷◌, ◌≡◌}

-- An entry that records, as its old and its new status, what the row shows.
abbrev pub Records : Row → LogRow → Type 0
Records r l =
    (l.from_status ≡ shown_status r)
    × (l.to_status ≡ shown_status r)
    × (l.from_sub_status ≡ shown_sub r)
    × (l.to_sub_status ≡ shown_sub r)

pub snapshot_entry :
    (env : Env) (scope : Scope) (r : Row) (p : PauseContext)
    (current : Option StatusType × Option StatusSubType) (c : Command) (db : Db)
    → is_snapshot_activity_type c.activity_type ≡ true
    → Records r (entry env scope (view r) p current c db)
unfolding activity_row build_activity_log_status_fields step_statuses effective_command
snapshot_entry env scope r p current c db h = ground arith

pub snapshot_effective :
    (p : PauseContext) (s : Option StatusType) (c : Command)
    → is_snapshot_activity_type c.activity_type ≡ true
    → effective_command p s c ≡ c
unfolding effective_command
snapshot_effective p s c h = rw h

pub row_after_snapshot :
    (p : PauseContext) (c : Command) (r : Row)
    → is_snapshot_activity_type c.activity_type ≡ true
    → row_after p c r ≡ r
row_after_snapshot p c r h = ground arith

module _ (env : Env) (scope : Scope) (r : Row) (p : PauseContext) (move snapshot : Command)
    (s : LoopState) (db : Db) (r₀ : Row) where
  snapshot_after_move :
      (out : LoopState)
      → IsMove move
      → is_snapshot_activity_type snapshot.activity_type ≡ true
      → snapshot.record_activity ≡ true
      → lookup scope.lifecycle_id db.lifecycles ≡ some r₀
      → Agrees r₀ s.current_status s.current_sub
      → (sequence_loop env scope (some (view r)) p (move ∷ snapshot ∷ []) s db).0 ≡ ok out
      → let db' = (sequence_loop env scope (some (view r)) p (move ∷ snapshot ∷ []) s db).1 in
        (r' : Row) × (l₁ : LogRow) × (l₂ : LogRow) × (lookup scope.lifecycle_id db'.lifecycles
          ≡ some r')
        × (db'.activity_logs ≡ db.activity_logs ++ l₁ ∷ l₂ ∷ [])
        × (l₁.to_status ≡ shown_status r')
        × (l₁.to_sub_status ≡ shown_sub r')
        × Records r l₂
  unfolding sequence_step
  snapshot_after_move out m snap rec found agrees e =
      let v : RowView = view r in
      let checked = check_scope_of_loop env scope (some v) p move (snapshot ∷ []) s db out e in
      let next = sequence_loop-cons env scope (some v) p move (snapshot ∷ []) s db checked in
      let (r₁, l₁, found₁, logs₁, agrees₁, from, from_b, to, to_b) =
        apply_one_step-Moved env (step_scope scope move) v p s.current_status s.current_sub move db
          r₀ m found agrees in
      let (s₁, db₁) = sequence_step env scope (some v) p s move db in
      let e₁ = rw next at e in
      let checked₁ = check_scope_of_loop env scope (some v) p snapshot [] s₁ db₁ out e₁ in
      let next₁ = sequence_loop-cons env scope (some v) p snapshot [] s₁ db₁ checked₁ in
      let scope₁ : Scope = step_scope scope snapshot in
      let current₁ : Option StatusType × Option StatusSubType =
        (s₁.current_status, s₁.current_sub) in
      let same = snapshot_effective p (step_statuses snapshot (some v) current₁).0 snapshot snap in
      let found₂ = lookup-apply_one_step env scope₁ v p current₁ snapshot db₁ r₁ found₁ in
      let logs₂ = activity_logs-apply_one_step env scope₁ v p current₁ snapshot db₁ in
      let l₂ : LogRow = entry env scope₁ v p current₁ snapshot db₁ in
      let kept = ap (λ (c : Command). c.record_activity) same ∙ rec in
      let logs =
        logs₂
        ∙ ap (λ b. if b then db₁.activity_logs ++ l₂ ∷ [] else db₁.activity_logs) kept
        ∙ ap (λ x. x ++ l₂ ∷ []) logs₁
        ∙ append_assoc db.activity_logs (l₁ ∷ []) (l₂ ∷ []) in
      let row = ap (λ c. row_after p c r₁) same ∙ row_after_snapshot p snapshot r₁ snap in
      (
        r₁,
        l₁,
        l₂,
        rw (next, next₁, sequence_loop-nil env scope (some v) p _ _) (found₂ ∙ ap some row),
        rw (next, next₁, sequence_loop-nil env scope (some v) p _ _) logs,
        to,
        to_b,
        snapshot_entry env scope₁ r p current₁ snapshot db₁ snap,
      )

Ran-stale :
    (env : Env) (move snapshot : Command) (db : Db) (ran : Ran env move (snapshot ∷ []) db)
    (r : Row)
    → IsMove move
    → move.from_status ≡ none
    → move.from_sub_status ≡ none
    → is_snapshot_activity_type snapshot.activity_type ≡ true
    → snapshot.record_activity ≡ true
    → lookup ran.scope.lifecycle_id db.lifecycles ≡ some r
    → let db' = (apply_sequence env (move ∷ snapshot ∷ []) db).1 in
      (r' : Row) × (l₁ : LogRow) × (l₂ : LogRow) × (lookup ran.scope.lifecycle_id db'.lifecycles
        ≡ some r')
      × (db'.activity_logs ≡ db.activity_logs ++ l₁ ∷ l₂ ∷ [])
      × (l₁.to_status ≡ shown_status r')
      × (l₁.to_sub_status ≡ shown_sub r')
      × Records r l₂
Ran-stale env move snapshot db ran r m h h' snap rec found =
    let p : PauseContext = resolve_pause_context (move ∷ snapshot ∷ []) in
    let s : LoopState = start (resolve_current_status move (some (view r))) in
    let out = Ran-out env move (snapshot ∷ []) db ran r found in
    let left = Ran-looped env move (snapshot ∷ []) db ran r found in
    let (r', l₁, l₂, found', logs, to, to_b, records) =
      snapshot_after_move env ran.scope r p move snapshot s db r ran.out m snap rec found
        (start-Agrees move r h h') out in
    let (same, same_b) = paused_shown p ran.out.any_pause_written r' in
    (
      paused p ran.out.any_pause_written r',
      l₁,
      l₂,
      rw left (lookup-write_pause ran.scope (view r) p ran.out.any_pause_written _ r' found'),
      rw left (write_pause_log ran.scope (some (view r)) p ran.out.any_pause_written _ ∙ logs),
      to ∙ sym same,
      to_b ∙ sym same_b,
      records,
    )

-- Where a transition that names no status or sub-status to start from is followed by a logged
-- snapshot in one sequence that has returned, and the row was there, the snapshot's entry records the
-- status and sub-status that the row had before the sequence, while the row has moved on to those
-- that the transition's entry names. So the entry is not of the current state if the two differ.
pub apply_sequence-stale :
    (env : Env) (move snapshot : Command) (db : Db) (k : String) (r : Row) (result : SequenceResult)
    → IsMove move
    → move.from_status ≡ none
    → move.from_sub_status ≡ none
    → is_snapshot_activity_type snapshot.activity_type ≡ true
    → snapshot.record_activity ≡ true
    → env.canonical_uuid (strip move.workflow_lifecycle_id) ≡ some k
    → lookup k db.lifecycles ≡ some r
    → (apply_sequence env (move ∷ snapshot ∷ []) db).0 ≡ ok result
    → let db' = (apply_sequence env (move ∷ snapshot ∷ []) db).1 in
      (r' : Row) × (l₁ : LogRow) × (l₂ : LogRow) × (lookup k db'.lifecycles ≡ some r')
      × (db'.activity_logs ≡ db.activity_logs ++ l₁ ∷ l₂ ∷ [])
      × (l₁.to_status ≡ shown_status r')
      × (l₁.to_sub_status ≡ shown_sub r')
      × Records r l₂
apply_sequence-stale env move snapshot db k r result m h h' snap rec uuid found e =
    let ran = Ran-of_ok env move (snapshot ∷ []) db result e in
    let id = lifecycle_id_of_scope env move ran.scope ran.prepared in
    let same : ran.scope.lifecycle_id ≡ k = ground (arith, id) in
    rw (← same) (Ran-stale env move snapshot db ran r m h h' snap rec (rw (← same) at found))
