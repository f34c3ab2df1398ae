-- ===== src/Lifecycle/Sequence/Announced.antt =====
-- A snapshot entry with a transition behind it in one sequence: what is announced, and then moved.
-- What such a sequence leaves: the row at the new sub-status, an entry of what the row showed, and an
-- entry of the transition.
use testingmulti.RunQueue.Serializer.{result}
use testingmulti.Lifecycle.Identity.{lifecycle_id_of_scope}
use testingmulti.Lifecycle.Sequence.{
  SequenceResult, apply_sequence, apply_sequence_in_transaction, start,
}
use testingmulti.Lifecycle.Scope.{resolve_current_status, resolve_pause_context}
use testingmulti.Lifecycle.Sequence.Outcome.{
  Ran, Ran-of_ok, apply_sequence-cons, body, db_transaction_ok, lookup-write_pause, paused,
  write_pause_log,
}
use testingmulti.Lifecycle.Sequence.Audit.{Ran-looped, Ran-out, paused_shown}
use testingmulti.Common.Text.{strip}
use testingmulti.Common.{String, subst, sym}
use testingmulti.Lifecycle.Sequence.{
  LoopState, after_step, sequence_loop, sequence_step, step_scope,
}
use testingmulti.Lifecycle.Scope.{ok}
use testingmulti.Lifecycle.Store.{RowView}
use testingmulti.Lifecycle.Sequence.Chain.{apply_one_step-Moved}
use testingmulti.Lifecycle.Sequence.Loop.{
  check_scope_of_loop, sequence_loop-cons, sequence_loop-nil,
}
use testingmulti.Lifecycle.Sequence.Snapshot.{
  row_after_snapshot, snapshot_effective, snapshot_entry,
}
use testingmulti.Lifecycle.Step.Effect.{activity_logs-apply_one_step, entry, lookup-apply_one_step}
use testingmulti.Common.{if◌then◌else◌, lookup}
use mathlib.Core.List.{append_assoc}
use testingmulti.Lifecycle.Scope.{Env}
use testingmulti.Status.{StatusSubType, StatusType, is_snapshot_activity_type}
use testingmulti.Lifecycle.Sequence.Chain.{Agrees, IsMove, effective-IsMove, shown-row_after}
use testingmulti.Lifecycle.Command.{Command}
use testingmulti.Lifecycle.Step.{apply_one_step, effective_command, step_statuses, writes_lifecycle}
use testingmulti.Lifecycle.Scope.{PauseContext, Scope}
use testingmulti.Lifecycle.Store.{Db, LogRow, Row, view}
use testingmulti.Lifecycle.Sequence.Snapshot.{Records}
use testingmulti.Lifecycle.Step.Row.{row_after, shown_sub}
use testingmulti.Common.{List, Option, [], ap, arith, or_else, some, true, ◌++◌, ◌∙◌, ◌∷◌, ◌≡◌}

abbrev pub Announced : StatusSubType → Row → List LogRow → Option Row → List LogRow → Type 0
Announced b r before found after =
    (r' : Row) × (l₁ : LogRow) × (l₂ : LogRow) × (found ≡ some r')
    × (after ≡ before ++ l₁ ∷ l₂ ∷ [])
    × Records r l₁
    × (l₂.from_sub_status ≡ shown_sub r)
    × (l₂.to_sub_status ≡ b)
    × (shown_sub r' ≡ b)

-- The status that a snapshot leaves for the next step is the row's.
snapshot_next :
    (env : Env) (scope : Scope) (r : Row) (p : PauseContext)
    (current : Option StatusType × Option StatusSubType) (c : Command) (db : Db)
    → is_snapshot_activity_type c.activity_type ≡ true
    → Agrees r
        (apply_one_step env scope (some (view r)) p current c db).0.next_status
        (apply_one_step env scope (some (view r)) p current c db).0.next_sub
unfolding apply_one_step effective_command step_statuses
snapshot_next env scope r p current c db h = ground (arith, h)

to_sub_status-effective :
    (p : PauseContext) (s : Option StatusType) (c : Command)
    → (effective_command p s c).to_sub_status ≡ c.to_sub_status
unfolding effective_command
to_sub_status-effective p s c = ground arith

-- A transition that names a sub-status shows it on the row.
shown_sub_of_move :
    (p : PauseContext) (s : Option StatusType) (c : Command) (r : Row) (b : StatusSubType)
    → IsMove c
    → c.to_sub_status ≡ some b
    → shown_sub (row_after p (effective_command p s c) r) ≡ b
shown_sub_of_move p s c r b move h =
    let e_move = effective-IsMove p s c move in
    let writes : writes_lifecycle (effective_command p s c) ≡ true = ground arith in
    let (_, shown) = shown-row_after p (effective_command p s c) r writes in
    shown ∙ ap (λ o. or_else o (shown_sub r)) (to_sub_status-effective p s c ∙ h)

module _ (env : Env) (scope : Scope) (r : Row) (p : PauseContext) (snapshot move : Command)
    (s : LoopState) (db : Db) where
  move_after_snapshot :
      (b : StatusSubType) (out : LoopState)
      → is_snapshot_activity_type snapshot.activity_type ≡ true
      → snapshot.record_activity ≡ true
      → IsMove move
      → move.to_sub_status ≡ some b
      → lookup scope.lifecycle_id db.lifecycles ≡ some r
      → (sequence_loop env scope (some (view r)) p (snapshot ∷ move ∷ []) s db).0 ≡ ok out
      → let db' = (sequence_loop env scope (some (view r)) p (snapshot ∷ move ∷ []) s db).1 in
        Announced b r db.activity_logs (lookup scope.lifecycle_id db'.lifecycles) db'.activity_logs
  unfolding sequence_step after_step
  move_after_snapshot b out snap rec m names found e =
      let v : RowView = view r in
      let checked = check_scope_of_loop env scope (some v) p snapshot (move ∷ []) s db out e in
      let next = sequence_loop-cons env scope (some v) p snapshot (move ∷ []) s db checked in
      let scope₁ : Scope = step_scope scope snapshot in
      let current : Option StatusType × Option StatusSubType = (s.current_status, s.current_sub) in
      let same = snapshot_effective p (step_statuses snapshot (some v) current).0 snapshot snap in
      let l₁ : LogRow = entry env scope₁ v p current snapshot db in
      let kept = ap (λ (c : Command). c.record_activity) same ∙ rec in
      let logs₁ =
        activity_logs-apply_one_step env scope₁ v p current snapshot db
        ∙ ap (λ b. if b then db.activity_logs ++ l₁ ∷ [] else db.activity_logs) kept in
      let row = ap (λ c. row_after p c r) same ∙ row_after_snapshot p snapshot r snap in
      let found₁ = lookup-apply_one_step env scope₁ v p current snapshot db r found ∙ ap some row in
      let (s₁, db₁) = sequence_step env scope (some v) p s snapshot db in
      let e₁ = rw next at e in
      let checked₁ = check_scope_of_loop env scope (some v) p move [] s₁ db₁ out e₁ in
      let next₁ = sequence_loop-cons env scope (some v) p move [] s₁ db₁ checked₁ in
      let scope₂ : Scope = step_scope scope move in
      let (r₂, l₂, found₂, logs₂, agrees, from, from_b, to, to_b) =
        apply_one_step-Moved env scope₂ v p s₁.current_status s₁.current_sub move db₁ r m found₁
          (snapshot_next env scope₁ r p current snapshot db snap) in
      let current₁ : Option StatusType × Option StatusSubType =
        (s₁.current_status, s₁.current_sub) in
      let status₁ = (step_statuses move (some v) current₁).0 in
      let there = lookup-apply_one_step env scope₂ v p current₁ move db₁ r found₁ in
      let same_row : r₂ ≡ row_after p (effective_command p status₁ move) r = cc in
      let shown = ap shown_sub same_row ∙ shown_sub_of_move p status₁ move r b m names in
      (
        r₂,
        l₁,
        l₂,
        rw (next, next₁, sequence_loop-nil env scope (some v) p _ _) found₂,
        rw (next, next₁, sequence_loop-nil env scope (some v) p _ _)
            (logs₂
              ∙ ap (λ x. x ++ l₂ ∷ []) logs₁
              ∙ append_assoc db.activity_logs (l₁ ∷ []) (l₂ ∷ [])),
        snapshot_entry env scope₁ r p current snapshot db snap,
        from_b,
        to_b ∙ shown,
        shown,
      )

Ran-Announced :
    (env : Env) (snapshot move : Command) (db : Db) (ran : Ran env snapshot (move ∷ []) db)
    (r : Row) (b : StatusSubType)
    → is_snapshot_activity_type snapshot.activity_type ≡ true
    → snapshot.record_activity ≡ true
    → IsMove move
    → move.to_sub_status ≡ some b
    → lookup ran.scope.lifecycle_id db.lifecycles ≡ some r
    → let db' = (apply_sequence env (snapshot ∷ move ∷ []) db).1 in
      Announced b r db.activity_logs
        (lookup ran.scope.lifecycle_id db'.lifecycles)
        db'.activity_logs
Ran-Announced env snapshot move db ran r b snap rec m names found =
    let p : PauseContext = resolve_pause_context (snapshot ∷ move ∷ []) in
    let s : LoopState = start (resolve_current_status snapshot (some (view r))) in
    let out = Ran-out env snapshot (move ∷ []) db ran r found in
    let left = Ran-looped env snapshot (move ∷ []) db ran r found in
    let (r', l₁, l₂, found', logs, records, from_b, to_b, shown) =
      move_after_snapshot env ran.scope r p snapshot move s db b ran.out snap rec m names found
        out in
    let (same, same_b) = paused_shown p ran.out.any_pause_written r' in
    (
      paused p ran.out.any_pause_written r',
      l₁,
      l₂,
      rw left (lookup-write_pause ran.scope (view r) p ran.out.any_pause_written _ r' found'),
      rw left (write_pause_log ran.scope (some (view r)) p ran.out.any_pause_written _ ∙ logs),
      records,
      from_b,
      to_b,
      same_b ∙ shown,
    )

-- The body of `apply_sequence`, which a service with repositories of its own runs inside their
-- transaction.
pub apply_sequence_in_transaction-Announced :
    (env : Env) (snapshot move : Command) (db : Db) (k : String) (r : Row) (b : StatusSubType)
    (result : SequenceResult)
    → is_snapshot_activity_type snapshot.activity_type ≡ true
    → snapshot.record_activity ≡ true
    → IsMove move
    → move.to_sub_status ≡ some b
    → env.canonical_uuid (strip snapshot.workflow_lifecycle_id) ≡ some k
    → lookup k db.lifecycles ≡ some r
    → (apply_sequence_in_transaction env snapshot (move ∷ []) db).0 ≡ ok result
    → let db' = (apply_sequence_in_transaction env snapshot (move ∷ []) db).1 in
      Announced b r db.activity_logs (lookup k db'.lifecycles) db'.activity_logs
apply_sequence_in_transaction-Announced env snapshot move db k r b result snap rec m names uuid
      found e =
    let (o, db') = apply_sequence_in_transaction env snapshot (move ∷ []) db in
    let committed : apply_sequence env (snapshot ∷ move ∷ []) db ≡ (ok result, db') =
      apply_sequence-cons env snapshot (move ∷ []) db
      ∙ db_transaction_ok (body env snapshot (move ∷ []) db) db db' result (ap (λ x. (x, db')) e) in
    let ran = Ran-of_ok env snapshot (move ∷ []) db result (ap (λ x. x.0) committed) in
    let id = lifecycle_id_of_scope env snapshot ran.scope ran.prepared in
    let same : ran.scope.lifecycle_id ≡ k = ground (arith, id) in
    let announced =
      Ran-Announced env snapshot move db ran r b snap rec m names
        (subst (λ j. lookup j db.lifecycles ≡ some r) (sym same) found) in
    subst (λ j. Announced b r db.activity_logs (lookup j db'.lifecycles) db'.activity_logs) same
      (subst
        (λ x.
          Announced b r db.activity_logs (lookup ran.scope.lifecycle_id x.1.lifecycles)
            x.1.activity_logs)
        committed announced)
