-- ===== src/Lifecycle/Sequence/Chain.antt =====
-- A sequence of transitions: its log entries form a chain that ends at the row's status.
use mathlib.Core.List.{append_assoc}
use testingmulti.Lifecycle.Sequence.Loop.{sequence_loop-nil}
use testingmulti.Lifecycle.Sequence.{after_step, step_scope}
use testingmulti.Lifecycle.Command.{LogFields}
use testingmulti.Lifecycle.Sequence.Loop.{check_scope_of_loop, sequence_loop-cons}
use testingmulti.Common.{if◌then◌else◌, suc}
use testingmulti.Lifecycle.Sequence.{LoopState, sequence_loop, sequence_step}
use testingmulti.Lifecycle.Scope.{ok}
use testingmulti.Common.{All, length}
use mathlib.Core.List.{append-nil}
use testingmulti.Lifecycle.Step.Effect.{logged}
use testingmulti.Common.{ap, sym}
use testingmulti.Lifecycle.Step.{StepResult, apply_one_step}
use testingmulti.Lifecycle.Step.Effect.{
  activity_logs-apply_one_step, apply_one_step_result, effective, lookup-apply_one_step,
}
use testingmulti.Common.{lookup, refl, some, ◌++◌, ◌∙◌}
use testingmulti.Status.{StatusSubType, StatusType, is_snapshot_activity_type}
use testingmulti.Lifecycle.Command.{
  Command, build_activity_log_status_fields, status_for_log, sub_status_for_log,
}
use testingmulti.Lifecycle.Step.{
  activity_row, effective_command, names_status, step_statuses, writes_lifecycle,
}
use testingmulti.Lifecycle.Scope.{Env, PauseContext, Scope}
use testingmulti.Lifecycle.Store.{Db, LogRow, Row, RowView}
use testingmulti.Lifecycle.Step.Effect.{entry}
use testingmulti.Lifecycle.Step.Row.{
  row_after, shown_status, shown_status-set_columns, shown_sub, shown_sub-set_columns,
}
use testingmulti.Common.{
  Bool-cases, List, Option, [], arith, false, inl, inr, or_else, true, ◌∷◌, ◌≡◌,
}

-- A transition that writes the row and logs it.
abbrev pub IsMove : Command → Type 0
IsMove c =
    (is_snapshot_activity_type c.activity_type ≡ false)
    × (c.update_lifecycle ≡ true)
    × (c.record_activity ≡ true)

-- Each entry starts where the one before it ended.
abbrev pub Chain : StatusType → StatusSubType → List LogRow → StatusType → StatusSubType → Type 0
Chain s b [] s' b' = (s ≡ s') × (b ≡ b')
Chain s b (l ∷ ls) s' b' =
    (l.from_status ≡ s) × (l.from_sub_status ≡ b) × Chain l.to_status l.to_sub_status ls s' b'

-- The loop's variables show the row's status.
abbrev pub Agrees : Row → Option StatusType → Option StatusSubType → Type 0
Agrees r status sub =
    (status_for_log status ≡ shown_status r) × (sub_status_for_log sub ≡ shown_sub r)

pub shown-row_after :
    (p : PauseContext) (c : Command) (r : Row)
    → writes_lifecycle c ≡ true
    → (shown_status (row_after p c r) ≡ or_else c.to_status (shown_status r))
      × (shown_sub (row_after p c r) ≡ or_else c.to_sub_status (shown_sub r))
shown-row_after p c r w = elim (Bool-cases (names_status c)) [
  | inl n ↦ rw (w, n) (shown_status-set_columns p c r, shown_sub-set_columns p c r)
  | inr n ↦ rw (w, n) (ground arith)
]

build_of_move :
    (c : Command) (s : Option StatusType) (b : Option StatusSubType)
    → is_snapshot_activity_type c.activity_type ≡ false
    → build_activity_log_status_fields c s b ≡ record {
      from_status = status_for_log s;
      to_status = or_else c.to_status (status_for_log s);
      from_sub = sub_status_for_log b;
      to_sub = or_else c.to_sub_status (sub_status_for_log b);
    }
unfolding build_activity_log_status_fields
build_of_move c s b e = rw e

pub effective-IsMove :
    (p : PauseContext) (s : Option StatusType) (c : Command)
    → IsMove c
    → IsMove (effective_command p s c)
unfolding effective_command
effective-IsMove p s c move = ground arith

step_statuses_of_move :
    (c : Command) (row : Option RowView) (current : Option StatusType × Option StatusSubType)
    → is_snapshot_activity_type c.activity_type ≡ false
    → step_statuses c row current ≡ current
unfolding step_statuses
step_statuses_of_move c row current e = rw e

-- What a transition logs.
logged_of_move :
    (env : Env) (scope : Scope) (v : RowView) (p : PauseContext) (s : Option StatusType)
    (b : Option StatusSubType) (c : Command) (db : Db)
    → IsMove c
    → let f = logged env scope v p (s, b) c db in
      let e = effective env scope v p (s, b) c db in
      (f.from_status ≡ status_for_log s)
      × (f.to_status ≡ or_else e.to_status (status_for_log s))
      × (f.from_sub ≡ sub_status_for_log b)
      × (f.to_sub ≡ or_else e.to_sub_status (sub_status_for_log b))
logged_of_move env scope v p s b c db move =
    let same = step_statuses_of_move c (some v) (s, b) move.0 in
    let e_move = effective-IsMove p (step_statuses c (some v) (s, b)).0 c move in
    rw
      (build_of_move (effective env scope v p (s, b) c db) (step_statuses c (some v) (s, b)).0
        (step_statuses c (some v) (s, b)).1 e_move.0)
      (rw same (refl, refl, refl, refl))

-- What one transition leaves: one more entry, from the row's old status to its new one.
abbrev pub Moved : Scope → Row → Db → StepResult × Db → Type 0
Moved scope r db (step, db') =
    (r' : Row) × (l : LogRow) × (lookup scope.lifecycle_id db'.lifecycles ≡ some r')
    × (db'.activity_logs ≡ db.activity_logs ++ l ∷ [])
    × Agrees r' step.next_status step.next_sub
    × (l.from_status ≡ shown_status r)
    × (l.from_sub_status ≡ shown_sub r)
    × (l.to_status ≡ shown_status r')
    × (l.to_sub_status ≡ shown_sub r')

pub apply_one_step-Moved :
    (env : Env) (scope : Scope) (v : RowView) (p : PauseContext) (s : Option StatusType)
    (b : Option StatusSubType) (c : Command) (db : Db) (r : Row)
    → IsMove c
    → lookup scope.lifecycle_id db.lifecycles ≡ some r
    → Agrees r s b
    → Moved scope r db (apply_one_step env scope (some v) p (s, b) c db)
unfolding activity_row
apply_one_step-Moved env scope v p s b c db r move found agrees =
    let e : Command = effective env scope v p (s, b) c db in
    let f : LogFields = logged env scope v p (s, b) c db in
    let s_of : Option StatusType × Option StatusSubType = step_statuses c (some v) (s, b) in
    let e_move = effective-IsMove p (step_statuses c (some v) (s, b)).0 c move in
    let moves : writes_lifecycle e ≡ true = ground arith in
    let fields = logged_of_move env scope v p s b c db move in
    let (_, next_status, next_sub) = apply_one_step_result env scope v p (s, b) c db in
    let (shown, shown_b) = shown-row_after p e r moves in
    let to = fields.1 ∙ ap (or_else e.to_status) agrees.0 ∙ sym shown in
    let to_b = fields.3 ∙ ap (or_else e.to_sub_status) agrees.1 ∙ sym shown_b in
    (
      row_after p e r,
      entry env scope v p (s, b) c db,
      lookup-apply_one_step env scope v p (s, b) c db r found,
      activity_logs-apply_one_step env scope v p (s, b) c db ∙ rw e_move.2 refl,
      (
        ap status_for_log (next_status ∙ ap (λ b. if b then some f.to_status else s_of.0) moves)
            ∙ to,
        ap sub_status_for_log (next_sub ∙ ap (λ b. if b then some f.to_sub else s_of.1) moves)
            ∙ to_b,
      ),
      fields.0 ∙ agrees.0,
      fields.2 ∙ agrees.1,
      to,
      to_b,
    )

module _ (env : Env) (scope : Scope) (v : RowView) (p : PauseContext) where
  -- The loop, over transitions only.
  pub sequence_loop-Chain :
      (cs : List Command) (s : LoopState) (db : Db) (r : Row) (out : LoopState)
      → All IsMove cs
      → lookup scope.lifecycle_id db.lifecycles ≡ some r
      → Agrees r s.current_status s.current_sub
      → (sequence_loop env scope (some v) p cs s db).0 ≡ ok out
      → (r' : Row) × (new : List LogRow) × (lookup scope.lifecycle_id
            (sequence_loop env scope (some v) p cs s db).1.lifecycles
          ≡ some r')
        × ((sequence_loop env scope (some v) p cs s db).1.activity_logs ≡ db.activity_logs ++ new)
        × Chain (shown_status r) (shown_sub r) new (shown_status r') (shown_sub r')
        × (length new ≡ length cs)
  unfolding sequence_step after_step
  sequence_loop-Chain [] s db r out moves found agrees e =
      rw (sequence_loop-nil env scope (some v) p s db)
        (r, [], found, sym (append-nil _), (refl, refl), refl)
  sequence_loop-Chain (c ∷ cs) s db r out (move, moves) found agrees e =
      let checked = check_scope_of_loop env scope (some v) p c cs s db out e in
      let next = sequence_loop-cons env scope (some v) p c cs s db checked in
      let (r₁, l, found₁, logs₁, agrees₁, from, from_b, to, to_b) =
        apply_one_step-Moved env (step_scope scope c) v p s.current_status s.current_sub c db r move
          found agrees in
      let (s₁, db₁) = sequence_step env scope (some v) p s c db in
      let (r₂, new, found₂, logs₂, chain, size) =
        sequence_loop-Chain cs s₁ db₁ r₁ out moves found₁ agrees₁ (rw next at e) in
      (
        r₂,
        l ∷ new,
        rw next found₂,
        rw next
            (logs₂ ∙ ap (λ logs. logs ++ new) logs₁ ∙ append_assoc db.activity_logs (l ∷ []) new),
        (from, from_b, rw (to, to_b) chain),
        ap suc size,
      )
