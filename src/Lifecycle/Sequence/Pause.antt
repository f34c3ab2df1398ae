-- ===== src/Lifecycle/Sequence/Pause.antt =====
-- What a sequence of commands leaves in `pause_type`, and that it leaves all other rows alone.
use testingmulti.Status.{StatusSubType, StatusType}
use testingmulti.Lifecycle.Sequence.{
  LoopState, after_step, sequence_loop, sequence_step, step_scope,
}
use testingmulti.Lifecycle.Step.{effective_command, status_update, step_statuses}
use testingmulti.Lifecycle.Scope.{Env, Scope, ok}
use testingmulti.Lifecycle.Store.{Db, Row, RowView}
use testingmulti.Lifecycle.Sequence.Loop.{
  check_scope_of_loop, sequence_loop-cons, sequence_loop-nil,
}
use testingmulti.Lifecycle.Step.Effect.{
  apply_one_step_result, effective, lookup-apply_one_step, lookup-apply_one_step_ne,
}
use testingmulti.Lifecycle.Step.Row.{row_after}
use testingmulti.Common.{String, ap, false, is_some, lookup, refl, true, ◌∙◌, ◌≢◌}
use testingmulti.Status.{PauseType, is_exception, system_error}
use testingmulti.Lifecycle.Command.{Command}
use testingmulti.Lifecycle.Step.{names_status, writes_lifecycle}
use testingmulti.Lifecycle.Scope.{PauseContext, pause_loop, resolve_pause_context}
use testingmulti.Common.{
  Bool, Bool-cases, List, Option, [], any, arith, first_some, if◌then◌else◌, inl, inr, none,
  or_else, some, ◌&&◌, ◌||◌, ◌∷◌, ◌≡◌,
}

abbrev pub raises_exception : Command → Bool
raises_exception c = is_exception c.activity_type

-- The pause type that the exceptions name, the first one first.
abbrev pub named_pause : List Command → Option PauseType
named_pause [] = none
named_pause (c ∷ cs) =
    if raises_exception c then first_some c.pause_type (named_pause cs) else named_pause cs

-- Whether a command writes the row.
abbrev pub writes_row : Command → Bool
writes_row c = writes_lifecycle c && names_status c

pause_loop_lem :
    (cs : List Command) (p : PauseContext)
    → pause_loop cs p ≡ record {
      has_exception = p.has_exception || any raises_exception cs;
      pause_type = first_some p.pause_type (named_pause cs);
    }
unfolding pause_loop
pause_loop_lem [] p = ground arith
pause_loop_lem (c ∷ cs) p = elim (Bool-cases (raises_exception c)) [
  | inl e ↦ rw (pause_loop_lem cs _) (ground arith)
  | inr e ↦ rw (pause_loop_lem cs _) (ground arith)
]

named_pause-none : (cs : List Command) → any raises_exception cs ≡ false → named_pause cs ≡ none
named_pause-none [] h = refl
named_pause-none (c ∷ cs) h = ground (arith, named_pause-none cs)

-- A sequence is paused exactly if it holds an exception, for the first reason that one names, and
-- for a system error if none names a reason.
pub resolve_pause_context_lem :
    (cs : List Command)
    → resolve_pause_context cs ≡ record {
      has_exception = any raises_exception cs;
      pause_type =
          if any raises_exception cs then some (or_else (named_pause cs) system_error) else none;
    }
unfolding resolve_pause_context
resolve_pause_context_lem cs = rw (pause_loop_lem cs _) (ground (arith, named_pause-none cs))

writes_row-effective_command :
    (p : PauseContext) (s : Option StatusType) (c : Command)
    → writes_row (effective_command p s c) ≡ writes_row c
unfolding effective_command
writes_row-effective_command p s c = ground arith

-- The pause that a write leaves.
abbrev pub pause_target : PauseContext → Option PauseType
pause_target p = if p.has_exception then p.pause_type else none

abbrev pub IsReasoned : PauseContext → Type 0
IsReasoned p = p.has_exception ≡ true → is_some p.pause_type ≡ true

pause-row_after :
    (p : PauseContext) (c : Command) (r : Row)
    → IsReasoned p
    → (row_after p c r).pause_type ≡ (if writes_row c then pause_target p else r.pause_type)
unfolding status_update
pause-row_after p c r h = ground arith

module _ (env : Env) (scope : Scope) (v : RowView) (p : PauseContext)
    (reasoned : IsReasoned p) where
  sequence_step-pause :
      (c : Command) (s : LoopState) (db : Db) (r : Row)
      → lookup scope.lifecycle_id db.lifecycles ≡ some r
      → let (s', db') = sequence_step env scope (some v) p s c db in
        (r' : Row) × (lookup scope.lifecycle_id db'.lifecycles ≡ some r')
        × (r'.pause_type ≡ (if writes_row c then pause_target p else r.pause_type))
        × (s'.any_pause_written ≡ (writes_row c || s.any_pause_written))
  unfolding sequence_step after_step
  sequence_step-pause c s db r found =
      let current : Option StatusType × Option StatusSubType = (s.current_status, s.current_sub) in
      let scope' : Scope = step_scope scope c in
      let e : Command = effective env scope' v p current c db in
      let same = writes_row-effective_command p (step_statuses c (some v) current).0 c in
      (
        row_after p e r,
        lookup-apply_one_step env scope' v p current c db r found,
        pause-row_after p e r reasoned ∙ ap (λ b. if b then pause_target p else r.pause_type) same,
        ap (λ b. b || s.any_pause_written)
            ((apply_one_step_result env scope' v p current c db).0 ∙ same),
      )

  pub sequence_loop-pause :
      (cs : List Command) (s : LoopState) (db : Db) (r : Row) (out : LoopState)
      → lookup scope.lifecycle_id db.lifecycles ≡ some r
      → (sequence_loop env scope (some v) p cs s db).0 ≡ ok out
      → (r' : Row) × (lookup scope.lifecycle_id
            (sequence_loop env scope (some v) p cs s db).1.lifecycles
          ≡ some r')
        × (r'.pause_type ≡ (if any writes_row cs then pause_target p else r.pause_type))
        × (out.any_pause_written ≡ (any writes_row cs || s.any_pause_written))
  sequence_loop-pause [] s db r out found e =
      let no_items = sequence_loop-nil env scope (some v) p s db in
      let e' = rw no_items at e in rw no_items (r, found, refl, ground arith)
  sequence_loop-pause (c ∷ cs) s db r out found e =
      let checked = check_scope_of_loop env scope (some v) p c cs s db out e in
      let next = sequence_loop-cons env scope (some v) p c cs s db checked in
      let (r₁, found₁, pause₁, written₁) = sequence_step-pause c s db r found in
      let (s₁, db₁) = sequence_step env scope (some v) p s c db in
      let (r₂, found₂, pause₂, written₂) =
        sequence_loop-pause cs s₁ db₁ r₁ out found₁ (rw next at e) in
      (r₂, rw next found₂, ground arith, ground arith)

  pub sequence_loop-frame :
      (cs : List Command) (s : LoopState) (db : Db) (out : LoopState) (j : String)
      → j ≢ scope.lifecycle_id
      → (sequence_loop env scope (some v) p cs s db).0 ≡ ok out
      → lookup j (sequence_loop env scope (some v) p cs s db).1.lifecycles ≡ lookup j db.lifecycles
  unfolding sequence_step
  sequence_loop-frame [] s db out j ne e = rw (sequence_loop-nil env scope (some v) p s db)
  sequence_loop-frame (c ∷ cs) s db out j ne e =
      let checked = check_scope_of_loop env scope (some v) p c cs s db out e in
      let next = sequence_loop-cons env scope (some v) p c cs s db checked in
      let (s₁, db₁) = sequence_step env scope (some v) p s c db in
      rw next (
        sequence_loop-frame cs s₁ db₁ out j ne (rw next at e)
        ∙ lookup-apply_one_step_ne env (step_scope scope c) v p (s.current_status, s.current_sub) c
            db j ne)
