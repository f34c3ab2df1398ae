-- ===== src/Lifecycle/Sequence/Returns.antt =====
-- When `apply_sequence` returns, and when it raises that the lifecycle is missing.
use testingmulti.Lifecycle.Sequence.{
  LoopState, SequenceResult, apply_sequence, check_scope, required_row, sequence_loop,
  sequence_step, start,
}
use testingmulti.Lifecycle.Command.{Command}
use testingmulti.Lifecycle.Scope.{
  Env, PauseContext, Scope, err, lifecycle_not_found, ok, prepare_scope, resolve_current_status,
  resolve_pause_context,
}
use testingmulti.Lifecycle.Store.{Db, Row, RowView, get_for_update, view}
use testingmulti.Lifecycle.Sequence.Loop.{sequence_loop-cons, sequence_loop-nil}
use testingmulti.Lifecycle.Sequence.Outcome.{raised_row, returned}
use testingmulti.Lifecycle.Sequence.Audit.{row_of_view}
use testingmulti.Common.{All, List, Option, [], ap, lookup, none, some, true, ◌∷◌, ◌≡◌}

module _ (env : Env) (scope : Scope) (row : Option RowView) (p : PauseContext) where
  sequence_loop_returns :
      (cs : List Command) (s : LoopState) (db : Db)
      → All (λ c. check_scope env scope c ≡ ok tt) cs
      → (out : LoopState) × ((sequence_loop env scope row p cs s db).0 ≡ ok out)
  sequence_loop_returns [] s db h = (s, rw (sequence_loop-nil env scope row p s db))
  sequence_loop_returns (c ∷ cs) s db (checked, h) =
      let (s₁, db₁) = sequence_step env scope row p s c db in
      let (out, e) = sequence_loop_returns cs s₁ db₁ h in
      (out, rw (sequence_loop-cons env scope row p c cs s db checked) e)

-- A sequence returns if its first command has a scope, the lifecycle row is there, and every
-- command names the scope's tenant, lifecycle and run.
pub apply_sequence_returns :
    (env : Env) (first : Command) (others : List Command) (db : Db) (scope : Scope) (r : Row)
    → prepare_scope env first ≡ ok scope
    → lookup scope.lifecycle_id db.lifecycles ≡ some r
    → All (λ c. check_scope env scope c ≡ ok tt) (first ∷ others)
    → (result : SequenceResult) × ((apply_sequence env (first ∷ others) db).0 ≡ ok result)
apply_sequence_returns env first others db scope r h found checked =
    let fetched : required_row first scope db ≡ ok (some (view r)) =
      rw (row_of_view scope.lifecycle_id db r found) in
    let (out, e) =
      sequence_loop_returns env scope (some (view r)) (resolve_pause_context (first ∷ others))
        (first ∷ others) (start (resolve_current_status first (some (view r)))) db checked in
    (_, ap (λ x. x.0) (returned env first others db scope (some (view r)) h fetched out e))

-- Without the row, a command that requires it raises, and nothing is written.
pub apply_sequence_missing :
    (env : Env) (first : Command) (others : List Command) (db : Db) (scope : Scope)
    → prepare_scope env first ≡ ok scope
    → lookup scope.lifecycle_id db.lifecycles ≡ none
    → first.require_lifecycle_row ≡ true
    → apply_sequence env (first ∷ others) db ≡ (err lifecycle_not_found, db)
unfolding get_for_update
apply_sequence_missing env first others db scope h absent required =
    raised_row env first others db lifecycle_not_found scope h (rw absent (rw required))
