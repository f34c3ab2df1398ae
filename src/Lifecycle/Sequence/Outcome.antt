-- ===== src/Lifecycle/Sequence/Outcome.antt =====
-- The whole of `apply_sequence`: what a call that returns has gone through.
use testingmulti.Lifecycle.Store.{lookup-update_where, set_columns}
use testingmulti.Common.{eq_iff, false, none}
use testingmulti.Lifecycle.Sequence.{Action}
use testingmulti.Common.{◌∙◌}
use testingmulti.Lifecycle.Sequence.{SequenceResult, db_transaction, required_row, start}
use testingmulti.Lifecycle.Scope.{PauseContext}
use testingmulti.Lifecycle.Store.{Row, update_lifecycle}
use testingmulti.Lifecycle.Sequence.Loop.{Result-cases}
use testingmulti.Common.{
  Bool, arith, first_some, if◌then◌else◌, inl, inr, lookup, not, refl, some, ◌&&◌,
}
use testingmulti.Lifecycle.Sequence.{
  LoopState, apply_sequence, apply_sequence_in_transaction, sequence_loop, write_pause,
}
use testingmulti.Lifecycle.Command.{Command}
use testingmulti.Lifecycle.Scope.{
  Env, Result, Scope, TransitionError, err, ok, prepare_scope, resolve_current_status,
  resolve_pause_context,
}
use testingmulti.Lifecycle.Store.{Db, RowView}
use testingmulti.Common.{List, Option, ◌∷◌, ◌≡◌}

-- The parts of a call that has returned.
pub record Ran (env : Env) (first : Command) (others : List Command) (db : Db) : Type 0 where
  pub scope : Scope
  pub row : Option RowView
  pub out : LoopState
  pub prepared : prepare_scope env first ≡ ok scope
  pub fetched : required_row first scope db ≡ ok row
  pub looped :
      (sequence_loop env scope row
        (resolve_pause_context (first ∷ others))
        (first ∷ others)
        (start (resolve_current_status first row))
        db).0
      ≡ ok out
  pub left : apply_sequence env (first ∷ others) db ≡ (
    ok (record {
      activity_log_ids = out.activity_log_ids;
      lifecycle_updated = out.any_lifecycle_updated;
    }),
    write_pause scope row
        (resolve_pause_context (first ∷ others))
        out.any_pause_written
        (sequence_loop env scope row
          (resolve_pause_context (first ∷ others))
          (first ∷ others)
          (start (resolve_current_status first row))
          db).1,
  )

-- A transaction keeps what a returning call wrote, and undoes what a raising call wrote.
pub db_transaction_ok :
    {A : Type 0} (m : Action A) (db db' : Db) (a : A)
    → m db ≡ (ok a, db')
    → db_transaction m db ≡ (ok a, db')
unfolding db_transaction
db_transaction_ok m db db' a h = ground arith

pub db_transaction_err :
    {A : Type 0} (m : Action A) (db db' : Db) (e : TransitionError)
    → m db ≡ (err e, db')
    → db_transaction m db ≡ (err e, db)
unfolding db_transaction
db_transaction_err m db db' e h = rw (h, db_transaction)

module _ (env : Env) (first : Command) (others : List Command) (db : Db) where
  abbrev pub body : Action SequenceResult
  body = apply_sequence_in_transaction env first others

  pub apply_sequence-cons : apply_sequence env (first ∷ others) db ≡ db_transaction body db
  unfolding apply_sequence
  apply_sequence-cons = refl

  raised_prepare :
      (e : TransitionError)
      → prepare_scope env first ≡ err e
      → apply_sequence env (first ∷ others) db ≡ (err e, db)
  unfolding apply_sequence_in_transaction
  raised_prepare e h =
      apply_sequence-cons
      ∙ db_transaction_err body db db e (rw (h, apply_sequence_in_transaction) refl)

  pub raised_row :
      (e : TransitionError) (scope : Scope)
      → prepare_scope env first ≡ ok scope
      → required_row first scope db ≡ err e
      → apply_sequence env (first ∷ others) db ≡ (err e, db)
  unfolding apply_sequence_in_transaction
  raised_row e scope h k =
      apply_sequence-cons
      ∙ db_transaction_err body db db e (rw (h, apply_sequence_in_transaction, k) refl)

  module _ (scope : Scope) (row : Option RowView) (h : prepare_scope env first ≡ ok scope)
      (k : required_row first scope db ≡ ok row) where
    abbrev pub looped : Result LoopState × Db
    looped =
        sequence_loop env scope row (resolve_pause_context (first ∷ others)) (first ∷ others)
          (start (resolve_current_status first row)) db

    raised_loop :
        (e : TransitionError)
        → looped.0 ≡ err e
        → apply_sequence env (first ∷ others) db ≡ (err e, db)
    unfolding apply_sequence_in_transaction
    raised_loop e l =
        apply_sequence-cons
        ∙ db_transaction_err body db looped.1 e (rw (h, apply_sequence_in_transaction, k, l) refl)

    pub returned :
        (out : LoopState)
        → looped.0 ≡ ok out
        → apply_sequence env (first ∷ others) db ≡ (
          ok (record {
            activity_log_ids = out.activity_log_ids;
            lifecycle_updated = out.any_lifecycle_updated;
          }),
          write_pause scope row
              (resolve_pause_context (first ∷ others))
              out.any_pause_written
              looped.1,
        )
    unfolding apply_sequence_in_transaction
    returned out l =
        apply_sequence-cons
        ∙ db_transaction_ok body db _ _ (rw (h, apply_sequence_in_transaction, k, l) refl)

  -- A call that returns has a scope and a row, and its loop has ended well.
  pub Ran-of_ok :
      (r : SequenceResult)
      → (apply_sequence env (first ∷ others) db).0 ≡ ok r
      → Ran env first others db
  Ran-of_ok r e = elim (Result-cases (prepare_scope env first)) [
    | inl (x, h) ↦ let e' = rw (raised_prepare x h) at e in absurd (cc)
    | inr (scope, h) ↦ elim (Result-cases (required_row first scope db)) [
      | inl (x, k) ↦ let e' = rw (raised_row x scope h k) at e in absurd (cc)
      | inr (row, k) ↦ elim (Result-cases (looped scope row h k).0) [
        | inl (x, l) ↦ let e' = rw (raised_loop scope row h k x l) at e in absurd (cc)
        | inr (out, l) ↦ record {
          scope = scope;
          row = row;
          out = out;
          prepared = h;
          fetched = k;
          looped = l;
          left = returned scope row h k out l;
        }
      ]
    ]
  ]

-- `write_pause` on the row that it finds.
abbrev pub paused : PauseContext → Bool → Row → Row
paused p written r =
    if p.has_exception && not written
    then record r { pause_type = first_some p.pause_type r.pause_type }
    else r

pub lookup-write_pause :
    (scope : Scope) (v : RowView) (p : PauseContext) (written : Bool) (db : Db) (r : Row)
    → lookup scope.lifecycle_id db.lifecycles ≡ some r
    → lookup scope.lifecycle_id (write_pause scope (some v) p written db).lifecycles
      ≡ some (paused p written r)
unfolding write_pause update_lifecycle
lookup-write_pause scope v p written db r h = ground (
  arith,
  lookup-update_where scope.lifecycle_id scope.lifecycle_id
      (set_columns (record {
        status = none;
        sub_status = none;
        pause_type = p.pause_type;
        clear_pause = false;
      }))
      db.lifecycles,
  eq_iff scope.lifecycle_id scope.lifecycle_id,
)

pub write_pause_log :
    (scope : Scope) (row : Option RowView) (p : PauseContext) (written : Bool) (db : Db)
    → (write_pause scope row p written db).activity_logs ≡ db.activity_logs
unfolding write_pause update_lifecycle
write_pause_log scope row p written db = ground arith
