-- ===== src/Lifecycle/Sequence/Raised.antt =====
-- What a sequence that raises leaves behind, with and without a transaction of its own.
use testingmulti.Common.{subst, sym}
use testingmulti.Lifecycle.Sequence.{
  SequenceResult, apply_sequence_in_transaction, injected, own, required_row,
  service_apply_sequence, start,
}
use testingmulti.Lifecycle.FromState.{checked_of_owner}
use testingmulti.Lifecycle.Scope.{
  Result, prepare_scope, resolve_current_status, resolve_pause_context,
}
use testingmulti.Lifecycle.Sequence.Outcome.{apply_sequence-cons, body, db_transaction_err}
use testingmulti.Common.{◌⊎◌}
use testingmulti.Lifecycle.Sequence.{LoopState, check_scope, sequence_loop, sequence_step}
use testingmulti.Lifecycle.Command.{Command}
use testingmulti.Lifecycle.Scope.{PauseContext, TransitionError, err, ok}
use testingmulti.Lifecycle.Store.{Db, RowView}
use testingmulti.Lifecycle.Sequence.Loop.{Result-cases, sequence_loop-cons}
use testingmulti.Common.{List, Option, [], ap, inl, inr, refl, ◌++◌, ◌∙◌, ◌∷◌, ◌≡◌}
use testingmulti.Lifecycle.Scope.{Env, Scope}

error_of : {A : Type 0} (r : Result A) (x e : TransitionError) → r ≡ err x → r ≡ err e → x ≡ e
error_of r x e h k = cc

module _ (env : Env) (scope : Scope) (row : Option RowView) (p : PauseContext) where
  -- The loop was refused at `bad`, behind commands in the scope that it has carried out.
  pub record Refused (cs : List Command) (s : LoopState) (db : Db) (e : TransitionError) (db' : Db)
      : Type 0 where
    pub done : List Command
    pub bad : Command
    pub rest : List Command
    pub out : LoopState
    pub split : cs ≡ done ++ bad ∷ rest
    pub carried : sequence_loop env scope row p done s db ≡ (ok out, db')
    pub refusal : check_scope env scope bad ≡ err e

  sequence_loop_raised :
      (cs : List Command) (s : LoopState) (db : Db) (e : TransitionError)
      → (sequence_loop env scope row p cs s db).0 ≡ err e
      → Refused cs s db e (sequence_loop env scope row p cs s db).1
  unfolding sequence_loop
  sequence_loop_raised [] s db e h = absurd (cc)
  sequence_loop_raised (c ∷ cs) s db e h = elim (Result-cases (check_scope env scope c)) [
    | inl (x, refused) ↦
        let raised = rw (refused, sequence_loop) at h in
        let same : x ≡ e = cc in
        rw (sequence_loop, refused)
          (record {
            done = [];
            bad = c;
            rest = cs;
            out = s;
            split = refl;
            carried = refl;
            refusal = refused ∙ ap err same;
          })
    | inr (u, passed) ↦
        let next = sequence_loop-cons env scope row p c cs s db passed in
        let (s₁, db₁) = sequence_step env scope row p s c db in
        let below = sequence_loop_raised cs s₁ db₁ e (rw next at h) in
        rw next (record {
          done = c ∷ below.done;
          bad = below.bad;
          rest = below.rest;
          out = below.out;
          split = ap (λ l. c ∷ l) below.split;
          carried = sequence_loop-cons env scope row p c below.done s db passed ∙ below.carried;
          refusal = below.refusal;
        })
  ]

module _ (env : Env) (first : Command) (others : List Command) (db : Db) (e : TransitionError) where
  abbrev context : PauseContext
  context = resolve_pause_context (first ∷ others)

  abbrev whole : Result SequenceResult × Db
  whole = service_apply_sequence injected env (first ∷ others) db

  -- Nothing was written: the first command has no scope, or no row where it requires one.
  abbrev pub Unstarted : Db → Type 0
  Unstarted db' =
      (db' ≡ db)
      × ((prepare_scope env first ≡ err e)
          ⊎ ((scope : Scope) × (prepare_scope env first ≡ ok scope)
              × (required_row first scope db ≡ err e)))

  -- The first command and `done` were carried out and stay, and `bad` was refused.
  abbrev pub Halfway : Db → Type 0
  Halfway db' =
      (scope : Scope) × (row : Option RowView) × (done : List Command) × (bad : Command)
      × (rest : List Command) × (out : LoopState) × (prepare_scope env first ≡ ok scope)
      × (required_row first scope db ≡ ok row)
      × (others ≡ done ++ bad ∷ rest)
      × (sequence_loop env scope row context (first ∷ done)
            (start (resolve_current_status first row)) db
          ≡ (ok out, db'))
      × (check_scope env scope bad ≡ err e)

  module _ (scope : Scope) (row : Option RowView) (h : prepare_scope env first ≡ ok scope)
      (k : required_row first scope db ≡ ok row) where
    abbrev begun : LoopState × Db
    begun = sequence_step env scope row context (start (resolve_current_status first row)) first db

    abbrev rounds : Result LoopState × Db
    rounds = sequence_loop env scope row context others begun.0 begun.1

    started :
        sequence_loop env scope row context
          (first ∷ others)
          (start (resolve_current_status first row))
          db
        ≡ rounds
    started =
        sequence_loop-cons env scope row context first others
          (start (resolve_current_status first row)) db
          (checked_of_owner env first first scope (refl, refl, refl) h)

    abbrev looped : Result LoopState × Db
    looped =
        sequence_loop env scope row context (first ∷ others)
          (start (resolve_current_status first row)) db

    -- The call's end, from that of the loop
    whole_raised : (x : TransitionError) → looped.0 ≡ err x → whole ≡ (err x, looped.1)
    unfolding apply_sequence_in_transaction
    whole_raised x l = rw (h, apply_sequence_in_transaction, k, l) refl

    not_returned : (out : LoopState) → looped.0 ≡ ok out → ¬ (whole.0 ≡ err e)
    unfolding apply_sequence_in_transaction
    not_returned out l raised =
        let raised' = rw (h, apply_sequence_in_transaction, k, l) at raised in cc

    rounds-Halfway :
        Refused env scope row context others begun.0 begun.1 e rounds.1 → Halfway rounds.1
    rounds-Halfway r = (
      scope,
      row,
      r.done,
      r.bad,
      r.rest,
      r.out,
      h,
      k,
      r.split,
      sequence_loop-cons env scope row context first r.done
            (start (resolve_current_status first row)) db
            (checked_of_owner env first first scope (refl, refl, refl) h)
          ∙ r.carried,
      r.refusal,
    )

    rounds_raised : looped.0 ≡ err e → rounds.0 ≡ err e
    rounds_raised l = ap (λ x. x.0) (sym started) ∙ l

    left_of_rounds : looped.0 ≡ err e → whole.1 ≡ rounds.1
    left_of_rounds l = ap (λ x. x.1) (whole_raised e l) ∙ ap (λ x. x.1) started

    same_error : whole.0 ≡ err e → (x : TransitionError) → looped.0 ≡ err x → looped.0 ≡ err e
    same_error raised x l =
        l ∙ ap err (error_of whole.0 x e (ap (λ r. r.0) (whole_raised x l)) raised)

    finish : looped.0 ≡ err e → Halfway whole.1
    finish l = subst Halfway (sym (left_of_rounds l)) (
        rounds-Halfway
          (sequence_loop_raised env scope row context others begun.0 begun.1 e (rounds_raised l)))

    whole-Halfway : whole.0 ≡ err e → Halfway whole.1
    whole-Halfway raised = elim (Result-cases looped.0) [
      | inr (out, l) ↦ absurd (not_returned out l raised)
      | inl (x, l) ↦ finish (same_error raised x l)
    ]

  left_by_raise : whole.0 ≡ err e → Unstarted whole.1 ⊎ Halfway whole.1
  unfolding apply_sequence_in_transaction
  left_by_raise raised = elim (Result-cases (prepare_scope env first)) [
    | inl (x, h) ↦
        let raised' = rw (h, apply_sequence_in_transaction) at raised in
        let same : x ≡ e = cc in
        inl (rw (h, apply_sequence_in_transaction) refl, inl (h ∙ ap err same))
    | inr (scope, h) ↦ elim (Result-cases (required_row first scope db)) [
      | inl (x, k) ↦
          let raised' = rw (h, apply_sequence_in_transaction, k) at raised in
          let same : x ≡ e = cc in
          inl (rw (h, apply_sequence_in_transaction, k) refl, inr (scope, h, k ∙ ap err same))
      | inr (row, k) ↦ inr (whole-Halfway scope row h k raised)
    ]
  ]

  -- Whether a service has its repositories from a caller with a transaction or opens its own, a
  -- sequence raises the same error. With a transaction of its own both tables are left as they were.
  -- Without one, they are too if the first command has no scope or lacks a row that it requires; else
  -- the first command and those behind it, up to the one that is refused with this error, have been
  -- carried out, and what they wrote is left to the caller.
  pub service_apply_sequence-raised :
      (service_apply_sequence injected env (first ∷ others) db).0 ≡ err e
      → (service_apply_sequence own env (first ∷ others) db ≡ (err e, db))
        × (Unstarted (service_apply_sequence injected env (first ∷ others) db).1
            ⊎ Halfway (service_apply_sequence injected env (first ∷ others) db).1)
  service_apply_sequence-raised raised = (
    apply_sequence-cons env first others db
        ∙ db_transaction_err (body env first others db) db whole.1 e
            (ap (λ r. (r, whole.1)) raised),
    left_by_raise raised,
  )
