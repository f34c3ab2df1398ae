-- ===== src/Lifecycle/Sequence/Loop.antt =====
-- The loop of `_apply_sequence_in_transaction`, one round at a time.
use testingmulti.Common.{[]}
use testingmulti.Lifecycle.Sequence.{LoopState, check_scope, sequence_loop, sequence_step}
use testingmulti.Lifecycle.Command.{Command}
use testingmulti.Lifecycle.Scope.{Env, PauseContext, Result, Scope, TransitionError, err, ok}
use testingmulti.Lifecycle.Store.{Db, RowView}
use testingmulti.Common.{List, Option, inl, inr, refl, ◌∷◌, ◌≡◌, ◌⊎◌}

pub Result-cases {ℓ} :
    {A : Type ℓ} (m : Result A) → ((e : TransitionError) × (m ≡ err e)) ⊎ ((a : A) × (m ≡ ok a))
Result-cases (ok a) = inr (a, refl)
Result-cases (err e) = inl (e, refl)

module _ (env : Env) (scope : Scope) (row : Option RowView) (p : PauseContext) (c : Command)
    (cs : List Command) (s : LoopState) (db : Db) where
  -- A command in the scope is carried out, and the loop goes on from there.
  pub sequence_loop-cons :
      check_scope env scope c ≡ ok tt
      → sequence_loop env scope row p (c ∷ cs) s db
        ≡ sequence_loop env scope row p cs
            (sequence_step env scope row p s c db).0
            (sequence_step env scope row p s c db).1
  unfolding sequence_loop
  sequence_loop-cons e = rw (e, sequence_loop)

  -- A loop that ends well has found its first command in the scope.
  pub check_scope_of_loop :
      (out : LoopState)
      → (sequence_loop env scope row p (c ∷ cs) s db).0 ≡ ok out
      → check_scope env scope c ≡ ok tt
  unfolding sequence_loop
  check_scope_of_loop out h = elim (Result-cases (check_scope env scope c)) [
    | inl (e, raised) ↦ let h' = rw (raised, sequence_loop) at h in cc
    | inr (u, passed) ↦ passed
  ]

pub sequence_loop-nil :
    (env : Env) (scope : Scope) (row : Option RowView) (p : PauseContext) (s : LoopState) (db : Db)
    → sequence_loop env scope row p [] s db ≡ (ok s, db)
unfolding sequence_loop
sequence_loop-nil env scope row p s db = refl
