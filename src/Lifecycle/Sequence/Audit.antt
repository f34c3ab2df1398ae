-- ===== src/Lifecycle/Sequence/Audit.antt =====
-- The audit trail: the log entries of a sequence account for the row's status.
use testingmulti.Lifecycle.Identity.{lifecycle_id_of_scope}
use testingmulti.Lifecycle.Sequence.{sequence_loop, start, write_pause}
use testingmulti.Lifecycle.Scope.{PauseContext, resolve_pause_context}
use testingmulti.Lifecycle.Sequence.Chain.{sequence_loop-Chain}
use testingmulti.Lifecycle.Sequence.Outcome.{Ran, lookup-write_pause, paused, write_pause_log}
use testingmulti.Common.{Bool, ap, refl, sym, ◌∙◌}
use mathlib.Core.Path.{subst₂}
use testingmulti.Common.{Option}
use testingmulti.Lifecycle.Sequence.{SequenceResult, apply_sequence, required_row}
use testingmulti.Lifecycle.Command.{Command}
use testingmulti.Lifecycle.Scope.{Env, Scope, ok, resolve_current_status}
use testingmulti.Lifecycle.Store.{Db, LogRow, Row, RowView, get_for_update, view}
use testingmulti.Lifecycle.Sequence.Chain.{Agrees, Chain, IsMove}
use testingmulti.Lifecycle.Sequence.Outcome.{Ran-of_ok}
use testingmulti.Lifecycle.Step.Row.{shown_status, shown_sub}
use testingmulti.Common.Text.{strip}
use testingmulti.Common.{All, List, String, arith, length, lookup, none, some, ◌++◌, ◌∷◌, ◌≡◌}

-- The row of a found view.
pub row_of_view :
    (k : String) (db : Db) (r : Row)
    → lookup k db.lifecycles ≡ some r
    → get_for_update k db ≡ some (view r)
unfolding get_for_update
row_of_view k db r h = rw h

required_row_found :
    (c : Command) (scope : Scope) (db : Db) (r : Row) (row : Option RowView)
    → lookup scope.lifecycle_id db.lifecycles ≡ some r
    → required_row c scope db ≡ ok row
    → row ≡ some (view r)
required_row_found c scope db r row h k = ground (arith, row_of_view scope.lifecycle_id db r h)

pub start-Agrees :
    (c : Command) (r : Row)
    → c.from_status ≡ none
    → c.from_sub_status ≡ none
    → Agrees r
        (resolve_current_status c (some (view r))).0
        (resolve_current_status c (some (view r))).1
unfolding resolve_current_status
start-Agrees c r h k = ground arith

-- A pause leaves the status columns.
pub paused_shown :
    (p : PauseContext) (written : Bool) (r : Row)
    → (shown_status (paused p written r) ≡ shown_status r)
      × (shown_sub (paused p written r) ≡ shown_sub r)
paused_shown p written r = ground arith

module _ (env : Env) (first : Command) (others : List Command) (db : Db)
    (ran : Ran env first others db) where
  -- The loop of the call, from the row that it found.
  pub Ran-looped :
      (r : Row)
      → lookup ran.scope.lifecycle_id db.lifecycles ≡ some r
      → (apply_sequence env (first ∷ others) db).1
        ≡ write_pause ran.scope
            (some (view r))
            (resolve_pause_context (first ∷ others))
            ran.out.any_pause_written
            (sequence_loop env ran.scope
              (some (view r))
              (resolve_pause_context (first ∷ others))
              (first ∷ others)
              (start (resolve_current_status first (some (view r))))
              db).1
  Ran-looped r found =
      let row = required_row_found first ran.scope db r ran.row found ran.fetched in
      ap (λ x. x.1) ran.left ∙ rw row refl

  pub Ran-out :
      (r : Row)
      → lookup ran.scope.lifecycle_id db.lifecycles ≡ some r
      → (sequence_loop env ran.scope
          (some (view r))
          (resolve_pause_context (first ∷ others))
          (first ∷ others)
          (start (resolve_current_status first (some (view r))))
          db).0
        ≡ ok ran.out
  Ran-out r found =
      rw (required_row_found first ran.scope db r ran.row found ran.fetched) at (ran.looped)

  Ran-Chain :
      (r : Row)
      → All IsMove (first ∷ others)
      → first.from_status ≡ none
      → first.from_sub_status ≡ none
      → lookup ran.scope.lifecycle_id db.lifecycles ≡ some r
      → (r' : Row) × (new : List LogRow) × (lookup ran.scope.lifecycle_id
            (apply_sequence env (first ∷ others) db).1.lifecycles
          ≡ some r')
        × ((apply_sequence env (first ∷ others) db).1.activity_logs ≡ db.activity_logs ++ new)
        × Chain (shown_status r) (shown_sub r) new (shown_status r') (shown_sub r')
        × (length new ≡ length (first ∷ others))
  Ran-Chain r moves h h' found =
      let p : PauseContext = resolve_pause_context (first ∷ others) in
      let left = Ran-looped r found in
      let (r₂, new, found₂, logs, chain, size) =
        sequence_loop-Chain env ran.scope (view r) p (first ∷ others)
          (start (resolve_current_status first (some (view r)))) db r ran.out moves found
          (start-Agrees first r h h') (Ran-out r found) in
      let (same, same_b) = paused_shown p ran.out.any_pause_written r₂ in
      (
        paused p ran.out.any_pause_written r₂,
        new,
        rw left (lookup-write_pause ran.scope (view r) p ran.out.any_pause_written _ r₂ found₂),
        rw left (write_pause_log ran.scope (some (view r)) p ran.out.any_pause_written _ ∙ logs),
        subst₂ (λ s b. Chain (shown_status r) (shown_sub r) new s b) (sym same) (sym same_b) chain,
        size,
      )

-- Where a sequence of logged transitions, the first of which names no status or sub-status to start
-- from, has returned and its lifecycle row was there, the new log entries
-- are one for each command, the first starts at the status and sub-status that the row had, each
-- starts where the one before it ended, and the last ends at what the row has now.
pub apply_sequence-Chain :
    (env : Env) (first : Command) (others : List Command) (db : Db) (k : String) (r : Row)
    (result : SequenceResult)
    → All IsMove (first ∷ others)
    → first.from_status ≡ none
    → first.from_sub_status ≡ none
    → env.canonical_uuid (strip first.workflow_lifecycle_id) ≡ some k
    → lookup k db.lifecycles ≡ some r
    → (apply_sequence env (first ∷ others) db).0 ≡ ok result
    → (r' : Row) × (new : List LogRow) × (lookup k
          (apply_sequence env (first ∷ others) db).1.lifecycles
        ≡ some r')
      × ((apply_sequence env (first ∷ others) db).1.activity_logs ≡ db.activity_logs ++ new)
      × Chain (shown_status r) (shown_sub r) new (shown_status r') (shown_sub r')
      × (length new ≡ length (first ∷ others))
apply_sequence-Chain env first others db k r result moves h h' uuid found e =
    let ran = Ran-of_ok env first others db result e in
    let id = lifecycle_id_of_scope env first ran.scope ran.prepared in
    let same : ran.scope.lifecycle_id ≡ k = ground (arith, id) in
    rw (← same) (Ran-Chain env first others db ran r moves h h' (rw (← same) at found))
