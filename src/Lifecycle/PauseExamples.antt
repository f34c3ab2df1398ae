-- ===== src/Lifecycle/PauseExamples.antt =====
-- The pause of a concrete sequence of commands.
use testingmulti.Status.{system_error}
use testingmulti.Lifecycle.Scope.{resolve_pause_context}
use testingmulti.Lifecycle.Sequence.Pause.{resolve_pause_context_lem}
use testingmulti.Common.{[], some, true, ◌∷◌, ◌≡◌}
use testingmulti.Lifecycle.Examples.{upload, trouble}

resolve_pause_context_lem_example :
    resolve_pause_context (upload ∷ trouble ∷ [])
    ≡ record { has_exception = true; pause_type = some system_error }
unfolding resolve_pause_context
resolve_pause_context_lem_example = resolve_pause_context_lem (upload ∷ trouble ∷ [])
