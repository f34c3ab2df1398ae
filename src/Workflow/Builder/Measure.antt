-- ===== src/Workflow/Builder/Measure.antt =====
-- Why a run of a graph with a cycle ends: a measure of the node and the state that falls.
use testingmulti.Workflow.{GraphDefinition}
use testingmulti.Workflow.Builder.{execute, successor}
use testingmulti.Workflow.Builder.Progress.{Moves, is_target}
use testingmulti.Common.{
  Bool-cases, Dict, OnSome, OnSome-elim, String, arith, false, inl, inr, some, suc, true, zero, ℕ,
  ◌<◌, ◌==◌, ◌≡◌,
}
use testingmulti.Common.Value.{Fields}

module _ (registry : Dict (Fields → String)) (g : GraphDefinition) (run : String → Fields → Fields)
    (measure : String → Fields → ℕ) where
  -- A run ends at the exit, when every node but the exit has a successor at which the measure is less.
  pub execute_falls :
      (P : Fields → Type 0)
      → ((node : String) (state : Fields) → P state → P (run node state))
      → ((node : String) (state : Fields)
          → P state
          → is_target g node ≡ true
          → (node == g.exit) ≡ false
          → Moves registry state g (successor registry g node state))
      → ((node : String) (state : Fields)
          → is_target g node ≡ true
          → (node == g.exit) ≡ false
          → OnSome
              (λ m. measure m (run node state) < measure node state)
              (successor registry g node (run node state)))
      → (fuel : ℕ) (node : String) (state : Fields) → P state
      → is_target g node ≡ true
      → measure node state < fuel
      → (final : Fields) × (execute registry g run fuel node state ≡ some final)
  unfolding execute
  execute_falls P keeps moves falls zero node state p t lt = absurd (omega (arith, lt))
  execute_falls P keeps moves falls (suc fuel) node state p t lt =
      elim (Bool-cases (node == g.exit)) [
        | inl y ↦ (run node state, rw y)
        | inr n ↦
            let state' = run node state in
            let p' = keeps node state p in
            let (m, e, t') = moves node state' p' t n in
            let lower =
              OnSome-elim (λ m. measure m state' < measure node state)
                (successor registry g node state') m (falls node state t n) e in
            let (final, done) =
              execute_falls P keeps moves falls fuel m state' p' t' (omega (arith, lt, lower)) in
            (final, rw (n, e, done))
      ]
