-- ===== src/Workflow/Compiler.antt =====
-- The graph of a tenant: app/workflows/compiler/compiler.py.
pub mod Sound
pub mod Picked
pub mod Empty
use testingmulti.Lifecycle.Step.Effect.{entry}
use testingmulti.Common.{map}
use testingmulti.Workflow.{keys}
use testingmulti.Common.{Bool-cases, eq_iff, inl, inr, subst, sym, ◌∙◌}
use mathlib.Core.List.{append-nil, append_assoc}
use text.Mathlib.TextPositions.{eq_refl}
use testingmulti.Workflow.{
  GraphDefinition, RouterDefinition, TenantWorkflowOverlay, edge_ok, validate_graph,
  validate_overlay, validate_overlay_targets_exist,
}
use testingmulti.Common.{
  Bool, Dict, List, Option, String, [], all, any, ap, arith, both_true, contains, false,
  if◌then◌else◌, insert, lookup, none, not, or_else, refl, some, true, ◌&&◌, ◌++◌, ◌==◌, ◌||◌, ◌∷◌,
  ◌≡◌,
}
use testingmulti.Common.Text.{replace}

abbrev pub replaced : Dict String → String → String
replaced replace node = or_else (lookup node replace) node

abbrev pub compile_nodes : TenantWorkflowOverlay → List String → List String
compile_nodes o [] = []
compile_nodes o (n ∷ ns) =
    let rest = compile_nodes o ns in
    if contains o.disable_nodes n then rest else replaced o.replace n ∷ rest

-- The edges between nodes that stay; every edge of a validated graph has two ends.
abbrev pub compile_edges : TenantWorkflowOverlay → List (List String) → List (List String)
compile_edges o [] = []
compile_edges o ((src ∷ dst ∷ []) ∷ es) =
    let rest = compile_edges o es in
    if contains o.disable_nodes src || contains o.disable_nodes dst
    then rest
    else (replaced o.replace src ∷ replaced o.replace dst ∷ []) ∷ rest
compile_edges o (_ ∷ es) = compile_edges o es

-- `==` on lists of texts
abbrev pub same_texts : List String → List String → Bool
same_texts [] [] = true
same_texts (a ∷ l) (b ∷ m) = a == b && same_texts l m
same_texts _ _ = false

-- `[e for e in edges if e not in remove_edges]`
abbrev pub without : List (List String) → List (List String) → List (List String)
without removed [] = []
without removed (e ∷ es) =
    let rest = without removed es in if any (same_texts e) removed then rest else e ∷ rest

abbrev pub compile_map : TenantWorkflowOverlay → Dict String → Dict String
compile_map o [] = []
compile_map o ((k, target) ∷ d) =
    let rest = compile_map o d in
    if contains o.disable_nodes target then rest else (k, replaced o.replace target) ∷ rest

abbrev pub compile_router : TenantWorkflowOverlay → RouterDefinition → RouterDefinition
compile_router o r = record { router = r.router; map = compile_map o r.map }

-- The loop over the routers, with those compiled so far.
abbrev pub compile_routers :
    TenantWorkflowOverlay → Dict RouterDefinition → Dict RouterDefinition → Dict RouterDefinition
compile_routers o acc [] = acc
compile_routers o acc ((node, r) ∷ rs) =
    compile_routers o
      (if contains o.disable_nodes node
        then acc
        else insert (replaced o.replace node) (compile_router o r) acc)
      rs

abbrev pub compiled : GraphDefinition → TenantWorkflowOverlay → GraphDefinition
compiled base o = record {
  entry = replaced o.replace base.entry;
  exit = replaced o.replace base.exit;
  nodes = compile_nodes o base.nodes;
  edges = without o.remove_edges (compile_edges o base.edges ++ o.add_edges);
  routers = compile_routers o [] base.routers;
}

-- `compile_graph`; `none` is the ValueError of a validation.
unfoldable pub compile_graph : GraphDefinition → TenantWorkflowOverlay → Option GraphDefinition
unfolding validate_graph validate_overlay validate_overlay_targets_exist
compile_graph base o =
    if validate_graph base && (validate_overlay o && validate_overlay_targets_exist base o)
    then (let g = compiled base o in if validate_graph g then some g else none)
    else none

abbrev pub empty_overlay : TenantWorkflowOverlay
empty_overlay = record { replace = []; add_edges = []; remove_edges = []; disable_nodes = [] }
