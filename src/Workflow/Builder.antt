-- ===== src/Workflow/Builder.antt =====
-- The executable graph that app/workflows/graph/builder.py makes of a definition.
pub mod Progress
pub mod Execution
pub mod Measure
use testingmulti.Common.{suc, zero, ℕ}
use testingmulti.Workflow.{
  GraphDefinition, RouterDefinition, validate_graph, validate_router_static_edge_conflict,
}
use testingmulti.Common.{
  Bool, Dict, List, Option, String, [], all, and_then, contains, false, if◌then◌else◌, is_some,
  lookup, map, none, some, ◌&&◌, ◌==◌, ◌||◌, ◌∷◌,
}
use testingmulti.Common.Value.{Fields, Value, get, obj, truthy}

abbrev pub error_node : String
error_node = "record_workflow_failure"

-- `has_workflow_error` of app/domain/error_catalog.py
abbrev has_code : Value → Bool
has_code (obj error) = truthy (get error "code")
has_code _ = false

unfoldable pub has_workflow_error : Fields → Bool
has_workflow_error state = has_code (get state "error")

abbrev pub routed : Dict (Fields → String) → String × RouterDefinition → Bool
routed registry (node, r) = is_some (lookup r.router registry)

-- Whether `build_graph` raises no error, for the names in `NODE_REGISTRY` and in `ROUTER_REGISTRY`.
unfoldable pub build_graph_accepts : List String → Dict (Fields → String) → GraphDefinition → Bool
unfolding validate_graph validate_router_static_edge_conflict
build_graph_accepts registered registry g =
    validate_graph g
    && (validate_router_static_edge_conflict g
        && (all (contains registered) g.nodes
            && ((contains g.nodes error_node || contains registered error_node)
                && all (routed registry) g.routers)))

-- Where the first static edge of `node` leads.
abbrev pub static_target : String → List (List String) → Option String
static_target node [] = none
static_target node ((src ∷ dst ∷ []) ∷ edges) =
    if src == node then some dst else static_target node edges
static_target node (_ ∷ edges) = static_target node edges

abbrev pub or_error : Fields → Option String → Option String
or_error state target = if has_workflow_error state then some error_node else target

abbrev pub routed_target :
    Dict (Fields → String)
    → GraphDefinition
    → String
    → Fields
    → Option RouterDefinition
    → Option String
routed_target registry g node state none =
    and_then (static_target node g.edges) (λ dst. or_error state (some dst))
routed_target registry g node state (some r) =
    or_error state (and_then (lookup r.router registry) (λ router. lookup (router state) r.map))

-- The node that runs after `node`: each static edge and each router of `build_graph` is a conditional
-- edge that first looks for a recorded error. `none` if nothing follows, and where the branch that a
-- router names is missing from its map.
unfoldable pub successor :
    Dict (Fields → String) → GraphDefinition → String → Fields → Option String
successor registry g node state =
    if node == error_node
    then some g.exit
    else routed_target registry g node state (lookup node g.routers)

module _ (registry : Dict (Fields → String)) (g : GraphDefinition)
    (run : String → Fields → Fields) where
  -- A run of the graph from `node`: each node maps the state, until the exit has run. `none` if the
  -- fuel runs out or nothing follows.
  unfoldable pub execute : ℕ → String → Fields → Option Fields
  unfolding successor
  execute zero node state = none
  execute (suc fuel) node state =
      if node == g.exit
      then some (run node state)
      else and_then (successor registry g node (run node state))
          (λ m. execute fuel m (run node state))
