-- ===== src/Workflow.antt =====
-- Workflow graphs: their definition and checks (app/workflows/contracts.py, app/workflows/validators.py)
-- and the way the graph builder connects them (app/workflows/graph/builder.py).
pub mod Configs
pub mod Routers
pub mod Builder
pub mod Compiler
pub mod Deployed
pub mod Runs
pub mod Waterfall
mod Examples
use testingmulti.Common.Text.{replace}
use testingmulti.Common.{
  Bool, Dict, List, String, [], all, contains, false, map, not, true, ◌&&◌, ◌++◌, ◌||◌, ◌∷◌,
}

-- `RouterDefinition`
pub record RouterDefinition : Type 0 where
  pub router : String
  pub map : Dict String

-- `GraphDefinition`, before its validation
pub record GraphDefinition : Type 0 where
  pub entry : String
  pub exit : String
  pub nodes : List String
  pub edges : List (List String)
  pub routers : Dict RouterDefinition

-- `TenantWorkflowOverlay`, before its validation
pub record TenantWorkflowOverlay : Type 0 where
  pub replace : Dict String
  pub add_edges : List (List String)
  pub remove_edges : List (List String)
  pub disable_nodes : List String

abbrev pub keys {ℓ} : {V : Type ℓ} → Dict V → List String
keys [] = []
keys ((k, v) ∷ d) = k ∷ keys d

abbrev pub values {ℓ} : {V : Type ℓ} → Dict V → List V
values [] = []
values ((k, v) ∷ d) = v ∷ values d

abbrev pub edge_ok : List String → List String → Bool
edge_ok nodes (src ∷ dst ∷ []) = contains nodes src && contains nodes dst
edge_ok nodes _ = false

abbrev pub router_ok : List String → String × RouterDefinition → Bool
router_ok nodes (node, r) = contains nodes node && all (contains nodes) (values r.map)

-- `GraphDefinition.validate_graph`: whether it raises no error
unfoldable pub validate_graph : GraphDefinition → Bool
validate_graph g =
    contains g.nodes g.entry
    && (contains g.nodes g.exit
        && (all (edge_ok g.nodes) g.edges && all (router_ok g.nodes) g.routers))

abbrev has_two : List String → Bool
has_two (_ ∷ _ ∷ []) = true
has_two _ = false

-- `TenantWorkflowOverlay.validate_overlay`
unfoldable pub validate_overlay : TenantWorkflowOverlay → Bool
validate_overlay o = all has_two (o.add_edges ++ o.remove_edges)

abbrev overlay_end_ok : GraphDefinition → TenantWorkflowOverlay → String → Bool
overlay_end_ok g o n = contains g.nodes n || contains (values o.replace) n

abbrev overlay_edge_ok : GraphDefinition → TenantWorkflowOverlay → List String → Bool
overlay_edge_ok g o (src ∷ dst ∷ []) = overlay_end_ok g o src && overlay_end_ok g o dst
overlay_edge_ok g o _ = false

-- `validate_overlay_targets_exist`
unfoldable pub validate_overlay_targets_exist : GraphDefinition → TenantWorkflowOverlay → Bool
validate_overlay_targets_exist g o =
    all (contains g.nodes) o.disable_nodes
    && (all (overlay_edge_ok g o) (o.add_edges ++ o.remove_edges)
        && all (contains g.nodes) (keys o.replace))

abbrev not_routed : Dict RouterDefinition → List String → Bool
not_routed routers (src ∷ dst ∷ []) = not (contains (keys routers) src)
not_routed routers _ = false

-- `validate_router_static_edge_conflict`
unfoldable pub validate_router_static_edge_conflict : GraphDefinition → Bool
validate_router_static_edge_conflict g = all (not_routed g.routers) g.edges
