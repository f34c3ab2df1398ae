-- ===== src/Workflow/Compiler/Sound.antt =====
-- What compilation promises of its result.
use mathlib.Core.List.{Memᴰ}
use mathlib.Core.List.Memᴰ
use testingmulti.Workflow.{GraphDefinition, RouterDefinition, TenantWorkflowOverlay, validate_graph}
use testingmulti.Workflow.Compiler.{compile_edges, same_texts}
use testingmulti.Workflow.Compiler.Picked.{RouterOf, renamed, renamed_edge}
use testingmulti.Common.{List, String, any, false, some, true, ◌++◌, ◌≡◌, ◌⊎◌, ◌↔◌}

-- The edge is none of those that are removed.
abbrev pub IsKept : List (List String) → List String → Type 0
IsKept removed e = any (same_texts e) removed ≡ false

module _ (base : GraphDefinition) (o : TenantWorkflowOverlay) where
  -- An edge between nodes that stay, under their new names, or one that the tenant adds
  abbrev pub EdgeOf : List String → Type 0
  EdgeOf e =
      ((d : List String) × Memᴰ d base.edges × (renamed_edge o d ≡ some e)) ⊎ Memᴰ e o.add_edges

  abbrev both : List (List String)
  both = compile_edges o base.edges ++ o.add_edges

  -- A valid graph with exactly the nodes that stay, under their new names, exactly the edges between
  -- them and the added ones without the removed ones, and only routers of the base graph, at nodes
  -- that stay and with exactly their routes to nodes that stay.
  abbrev pub Sound : GraphDefinition → Type 0
  Sound g =
      (validate_graph g ≡ true)
      × ((n : String)
          → Memᴰ n g.nodes ↔ ((m : String) × Memᴰ m base.nodes × (renamed o m ≡ some n)))
      × ((e : List String) → Memᴰ e g.edges ↔ (EdgeOf e × IsKept o.remove_edges e))
      × ((node : String) (r : RouterDefinition)
          → Memᴰ (node, r) g.routers
          → RouterOf o base.routers node r)
