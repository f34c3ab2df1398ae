-- ===== src/Workflow/Builder/Progress.antt =====
-- A graph never stops before its exit.
use testingmulti.Workflow.Builder.{routed_target}
use testingmulti.Common.{Option-cases, all-contains, none, refl}
use testingmulti.Workflow.{validate_graph}
use testingmulti.Workflow.Builder.{successor}
use testingmulti.Common.{OnSome, false, subst, ◌&&◌}
use testingmulti.Workflow.{edge_ok, router_ok}
use testingmulti.Workflow.Routers.Known.{this}
use testingmulti.Common.{List, and_then, ap, arith, both_true, if◌then◌else◌, sym, ◌∙◌}
use text.Mathlib.TextPositions.{eq_refl}
use testingmulti.Workflow.{GraphDefinition, RouterDefinition, keys, values}
use testingmulti.Workflow.Builder.{error_node, has_workflow_error, or_error, static_target}
use testingmulti.Workflow.Routers.Known.{Known}
use testingmulti.Common.{
  Bool, Bool-cases, Dict, Option, String, [], all, contains, inl, inr, is_some, lookup, some, true,
  ◌==◌, ◌||◌, ◌∷◌, ◌≡◌,
}
use testingmulti.Common.Value.{Fields}

-- A node of the graph, or the one that records a failure
abbrev pub is_target : GraphDefinition → String → Bool
is_target g m = contains g.nodes m || m == error_node

module _ (registry : Dict (Fields → String)) (state : Fields) where
  -- In `state` every router is registered and names a branch of its map.
  abbrev pub RoutesKnown : Dict RouterDefinition → Type 0
  RoutesKnown [] = Unit
  RoutesKnown ((node, r) ∷ rs) =
      ((f : Fields → String) × (lookup r.router registry ≡ some f) × Known (keys r.map) (f state))
      × RoutesKnown rs

  -- The node leads somewhere.
  abbrev pub has_out : GraphDefinition → String → Bool
  has_out g n = n == g.exit || (is_some (lookup n g.routers) || is_some (static_target n g.edges))

  -- The successor is there, and it is a node of the graph or the one that records a failure.
  abbrev pub Moves : GraphDefinition → Option String → Type 0
  Moves g o = (m : String) × (o ≡ some m) × (is_target g m ≡ true)

  lookup-Known :
      (p : String → Bool) (d : Dict String) (s : String)
      → Known (keys d) s
      → all p (values d) ≡ true
      → (m : String) × (lookup s d ≡ some m) × (p m ≡ true)
  lookup-Known p [] s k a = ground (arith, k.known)
  lookup-Known p ((j, v) ∷ d) s k a =
      let (pv, rest) = both_true (p v) a in
      elim (Bool-cases (j == s)) [
        | inl y ↦ (v, rw y, pv)
        | inr n ↦
            let (m, e, pm) =
              lookup-Known p d s (this (sym (ap (λ b. b || contains (keys d) s) n) ∙ k.known))
                rest in
            (m, rw (n, e), pm)
      ]

  error_node-target : (g : GraphDefinition) → is_target g error_node ≡ true
  error_node-target g = ground (arith, eq_refl error_node)

  Moves-or_error :
      (g : GraphDefinition) (o : Option String) → Moves g o → Moves g (or_error state o)
  Moves-or_error g o (m, e, t) = elim (Bool-cases (has_workflow_error state)) [
    | inl y ↦ (error_node, rw y, error_node-target g)
    | inr n ↦ (m, rw (n, e), t)
  ]

  Moves-branch :
      (g : GraphDefinition) (j : String) (q : RouterDefinition) (f : Fields → String)
      → lookup q.router registry ≡ some f
      → Known (keys q.map) (f state)
      → router_ok g.nodes (j, q) ≡ true
      → Moves g (and_then (lookup q.router registry) (λ router. lookup (router state) q.map))
  Moves-branch g j q f ef kf fine =
      let (m, e, t) =
        lookup-Known (contains g.nodes) q.map (f state) kf
          (both_true (contains g.nodes j) fine).1 in
      (m, rw (ef, e), rw t)

  -- A router's branch leads to a node of the graph.
  Moves-routed :
      (g : GraphDefinition) (node : String) (rs : Dict RouterDefinition) (r : RouterDefinition)
      → RoutesKnown rs
      → all (router_ok g.nodes) rs ≡ true
      → lookup node rs ≡ some r
      → Moves g (and_then (lookup r.router registry) (λ router. lookup (router state) r.map))
  Moves-routed g node [] r k a e = ground (arith, e)
  Moves-routed g node ((j, q) ∷ rs) r ((f, ef, kf), ks) a e =
      let (fine, rest) = both_true (router_ok g.nodes (j, q)) a in
      elim (Bool-cases (j == node)) [
        | inl y ↦
            let same : some q ≡ some r =
              sym (ap (λ b. if b then some q else lookup node rs) y) ∙ e in
            subst
              (λ o. Moves g (
                and_then o (λ r'.
                  and_then (lookup r'.router registry) (λ router. lookup (router state) r'.map))))
              same (Moves-branch g j q f ef kf fine)
        | inr n ↦
            Moves-routed g node rs r ks rest
              (sym (ap (λ b. if b then some q else lookup node rs) n) ∙ e)
      ]

  Moves-static :
      (g : GraphDefinition) (node m : String) (edges : List (List String))
      → all (edge_ok g.nodes) edges ≡ true
      → static_target node edges ≡ some m
      → contains g.nodes m ≡ true
  Moves-static g node m [] a e = ground (arith, e)
  Moves-static g node m ([] ∷ es) a e = ground (arith, a)
  Moves-static g node m ((x ∷ []) ∷ es) a e = ground (arith, a)
  Moves-static g node m ((x ∷ y ∷ z ∷ w) ∷ es) a e = ground (arith, a)
  Moves-static g node m ((src ∷ dst ∷ []) ∷ es) a e =
      let (fine, rest) = both_true (contains g.nodes src && contains g.nodes dst) a in
      elim (Bool-cases (src == node)) [
        | inl y ↦
            let same : some dst ≡ some m =
              sym (ap (λ b. if b then some dst else static_target node es) y) ∙ e in
            subst (λ o. OnSome (λ z. contains g.nodes z ≡ true) o) same
              (both_true (contains g.nodes src) fine).1
        | inr n ↦
            Moves-static g node m es rest
              (sym (ap (λ b. if b then some dst else static_target node es) n) ∙ e)
      ]

  Moves-routed_target :
      (g : GraphDefinition) (node : String) (o : Option RouterDefinition)
      → lookup node g.routers ≡ o
      → all (edge_ok g.nodes) g.edges ≡ true
      → all (router_ok g.nodes) g.routers ≡ true
      → RoutesKnown g.routers
      → (is_some o || is_some (static_target node g.edges)) ≡ true
      → Moves g (routed_target registry g node state o)
  Moves-routed_target g node (some r) e edges routers known out =
      Moves-or_error g _ (Moves-routed g node g.routers r known routers e)
  Moves-routed_target g node none e edges routers known out =
      elim (Option-cases (static_target node g.edges)) [
        | inl h ↦ ground (arith, sym (ap is_some h) ∙ out)
        | inr (m, h) ↦
            rw h (Moves-or_error g (some m) (m, refl, rw (Moves-static g node m g.edges edges h)))
      ]

  -- In a valid graph whose routers all name branches of their maps in `state`, and in which every node
  -- but the exit has a router or an edge, every node but the exit has a successor, which is a node of
  -- the graph or the one that records a failure.
  pub successor-Moves :
      (g : GraphDefinition) (node : String)
      → validate_graph g ≡ true
      → all (has_out g) g.nodes ≡ true
      → RoutesKnown g.routers
      → contains g.nodes node ≡ true
      → (node == g.exit) ≡ false
      → Moves g (successor registry g node state)
  unfolding validate_graph successor
  successor-Moves g node valid out known inside not_exit =
      let (_, valid1) = both_true (contains g.nodes g.entry) valid in
      let (exit_in, valid2) = both_true (contains g.nodes g.exit) valid1 in
      let (edges, routers) = both_true (all (edge_ok g.nodes) g.edges) valid2 in
      let out_here = all-contains (has_out g) g.nodes node out inside in
      let leads =
        sym (
          ap (λ b. b || (is_some (lookup node g.routers) || is_some (static_target node g.edges)))
            not_exit)
        ∙ out_here in
      elim (Bool-cases (node == error_node)) [
        | inl y ↦ (g.exit, rw y, rw exit_in)
        | inr n ↦
            rw n (Moves-routed_target g node (lookup node g.routers) refl edges routers known leads)
      ]

  -- The same from any node that may run, the one that records a failure included.
  pub target-Moves :
      (g : GraphDefinition) (node : String)
      → validate_graph g ≡ true
      → all (has_out g) g.nodes ≡ true
      → RoutesKnown g.routers
      → is_target g node ≡ true
      → (node == g.exit) ≡ false
      → Moves g (successor registry g node state)
  unfolding validate_graph successor
  target-Moves g node valid out known target not_exit = elim (Bool-cases (node == error_node)) [
    | inl y ↦
        let (_, valid1) = both_true (contains g.nodes g.entry) valid in
        let (exit_in, _) = both_true (contains g.nodes g.exit) valid1 in (g.exit, rw y, rw exit_in)
    | inr n ↦ successor-Moves g node valid out known (ground (arith, target, n)) not_exit
  ]
