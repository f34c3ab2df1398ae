-- ===== src/Workflow/Builder/Execution.antt =====
-- Running an executable graph, and why a run ends.
use testingmulti.Common.{◌≤◌}
use testingmulti.Workflow.Builder.{execute, has_workflow_error, or_error, routed_target}
use testingmulti.Workflow.Builder.Progress.{Moves}
use testingmulti.Common.{
  OnSome-elim, all-contains, and_then-OnSome, ap, arith, contains, length, sym, ◌+◌, ◌<◌, ◌∙◌,
}
use testingmulti.Workflow.{GraphDefinition, RouterDefinition, values}
use testingmulti.Workflow.Builder.{error_node, static_target, successor}
use testingmulti.Workflow.Builder.Progress.{is_target}
use testingmulti.Common.{
  Bool, Bool-cases, Dict, List, OnSome, Option, String, [], all, and_then, both_true, eq_iff, false,
  if◌then◌else◌, inl, inr, lookup, ltb, none, some, subst, suc, true, zero, ℕ, ◌&&◌, ◌==◌, ◌||◌,
  ◌∷◌, ◌≡◌,
}
use testingmulti.Common.Value.{Fields}

-- The place of a name in a list; the length of the list if it is not there.
abbrev pub place : List String → String → ℕ
place [] n = 0
place (x ∷ xs) n = if x == n then 0 else suc (place xs n)

pub place_bound : (xs : List String) (n : String) → place xs n ≤ length xs
place_bound [] n = omega arith
place_bound (x ∷ xs) n = elim (Bool-cases (x == n)) [
  | inl y ↦ rw y (omega arith)
  | inr h ↦ rw h (omega (arith, place_bound xs n))
]

pub ltb_lt : (a b : ℕ) → ltb a b ≡ true → a < b
ltb_lt a b h = ground (arith, h)

absurd {ℓ} : {A : Type ℓ} → 1 ≤ 0 → A
absurd h = elim h [ ]

module _ (order : List String) where
  -- `m` stands after `n`.
  abbrev pub up : String → String → Bool
  up n m = ltb (place order n) (place order m)

  abbrev pub edge_up : List String → Bool
  edge_up (src ∷ dst ∷ []) = up src dst
  edge_up _ = true

  abbrev pub router_up : String × RouterDefinition → Bool
  router_up (node, r) = all (up node) (values r.map)

  abbrev pub error_up : GraphDefinition → String → Bool
  error_up g n = n == g.exit || up n error_node

  -- Every edge, every branch of a router and every failure leads to a later place in `order`.
  abbrev pub is_ordered : GraphDefinition → Bool
  is_ordered g =
      all edge_up g.edges
      && (all router_up g.routers && (all (error_up g) g.nodes && up error_node g.exit))

  on_static :
      (node : String) (edges : List (List String))
      → all edge_up edges ≡ true
      → OnSome (λ m. up node m ≡ true) (static_target node edges)
  on_static node [] a = tt
  on_static node ([] ∷ es) a = on_static node es a
  on_static node ((x ∷ []) ∷ es) a = on_static node es a
  on_static node ((x ∷ y ∷ z ∷ w) ∷ es) a = on_static node es a
  on_static node ((src ∷ dst ∷ []) ∷ es) a =
      let (here_up, rest) = both_true (up src dst) a in
      elim (Bool-cases (src == node)) [
        | inl y ↦ rw y (subst (λ n. up n dst ≡ true) ((eq_iff src node).0 y) here_up)
        | inr n ↦ rw n (on_static node es rest)
      ]

  on_lookup :
      (p : String → Bool) (d : Dict String) (s : String)
      → all p (values d) ≡ true
      → OnSome (λ m. p m ≡ true) (lookup s d)
  on_lookup p [] s a = tt
  on_lookup p ((j, v) ∷ d) s a =
      let (pv, rest) = both_true (p v) a in
      elim (Bool-cases (j == s)) [ inl y ↦ rw y pv | inr n ↦ rw n (on_lookup p d s rest) ]

  on_router :
      (node : String) (rs : Dict RouterDefinition)
      → all router_up rs ≡ true
      → OnSome (λ r. all (up node) (values r.map) ≡ true) (lookup node rs)
  on_router node [] a = tt
  on_router node ((j, r) ∷ rs) a =
      let (here_up, rest) = both_true (router_up (j, r)) a in
      elim (Bool-cases (j == node)) [
        | inl y ↦ rw y (subst (λ n. all (up n) (values r.map) ≡ true) ((eq_iff j node).0 y) here_up)
        | inr n ↦ rw n (on_router node rs rest)
      ]

  module _ (registry : Dict (Fields → String)) (g : GraphDefinition) where
    on_or_error :
        (node : String) (state : Fields) (o : Option String)
        → up node error_node ≡ true
        → OnSome (λ m. up node m ≡ true) o
        → OnSome (λ m. up node m ≡ true) (or_error state o)
    on_or_error node state o failing h = elim (Bool-cases (has_workflow_error state)) [
      | inl y ↦ rw y failing
      | inr n ↦ rw n h
    ]

    on_routed_target :
        (node : String) (state : Fields) (r : Option RouterDefinition)
        → up node error_node ≡ true
        → all edge_up g.edges ≡ true
        → OnSome (λ r. all (up node) (values r.map) ≡ true) r
        → OnSome (λ m. up node m ≡ true) (routed_target registry g node state r)
    on_routed_target node state none failing edges h =
        and_then-OnSome (λ m. up node m ≡ true) (λ dst. or_error state (some dst))
          (static_target node g.edges)
          (λ m e. on_or_error node state (some m) failing (
            OnSome-elim (λ m. up node m ≡ true) (static_target node g.edges) m
              (on_static node g.edges edges) e))
    on_routed_target node state (some r) failing edges h =
        on_or_error node state
          (and_then (lookup r.router registry) (λ router. lookup (router state) r.map)) failing
          (and_then-OnSome (λ m. up node m ≡ true) (λ router. lookup (router state) r.map)
            (lookup r.router registry) (λ router e. on_lookup (up node) r.map (router state) h))

    -- The successor stands later in the order.
    pub successor-up :
        (node : String) (state : Fields)
        → is_ordered g ≡ true
        → is_target g node ≡ true
        → (node == g.exit) ≡ false
        → OnSome (λ m. up node m ≡ true) (successor registry g node state)
    unfolding successor
    successor-up node state o t not_exit =
        let (edges, o1) = both_true (all edge_up g.edges) o in
        let (routers, o2) = both_true (all router_up g.routers) o1 in
        let (errors, last) = both_true (all (error_up g) g.nodes) o2 in
        elim (Bool-cases (node == error_node)) [
          | inl y ↦ rw y (subst (λ n. up n g.exit ≡ true) (sym ((eq_iff node error_node).0 y)) last)
          | inr n ↦
              let inside : contains g.nodes node ≡ true = ground (arith, t, n) in
              let failing : up node error_node ≡ true =
                sym (ap (λ b. b || up node error_node) not_exit)
                ∙ all-contains (error_up g) g.nodes node errors inside in
              rw n (
                on_routed_target node state (lookup node g.routers) failing edges
                  (on_router node g.routers routers))
        ]

    -- A run from any node ends at the exit, when every node but the exit has a successor in every
    -- state that `P` admits, and the nodes keep `P`.
    pub execute_ends :
        (run : String → Fields → Fields) (P : Fields → Type 0)
        → ((node : String) (state : Fields) → P state → P (run node state))
        → ((node : String) (state : Fields)
            → P state
            → is_target g node ≡ true
            → (node == g.exit) ≡ false
            → Moves registry state g (successor registry g node state))
        → is_ordered g ≡ true
        → (fuel : ℕ) (node : String) (state : Fields) → P state
        → is_target g node ≡ true
        → length order < fuel + place order node
        → (final : Fields) × (execute registry g run fuel node state ≡ some final)
    unfolding execute
    execute_ends run P keeps moves o zero node state p t lt =
        absurd (omega (arith, lt, place_bound order node))
    execute_ends run P keeps moves o (suc fuel) node state p t lt =
        elim (Bool-cases (node == g.exit)) [
          | inl y ↦ (run node state, rw y)
          | inr n ↦
              let state' = run node state in
              let p' = keeps node state p in
              let (m, e, t') = moves node state' p' t n in
              let higher =
                OnSome-elim (λ m. up node m ≡ true) (successor registry g node state') m
                  (successor-up node state' o t n) e in
              let (final, done) =
                execute_ends run P keeps moves o fuel m state' p' t'
                  (omega (arith, lt, ltb_lt (place order node) (place order m) higher)) in
              (final, rw (n, e, done))
        ]
