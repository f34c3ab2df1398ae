-- ===== src/Workflow/Compiler/Picked.antt =====
-- What stands in a compiled graph: which of the base graph's nodes, edges and routes, under which name.
use mathlib.Core.List.{Memᴰ}
use mathlib.Core.List.Memᴰ
use testingmulti.Workflow.{RouterDefinition, TenantWorkflowOverlay}
use testingmulti.Workflow.Compiler.{
  compile_edges, compile_map, compile_nodes, compile_router, compile_routers, replaced,
}
use testingmulti.Common.{
  Bool-cases, Dict, List, Option, Option-cases, String, [], and_then, ap, contains, eq_iff, false,
  subst, if◌then◌else◌, inl, inr, insert, none, refl, some, sym, ◌==◌, ◌∙◌, ◌∷◌, ◌≡◌, ◌⊎◌, ◌↔◌,
}

-- The images of the elements that have one
unfoldable pick {ℓ κ} : {A : Type ℓ} {B : Type κ} → (A → Option B) → List A → List B
pick g [] = []
pick g (x ∷ xs) = let rest = pick g xs in elim (g x) [ none ↦ rest | some b ↦ b ∷ rest ]

module _ {A B : Type 0} (g : A → Option B) where
  pick_from : (xs : List A) (b : B) → Memᴰ b (pick g xs) → (a : A) × Memᴰ a xs × (g a ≡ some b)
  unfolding pick
  pick_from [] b m = absurd (Memᴰ.not-nil m)
  pick_from (x ∷ xs) b m = elim (Option-cases (g x)) [
    | inl gone ↦
        let (a, there, e) = pick_from xs b (rw (gone, pick) at m) in (a, Memᴰ.tail there, e)
    | inr (c, kept) ↦ elim (Memᴰ.cases_cons (rw (kept, pick) at m)) [
      | inl e ↦ (x, Memᴰ.head refl, kept ∙ ap some (sym e))
      | inr later ↦ let (a, there, e) = pick_from xs b later in (a, Memᴰ.tail there, e)
    ]
  ]

  pick_in : (xs : List A) (a : A) (b : B) → Memᴰ a xs → g a ≡ some b → Memᴰ b (pick g xs)
  unfolding pick
  pick_in [] a b m e = absurd (Memᴰ.not-nil m)
  pick_in (x ∷ xs) a b m e = elim (Memᴰ.cases_cons m) [
    | inl same ↦ let here : g x ≡ some b = ap g (sym same) ∙ e in rw (here, pick) (Memᴰ.head refl)
    | inr later ↦
        let below = pick_in xs a b later e in
        elim (Option-cases (g x)) [
          | inl gone ↦ rw (gone, pick) below
          | inr (c, kept) ↦ rw (kept, pick) (Memᴰ.tail below)
        ]
  ]

  pick-Mem : (xs : List A) (b : B) → Memᴰ b (pick g xs) ↔ ((a : A) × Memᴰ a xs × (g a ≡ some b))
  pick-Mem xs b = (pick_from xs b, λ (a, m, e). pick_in xs a b m e)

module _ (o : TenantWorkflowOverlay) where
  -- The name under which a node stays, unless the tenant disables it
  abbrev pub renamed : String → Option String
  renamed n = if contains o.disable_nodes n then none else some (replaced o.replace n)

  -- The edge between the new names of two nodes that stay
  abbrev pub renamed_edge : List String → Option (List String)
  renamed_edge (src ∷ dst ∷ []) =
      and_then (renamed src) λ s. and_then (renamed dst) λ d. some (s ∷ d ∷ [])
  renamed_edge _ = none

  -- The route to the new name of a node that stays
  abbrev pub renamed_route : String × String → Option (String × String)
  renamed_route (key, target) = and_then (renamed target) λ t. some (key, t)

  nodes_picked : (ns : List String) → compile_nodes o ns ≡ pick renamed ns
  unfolding pick
  nodes_picked [] = refl
  nodes_picked (n ∷ ns) = elim (Bool-cases (contains o.disable_nodes n)) [
    | inl gone ↦ rw (pick, gone, nodes_picked ns)
    | inr kept ↦ rw (pick, kept, nodes_picked ns)
  ]

  map_picked : (d : Dict String) → compile_map o d ≡ pick renamed_route d
  unfolding pick
  map_picked [] = refl
  map_picked ((k, t) ∷ d) = elim (Bool-cases (contains o.disable_nodes t)) [
    | inl gone ↦ rw (pick, gone, map_picked d)
    | inr kept ↦ rw (pick, kept, map_picked d)
  ]

  edges_picked : (es : List (List String)) → compile_edges o es ≡ pick renamed_edge es
  unfolding pick
  edges_picked [] = refl
  edges_picked ([] ∷ es) = edges_picked es
  edges_picked ((x ∷ []) ∷ es) = edges_picked es
  edges_picked ((x ∷ y ∷ z ∷ w) ∷ es) = edges_picked es
  edges_picked ((src ∷ dst ∷ []) ∷ es) = elim (Bool-cases (contains o.disable_nodes src)) [
    | inl gone ↦ rw (pick, gone, edges_picked es)
    | inr kept ↦ elim (Bool-cases (contains o.disable_nodes dst)) [
      | inl gone ↦ rw (pick, kept, gone, edges_picked es)
      | inr both ↦ rw (pick, kept, both, edges_picked es)
    ]
  ]

  -- The entries of the compiled routers come from the base graph's.
  insert_from :
      (k j : String) (v w : RouterDefinition) (d : Dict RouterDefinition)
      → Memᴰ (k, v) (insert j w d)
      → ((k ≡ j) × (v ≡ w)) ⊎ Memᴰ (k, v) d
  insert_from k j v w [] m = elim (Memᴰ.cases_cons m) [
    | inl e ↦ inl (ap (λ x. x.0) e, ap (λ x. x.1) e)
    | inr none_left ↦ absurd (Memᴰ.not-nil none_left)
  ]
  insert_from k j v w ((i, u) ∷ d) m = elim (Bool-cases (i == j)) [
    | inl same ↦ elim (Memᴰ.cases_cons (rw same at m)) [
      | inl e ↦ inl (ap (λ x. x.0) e ∙ (eq_iff i j).0 same, ap (λ x. x.1) e)
      | inr later ↦ inr (Memᴰ.tail later)
    ]
    | inr other ↦ elim (Memᴰ.cases_cons (rw other at m)) [
      | inl e ↦ inr (Memᴰ.head e)
      | inr later ↦ elim (insert_from k j v w d later) [
        | inl new ↦ inl new
        | inr old ↦ inr (Memᴰ.tail old)
      ]
    ]
  ]

  -- A router of the base graph, at a node that stays, with the routes to nodes that stay
  abbrev pub RouterOf : Dict RouterDefinition → String → RouterDefinition → Type 0
  RouterOf routers node r =
      (n : String) × (r₀ : RouterDefinition) × Memᴰ (n, r₀) routers
      × (renamed n ≡ some node)
      × (r.router ≡ r₀.router)
      × ((x : String × String)
          → Memᴰ x r.map ↔ ((y : String × String) × Memᴰ y r₀.map × (renamed_route y ≡ some x)))

  later_router :
      (first : String × RouterDefinition) (rs : Dict RouterDefinition) (node : String)
      (r : RouterDefinition)
      → RouterOf rs node r
      → RouterOf (first ∷ rs) node r
  later_router first rs node r (n, r₀, m, named, same, routes) =
      (n, r₀, Memᴰ.tail m, named, same, routes)

  first_router :
      (n : String) (r₀ : RouterDefinition) (rs : Dict RouterDefinition) (node : String)
      (r : RouterDefinition)
      → contains o.disable_nodes n ≡ false
      → node ≡ replaced o.replace n
      → r ≡ compile_router o r₀
      → RouterOf ((n, r₀) ∷ rs) node r
  first_router n r₀ rs node r kept named made = (
    n,
    r₀,
    Memᴰ.head refl,
    rw (kept, named),
    ap (λ (x : RouterDefinition). x.router) made,
    λ x.
        subst (λ d. Memᴰ x d ↔ ((y : String × String) × Memᴰ y r₀.map × (renamed_route y ≡ some x)))
          (sym (ap (λ (q : RouterDefinition). q.map) made ∙ map_picked r₀.map))
          (pick-Mem renamed_route r₀.map x),
  )

  pub routers_from :
      (acc rs : Dict RouterDefinition) (node : String) (r : RouterDefinition)
      → Memᴰ (node, r) (compile_routers o acc rs)
      → Memᴰ (node, r) acc ⊎ RouterOf rs node r
  routers_from acc [] node r m = inl m
  routers_from acc ((n, r₀) ∷ rs) node r m = elim (Bool-cases (contains o.disable_nodes n)) [
    | inl gone ↦ elim (routers_from acc rs node r (rw gone at m)) [
      | inl old ↦ inl old
      | inr later ↦ inr (later_router (n, r₀) rs node r later)
    ]
    | inr kept ↦
        elim (routers_from (insert (replaced o.replace n) (compile_router o r₀) acc) rs node r
          (rw kept at m)) [
            | inl had ↦
                elim (insert_from node (replaced o.replace n) r (compile_router o r₀) acc had) [
                  | inl (named, made) ↦ inr (first_router n r₀ rs node r kept named made)
                  | inr old ↦ inl old
                ]
            | inr later ↦ inr (later_router (n, r₀) rs node r later)
          ]
  ]

  -- The nodes and the edges of the base graph that stay, under their new names
  pub node_of :
      (ns : List String) (n : String)
      → Memᴰ n (compile_nodes o ns) ↔ ((m : String) × Memᴰ m ns × (renamed m ≡ some n))
  node_of ns n =
      subst (λ l. Memᴰ n l ↔ ((m : String) × Memᴰ m ns × (renamed m ≡ some n)))
        (sym (nodes_picked ns)) (pick-Mem renamed ns n)

  pub edge_of :
      (es : List (List String)) (e : List String)
      → Memᴰ e (compile_edges o es) ↔ ((d : List String) × Memᴰ d es × (renamed_edge d ≡ some e))
  edge_of es e =
      subst (λ l. Memᴰ e l ↔ ((d : List String) × Memᴰ d es × (renamed_edge d ≡ some e)))
        (sym (edges_picked es)) (pick-Mem renamed_edge es e)
