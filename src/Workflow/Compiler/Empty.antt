-- ===== src/Workflow/Compiler/Empty.antt =====
-- Compilation with an empty overlay.
-- No key stands twice: a Python dictionary.
use testingmulti.Workflow.{
  GraphDefinition, RouterDefinition, edge_ok, keys, validate_graph, validate_overlay,
  validate_overlay_targets_exist,
}
use testingmulti.Workflow.Compiler.{
  compile_edges, compile_graph, compile_map, compile_nodes, compile_router, compile_routers,
  compiled, empty_overlay, without,
}
use testingmulti.Common.{
  Bool, Bool-cases, Dict, List, String, [], all, ap, arith, both_true, contains, eq_iff, false,
  if◌then◌else◌, inl, inr, insert, none, not, refl, some, subst, sym, true, ◌&&◌, ◌++◌, ◌==◌, ◌||◌,
  ◌∙◌, ◌∷◌, ◌≡◌,
}
use mathlib.Core.List.{append-nil, append_assoc}
use text.Mathlib.TextPositions.{eq_refl}

abbrev pub is_dict : List String → Bool
is_dict [] = true
is_dict (k ∷ ks) = not (contains ks k) && is_dict ks

compile_nodes_empty : (ns : List String) → compile_nodes empty_overlay ns ≡ ns
compile_nodes_empty [] = refl
compile_nodes_empty (n ∷ ns) = ap (λ l. n ∷ l) (compile_nodes_empty ns)

compile_map_empty : (d : Dict String) → compile_map empty_overlay d ≡ d
compile_map_empty [] = refl
compile_map_empty ((k, t) ∷ d) = ap (λ l. (k, t) ∷ l) (compile_map_empty d)

without_empty : (es : List (List String)) → without [] es ≡ es
without_empty [] = refl
without_empty (e ∷ es) = ap (λ l. e ∷ l) (without_empty es)

compile_edges_empty :
    (nodes : List String) (es : List (List String))
    → all (edge_ok nodes) es ≡ true
    → compile_edges empty_overlay es ≡ es
compile_edges_empty nodes [] h = refl
compile_edges_empty nodes ([] ∷ es) h = ground (arith, h)
compile_edges_empty nodes ((x ∷ []) ∷ es) h = ground (arith, h)
compile_edges_empty nodes ((x ∷ y ∷ z ∷ w) ∷ es) h = ground (arith, h)
compile_edges_empty nodes ((src ∷ dst ∷ []) ∷ es) h =
    ap (λ l. (src ∷ dst ∷ []) ∷ l)
      (compile_edges_empty nodes es (both_true (edge_ok nodes (src ∷ dst ∷ [])) h).1)

module _ {ℓ} {V : Type ℓ} where
  contains_mid :
      (acc : Dict V) (k : String) (v : V) (rs : Dict V)
      → contains (keys (acc ++ (k, v) ∷ rs)) k ≡ true
  contains_mid [] k v rs = rw (eq_refl k)
  contains_mid ((j, w) ∷ acc) k v rs = ground (arith, contains_mid acc k v rs)

  key_is_fresh :
      (acc : Dict V) (k : String) (v : V) (rs : Dict V)
      → is_dict (keys (acc ++ (k, v) ∷ rs)) ≡ true
      → contains (keys acc) k ≡ false
  key_is_fresh [] k v rs h = refl
  key_is_fresh ((j, w) ∷ acc) k v rs h =
      let (absent, rest) = both_true (not (contains (keys (acc ++ (k, v) ∷ rs)) j)) h in
      elim (Bool-cases (j == k)) [
        | inl y ↦
            let there =
              subst (λ z. contains (keys (acc ++ (k, v) ∷ rs)) z ≡ true) (sym ((eq_iff j k).0 y))
                (contains_mid acc k v rs) in
            ground (arith, there, absent)
        | inr n ↦ rw (n, key_is_fresh acc k v rs rest)
      ]

  insert_fresh :
      (k : String) (v : V) (acc : Dict V)
      → contains (keys acc) k ≡ false
      → insert k v acc ≡ acc ++ (k, v) ∷ []
  insert_fresh k v [] h = refl
  insert_fresh k v ((j, w) ∷ acc) h = elim (Bool-cases (j == k)) [
    | inl y ↦ ground (arith, h, y)
    | inr n ↦ rw n (
        ap (λ l. (j, w) ∷ l)
          (insert_fresh k v acc (sym (ap (λ b. b || contains (keys acc) k) n) ∙ h)))
  ]

compile_routers_empty :
    (acc rs : Dict RouterDefinition)
    → is_dict (keys (acc ++ rs)) ≡ true
    → compile_routers empty_overlay acc rs ≡ acc ++ rs
compile_routers_empty acc [] h = sym (append-nil acc)
compile_routers_empty acc ((k, r) ∷ rs) h =
    let grown : insert k (compile_router empty_overlay r) acc ≡ acc ++ (k, r) ∷ [] =
      rw (compile_map_empty r.map) (insert_fresh k r acc (key_is_fresh acc k r rs h)) in
    let assoc = append_assoc acc ((k, r) ∷ []) rs in
    ap (λ a. compile_routers empty_overlay a rs) grown
    ∙ (compile_routers_empty (acc ++ (k, r) ∷ []) rs (ap (λ l. is_dict (keys l)) assoc ∙ h) ∙ assoc)

compiled_empty :
    (g : GraphDefinition)
    → all (edge_ok g.nodes) g.edges ≡ true
    → is_dict (keys g.routers) ≡ true
    → compiled g empty_overlay ≡ g
compiled_empty g edges unique = rw (
  compiled,
  compile_nodes_empty g.nodes,
  compile_edges_empty g.nodes g.edges edges,
  append-nil g.edges,
  without_empty g.edges,
  compile_routers_empty [] g.routers unique,
)

edges_of_valid :
    (g : GraphDefinition) → validate_graph g ≡ true → all (edge_ok g.nodes) g.edges ≡ true
unfolding validate_graph
edges_of_valid g valid =
    let (_, v1) = both_true (contains g.nodes g.entry) valid in
    let (_, v2) = both_true (contains g.nodes g.exit) v1 in
    (both_true (all (edge_ok g.nodes) g.edges) v2).0

-- A tenant that changes nothing runs the deployed graph: compiling a valid graph, whose routers stand
-- in a dictionary, with an empty overlay gives that graph.
pub compile_graph_empty :
    (g : GraphDefinition)
    → validate_graph g ≡ true
    → is_dict (keys g.routers) ≡ true
    → compile_graph g empty_overlay ≡ some g
unfolding compile_graph validate_overlay validate_overlay_targets_exist
compile_graph_empty g valid unique =
    let same = compiled_empty g (edges_of_valid g valid) unique in
    let checked : (if validate_graph g then some g else none) ≡ some g = rw valid in
    rw valid (ap (λ h. if validate_graph h then some h else none) same ∙ checked)
