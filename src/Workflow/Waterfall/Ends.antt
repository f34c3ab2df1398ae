-- ===== src/Workflow/Waterfall/Ends.antt =====
-- Every run of the `load_tendering` workflow reaches the exit.
use testingmulti.RoutingGuide.{attempt_key, sync_routing_guide_attempt_to_state}
use testingmulti.RoutingGuide.Service.{advance, workflow_scope}
use testingmulti.Common.{Option-cases}
use testingmulti.Common.{ap}
use testingmulti.RoutingGuide.{Env}
use testingmulti.Workflow.{validate_graph}
use testingmulti.RoutingGuide.Store.{World}
use testingmulti.RoutingGuide.Service.{WorkflowState, advance_carrier_routing_guide}
use testingmulti.RoutingGuide.Service.Counter.{advances}
use testingmulti.Workflow.Builder.{execute, successor}
use testingmulti.Workflow.Waterfall.{
  failed_over, first_graph, first_order, first_ordered, second_graph, second_order, second_ordered,
  successor_first, successor_second,
}
use testingmulti.Workflow.Routers.Guards.{Domain}
use testingmulti.Workflow.Routers.Registry.{router_registry}
use testingmulti.Workflow.Deployed.LoadTendering.{load_tendering_routes}
use testingmulti.Workflow.Configs.LoadTendering.{load_tendering}
use testingmulti.Workflow.Builder.Progress.{is_target, target-Moves}
use testingmulti.Workflow.Builder.Measure.{execute_falls}
use testingmulti.Workflow.Builder.Execution.{ltb_lt, place, place_bound, successor-up, up}
use testingmulti.Common.{
  Bool-cases, List, OnSome, Option, String, [], arith, contains, eq_iff, false, if◌then◌else◌, inl,
  inr, length, none, refl, some, subst, sym, true, ℕ, ◌+◌, ◌-◌, ◌<◌, ◌==◌, ◌∙◌, ◌∷◌, ◌≡◌,
}
use testingmulti.Common.Value.{Fields, bool, get, str}
use testingmulti.Common.Dicts.{get-set_field}

abbrev remaining : String → Fields → ℕ
remaining node state =
    if failed_over state
    then length second_order - place second_order node
    else 1 + length second_order + (length first_order - place first_order node)

later_in :
    (order : List String) (n m : String)
    → up order n m ≡ true
    → length order - place order m < length order - place order n
later_in order n m h = omega (arith, ltb_lt (place order n) (place order m) h, place_bound order m)

remaining_of_set :
    (node m : String) (state after : Fields)
    → (failed_over state ≡ true → failed_over after ≡ true)
    → failed_over after ≡ true
    → up second_order node m ≡ true
    → remaining m after < remaining node state
remaining_of_set node m state after sticks set h =
    let lower = later_in second_order node m h in
    elim (Bool-cases (failed_over state)) [
      | inl before ↦ rw (before, set) lower
      | inr unset ↦ rw (unset, set) (omega (arith, lower))
    ]

remaining_of_unset :
    (node m : String) (state after : Fields)
    → (failed_over state ≡ true → failed_over after ≡ true)
    → failed_over after ≡ false
    → up first_order node m ≡ true
    → remaining m after < remaining node state
remaining_of_unset node m state after sticks unset h =
    let lower = later_in first_order node m h in
    elim (Bool-cases (failed_over state)) [
      | inl before ↦ absurd (let set = sticks before in cc)
      | inr fresh ↦ rw (fresh, unset) (omega (arith, lower))
    ]

start : (state : Fields) → remaining "route_event" state < 46
start state = elim (Bool-cases (failed_over state)) [
  | inl set ↦ rw set (omega arith)
  | inr unset ↦ rw unset (omega arith)
]

OnSome-map :
    {A : Type 0} (P Q : A → Type 0)
    → ((a : A) → P a → Q a)
    → (o : Option A) → OnSome P o
    → OnSome Q o
OnSome-map P Q f none p = tt
OnSome-map P Q f (some a) p = f a p

module _ (dom : Domain) (run : String → Fields → Fields)
    (sticks : (node : String) (s : Fields) → failed_over s ≡ true → failed_over (run node s) ≡ true)
    (advances : (s : Fields) → failed_over (run "advance_carrier_routing_guide" s) ≡ true) where
  falls :
      (node : String) (state : Fields)
      → is_target load_tendering node ≡ true
      → (node == load_tendering.exit) ≡ false
      → OnSome
          (λ m. remaining m (run node state) < remaining node state)
          (successor (router_registry dom) load_tendering node (run node state))
  falls node state inside not_exit =
      let after = run node state in
      elim (Bool-cases (failed_over after)) [
        | inl set ↦
            subst (λ o. OnSome (λ m. remaining m after < remaining node state) o)
              (successor_second dom node after set)
              (OnSome-map (λ m. up second_order node m ≡ true) _
                (λ m h. remaining_of_set node m state after (sticks node state) set h) _
                (successor-up second_order (router_registry dom) second_graph node after
                  second_ordered inside not_exit))
        | inr unset ↦
            let other = not_advance node state unset in
            subst (λ o. OnSome (λ m. remaining m after < remaining node state) o)
              (successor_first dom node after other)
              (OnSome-map (λ m. up first_order node m ≡ true) _
                (λ m h. remaining_of_unset node m state after (sticks node state) unset h) _
                (successor-up first_order (router_registry dom) first_graph node after first_ordered
                  inside not_exit))
      ]
    where
      not_advance :
          (n : String) (s : Fields)
          → failed_over (run n s) ≡ false
          → (n == "advance_carrier_routing_guide") ≡ false
      not_advance n s h = elim (Bool-cases (n == "advance_carrier_routing_guide")) [
        | inl y ↦
            let set =
              subst (λ x. failed_over (run x s) ≡ true)
                (sym ((eq_iff n "advance_carrier_routing_guide").0 y)) (advances s) in
            absurd (cc)
        | inr other ↦ other
      ]

  ends :
      (t : String) (state : Fields)
      → ((node : String) (s : Fields) → get (run node s) "event_type" ≡ get s "event_type")
      → contains
          ("tender_created" ∷ "carrier_email_received" ∷ "ack_received" ∷ "reminder_due"
            ∷ "escalation_due" ∷ [])
          t
        ≡ true
      → get state "event_type" ≡ str t
      → (final : Fields) × (execute (router_registry dom) load_tendering run 46 "route_event" state
          ≡ some final)
  unfolding validate_graph
  ends t state keeps c e =
      execute_falls (router_registry dom) load_tendering run remaining
        (λ s. get s "event_type" ≡ str t) (λ node s p. keeps node s ∙ p)
        (λ node s p inside not_exit.
          target-Moves (router_registry dom) s load_tendering node refl refl
            (load_tendering_routes dom t c s p) inside not_exit)
        falls 46 "route_event" state e refl (start state)

-- The node of the graph marks the state.
pub advance_carrier-failed_over :
    (env : Env) (graph : WorkflowState) (w : World)
    → failed_over ((advance_carrier_routing_guide env graph w).0.state_data) ≡ true
unfolding advance_carrier_routing_guide
advance_carrier-failed_over env graph w =
    rw (get-set_field _ "routing_guide_failover" "routing_guide_failover" (bool true)) refl

-- It keeps the event type.
pub advance_carrier-event_type :
    (env : Env) (graph : WorkflowState) (w : World)
    → get ((advance_carrier_routing_guide env graph w).0.state_data) "event_type"
      ≡ get graph.state_data "event_type"
unfolding advance_carrier_routing_guide advance sync_routing_guide_attempt_to_state
advance_carrier-event_type env graph w = elim (Option-cases (workflow_scope env graph)) [
  | inl outside ↦
      get-set_field ((advance env graph w).1.0.state_data) "routing_guide_failover" "event_type"
        (bool true)
      ∙ rw outside refl
  | inr (scope, inside) ↦
      get-set_field ((advance env graph w).1.0.state_data) "routing_guide_failover" "event_type"
        (bool true)
      ∙ rw inside (get-set_field graph.state_data attempt_key "event_type" _)
]

-- Every run of the `load_tendering` workflow on an event type of its contract but `email_received` reaches
-- the exit within 46 nodes, although its graph has a cycle: if its nodes keep the event type and the mark of
-- a failover, and the node that advances the routing guide is the one of RoutingGuide, for any tenant,
-- run and row. What the other nodes do to the state is arbitrary.
pub load_tendering_ends :
    (env : Env) (dom : Domain) (run : String → Fields → Fields) (t : String) (state : Fields)
    → ((node : String) (s : Fields) → get (run node s) "event_type" ≡ get s "event_type")
    → ((node : String) (s : Fields) → failed_over s ≡ true → failed_over (run node s) ≡ true)
    → ((s : Fields)
        → (graph : WorkflowState) × (w : World) × (run "advance_carrier_routing_guide" s
            ≡ (advance_carrier_routing_guide env (record graph { state_data = s }) w).0.state_data))
    → contains
        ("tender_created" ∷ "carrier_email_received" ∷ "ack_received" ∷ "reminder_due"
          ∷ "escalation_due" ∷ [])
        t
      ≡ true
    → get state "event_type" ≡ str t
    → (final : Fields) × (execute (router_registry dom) load_tendering run 46 "route_event" state
        ≡ some final)
load_tendering_ends env dom run t state keeps sticks advances c e =
    ends dom run sticks
      (λ s.
        let (graph, w, is_node) = advances s in
        ap failed_over is_node
        ∙ advance_carrier-failed_over env (record graph { state_data = s }) w)
      t state keeps c e
