-- ===== src/Workflow/Waterfall.antt =====
-- Runs of the `load_tendering` workflow, whose graph has a cycle: an advance of the routing guide reads the
-- tender again, and marks the state so that the next carrier is asked.
pub mod Ends
mod Examples
use testingmulti.Workflow.Builder.{static_target, successor}
use testingmulti.Workflow.Routers.Guards.{Domain}
use testingmulti.Workflow.Routers.Tendering.{post_read_tender_router}
use testingmulti.Workflow.Routers.Registry.{router_registry}
use testingmulti.Common.{
  Bool-cases, Dict, Option-cases, arith, eq_iff, false, inl, inr, lookup, subst, sym,
}
use testingmulti.Workflow.{GraphDefinition, RouterDefinition}
use testingmulti.Workflow.Configs.LoadTendering.{load_tendering}
use testingmulti.Workflow.Builder.Execution.{is_ordered}
use testingmulti.Common.{Bool, List, String, [], if◌then◌else◌, map, refl, true, ◌==◌, ◌∷◌, ◌≡◌}
use testingmulti.Common.Value.{Fields, get, truthy}

abbrev pub failed_over : Fields → Bool
failed_over state = truthy (get state "routing_guide_failover")

-- The nodes before an advance, in the order of a run
abbrev pub first_order : List String
first_order =
    "route_event" ∷ "record_tender_created_activity" ∷ "read_tender_row"
    ∷ "guard_automatic_reply_ack" ∷ "classify_carrier_ack" ∷ "evaluate_reject_routing_guide"
    ∷ "evaluate_timeout_routing_guide" ∷ "advance_carrier_routing_guide" ∷ "calculate_tender_params"
    ∷ "send_tender_email" ∷ "record_tender_business_warnings" ∷ "log_tender_activity"
    ∷ "record_tender_sent_to_carrier" ∷ "schedule_tender_reminders" ∷ "record_ack_received"
    ∷ "resolve_international_delivery_skip" ∷ "resolve_pack_code_skip" ∷ "send_tender_reminder"
    ∷ "update_reminder_status" ∷ "escalate_tender" ∷ "record_workflow_failure" ∷ "end" ∷ []

-- The nodes after an advance: the tender is read behind it.
abbrev pub second_order : List String
second_order =
    "route_event" ∷ "record_tender_created_activity" ∷ "guard_automatic_reply_ack"
    ∷ "classify_carrier_ack" ∷ "evaluate_reject_routing_guide" ∷ "evaluate_timeout_routing_guide"
    ∷ "advance_carrier_routing_guide" ∷ "read_tender_row" ∷ "calculate_tender_params"
    ∷ "send_tender_email" ∷ "record_tender_business_warnings" ∷ "log_tender_activity"
    ∷ "record_tender_sent_to_carrier" ∷ "schedule_tender_reminders" ∷ "record_ack_received"
    ∷ "resolve_international_delivery_skip" ∷ "resolve_pack_code_skip" ∷ "send_tender_reminder"
    ∷ "update_reminder_status" ∷ "escalate_tender" ∷ "record_workflow_failure" ∷ "end" ∷ []

-- The graph with the edge behind an advance bent to the exit
abbrev bend : List String → List String
bend (src ∷ dst ∷ []) =
    if src == "advance_carrier_routing_guide" then src ∷ "end" ∷ [] else src ∷ dst ∷ []
bend e = e

abbrev pub first_graph : GraphDefinition
first_graph = record load_tendering { edges = map bend load_tendering.edges }

-- The graph in which a tender that is read leads to the next carrier only
abbrev narrow : String × RouterDefinition → String × RouterDefinition
narrow (node, r) =
    if node == "read_tender_row"
    then (node, record r { map = ("routing_guide_failover", "calculate_tender_params") ∷ [] })
    else (node, r)

abbrev pub second_graph : GraphDefinition
second_graph = record load_tendering { routers = map narrow load_tendering.routers }

pub first_ordered : is_ordered first_order first_graph ≡ true
first_ordered = refl

pub second_ordered : is_ordered second_order second_graph ≡ true
second_ordered = refl

static_target-bend :
    (node : String) (es : List (List String))
    → (node == "advance_carrier_routing_guide") ≡ false
    → static_target node (map bend es) ≡ static_target node es
static_target-bend node [] h = refl
static_target-bend node ([] ∷ es) h = static_target-bend node es h
static_target-bend node ((x ∷ []) ∷ es) h = static_target-bend node es h
static_target-bend node ((x ∷ y ∷ z ∷ w) ∷ es) h = static_target-bend node es h
static_target-bend node ((src ∷ dst ∷ []) ∷ es) h =
    let rest = static_target-bend node es h in
    elim (Bool-cases (src == "advance_carrier_routing_guide")) [
      | inl y ↦
          let other : (src == node) ≡ false = ground (
            arith,
            h,
            eq_iff src node,
            eq_iff src "advance_carrier_routing_guide",
            eq_iff node "advance_carrier_routing_guide",
          ) in
          rw (y, other) rest
      | inr n ↦ rw (n, rest) refl
    ]

lookup-narrow :
    (node : String) (rs : Dict RouterDefinition)
    → (node == "read_tender_row") ≡ false
    → lookup node (map narrow rs) ≡ lookup node rs
lookup-narrow node [] h = refl
lookup-narrow node ((j, r) ∷ rs) h =
    let rest = lookup-narrow node rs h in
    elim (Bool-cases (j == "read_tender_row")) [
      | inl y ↦
          let other : (j == node) ≡ false =
            ground (
              arith,
              h,
              eq_iff j node,
              eq_iff j "read_tender_row",
              eq_iff node "read_tender_row",
            ) in
          rw (y, other) rest
      | inr n ↦ rw (n, rest) refl
    ]

module _ (dom : Domain) where
  pub successor_first :
      (node : String) (state : Fields)
      → (node == "advance_carrier_routing_guide") ≡ false
      → successor (router_registry dom) first_graph node state
        ≡ successor (router_registry dom) load_tendering node state
  unfolding successor
  successor_first node state h = elim (Option-cases (lookup node load_tendering.routers)) [
    | inl e ↦ rw (e, static_target-bend node load_tendering.edges h) refl
    | inr (r, e) ↦ rw e refl
  ]

  reads_on :
      (state : Fields)
      → failed_over state ≡ true
      → successor (router_registry dom) second_graph "read_tender_row" state
        ≡ successor (router_registry dom) load_tendering "read_tender_row" state
  unfolding successor post_read_tender_router
  reads_on state flag = rw flag refl

  pub successor_second :
      (node : String) (state : Fields)
      → failed_over state ≡ true
      → successor (router_registry dom) second_graph node state
        ≡ successor (router_registry dom) load_tendering node state
  unfolding successor
  successor_second node state flag = elim (Bool-cases (node == "read_tender_row")) [
    | inl y ↦
        subst
          (λ n.
            successor (router_registry dom) second_graph n state
            ≡ successor (router_registry dom) load_tendering n state)
          (sym ((eq_iff node "read_tender_row").0 y)) (reads_on state flag)
    | inr n ↦ rw (lookup-narrow node load_tendering.routers n) refl
  ]
