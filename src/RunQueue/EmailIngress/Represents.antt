-- ===== src/RunQueue/EmailIngress/Represents.antt =====
-- When Redis and the published tasks represent the abstract queue.
use testingmulti.RunQueue.{Broker}
use testingmulti.RunQueue.EmailIngress.{
  EmailTask, IngressWorld, admit_email, complete_email, ingress_item, ingress_task,
}
use testingmulti.RunQueue.EmailIngress.Deliveries.{
  Delivery, IngressEvent, Queue, attempt_ended, deliver,
}
use testingmulti.Common.{
  All, List, Option, String, [], and_then, false, map, map_option, some, ◌∷◌, ◌≡◌,
}
use testingmulti.Common.Value.{Fields}
use testingmulti.Common.Text.{is_empty, strip}

-- A delivery whose tenant is named, without white space around it
abbrev pub IsNamed : Delivery → Type 0
IsNamed d = (strip d.tenant_slug ≡ d.tenant_slug) × (is_empty d.tenant_slug ≡ false)

module _ (b : Broker) (email_id : String) where
  abbrev pub item_of : Delivery → Fields
  item_of d = ingress_item d.tenant_uuid d.tenant_slug d.payload (strip email_id)

  abbrev pub raw_of : Delivery → b.Raw
  raw_of d = b.dumps (item_of d)

  abbrev pub email_task_of : Delivery → EmailTask
  email_task_of d = ingress_task b d.tenant_slug (item_of d)

  abbrev pub handle_ingress : IngressEvent → IngressWorld b → Option (IngressWorld b)
  handle_ingress (deliver d) w =
      map_option (λ o. o.1) (admit_email b email_id d.tenant_uuid d.tenant_slug d.payload w)
  handle_ingress attempt_ended w = map_option (λ o. o.1) (complete_email b email_id w)

  unfoldable pub handle_ingress_all : List IngressEvent → IngressWorld b → Option (IngressWorld b)
  handle_ingress_all [] w = some w
  handle_ingress_all (e ∷ es) w = and_then (handle_ingress e w) (handle_ingress_all es)

module _ (b : Broker) (email_id key : String) where
  -- The Redis list holds what the abstract queue has waiting, and the tasks published are those of the
  -- deliveries begun.
  pub record Represents (f : Queue) (w : IngressWorld b) : Type 0 where
    pub all_named : All IsNamed f.waiting
    pub contents : b.items w.store key ≡ map (raw_of b email_id) f.waiting
    pub tasks : w.published ≡ map (email_task_of b email_id) f.begun

  -- What a step of the queue must do: it is handled, and ends at the abstract queue after the step.
  abbrev pub Implements : IngressEvent → Queue → IngressWorld b → Type 0
  Implements e f w =
      (v : IngressWorld b) × (handle_ingress b email_id e w ≡ some v) × Represents f v
