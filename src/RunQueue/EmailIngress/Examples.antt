-- ===== src/RunQueue/EmailIngress/Examples.antt =====
-- Two deliveries of one e-mail on a concrete Redis.
use testingmulti.RunQueue.{run_queue_key}
use testingmulti.RunQueue.Redis.{redis}
use testingmulti.RunQueue.EmailIngress.{IngressWorld}
use testingmulti.RunQueue.EmailIngress.Fifo.{handle_ingress_refines}
use testingmulti.RunQueue.EmailIngress.Represents.{Represents, handle_ingress_all}
use testingmulti.RunQueue.EmailIngress.Deliveries.{
  Delivery, IngressEvent, Queue, attempt_ended, deliver, fifo,
}
use testingmulti.Common.Value.{bool, end, field}
use testingmulti.Common.Text.{strip}
use testingmulti.Common.{List, [], refl, some, true, ◌∷◌, ◌≡◌}

abbrev fresh : IngressWorld redis
fresh = record { store = λ k. []; published = [] }

abbrev empty_queue : Queue
empty_queue = record { waiting = []; begun = [] }

abbrev once : Delivery
once = record { tenant_uuid = "u1"; tenant_slug = "gelita"; payload = end }

abbrev again : Delivery
again = record {
  tenant_uuid = "u1";
  tenant_slug = "gelita";
  payload = field "retry" (bool true) end;
}

abbrev ingress_events : List IngressEvent
ingress_events = deliver once ∷ deliver again ∷ attempt_ended ∷ attempt_ended ∷ []

handle_ingress_refines_example :
    (v : IngressWorld redis) × (handle_ingress_all redis " m-1" ingress_events fresh ≡ some v)
    × Represents redis " m-1" "inbox:email_ingress:m-1" (fifo ingress_events empty_queue) v
unfolding strip run_queue_key
handle_ingress_refines_example =
    handle_ingress_refines redis " m-1" "inbox:email_ingress:m-1" refl refl ingress_events
      empty_queue fresh ((refl, refl), ((refl, refl), tt))
      (record { all_named = tt; contents = refl; tasks = refl })

-- Both deliveries are begun, one after the other.
both_begun : (fifo ingress_events empty_queue).begun ≡ once ∷ again ∷ []
unfolding fifo
both_begun = refl
