-- ===== src/RunQueue/EmailIngress/Deliveries.antt =====
-- The deliveries of one e-mail, and the abstract queue that orders them.
use testingmulti.RunQueue.{tail}
use testingmulti.Common.Value.{Fields}
use testingmulti.Common.{List, String, [], ◌++◌, ◌∷◌}

-- One delivery of the e-mail
pub record Delivery : Type 0 where
  pub tenant_uuid : String
  pub tenant_slug : String
  pub payload : Fields

-- A delivery arrives, or the worker's attempt at one ends.
pub data IngressEvent : Type 0 where
  deliver : Delivery → IngressEvent
  attempt_ended : IngressEvent

-- The abstract queue: the delivery in work with those behind it, and all that were ever started
pub record Queue : Type 0 where
  pub waiting : List Delivery
  pub begun : List Delivery

abbrev pub first_of : List Delivery → List Delivery
first_of [] = []
first_of (d ∷ ds) = d ∷ []

abbrev pub starts_now : Delivery → List Delivery → List Delivery
starts_now d [] = d ∷ []
starts_now d (q ∷ qs) = []

-- A delivery starts at once only when none is in work.
abbrev pub arrive : Delivery → Queue → Queue
arrive d f = record { waiting = f.waiting ++ d ∷ []; begun = f.begun ++ starts_now d f.waiting }

-- When an attempt ends, the next delivery starts.
abbrev pub depart : Queue → Queue
depart f = record { waiting = tail f.waiting; begun = f.begun ++ first_of (tail f.waiting) }

unfoldable pub fifo : List IngressEvent → Queue → Queue
fifo [] f = f
fifo (deliver d ∷ es) f = fifo es (arrive d f)
fifo (attempt_ended ∷ es) f = fifo es (depart f)

abbrev pub delivered : List IngressEvent → List Delivery
delivered [] = []
delivered (deliver d ∷ es) = d ∷ delivered es
delivered (attempt_ended ∷ es) = delivered es
