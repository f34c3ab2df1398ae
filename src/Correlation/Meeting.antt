-- ===== src/Correlation/Meeting.antt =====
-- A second event with the keys of the first joins its lifecycle's run queue.
use testingmulti.Correlation.Together.{ensure-Created, find-Created}
use testingmulti.Correlation.{fresh_row}
use testingmulti.RunQueue.Serializer.{SerializeEnqueueResult, enqueue}
use testingmulti.Correlation.Again.{created_row, existing_row, is_found_again}
use testingmulti.Correlation.Enqueue.{Hub}
use testingmulti.Lifecycle.Sequence.Outcome.{body}
use testingmulti.Common.{All, Option-cases, [], ap, inl, inr, none, true, ◌++◌, ◌==◌, ◌∙◌, ◌∷◌}
use testingmulti.Correlation.{CorrelationRow, Moment, find_existing_lifecycle_id, resolve_or_create}
use testingmulti.Correlation.Service.{
  Env, db_tenant_of, ensure_lifecycle_shipment_linked, extract_db_shipment_id, extract_tender_id,
  named_lifecycle, resolve_or_create_lifecycle, resolved,
}
use testingmulti.RunQueue.{Broker}
use testingmulti.RunQueue.Serializer.{World}
use testingmulti.Correlation.Enqueue.{enqueue_on, resolve_then_enqueue, stamped}
use testingmulti.Common.Value.{Fields, get, null}
use testingmulti.Common.Text.{is_empty, strip}
use testingmulti.Common.{Bool, List, Option, String, false, refl, some, ◌≡◌}

module _ (env : Env) (b : Broker) (tenant_id workflow_name tid : String)
    (tender_key shipment_key : Option String) where
  -- The tenant is known, and the workflow named.
  pub record IsAddressed : Type 0 where
    pub tenant_named : is_empty (strip tenant_id) ≡ false
    pub workflow_named : is_empty (strip workflow_name) ≡ false
    pub known : db_tenant_of env (strip tenant_id) ≡ some tid

  -- The payload names no lifecycle, and has these keys.
  pub record IsEvent (payload : Fields) : Type 0 where
    pub anonymous : get payload "workflow_lifecycle_id" ≡ null
    pub by_tender : extract_tender_id env payload ≡ tender_key
    pub by_shipment : extract_db_shipment_id env payload ≡ shipment_key

  abbrev pub existing_in : List CorrelationRow → Option String
  existing_in rows =
      find_existing_lifecycle_id tid (strip workflow_name) tender_key shipment_key rows

  resolve_lifecycle_of :
      (moment : Moment) (payload : Fields) (rows : List CorrelationRow)
      → IsAddressed
      → IsEvent payload
      → resolve_or_create_lifecycle env moment tenant_id workflow_name payload rows ≡ (
          let ((id, existed), left) =
            resolve_or_create moment tid (strip workflow_name) tender_key shipment_key rows in
          (resolved id existed, left))
  unfolding resolve_or_create_lifecycle named_lifecycle
  resolve_lifecycle_of moment payload rows a e =
      rw (a.tenant_named, a.workflow_named, a.known, e.anonymous, e.by_tender, e.by_shipment) refl

  enqueue_as :
      (moment : Moment) (slug : String) (payload : Fields) (rows : List CorrelationRow)
      (w : World b) (id : String) (existed : Bool) (left : List CorrelationRow)
      → IsAddressed
      → IsEvent payload
      → resolve_or_create moment tid (strip workflow_name) tender_key shipment_key rows
        ≡ ((id, existed), left)
      → resolve_then_enqueue env b moment tenant_id slug workflow_name payload
          (record { rows = rows; world = w })
        ≡ enqueue_on env b slug workflow_name
            (stamped env b id payload)
            (ensure_lifecycle_shipment_linked env moment.now id tenant_id
              (stamped env b id payload)
              left).1
            w
  unfolding resolve_then_enqueue
  enqueue_as moment slug payload rows w id existed left a e h =
      rw (e.anonymous, resolve_lifecycle_of moment payload rows a e, h) refl

  rows-enqueue_on :
      (slug : String) (body : Fields) (left : List CorrelationRow) (w : World b)
      → (enqueue_on env b slug workflow_name body left w).1.rows ≡ left
  rows-enqueue_on slug body left w = elim (Option-cases (enqueue b slug workflow_name body w)) [
    | inl lost ↦ rw lost refl
    | inr ((r, w'), e) ↦ rw e refl
  ]

  -- The call is `enqueue` of the payload for the lifecycle with this id, beside some table.
  abbrev pub EnqueuesFor :
      String → String → Fields → World b → Option SerializeEnqueueResult × Hub env b → Type 0
  EnqueuesFor id slug payload w r =
      (left : List CorrelationRow) × (r
        ≡ enqueue_on env b slug workflow_name (stamped env b id payload) left w)

  -- Where no lifecycle has the keys of an event, whose workflow is such that a lifecycle is found again:
  -- the event is enqueued for a new lifecycle, and a later event with the same keys is enqueued for that
  -- one too, whatever has happened to the queues in between. The tenant is known, the workflow named, and the
  -- new id is a new one without white space around it.
  pub resolve_then_enqueue-Together :
      (moment next : Moment) (slug next_slug : String) (payload repeat : Fields)
      (rows : List CorrelationRow) (w next_w : World b)
      → IsAddressed
      → IsEvent payload
      → IsEvent repeat
      → is_found_again (strip workflow_name) tender_key shipment_key ≡ true
      → existing_in rows ≡ none
      → strip moment.new_id ≡ moment.new_id
      → All (λ (r : CorrelationRow). (r.id == moment.new_id) ≡ false) rows
      → let first =
          resolve_then_enqueue env b moment tenant_id slug workflow_name payload
            (record { rows = rows; world = w }) in
        EnqueuesFor moment.new_id slug payload w first
        × EnqueuesFor moment.new_id next_slug repeat next_w (
            resolve_then_enqueue env b next tenant_id next_slug workflow_name repeat
              (record { rows = first.1.rows; world = next_w }))
  resolve_then_enqueue-Together moment next slug next_slug payload repeat rows w next_w a e e' again
        unseen named others =
      let name = strip workflow_name in
      let made = created_row moment tid name tender_key shipment_key rows unseen in
      let first = enqueue_as moment slug payload rows w moment.new_id false _ a e made in
      let left : List CorrelationRow =
        (ensure_lifecycle_shipment_linked env moment.now moment.new_id tenant_id
          (stamped env b moment.new_id payload)
          (rows ++ fresh_row moment tid name tender_key shipment_key ∷ [])).1 in
      let there =
        ensure-Created moment tid name tender_key shipment_key rows env moment.now tenant_id
          (stamped env b moment.new_id payload) named others in
      let found =
        find-Created moment tid name tender_key shipment_key rows left unseen again there in
      let kept =
        ap (λ x. x.1.rows) first
        ∙ rows-enqueue_on slug (stamped env b moment.new_id payload) left w in
      let second =
        enqueue_as next next_slug repeat left next_w moment.new_id true left a e'
          (existing_row next tid name tender_key shipment_key left moment.new_id found) in
      (
        (left, first),
        (
          _,
          ap
                (λ x.
                  resolve_then_enqueue env b next tenant_id next_slug workflow_name repeat
                    (record { rows = x; world = next_w }))
                kept
              ∙ second,
        ),
      )
