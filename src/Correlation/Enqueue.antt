-- ===== src/Correlation/Enqueue.antt =====
-- `LifecycleRunSerializerService.resolve_then_enqueue`
-- (app/services/lifecycle_run_serializer_service.py): the lifecycle of an event, and its run queue.
use testingmulti.Correlation.{CorrelationRow, Moment}
use testingmulti.Correlation.Service.{
  Env, Resolution, ensure_lifecycle_shipment_linked, refused, resolve_or_create_lifecycle, resolved,
}
use testingmulti.RunQueue.{Broker}
use testingmulti.RunQueue.Serializer.{SerializeEnqueueResult, World, enqueue}
use testingmulti.Lifecycle.Sequence.Outcome.{body}
use testingmulti.Common.{List, Option, String, if◌then◌else◌, none, some, ℕ}
use testingmulti.Common.Value.{Fields, clean_text, get, set_field, str}
use testingmulti.Common.Text.{is_empty, strip}

module _ (env : Env) (b : Broker) where
  -- The lifecycle table, and Redis with the published tasks
  pub record Hub : Type 0 where
    pub rows : List CorrelationRow
    pub world : World b

  -- `body["workflow_lifecycle_id"] = …`
  abbrev pub stamped : String → Fields → Fields
  stamped lifecycle_id payload = set_field payload "workflow_lifecycle_id" (str lifecycle_id)

  abbrev pub with_rows :
      List CorrelationRow
      → World b
      → Option (SerializeEnqueueResult × World b)
      → Option SerializeEnqueueResult × Hub
  with_rows rows w none = (none, record { rows = rows; world = w })
  with_rows rows w (some (r, w')) = (some r, record { rows = rows; world = w' })

  -- `enqueue`, beside the table
  abbrev pub enqueue_on :
      String → String → Fields → List CorrelationRow → World b → Option SerializeEnqueueResult × Hub
  enqueue_on tenant_slug workflow_name body rows w =
      with_rows rows w (enqueue b tenant_slug workflow_name body w)

  abbrev pub enqueue_resolved :
      ℕ
      → String
      → String
      → String
      → Fields
      → World b
      → Resolution × List CorrelationRow
      → Option SerializeEnqueueResult × Hub
  enqueue_resolved now tenant_id slug name payload w (refused e, rows) =
      (none, record { rows = rows; world = w })
  enqueue_resolved now tenant_id slug name payload w (resolved id existed, rows) =
      let body = stamped id payload in
      enqueue_on slug name body (ensure_lifecycle_shipment_linked env now id tenant_id body rows).1
        w

  -- `resolve_then_enqueue`; `none` is a ValueError.
  unfoldable pub resolve_then_enqueue :
      Moment → String → String → String → Fields → Hub → Option SerializeEnqueueResult × Hub
  unfolding strip get enqueue set_field resolve_or_create_lifecycle ensure_lifecycle_shipment_linked
  resolve_then_enqueue moment tenant_id tenant_slug workflow_name payload hub =
      if is_empty (clean_text b.render (get payload "workflow_lifecycle_id"))
      then enqueue_resolved moment.now tenant_id tenant_slug workflow_name payload hub.world
          (resolve_or_create_lifecycle env moment tenant_id workflow_name payload hub.rows)
      else enqueue_on tenant_slug workflow_name payload hub.rows hub.world
