-- ===== src/Lib.antt =====
-- FreightX agents: event-driven freight workflows (Python, LangGraph, Celery, Redis, PostgreSQL).
--
-- Webhooks and mail become work items. A work item of a workflow lifecycle is put on a Redis list, and
-- a Celery task runs one graph for it at a time; the graph's nodes call tools and write the
-- lifecycle's status through one service, which logs each change.
--
-- Parts, and the files that model them:
-- - Common: lists, dictionaries, Python's texts and dynamic values (`Value`: what JSON carries).
-- - Status: app/models/status.py, app/models/activity_type.py, app/models/pause_type.py,
--   app/domain/status_parsing.py, app/domain/status_display_labels.py.
-- - Lifecycle: app/services/lifecycle_transition_service.py. `Command` is the command of
--   app/domain/lifecycle_transition.py with the log fields of app/domain/activity_log_fields.py;
--   `Store` the two tables and the statements of app/repositories/workflow_lifecycles_repository.py and
--   app/repositories/activity_logs_repository.py; `Scope` the preparation of a call, `Step`
--   `_apply_one_step`, `Sequence` `apply` and `apply_sequence`. State is passed explicitly: an `Action`
--   maps a store to a result or an error and a store, and `db_transaction` undoes the store of an
--   error; a service that was made with repositories (`service_apply_sequence`) opens none. `FromState` is `from_workflow_state`, and `Failure` the node that ends a failed run,
--   app/workflows/nodes/error_handler.py, with app/workflows/shipment_resolver.py.
-- - RunQueue: app/services/lifecycle_run_queue_service.py over a record `Broker` of what Redis, JSON and
--   Celery offer; `Serializer` is app/services/lifecycle_run_serializer_service.py with
--   app/services/worker_queue_routing.py. `World` is Redis with the tasks published so far.
--   `EmailIngress` is app/services/email_ingress_work_queue_serializer_service.py, the second client of
--   these queues, with an abstract queue of deliveries in `EmailIngress/Deliveries`.
-- - Workflow: app/workflows/contracts.py and app/workflows/validators.py; `Configs` the graphs of
--   app/configs/workflow_configs.py; `Routers` app/workflows/graph/routers.py with the guards it calls;
--   `Compiler` the overlay of a tenant (app/workflows/compiler/compiler.py);
--   `Builder` the conditional edges of app/workflows/graph/builder.py. `successor` follows one
--   conditional edge the way LangGraph documents it: the branch that the router names is looked up in
--   the map. A node is an arbitrary function on the state, so that what is shown does not rest on what
--   the nodes do.
-- - Turvo: the route of a shipment payload and the projection of it that a workflow state keeps
--   (app/integrations/turvo/shipments.py, app/domain/shipment_route_locations.py).
-- - PodScore: app/services/pod_lifecycle/pod_scoring.py with its result types and constants under
--   app/domain/pod_lifecycle; `Rounding` has Python's `round` on a quotient and the blended proration,
--   `Words` the regular expressions, `Inputs` app/integrations/turvo/pod_inputs.py.
-- - RoutingGuide: app/domain/gelita/routing_guide_lifecycle.py; `Store` is the metadata column of a
--   lifecycle row, `Reminders` app/domain/pending_reminder_tasks.py and
--   app/services/workflow_reminder_cancel_service.py, `Service`
--   app/services/routing_guide_lifecycle_service.py, and `TenantSent` its `record_tenant_sent`, which
--   runs a sequence of Lifecycle inside its own transaction (`run_with_repos`); `Lanes` is
--   app/domain/gelita/routing_guide.py, with the package thefuzz as a parameter. `guide_domain` gives
--   the routers of Workflow the attempt and the limit of this part.
-- - ReminderPlan: app/domain/before_pickup_reminder_plan.py with the step of
--   app/domain/reminder_schedule.py.
-- - Correlation: which lifecycle an event belongs to. The table by its correlation columns, with SQL's
--   comparisons of NULL, and the look-ups of app/repositories/workflow_lifecycles_repository.py;
--   `Service` and `DriverCycle` are app/services/workflow_lifecycle_service.py, `Enqueue` joins it to
--   the run queue. Of rows with the same `updated_at` a look-up gives the first one of the table, where
--   SQL leaves open which it gives.
--
-- Bounds and fuel: `peek_loop` has a round for each entry of the list and one more. `execute` has fuel
-- for every node of a graph, the node that records a failure and one more, since each successor stands
-- later in a fixed order of the nodes; the cycle of the load tendering graph is run through at most
-- once, so that twice as much fuel and one more is enough there (`Workflow/Waterfall`). Numbers are
-- unbounded in the source and here.
--
-- What is assumed: the laws of `Broker` (the effects of RPUSH, LPOP, LINDEX and LLEN, and that a work
-- item is read back as it was written). An arriving request and a finished run are each one step;
-- RPUSH is atomic, and the source's LPOP and LLEN are one transaction. Entries of a state that are read
-- as dictionaries are dictionaries; texts that are changed to another case or that a
-- regular expression reads are ASCII; numbers in observations are integers; the message of an
-- error in a state is a text. `round` of a float
-- quotient is the rounding of the exact quotient, which is so for counts below 2^40. In RoutingGuide
-- the database answers. In ReminderPlan times and delays are whole microseconds, and are compared
-- exactly, where the source compares hours as floats.
--
-- What is not modelled: the look-ups of appointment scheduling and the cancellation of lifecycles, the
-- graph nodes with their language model, mail and TMS calls (of the failure sink, the alert and the
-- clean-up of staged attachments), the postal codes of the routing guide, the reminder schedules in
-- tenant settings, the HTTP API, scripts and migrations. The stop count, the delivery cutoff, the
-- load type, the attempt limit and the recipient check that routers ask for are a record `Domain` of
-- arbitrary functions.
mod Common
pub mod Status
pub mod Lifecycle
pub mod RunQueue
pub mod Workflow
pub mod Turvo
pub mod PodScore
pub mod RoutingGuide
pub mod ReminderPlan
pub mod Correlation
