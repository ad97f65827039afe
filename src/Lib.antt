-- ===== src/Lib.antt =====
-- A model of ddd-qce, a Go library for domain-driven design: aggregates and repositories, event
-- sourcing, command, query and event buses with aspects, and asynchronous jobs.
--
-- The parts and their files:
-- - Errors: the error values of error/ and infra/repository/error.go as trees, with errors.Is and
--   errors.As. Every other part returns them.
-- - Job: job/core/job.go, the Job and its operations; Job.Ops runs them in any order, which is every
--   concurrent use of a Job, since each holds its mutex. Job.Store is job/memory/job_store.go, and
--   Job.Pg is scanJob of job/pg/job_store.go.
-- - Job.Manager: job/memory/job_manager.go over Job.Store. A pointer to a Job is a number of a heap, so
--   that the manager's map and a worker share a Job as they do in the program. The goroutine
--   executeJob is cut into sections at its locks and at the execution (worker_step), and a client call
--   (submit, cancel, Job.Manager.Calls) is one function; a schedule is a sequence of both. Job.Manager.Worker
--   is the whole goroutine, with fuel of one for each pass; a pass that fails uses up a retry, so one
--   more than the retries left is enough.
-- - EventStore: cqrs/impl/memory/event_store.go, with the metadata of cqrs/event/event.go.
-- - Aspect: aspect/chain.go; Aspect.Transaction is aspect/builtin/transaction.go. Aspects and handlers
--   act on a state that is passed along.
-- - Transaction: pg/transaction.go over a driver, nested transactions as savepoints.
-- - Aggregate: domain/aggregate/aggregate.go. Repository: infra/repository/memory/repository.go, which
--   stores aggregates under optimistic locking.
-- - Bus: bus_core.go, bus_helpers.go, command_bus.go and event_bus.go of cqrs/impl/memory. A bus runs a
--   handler through an Aspect chain. The goroutines of Publish run one after the other, each as a whole,
--   in an order that is a parameter. BusCounters are what Shutdown shares with the callers.
-- - Trace: trace/store.go. MessageStore: aspect/builtin/in_memory_message_store.go; MessageReader is
--   observability/message_reader.go over it.
-- - PgRepository: infra/repository/pg/repository.go over the statements of its table, SnapshotTable, and
--   an event store; PgRepository.Snapshots.Stores says what PostgreSQL does with the statements.
-- - PgEventStore: cqrs/impl/pg/event_store.go over its table; PgEventStore.Table says what the
--   table of pg/migrate.go with its unique key does, and what a transaction does.
-- - Tracing: aspect/builtin/tracing.go and trace/trace.go, an aspect for an Aspect chain. App: app/app.go.
-- - Statistics: observability/stats.go. Metrics: the recorder of
--   aspect/builtin/metrics.go; its aspect is in Metrics.Recording.
-- - Persistence: aspect/builtin/persistence.go, the aspect that records an entry of each message.
-- - Relationship: relationship/registry.go, with its graph in Relationship.Graphs.
-- - Order and Inventory: the order of exampleapp/ddd/order/domain/model.go, an Aggregate, and the stock of
--   exampleapp/ddd/inventory/domain/inventory.go.
-- Common has numbers, lists and maps. The modules named Tests hold concrete runs.
--
-- Conventions: a Go map is an association list; a pointer that may be nil is an Option; a call that may
-- panic returns a Run; times are numbers, durations and ints are integers, and a sum of ints that can
-- leave the range is add64, with its wrap-around; counters that only grow by one are plain numbers.
-- Each function that holds one mutex throughout is one step.
--
-- Outside, as parameters: the command executor (the outcomes of the executions), database/sql, JSON and
-- the snapshot serializer, reflection, sort.Slice (a permutation, sorted for a strict weak order),
-- strings.Contains, the clock and fresh ids, `When` and `Metadata()` of the application's types, float64.
-- Not modelled: panics of commands, queries and aspects (those of event handlers are), the SQL of the
-- stores, HTTP pages, lint, configuration, the handlers of the example applications, reflection, and the
-- background ticker of the trace store.
pub mod Common
pub mod Errors
pub mod Job
pub mod EventStore
pub mod Aspect
pub mod Transaction
pub mod Aggregate
pub mod Repository
pub mod Trace
pub mod MessageStore
pub mod Bus
pub mod Relationship
pub mod MessageReader
pub mod Statistics
pub mod Metrics
pub mod Order
pub mod Inventory
pub mod PgRepository
pub mod PgEventStore
pub mod Tracing
pub mod App
pub mod Persistence
