-- ===== src/Lib.antt =====
-- Bachkator's factory queue, its scheduler and its plans.
--
-- A factory is a queue of work items in a SQLite store (internal/state). Clients and triggers
-- enqueue items; a daemon takes the lease of a factory, claims the next item that may be worked
-- on, reports the phases of its workflow and completes or fails it; a phase may wait for an
-- approval. Every operation is one function of the store on an open database, and these functions
-- interact only through the tables.
--
-- Files and sources:
--   Base         queries on lists of rows, results, Boolean tests
--   Model        internal/model/status.go
--   State/Time   internal/state/time.go: times as texts, and the order of these texts
--   State/Tables internal/state/factory.go: the structs, the rows, transactions
--   State/Leases internal/state/factory_daemon.go: AcquireFactoryDaemonLease is `acquire`,
--                RenewFactoryDaemonLease `renew`, ReleaseFactoryDaemonLease `release`
--   State/Items  internal/state/factory_scan.go: scanFactoryWorkItem is `scan_item`,
--                getFactoryWorkItemTx `get_item`; the INSERTs of factory.go
--   State/Enqueue  internal/state/factory_enqueue.go: EnqueueFactoryWorkItem is `enqueue`
--   State/Pending  internal/state/factory_enqueue.go: UpdatePendingFactoryWorkItem is
--                  `update_pending`
--   State/Claim  internal/state/factory_daemon.go: ClaimNextFactoryWorkItem is `claim`
--   State/Phases internal/state/factory_daemon.go: UpdateFactoryWorkItemPhase is `update_phase`
--   State/Finish CancelFactoryWorkItem of factory.go is `cancel`; CompleteFactoryWorkItem and
--                FailFactoryWorkItem of factory_daemon.go are `complete` and `fail`
--   State/Approvals  internal/state/factory_approvals.go: RecordFactoryApproval is
--                    `record_approval`, ListFactoryApprovalEvidence `list_approval_evidence`
--   State/Reads  internal/state/factory.go: GetFactoryWorkItem is `find_item`,
--                ListFactoryWorkItems `list_items`
--   State/Status GetFactoryDaemonStatus of internal/state/factory_daemon.go is `daemon_status`
--   State/Cursors  internal/state/factory_trigger_cursors.go: GetFactoryTriggerCursor is
--                `get_cursor`, RecordFactoryTriggerCursor `record_cursor`
--   State/PlanLedgers  internal/state/plan_ledger.go: RecordPlanLedger is `record_plan_ledger`,
--                GetLatestPlanLedger `get_latest_plan_ledger`, ListPlanLedgerEvidence
--                `list_plan_ledgers`, planLedgersEqual `plan_ledgers_equal`
--   State/PlanLedgers/Compare  planLedgersEqual, with Go's `==` on values of type `any`
--   State/Queue  the calls that change items, in any order, as a step relation; State/Queue/Closed
--                follows an item that is completed
--   State/Tests  concrete rows and calls
--   Dag/Graph    internal/dag/dag.go: Graph, AddVertex, AddEdge, Edges, Successors, Predecessors
--   Dag/Walk     internal/dag/dag.go: dependencyState is `dependency_state`; Walk is the step
--                relation `WalkStep`, whose handlers are `start_one`, `receive` and `drain`
--   Dag/Search   internal/dag/dag.go: ValidateAcyclic is `validate_acyclic`, TopologicalOrder
--                `topological_order`
--   Dag/Tests    a walk of a small graph
--   Plan/Types   internal/plan/types.go: documents, ledgers, selections; diag of parse.go
--   Plan/Waves   internal/plan/graph.go: BuildSelection is `build_selection`, waves `waves`
--   Plan/Ledgers internal/plan/status.go: ValidateLedger is `validate_ledger`
--   Plan/Status  internal/plan/status.go: DeriveStatuses is `derive_statuses`
--   Batch        internal/planbatch/execute.go: the methods of batchState, `ready_plans`,
--                `classify`, `complete`, `skip`, `flush_remaining` and `sorted_results`
--   Batch/Runs   Execute, executeWave and runOne of the same file: the relations `Execute` and
--                `WaveRun`
--   Batch/Review internal/planbatch/review.go: Review is `review`, ReviewStatus `review_status`
--   Implement    internal/planexecute/execute.go: Implement is `implement`; it is cut into one
--                function for each call after which it may return
--   Implement/Types    the structs, and `Service`: what Implement calls
--   Implement/Checks   externalDependencyDiagnostics is `external_diagnostics`, materializeProject
--                of materialize.go `materialize_project`, without the target it makes
--   Implement/Ledgers  recordLedger is `record_ledger`
--   Implement/Local    internal/backend/plan_ledger.go: Record of the ledger client is
--                `client_record`, Get `client_get`, for a local store
--   PlanStatus   internal/planstatus/status.go: Status is `status`, validateReferences
--                `validate_references`
--   Runner/Nodes internal/runner/execution_graph.go: execNode, executionScope and the queries of
--                executionGraph
--   Runner/Locks internal/runner/scheduler.go: lockManager; internal/runner/session.go:
--                tryReserveExecutionNode is `try_reserve_execution_node`, startScope `start_scope`,
--                finishScope `finish_scope`
--   Runner/Locks/Steps  runExecutionNode of internal/runner/scheduler.go: `NodeStep`
--   Plan/Tests, Batch/Tests, Implement/Tests, PlanStatus/Tests, Runner/Tests  a chain of
--                documents, a batch of two plans, a plan with one dependency, two files, and
--                scopes that share a lock
--
-- The state is `Db`, the lists of rows of six factory tables (the cursors of triggers and the
-- ledgers of plans, which no other operation reads, are states of their own); `Store` is `none`
-- once the store is closed. A transaction that fails leaves the database as it was. A query is a
-- selection of rows, its ORDER BY a Boolean order and its LIMIT 1 the first row in that order; a
-- unique index and a foreign key are tests before an insertion. Errors of SQLite that come from
-- the file or the machine are left out: the only errors of a statement are those of the
-- constraints.
--
-- Times are seconds and nanoseconds; a text of a time is its seconds and the bytes that follow
-- them, which are modelled byte for byte, up to the year 9999. Columns of JSON hold the value or a
-- text that is not JSON for it; json.Unmarshal of a list of texts is an argument of
-- `update_pending`.
--
-- A graph (internal/dag) is built by adding vertices and edges; Walk runs its vertices in parallel.
-- Its state is the record of Walk's variables. One step is a start that TryReserve, an argument,
-- allows, a result that arrives, the end of the context or its discovery; the steps may come in
-- any order. Vertices and edge kinds are strings, as where the package is used. The search for
-- cycles runs on fuel, one more than the graph has vertices; the loop of TopologicalOrder on as
-- much as it has vertices.
--
-- Plans (internal/plan) are documents with dependencies. BuildSelection groups them in waves,
-- DeriveStatuses compares them with the ledgers of past runs, and a batch (internal/planbatch) runs
-- the waves in turn. Maps are functions or lists with one entry for a key; what Go reads from a map
-- in no fixed order is sorted first. The loop over the waves runs on fuel, two more than twice the
-- number of documents: an id stands in one wave, or, where ids repeat, in two that follow one
-- another. The plans of a wave run in parallel; their ends come in any order, with any result, and
-- the context may be done at any point.
--
-- Status (internal/planstatus) reads the documents of some paths and derives their statuses; what
-- loadDocument returned for each path is an argument, since it reads files, and the backend's
-- client is a function. Implement (internal/planexecute) runs one plan by its status: it asks the
-- backend for the ledgers of the dependencies, records a pending and an in-progress ledger, runs
-- the generated target and records a terminal ledger. The backend is a parameter; Implement/Local
-- is the one of a local store, whose ledgers are those of State/PlanLedgers. A call that fails
-- leaves the state as it was. Nothing is assumed of the order in which a backend returns ledgers:
-- that of the store is by the texts of the times.
--
-- A run (internal/runner) walks its execution graph with dag.Walk, whose TryReserve asks a session
-- for the lock of a node. The session's state is the set of held locks, the reservations and the
-- active scopes; a step is a reservation or the end of a node. That a scope starts once and ends
-- after its start is a premise of the steps, since the edges of the graph say so.
--
-- Not modelled: opening and migrating the database; the run history and the findings of
-- internal/state; the parser of plan documents, the reading of their files, the construction of
-- execution graphs and the execution of targets by the runner, quality gates, the factory service
-- and the factory daemon; configuration, backends, the command line and the protocols, which are
-- input and output around them.
pub mod Base
pub mod Batch
pub mod Dag
pub mod Implement
pub mod Model
pub mod Plan
pub mod PlanStatus
pub mod Runner
pub mod State
