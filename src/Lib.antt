-- ===== src/Lib.antt =====
-- A model of the pipeline engine, the life of jobs, the fair queue and the routing memory of
-- ContextBridge, a relay that distributes jobs of applications over a pool of machines. A job is
-- admitted, waits in a queue, is assigned to a node under a counted attempt, runs there, and ends; a
-- refusal before its execution puts it back, and the loss of its node ends it. A pipeline is a list
-- of steps; in mode "dag" each step names the steps that it depends on. The relay plans such a graph,
-- binds it to a run, admits child jobs for the steps that are ready, and, when a child ends, records
-- its outcome in the checkpoint of the run and derives what may start next and what can no longer
-- run. All of it is stored in a transactional key-value store.
--
-- Which file models which part (paths from the root of the repository):
-- - Pipeline/Graph.antt and its folder: internal/cluster/pipeline_graph.go. `plan` is
--   PlanPipelineGraph; Template has validateDAGTemplate, Edges the loop that links steps, Rounds the
--   loop that builds the layers. Schedule says what a plan promises.
-- - Pipeline/Records.antt, NodeState.antt: the run, its binding, its nodes and jobs, of
--   internal/cluster/types.go, and the node states of internal/cluster/pipeline_graph_state.go.
-- - Pipeline/Checkpoint.antt: validatePipelineRunGraphState (`validate_state`), which every stored
--   checkpoint passes. Pipeline/Transition.antt: validatePipelineRunGraphTransition, which every save
--   passes that replaces one.
-- - Pipeline/Ready.antt: dagReadySet of internal/cluster/pipeline_dag_ready_set.go.
-- - Pipeline/Propagation.antt and Reconcile.antt: ReconcileDAGChildTerminal of
--   internal/cluster/store.go, as a function from the store to the store after the transaction.
-- - Store/Events.antt: appendExecutionEventTx, the event log of a run. Store/RateLimit.antt:
--   consumeProducerRateLimitTx, the hourly limit of an owner.
-- - Routing.antt and its folder: internal/cluster/routing_health.go. Health has the record and
--   applyRoutingFailure, Outcome recordRoutingOutcomeForOwnerRoute with its evictions, Selection
--   routingHealthForOwnerAt. They stand apart from the pipelines: the relay calls them when any job
--   ends and when it chooses a node.
-- - Queue.antt and its folder: fairQueueWindow, appendFairPriorityTier and boundedQueueScanSize of
--   internal/cluster/store.go, which choose the jobs that are offered to a node.
-- - Jobs.antt and its folder: the life of a job in internal/cluster/store.go, over one store, the
--   record `World` of Jobs/Tables.antt. Prepare is prepareJob, Admit admitPreparedJobTx, Assign
--   assignJobAuthorized, Run markRunning and updateJobProgress, Cancel CancelJobForProducer, Complete
--   completeJobWithFailure, and Recover RequeueNode, RecoverRelayRestart and RecoverStaleJobs. Queue
--   has the queue's entries and counters, Locks the locks on adapter sessions, Probes the recovery
--   probes, Failures internal/cluster/failure_codes.go, Labels cleanLabel.
-- - Jobs/Machine.antt and its folder: the state machine of a job, `Moves`, as an indexed data type,
--   the well-formedness of the store, `Agrees`, one file for each group of operations that implement
--   the machine, and Runs, any sequence of calls of them, in which a call that fails changes nothing.
-- - Prelude.antt and Text.antt: shared notation, lists, results, and Go's strings.
--
-- How the parts interact: an assignment reads the runs of pipelines and claims probes and locks; the
-- end of a job writes the routing memory of its node, by `record_outcome`, and frees them; admission
-- counts against the rate limit, by `consume`, and enqueues the job that the fair queue offers. `plan` gives the order that a binding stores; `validate_state` reads the
-- binding and the nodes; `ready_set` and `reconcile` refuse a run that it refuses, and `reconcile`
-- passes its result through it and through `validate_transition` again before it stores it.
--
-- Conventions. A string is its list of code points. A Go map is an association list in which a later
-- entry covers an earlier one. A transaction that fails leaves the store as it was. A time counts
-- from Go's zero time, so that IsZero is a test for 0; the clock is an argument. Lower case is that of
-- Unicode 15. In Jobs, an event whose log has no sequence number left sets the flag `exhausted` of the
-- store, for which Runs fails the whole call, as the transaction of the code does. An int field is an
-- integer without a bound: the code compares it with small constants and lengths. A nil slice and an
-- empty one are the same list.
--
-- Bounds and fuel. `check_keys` runs on fuel, the length of the template, of which each round
-- consumes two characters at least. `plan_rounds` runs on one round more than there are steps, of
-- which each but the last places one at least. `rounds` of the fair queue runs on as many rounds as
-- there are jobs in the tier, of which each takes one. The limits of the source (16 parallel steps,
-- 32 dependencies or dependants, 1024 edges, 256 retained events, the 64-bit sequence, 64 and 8
-- failure records, a million queue entries, 24 MiB of result) are its constants. The attempt of a job is
-- an int of 64 bits, whose increment wraps around.
--
-- Not modelled: the JSON encoding and the SHA-256 digest of a binding, which are the argument
-- `digest` of every function that calls them; the errors of the key-value store itself and of JSON
-- decoding; the SHA-256 keys of a route and of an owner, which are arguments, and those of a lock, a
-- placement and a submission, which are the records that they digest; the decoders of JSON and base64
-- for a worker's result, which are arguments; random IDs, which are arguments; the test hook of the
-- event log; the fields of a job or a run that the modelled functions only copy. The rest of the
-- relay (reservations of sealed jobs, tokens, scheduled actions, transport), the worker, the bridge, the terminal and the
-- updater are outside this development.
pub mod Prelude
pub mod Text
pub mod Store
pub mod Pipeline
pub mod Routing
pub mod Queue
pub mod Jobs
