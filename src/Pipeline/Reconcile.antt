-- ===== src/Pipeline/Reconcile.antt =====
-- internal/cluster/store.go: ReconcileDAGChildTerminal, which records a finished child job in the
-- checkpoint of its run and derives the states that follow from it.
pub mod Outcome
pub mod Recording
pub mod Effects
pub mod Announced
mod Tests
use context_bridge.Prelude.{
  ℕ, zero, suc, ◌+◌, Bool, true, false, not, ◌&&◌, ◌||◌, List, [], ◌∷◌, ◌++◌, Option, none, some,
  ltb, ◌==◌, if◌then◌else◌, get_elem?, set, Result, ok, err, ◌>>=◌, ◌>>◌, reject_if,
}
use context_bridge.Text.{Text, codes, text_eq, trim_space}
use context_bridge.Pipeline.Graph.Template.{is_empty}
use context_bridge.Pipeline.Graph.Edges.{lookup}
use context_bridge.Pipeline.NodeState.{
  NodeState, not_ready, ready, queued, running, completed, failed, cancelled, ambiguous,
  blocked_by_dependency, state_eq, blocks_descendants,
}
use context_bridge.Pipeline.Records.{Binding, Node, Job, Run}
use context_bridge.Pipeline.Checkpoint.{Immutable, CheckpointError, validate_state}
use context_bridge.Pipeline.Checkpoint.Identifiers.{valid_job_id}
use context_bridge.Pipeline.Transition.{validate_transition}
use context_bridge.Pipeline.Propagation.{with_state, Sweep, propagated}
use context_bridge.Store.Events.{
  Event, EventKind, step_ready, step_blocked, Log, EventError, append_event, empty_log,
}

pub data ReconcileError : Type 0 where
  ids_required no_run no_job inactive_run context_mismatch not_terminal : ReconcileError
  not_bound no_snapshot unavailable : ReconcileError
  wrong_state : Text → NodeState → ReconcileError
  bad_checkpoint : CheckpointError → ReconcileError
  bad_event : EventError → ReconcileError

-- The buckets that the transaction reads and writes.
pub record Store : Type 0 where
  pub runs : List (Text × Run)
  pub jobs : List (Text × Job)
  pub logs : List (Text × Log)

abbrev pub required {ℓ} : {A : Type ℓ} → ReconcileError → Option A → Result ReconcileError A
required e none = err e
required e (some a) = ok a

-- dagNodeStateForTerminalJob.
unfoldable pub terminal_state : Job → Result ReconcileError NodeState
terminal_state job =
    if text_eq job.status (codes "completed")
    then ok completed
    else if text_eq job.status (codes "cancelled")
    then ok cancelled
    else if text_eq job.status (codes "failed")
    then (if text_eq job.failure_code (codes "execution_state_ambiguous")
          || text_eq job.failure_code (codes "execution_timeout_ambiguous")
        then ok ambiguous
        else ok failed)
    else err not_terminal

-- The first node of a step.
unfoldable pub index_of : ℕ → Text → List Node → Option ℕ
index_of i step [] = none
index_of i step (n ∷ ns) = if text_eq n.step step then some i else index_of (suc i) step ns

-- The child's snapshot is replaced by the finished job.
unfoldable pub set_snapshot : Job → List Job → Option (List Job)
set_snapshot job [] = none
set_snapshot job (j ∷ js) =
    let rest = set_snapshot job js in
    if text_eq j.id job.id
    then some (job ∷ js)
    else elim rest [ none ↦ none | some r ↦ some (j ∷ r) ]

-- run.Status != "running" || run.Graph == nil.
abbrev pub active_graph : Run → Option Binding
active_graph run = if text_eq run.status (codes "running") then run.graph else none

abbrev pub same_context : Job → Run → Bool
same_context job run =
    text_eq job.parent_id run.id
    && text_eq job.pipeline run.pipeline
    && text_eq job.owner_subject run.owner_subject
    && text_eq job.tenant_id run.tenant_id
    && not (is_empty (trim_space job.step))

abbrev pub later : ℕ → ℕ → ℕ
later t u = if ltb t u then u else t

-- checkpointAt: the clock, unless the job or the node is ahead of it.
abbrev pub checkpoint_time : ℕ → Job → Node → ℕ
checkpoint_time now job before = later (later now job.updated_at) before.updated_at

abbrev pub recorded : ℕ → ℕ → Node → NodeState → List Node → List Node
recorded at i before target nodes =
    if state_eq before.state target then nodes else set nodes i (with_state before target at)

abbrev pub with_nodes : Run → List Node → List Job → Run
with_nodes run nodes steps = record {
  id = run.id;
  pipeline = run.pipeline;
  owner_subject = run.owner_subject;
  tenant_id = run.tenant_id;
  status = run.status;
  graph = run.graph;
  node_states = nodes;
  steps = steps;
}

abbrev pub kind_of : Node → EventKind
kind_of n = if state_eq n.state blocked_by_dependency then step_blocked else step_ready

-- appendPipelineNodeCheckpointEventTx.
abbrev pub event_of : Run → Node → Event
event_of run n = record {
  run_id = run.id;
  kind = kind_of n;
  time = n.updated_at;
  step_id = n.step;
  sequence = 0;
}

abbrev pub lift_event {ℓ} : {A : Type ℓ} → Result EventError A → Result ReconcileError A
lift_event (ok a) = ok a
lift_event (err e) = err (bad_event e)

abbrev pub lift_checkpoint : Result CheckpointError (Unit {0}) → Result ReconcileError (Unit {0})
lift_checkpoint (ok u) = ok u
lift_checkpoint (err e) = err (bad_checkpoint e)

-- The loop over the changed indices, which are in range.
unfoldable pub append_changes : ℕ → Run → List ℕ → Log → Result ReconcileError Log
append_changes now run [] log = ok log
append_changes now run (i ∷ is) log = elim (get_elem? run.node_states i) [
  | none ↦ append_changes now run is log
  | some n ↦ lift_event (append_event now (event_of run n) log) >>= λ l. append_changes now run is l
]

-- CreateBucketIfNotExists.
abbrev pub log_of : Text → Store → Log
log_of run_id store = elim (lookup run_id store.logs) [ none ↦ empty_log | some l ↦ l ]

abbrev pub saved : Store → Run → Log → Store
saved store run log = record {
  runs = (run.id, run) ∷ store.runs;
  jobs = store.jobs;
  logs = (run.id, log) ∷ store.logs;
}

-- The node of the child, its index, and the state that it reaches.
pub record Child : Type 0 where
  pub index : ℕ
  pub before : Node
  pub target : NodeState

abbrev pub child_node : Run → Job → Result ReconcileError Child
child_node run job = do
  target ← terminal_state job
  i ← required not_bound (index_of 0 job.step run.node_states)
  before ← required not_bound (get_elem? run.node_states i)
  reject_if (not (text_eq before.job_id job.id)) not_bound
  reject_if
      (not (state_eq before.state queued)
        && not (state_eq before.state running)
        && not (state_eq before.state target))
      (wrong_state before.step before.state)
  ok (record { index = i; before = before; target = target })

-- The checkpoint that follows, before it is stored.
unfoldable pub next_run :
    (Immutable → Text) → ℕ → Run → Binding → Job → Result ReconcileError (Run × Sweep)
unfolding terminal_state index_of set_snapshot
next_run digest now run b job = do
  child ← child_node run job
  let at = checkpoint_time now job child.before
  let nodes = recorded at child.index child.before child.target run.node_states
  steps ← required no_snapshot (set_snapshot job run.steps)
  w ← required unavailable (propagated at b.order nodes)
  let updated = with_nodes run w.nodes steps
  lift_checkpoint (validate_state digest updated)
  lift_checkpoint (validate_transition run updated)
  ok (updated, w)

-- ReconcileDAGChildTerminal: the store after the transaction, and the updated run. An error leaves
-- the store as it was.
unfoldable pub reconcile :
    (Immutable → Text) → ℕ → Text → Text → Store → Result ReconcileError (Store × Run)
unfolding next_run append_changes
reconcile digest now run_id job_id store = do
  reject_if (not (valid_job_id (trim_space run_id)) || not (valid_job_id (trim_space job_id)))
      ids_required
  run ← required no_run (lookup (trim_space run_id) store.runs)
  b ← required inactive_run (active_graph run)
  lift_checkpoint (validate_state digest run)
  job ← required no_job (lookup (trim_space job_id) store.jobs)
  reject_if (not (same_context job run)) context_mismatch
  r ← next_run digest now run b job
  log ← append_changes now r.0 r.1.changed (log_of r.0.id store)
  ok (saved store r.0 log, r.0)
