-- ===== src/Jobs/Recover.antt =====
-- internal/cluster/store.go: RequeueNode, RecoverRelayRestart and RecoverStaleJobs, which end the jobs
-- whose worker is lost. Each walks over all jobs, and then stores those that it changes.
pub mod Stale
pub mod Parts
pub mod Walked
pub mod Walks
use context_bridge.Prelude.{
  ℕ, zero, suc, ◌+◌, ◌-◌, Bool, true, false, not, ◌&&◌, ◌||◌, List, [], ◌∷◌, ◌++◌, map, Option,
  none, some, ltb, ◌==◌, if◌then◌else◌, Result, ok, err, ◌>>=◌, ◌>>◌,
}
use context_bridge.Prelude.Int.{ℤ, pos}
use context_bridge.Text.{Text, codes, text_eq}
use context_bridge.Pipeline.Graph.Edges.{lookup}
use context_bridge.Jobs.Records.{Job, failed, cancelled, status_eq, at_worker}
use context_bridge.Jobs.Labels.{clean_label}
use context_bridge.Jobs.Failures.{state_ambiguous, timeout_ambiguous}
use context_bridge.Jobs.Complete.{route_key_of}
use context_bridge.Jobs.Tables.{
  JobError, EventKind, job_ambiguous, job_failed, step_ambiguous, step_failed, World, Node, Digests,
  put_job, dequeue_job, job_event, step_event, release_lock, resolve_probes, probe_exists,
  record_failure,
}

abbrev pub reason_text : Text → Text
reason_text reason =
    reason ++ codes "; execution state is ambiguous; explicit resubmission required"

-- The end of a job whose execution is uncertain.
abbrev pub ambiguous_job : ℕ → Text → Job → Job
ambiguous_job now reason j = record j {
  error = clean_label (reason_text reason) 500;
  failure_code = state_ambiguous;
  updated_at = now;
  status = failed;
  finished_at = now;
}

-- The probe of a job that ended without a known outcome counts as failed, and its lock is released.
unfoldable pub settle_ended : Digests → ℕ → Job → World → World
unfolding release_lock resolve_probes record_failure probe_exists
settle_ended digests now j w = release_lock j (
    if probe_exists j.assigned_node j.id w
    then resolve_probes j.assigned_node j.id state_ambiguous now
        (record_failure digests [] (route_key_of j) j state_ambiguous now w)
    else w)

-- How a job ends: its worker was lost, its execution timed out, or its reservation expired.
pub data End : Type 0 where
  lost timed_out expired : End

-- A change that the walk collects: the job as it ends.
pub record Change : Type 0 where
  pub job : Job
  pub how : End

-- The queue entry goes, and the lock; that of an execution that timed out stays.
abbrev pub unlocked : End → Job → World → World
unlocked lost j w = release_lock j w
unlocked timed_out j w = w
unlocked expired j w = release_lock j w

unfoldable pub take_out : Change → World → Result JobError World
unfolding release_lock dequeue_job
take_out c w = dequeue_job c.job.id w >>= λ w. ok (unlocked c.how c.job w)

abbrev pub keep_change : Change → World × List Change → World × List Change
keep_change c r = (r.0, c ∷ r.1)

-- One job of the walk: it stays, its probe and its lock are settled, or it ends.
pub data Visit : Type 0 where
  untouched settled : Visit
  ending : Change → Visit

-- The walk over the jobs. `visit` says what happens to each.
unfoldable pub walk :
    Digests → ℕ → (Job → Visit) → List (Text × Job) → World → Result JobError (World × List Change)
unfolding settle_ended take_out
walk digests now visit [] w = ok (w, [])
walk digests now visit ((id, j) ∷ js) w = elim (visit j) [
  | untouched ↦ walk digests now visit js w
  | settled ↦ walk digests now visit js (settle_ended digests now j w)
  | ending c ↦ take_out c w >>= λ w. walk digests now visit js w >>= λ r. ok (keep_change c r)
]

-- The job is stored, with its events.
unfoldable pub store_told : EventKind → EventKind → Job → World → World
unfolding job_event step_event
store_told kind step_kind j w = step_event step_kind j (job_event j.updated_at kind j (put_job j w))

-- The outcome on the job's node, for an owner or for all.
unfoldable pub blame : Digests → Text → Job → World → World
unfolding record_failure
blame digests owner j w =
    record_failure digests owner (route_key_of j) j j.failure_code j.finished_at w

-- The body of the second loop, over the changes.
unfoldable pub store_ended : Digests → End → Job → World → World
unfolding store_told blame resolve_probes
store_ended digests lost j w =
    resolve_probes j.assigned_node j.id j.failure_code j.finished_at
      (blame digests [] j (store_told job_ambiguous step_ambiguous j w))
store_ended digests timed_out j w =
    blame digests j.owner_subject j (store_told job_ambiguous step_ambiguous j w)
store_ended digests expired j w = store_told job_failed step_failed j w

unfoldable pub store_all : Digests → List Change → World → World
unfolding store_ended
store_all digests [] w = w
store_all digests (c ∷ cs) w = store_all digests cs (store_ended digests c.how c.job w)

abbrev pub all_stored : Digests → World × List Change → World × List Change
all_stored digests r = (store_all digests r.1 r.0, r.1)

unfoldable pub recovered :
    Digests → ℕ → (Job → Visit) → World → Result JobError (World × List Change)
unfolding walk store_all
recovered digests now visit w = walk digests now visit w.jobs w >>= λ r. ok (all_stored digests r)

abbrev pub lost_job : Job → Change
lost_job j = record { job = j; how = lost }

-- The job has ended, but its worker may still have been executing it.
abbrev pub settles : Job → Bool
settles j =
    status_eq j.status cancelled
    || (status_eq j.status failed && text_eq j.failure_code timeout_ambiguous)

-- RequeueNode's case distinction.
unfoldable pub visit_of_node : ℕ → Text → Text → Job → Visit
unfolding clean_label
visit_of_node now node_id reason j =
    if not (text_eq j.assigned_node node_id)
    then untouched
    else if settles j
    then settled
    else if not (at_worker j.status)
    then untouched
    else ending (lost_job (ambiguous_job now reason j))

-- RequeueNode. The clock stands still during the transaction.
unfoldable pub requeue_node :
    Digests → ℕ → Text → Text → World → Result JobError (World × List Change)
unfolding visit_of_node recovered
requeue_node digests now node_id reason w =
    recovered digests now (visit_of_node now node_id reason) w

-- The first loop of RecoverRelayRestart: no node is connected.
abbrev pub disconnected : Text × Node → Text × Node
disconnected (id, n) =
    (id, record n { connected = false; state = codes "offline"; running = pos 0 })

abbrev pub restarted_job : ℕ → Text → Job → Job
restarted_job now reason j = record (ambiguous_job now reason j) { progress = none }

unfoldable pub visit_at_restart : ℕ → Text → Job → Visit
unfolding clean_label
visit_at_restart now reason j =
    if status_eq j.status cancelled
    then settled
    else if not (at_worker j.status)
    then untouched
    else ending (lost_job (restarted_job now reason j))

-- RecoverRelayRestart.
unfoldable pub recover_restart : Digests → ℕ → Text → World → Result JobError (World × List Change)
unfolding visit_at_restart recovered
recover_restart digests now reason w =
    recovered digests now (visit_at_restart now reason)
      (record w { nodes = map disconnected w.nodes })
