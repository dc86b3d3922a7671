-- ===== src/Jobs/Complete.antt =====
-- internal/cluster/store.go: completeJobWithFailure, the worker's report that a job has ended. The
-- children have validateWorkerResult, preExecutionRetryAllowed and putSessionPlacement.
pub mod Results
pub mod Retry
pub mod Placements
use context_bridge.Prelude.{
  ℕ, zero, suc, ◌+◌, ◌-◌, ◌/◌, Bool, true, false, not, ◌&&◌, ◌||◌, List, [], ◌∷◌, ◌++◌, Option,
  none, some, ltb, leb, ◌==◌, if◌then◌else◌, Result, ok, err, ◌>>=◌, ◌>>◌, reject_if, length,
}
use context_bridge.Prelude.Int.{ℤ, pos, negsuc, ltb_ℤ, is_zero_ℤ}
use context_bridge.Text.{Text, codes, text_eq, trim_space}
use context_bridge.Pipeline.Graph.Template.{is_empty}
use context_bridge.Pipeline.Graph.Edges.{lookup, is_some}
use context_bridge.Pipeline.Checkpoint.Identifiers.{valid_sha256}
use context_bridge.Routing.Outcome.{record_outcome}
use context_bridge.Jobs.Records.{
  Job, Usage, no_usage, Progress, Execution, Envelope, Decision, Fence, Status, queued, assigned,
  running, completed, failed, status_eq, at_worker, positive,
}
use context_bridge.Jobs.Labels.{clean_label, is_adapter}
use context_bridge.Jobs.Failures.{normalized_code, sealed_message, worker_result_rejected}
use context_bridge.Jobs.Run.{at_attempt, fence_fails}
use context_bridge.Jobs.Tables.{
  JobError, not_found, too_many_executions, not_assigned, other_node, stale_attempt, bad_fence,
  retrying, job_queued, job_completed, job_failed, step_completed, step_failed, World, Node,
  Digests, found, put_job, put_node, with_health, enqueue_job, job_event, step_event, release_lock,
  resolve_probes, outcome, blank,
}
use context_bridge.Jobs.Complete.Results.{Codecs, result_problem}
use context_bridge.Jobs.Complete.Retry.{Report, retry_allowed, first_execution}
use context_bridge.Jobs.Complete.Placements.{place}

-- The report with the diagnostics that a sealed job may not carry replaced. `reported_code` stays.
unfoldable pub redacted : Job → Report → Report
unfolding normalized_code sealed_message
redacted j r =
    let code = normalized_code r.failure_code r.error in
    if is_some j.sealed_payload && not (blank r.error)
    then record r { failure_code = code; error = sealed_message code }
    else r

unfoldable pub classified : Job → Report → Report
unfolding redacted normalized_code
classified j r =
    let s = redacted j r in record s { failure_code = normalized_code s.failure_code s.error }

-- The job back in the queue after a refusal.
abbrev pub retried_job : ℕ → Job → Job
retried_job now j = record j {
  status = queued;
  error = [];
  failure_code = [];
  result = [];
  sealed_result = none;
  usage = no_usage;
  progress = none;
  routing_decision = none;
  assignment_fence = none;
  executed_adapter_endpoint_id = pos 0;
  ephemeral_adapter_endpoint = false;
  assigned_at = 0;
  started_at = 0;
  finished_at = 0;
  updated_at = now;
  assigned_node = if is_some j.sealed_payload then j.assigned_node else [];
}

unfoldable pub retry : ℕ → Job → World → Result JobError (World × Job)
retry now j w = do
  let after = retried_job now j
  let freed = resolve_probes j.assigned_node j.id [] now w
  enqueued ← enqueue_job after (put_job after freed)
  ok (job_event now job_queued after (job_event now retrying after enqueued), after)

-- The endpoint that the worker reports, or 0.
abbrev pub endpoint_of : Report → ℤ
endpoint_of r = elim (first_execution r) [ none ↦ pos 0 | some e ↦ e.adapter_endpoint_id ]

abbrev pub reports_ephemeral : Report → Bool
reports_ephemeral r = elim (first_execution r) [
  | none ↦ false
  | some e ↦ e.ephemeral_adapter_endpoint
]

abbrev pub endpoint_mismatch : Job → ℤ → Bool
endpoint_mismatch j endpoint =
    let provider = trim_space j.requirements.provider in
    not (is_zero_ℤ endpoint)
    && (not (positive endpoint) || (not (is_empty provider) && not (is_adapter provider)))

-- completionError, as its text.
unfoldable pub completion_error : Codecs → Job → Report → Option Text
unfolding result_problem
completion_error codecs j r =
    if endpoint_mismatch j (endpoint_of r)
    then some (codes "adapter execution metadata does not match this job")
    else result_problem codecs j r

-- What the job takes over of the report, which a malformed one loses.
unfoldable pub accepted_job : Report → Job → Job
accepted_job r j =
    let endpoint = endpoint_of r in
    let ephemeral = j.requirements.adapter_ephemeral_session in
    record j {
      result = r.result;
      sealed_result = r.sealed;
      executed_adapter_endpoint_id =
          if positive endpoint then endpoint else j.executed_adapter_endpoint_id;
      ephemeral_adapter_endpoint =
          if positive endpoint then ephemeral || reports_ephemeral r else ephemeral;
    }

unfoldable pub refused_job : Job → Job
refused_job j = record j { result = []; sealed_result = none }

unfoldable pub refused_report : Text → Report → Report
refused_report problem r = record r {
  error = codes "worker result rejected: " ++ problem;
  failure_code = worker_result_rejected;
}

-- The time in the queue, in milliseconds; times are nanoseconds.
unfoldable pub timed : Job → Usage → Usage
timed j u =
    if not (j.assigned_at == 0) && ltb j.created_at j.assigned_at
    then record u { queue_ms = (j.assigned_at - j.created_at) / 1000000 }
    else u

-- saturatingUint64Add.
unfoldable pub saturating_add : ℕ → ℕ → ℕ
saturating_add a b = if ltb (18446744073709551615 - a) b then 18446744073709551615 else a + b

unfoldable pub final_progress : ℕ → Progress → Progress
unfolding saturating_add
final_progress now p = record p {
  sequence = saturating_add p.sequence 1;
  phase = codes "final";
  busy = false;
  updated_at = now;
}

abbrev pub map_progress : (Progress → Progress) → Option Progress → Option Progress
map_progress f none = none
map_progress f (some p) = some (f p)

-- The job at its end: completed without an error text, and failed with one.
unfoldable pub ended_job : ℕ → Report → Job → Job
unfolding clean_label normalized_code final_progress timed
ended_job now r j =
    let after : Job = record j {
      usage = timed j r.usage;
      error = clean_label r.error 500;
      finished_at = now;
      updated_at = now;
    } in
    if is_empty r.error
    then record after {
      failure_code = [];
      progress = map_progress (final_progress now) j.progress;
      status = completed;
    }
    else record after { failure_code = normalized_code r.failure_code r.error; status = failed }

unfoldable pub finished_job : Codecs → ℕ → Report → Job → Job
unfolding completion_error accepted_job refused_job refused_report ended_job
finished_job codecs now r j = elim (completion_error codecs j r) [
  | none ↦ ended_job now r (accepted_job r j)
  | some problem ↦ ended_job now (refused_report problem r) (refused_job j)
]

-- jobRoutingHealthRouteKey.
unfoldable pub route_key_of : Job → Text
unfolding valid_sha256
route_key_of j = elim j.routing_decision [
  | none ↦ []
  | some d ↦ if valid_sha256 d.route_key then d.route_key else []
]

-- The node's counters and its memory of the route.
unfoldable pub credit_node : Digests → ℕ → Job → World → World
unfolding lookup saturating_add
credit_node digests now j w = elim (lookup j.assigned_node w.nodes) [
  | none ↦ w
  | some n ↦
      let done = status_eq j.status completed in
      let o = outcome digests j.owner_subject (route_key_of j) j done j.failure_code now in
      put_node
        (record n {
          jobs_total = saturating_add n.jobs_total 1;
          jobs_failed = if done then n.jobs_failed else saturating_add n.jobs_failed 1;
          compute_ms = saturating_add n.compute_ms j.usage.compute_ms;
          routing_health = record_outcome o n.routing_health;
        })
        w
]

unfoldable pub finish : Digests → ℕ → Job → World → World × Job
finish digests now j w =
    let done = status_eq j.status completed in
    let stored = release_lock j (place j (put_job j w)) in
    let credited = credit_node digests now j stored in
    let told = job_event now (if done then job_completed else job_failed) j credited in
    (step_event (if done then step_completed else step_failed) j told, j)

unfoldable pub conclude :
    Digests → Codecs → ℕ → Text → Report → Job → World → Result JobError (World × Job)
unfolding retry finished_job finish retry_allowed
conclude digests codecs now reported s j w =
    if retry_allowed j reported s
    then retry now j w
    else ok (finish digests now (finished_job codecs now s j) w)

-- completeJobWithFailure: the store after the transaction, and the job.
unfoldable pub complete :
    Digests
    → Codecs
    → ℕ
    → Text
    → Text
    → ℤ
    → Option Fence
    → Report
    → World
    → Result JobError (World × Job)
unfolding classified conclude lookup at_attempt fence_fails
complete digests codecs now id node_id attempt fence r w = do
  reject_if (ltb 1 (length r.execution)) too_many_executions
  j ← found not_found (lookup id w.jobs)
  reject_if (not (at_worker j.status)) not_assigned
  reject_if (is_empty node_id || not (text_eq j.assigned_node node_id)) other_node
  reject_if (not (at_attempt node_id attempt j)) stale_attempt
  reject_if (fence_fails j fence) bad_fence
  conclude digests codecs now r.failure_code (classified j r) j w
