-- ===== src/Jobs/Run.antt =====
-- internal/cluster/store.go: the reports of the worker that has a job: markRunning and
-- updateJobProgress, behind validateAssignmentFence.
use context_bridge.Prelude.{
  ℕ, ◌+◌, Bool, true, false, not, ◌&&◌, ◌||◌, List, [], Option, none, some, ltb, leb, ◌==◌,
  if◌then◌else◌, Result, ok, ◌>>=◌, ◌>>◌, reject_if,
}
use context_bridge.Prelude.Int.{ℤ, pos, ltb_ℤ, pos_part, int_eq}
use context_bridge.Text.{Text, text_eq}
use context_bridge.Pipeline.Graph.Edges.{lookup, is_some}
use context_bridge.Jobs.Records.{
  Job, Progress, Fence, fence_eq, assigned, running, status_eq, at_worker, positive,
}
use context_bridge.Jobs.Labels.{bytes, clean_label, valid_routing_label}
use context_bridge.Jobs.Tables.{
  JobError, not_found, stale_attempt, bad_fence, sealed_progress, bad_progress, Event,
  execution_started, step_started, progressed, World, found, save, put_job, job_event, step_event,
  log_event,
}

-- AssignmentFence.Valid.
unfoldable pub valid_fence : Fence → Bool
unfolding valid_routing_label
valid_fence f = valid_routing_label f.cluster_id 120 && (ltb 0 f.relay_epoch && ltb 0 f.generation)

-- The stored and the reported fence agree with each other and with the attempt.
abbrev pub fences_match : Job → Fence → Fence → Bool
fences_match j f g =
    positive j.attempt
    && (valid_fence f && (valid_fence g && (fence_eq f g && g.generation == pos_part j.attempt)))

-- validateAssignmentFence fails.
unfoldable pub fence_fails : Job → Option Fence → Bool
unfolding fence_eq valid_fence
fence_fails j reported = elim j.assignment_fence [
  | none ↦ is_some reported
  | some f ↦ elim reported [ none ↦ true | some g ↦ not (fences_match j f g) ]
]

-- The job is at this node, in this attempt.
unfoldable pub at_attempt : Text → ℤ → Job → Bool
at_attempt node_id attempt j =
    text_eq j.assigned_node node_id && (positive attempt && int_eq j.attempt attempt)

abbrev pub running_job : ℕ → Job → Job
running_job now j = record j { status = running; started_at = now; updated_at = now }

-- markRunning.
unfoldable pub mark_running :
    ℕ → Text → Text → ℤ → Option Fence → World → Result JobError (World × Job)
unfolding lookup at_attempt fence_fails
mark_running now id node_id attempt fence w = do
  j ← found not_found (lookup id w.jobs)
  reject_if (not (status_eq j.status assigned && at_attempt node_id attempt j)) stale_attempt
  reject_if (fence_fails j fence) bad_fence
  let after = running_job now j
  ok (
    step_event step_started after (job_event now execution_started after (put_job after w)),
    after,
  )

abbrev pub maximum_progress_events : ℕ
maximum_progress_events = 64

abbrev pub count_of : Text → List (Text × ℕ) → ℕ
count_of id counts = elim (lookup id counts) [ none ↦ 0 | some n ↦ n ]

-- appendAdvisoryJobProgressEventTx.
unfoldable pub progress_event : Job → Progress → World → World
unfolding lookup save log_event
progress_event j p w =
    let event : Event = record {
      kind = progressed;
      job_id = j.id;
      run_id = [];
      time = p.updated_at;
      attempt = j.attempt;
      node_id = j.assigned_node;
      step_id = j.step;
    } in
    let count = count_of j.id w.progress_counts in
    if leb maximum_progress_events count
    then w
    else log_event event (record w { progress_counts = save j.id (count + 1) w.progress_counts })

abbrev pub malformed : Progress → Bool
malformed p =
    p.sequence == 0
    || (ltb 1048576 (bytes p.text)
        || (ltb 500 (bytes p.detail) || (ltb_ℤ p.percent (pos 0) || ltb_ℤ (pos 100) p.percent)))

-- An earlier or a repeated report, which is passed over.
abbrev pub outdated : Job → Progress → Bool
outdated j p = elim j.progress [ none ↦ false | some q ↦ leb p.sequence q.sequence ]

abbrev pub cleaned : ℕ → Progress → Progress
cleaned now p = record p {
  phase = clean_label p.phase 30;
  detail = clean_label p.detail 500;
  updated_at = now;
}

abbrev pub progressed_job : Progress → Job → Job
progressed_job p j = record j { progress = some p; updated_at = p.updated_at }

abbrev pub with_progress : Progress → Job → World → World × Job
with_progress p j w =
    (progress_event (progressed_job p j) p (put_job (progressed_job p j) w), progressed_job p j)

-- updateJobProgress.
unfoldable pub update_progress :
    ℕ → Text → Text → ℤ → Option Fence → Progress → World → Result JobError (World × Job)
unfolding lookup at_attempt fence_fails bytes clean_label progress_event
update_progress now id node_id attempt fence p w = do
  j ← found not_found (lookup id w.jobs)
  reject_if (not (at_worker j.status && at_attempt node_id attempt j)) stale_attempt
  reject_if (fence_fails j fence) bad_fence
  reject_if (is_some j.sealed_payload) sealed_progress
  reject_if (malformed p) bad_progress
  ok (if outdated j p then (w, j) else with_progress (cleaned now p) j w)
