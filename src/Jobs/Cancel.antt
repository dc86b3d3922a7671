-- ===== src/Jobs/Cancel.antt =====
-- internal/cluster/store.go: CancelJobForProducer and cancelJobTx.
use context_bridge.Prelude.{
  ℕ, Bool, not, ◌&&◌, ◌||◌, List, [], none, if◌then◌else◌, Result, ok, ◌>>=◌, ◌>>◌, reject_if,
}
use context_bridge.Text.{Text, text_eq, has}
use context_bridge.Pipeline.Graph.Template.{is_empty}
use context_bridge.Pipeline.Graph.Edges.{lookup}
use context_bridge.Jobs.Records.{Job, queued, cancelled, status_eq, terminal}
use context_bridge.Jobs.Tables.{
  JobError, not_found, already_final, job_cancelled, step_cancelled, World, found, put_job,
  dequeue_job, job_event, step_event,
}

-- tenantAllowed: no list allows every tenant.
unfoldable pub tenant_allowed : Text → List Text → Bool
unfolding has
tenant_allowed tenant allowed = is_empty allowed || has tenant allowed

-- The tombstone of a cancelled job. One that was queued loses its bodies.
unfoldable pub cancelled_job : ℕ → Job → Job
cancelled_job now j =
    let after : Job = record j { status = cancelled; finished_at = now; updated_at = now } in
    if status_eq j.status queued
    then record after {
      payload = [];
      sealed_payload = none;
      result = [];
      sealed_result = none;
      progress = none;
    }
    else after

-- cancelJobTx.
unfoldable pub cancel_stored : ℕ → Job → World → Result JobError (World × Job)
unfolding cancelled_job terminal
cancel_stored now j w = do
  reject_if (terminal j.status) already_final
  let after = cancelled_job now j
  dequeued ← dequeue_job j.id w
  ok (
    step_event step_cancelled after (job_event now job_cancelled after (put_job after dequeued)),
    after,
  )

-- CancelJobForProducer. The lookup of owners, which is derived from the jobs, refuses no more than
-- the check of the job does.
unfoldable pub cancel : ℕ → Text → Text → List Text → World → Result JobError (World × Job)
unfolding cancel_stored lookup tenant_allowed
cancel now id owner tenants w = do
  j ← found not_found (lookup id w.jobs)
  reject_if
      (not (is_empty owner)
        && (not (text_eq j.owner_subject owner) || not (tenant_allowed j.tenant_id tenants)))
      not_found
  cancel_stored now j w
