-- ===== src/Jobs/Admit.antt =====
-- internal/cluster/store.go: createJob and admitPreparedJobTx, the admission of a job, with its
-- limits and its idempotency. `fresh` is the ID that randomID draws. The indexes by age and by owner,
-- which follow from the jobs, are left out.
pub mod Replay
mod Tests
use context_bridge.Prelude.{
  ℕ, zero, suc, ◌+◌, Bool, true, false, not, ◌&&◌, ◌||◌, List, [], ◌∷◌, ◌++◌, Option, none, some,
  ltb, leb, ◌==◌, if◌then◌else◌, length, Result, ok, err, ◌>>=◌, ◌>>◌, reject_if,
}
use context_bridge.Prelude.Int.{ℤ, pos, negsuc, ltb_ℤ, pos_part}
use context_bridge.Text.{Text, codes, text_eq, has, trim_space, to_lower}
use context_bridge.Pipeline.Graph.Template.{is_empty}
use context_bridge.Pipeline.Graph.Edges.{lookup, is_some}
use context_bridge.Pipeline.Checkpoint.Identifiers.{valid_job_id, all_chars}
use context_bridge.Store.RateLimit.{Window, RateError, consume}
use context_bridge.Jobs.Records.{Requirements, Envelope, Job, no_usage, queued, positive}
use context_bridge.Jobs.Labels.{clean_label}
use context_bridge.Jobs.Queue.{Queue, QueueError, owned, counter_range, maximum_count}
use context_bridge.Jobs.Tables.{
  JobError, not_found, reserved_task, not_internal, policy_refused, unsupported_version, bad_job_id,
  bad_priority, no_payload, no_producer, bad_key, bad_hash, e2ee_required, priority_forbidden,
  tenant_forbidden, exists, queue_full, owner_queue_full, conflict, unavailable, owner_mismatch,
  queue_failed, rate_failed, job_accepted, job_queued, step_queued, SubmissionKey, Submission,
  World, found, put_job, enqueue_job, job_event, step_event,
}
use context_bridge.Jobs.Prepare.{
  scheduled_task, is_reserved, check_task, valid_key, contract_v1, normal_attempts,
  check_submission, new_job, job_id_of, check_request, prepare, Request,
}

-- ProducerLimits, with the queue's own limit. Times are in the unit in which `hour` counts.
pub record Limits : Type 0 where
  pub max_queued : ℤ
  pub max_owner_queued : ℤ
  pub max_jobs_per_hour : ℤ
  pub max_priority : Option ℤ
  pub allowed_tenants : List Text
  pub require_e2ee : Bool
  pub hour : ℕ

abbrev pub above : Option ℤ → ℤ → Bool
above none priority = false
above (some maximum) priority = ltb_ℤ maximum priority

abbrev pub submission_key : Text → Text → SubmissionKey
submission_key owner key = record { owner = clean_label owner 120; key = key }

unfoldable pub submission_at : SubmissionKey → List (SubmissionKey × Submission) → Option Submission
submission_at k [] = none
submission_at k ((l, s) ∷ m) =
    if text_eq k.owner l.owner && text_eq k.key l.key then some s else submission_at k m

-- The job of a recorded submission.
unfoldable pub recorded_job : Text → Text → World → Submission → Result JobError Job
unfolding lookup
recorded_job owner hash w s = do
  reject_if (not (text_eq s.request_hash hash)) conflict
  j ← found unavailable (lookup s.job_id w.jobs)
  reject_if (not (text_eq j.owner_subject (clean_label owner 120))) owner_mismatch
  ok j

-- lookupIdempotentJobTx.
unfoldable pub replayed : Text → Text → Text → World → Result JobError (Option Job)
unfolding submission_at recorded_job
replayed owner key hash w = elim (submission_at (submission_key owner key) w.submissions) [
  | none ↦ ok none
  | some s ↦ recorded_job owner hash w s >>= λ j. ok (some j)
]

-- saveIdempotentJobTx.
unfoldable pub save_submission : Text → Text → Text → Text → World → Result JobError World
unfolding submission_at
save_submission owner key hash job_id w = do
  let k = submission_key owner key
  reject_if (is_some (submission_at k w.submissions)) conflict
  ok (record w {
    submissions = (k, record { job_id = job_id; request_hash = hash }) ∷ w.submissions;
  })

-- The queue is full, for all or for the owner; queueCounts refuses counters out of range.
unfoldable pub check_room : Limits → Text → Queue → Result JobError (Unit {0})
unfolding owned
check_room l owner q = do
  let mine = if is_empty owner then 0 else owned owner q.owners
  reject_if (ltb maximum_count q.total || ltb maximum_count mine) (queue_failed counter_range)
  reject_if (positive l.max_queued && not (ltb_ℤ (pos q.total) l.max_queued)) queue_full
  reject_if (positive l.max_owner_queued && not (ltb_ℤ (pos mine) l.max_owner_queued))
      owner_queue_full
  ok tt

abbrev pub lift_rate {ℓ} : {A : Type ℓ} → Result RateError A → Result JobError A
lift_rate (ok a) = ok a
lift_rate (err e) = err (rate_failed e)

-- The part of admitPreparedJobTx that admits a job that no earlier submission made.
unfoldable pub admit_new : Limits → ℕ → Text → Text → Job → World → Result JobError (World × Job)
unfolding check_room save_submission lookup
admit_new l now key hash j w = do
  reject_if (is_some (lookup j.id w.jobs)) exists
  if positive l.max_queued || positive l.max_owner_queued
      then check_room l j.owner_subject w.queue
      else ok tt
  windows ← lift_rate (consume l.hour w.windows j.owner_subject l.max_jobs_per_hour now)
  enqueued ← enqueue_job j (put_job j (record w { windows = windows }))
  saved ←
      if is_empty key then ok enqueued else save_submission j.owner_subject key hash j.id enqueued
  ok (step_event step_queued j (job_event now job_queued j (job_event now job_accepted j saved)), j)

abbrev pub earlier : Text → Text → Job → World → Result JobError (Option Job)
earlier key hash j w = if is_empty key then ok none else replayed j.owner_subject key hash w

abbrev pub admit_unless :
    Limits → ℕ → Text → Text → Job → World → Option Job → Result JobError (World × (Job × Bool))
admit_unless l now key hash j w (some old) = ok (w, (old, true))
admit_unless l now key hash j w none = admit_new l now key hash j w >>= λ r. ok (r.0, (r.1, false))

-- The producer's limits on a single job.
unfoldable pub check_limits : Limits → Job → Result JobError (Unit {0})
unfolding has
check_limits l j = do
  reject_if (l.require_e2ee && not (is_some j.sealed_payload)) e2ee_required
  reject_if (above l.max_priority j.priority) priority_forbidden
  reject_if (not (is_empty l.allowed_tenants) && not (has j.tenant_id l.allowed_tenants))
      tenant_forbidden
  ok tt

-- admitPreparedJobTx: the store, the job, and whether it is that of an earlier submission.
unfoldable pub admit_prepared :
    Limits → ℕ → Text → Text → Job → World → Result JobError (World × (Job × Bool))
unfolding replayed admit_new check_limits
admit_prepared l now key hash j w = do
  check_limits l j
  old ← earlier key hash j w
  admit_unless l now key hash j w old

-- createJob.
unfoldable pub admit : Limits → Text → ℕ → Request → World → Result JobError (World × (Job × Bool))
unfolding prepare admit_prepared
admit l fresh now r w = do
  j ← prepare fresh now r
  admit_prepared l now r.idempotency_key r.request_hash j w
