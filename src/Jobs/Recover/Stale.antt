-- ===== src/Jobs/Recover/Stale.antt =====
-- internal/cluster/store.go: RecoverStaleJobs, which ends jobs that have waited or run too long.
use context_bridge.Prelude.{ℕ, ◌-◌, Bool, not, ◌&&◌, List, ltb, ◌==◌, if◌then◌else◌, Result}
use context_bridge.Prelude.Int.{ℤ, pos_part}
use context_bridge.Text.{codes}
use context_bridge.Pipeline.Graph.Template.{is_empty}
use context_bridge.Pipeline.Graph.Edges.{is_some}
use context_bridge.Jobs.Records.{Job, queued, failed, status_eq, at_worker, positive}
use context_bridge.Jobs.Failures.{timeout_ambiguous, reservation_expired}
use context_bridge.Jobs.Tables.{JobError, World, Digests}
use context_bridge.Jobs.Recover.{Change, Visit, ending, untouched, timed_out, expired, recovered}

-- 2 and 15 minutes, in nanoseconds.
abbrev pub default_wait : ℕ
default_wait = 120000000000

abbrev pub default_execution : ℕ
default_execution = 900000000000

abbrev pub effective : ℤ → ℕ → ℕ
effective given standard = if positive given then pos_part given else standard

-- A sealed job waits for its reserved worker for too long.
abbrev pub stale_bound : ℕ → ℕ → Job → Bool
stale_bound now wait j =
    status_eq j.status queued
    && (is_some j.sealed_payload
        && (not (is_empty j.assigned_node) && ltb wait (now - j.created_at)))

abbrev pub stale_execution : ℕ → ℕ → Job → Bool
stale_execution now execution j =
    at_worker j.status && (not (j.assigned_at == 0) && ltb execution (now - j.assigned_at))

abbrev pub timed_out_job : ℕ → Job → Job
timed_out_job now j = record j {
  updated_at = now;
  status = failed;
  error =
      codes
        "worker execution timed out; execution state is ambiguous; explicit resubmission required";
  finished_at = now;
  failure_code = timeout_ambiguous;
}

abbrev pub expired_job : ℕ → Job → Job
expired_job now j = record j {
  updated_at = now;
  status = failed;
  error = codes "encrypted worker reservation expired; explicit resubmission required";
  finished_at = now;
  failure_code = reservation_expired;
}

-- What happens to a job: it ends if it is stale.
unfoldable pub visit_stale : ℕ → ℕ → ℕ → Job → Visit
visit_stale now wait execution j =
    if stale_execution now execution j
    then ending (record { job = timed_out_job now j; how = timed_out })
    else if stale_bound now wait j
    then ending (record { job = expired_job now j; how = expired })
    else untouched

-- RecoverStaleJobs.
unfoldable pub recover_stale : Digests → ℕ → ℤ → ℤ → World → Result JobError (World × List Change)
unfolding visit_stale recovered
recover_stale digests now sealed_wait execution w =
    recovered digests now
      (visit_stale now (effective sealed_wait default_wait) (effective execution default_execution))
      w
