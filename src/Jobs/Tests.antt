-- ===== src/Jobs/Tests.antt =====
-- internal/cluster/store.go: a small store with jobs, and what the theorems say of it.
pub mod Stores
mod Ended
use context_bridge.Prelude.{
  ℕ, Bool, true, false, List, [], ◌∷◌, Option, none, some, ok, ◌≡◌, refl, arith, Bool-cases, inl,
  inr, ◌==◌, sym,
}
use context_bridge.Prelude.Int.{ℤ, pos}
use context_bridge.Text.{
  Text, codes, text_eq, has, to_lower, trim_space, trim_left, lower_rune, cut_prefix, cut_suffix,
  cut, equal_fold, fold_rune,
}
use context_bridge.Pipeline.Graph.Edges.{lookup}
use context_bridge.Jobs.Records.{
  Requirements, Job, Status, queued, running, completed, no_usage, status_eq, terminal, increment,
  fence_eq,
}
use context_bridge.Jobs.Failures.{
  stable_codes, normalized_code, cases_of, code_from_text, sealed_message,
}
use context_bridge.Jobs.Failures.Stable.{normalized_code-stable}
use context_bridge.Jobs.Queue.{
  Queue, is_queued, key_eq, entry_at, without_entry, without_index, incremented, decremented, owned,
  add_owned, drop_owned, requeue, enqueue, put_entry, remove_entry, delete_entry,
}
use context_bridge.Jobs.Locks.{
  acquire, base_eq, active, overlaps, needs_lock, kind_eq, scope_eq, eligible, canonical_session,
  base_of, scope_of, same_holder, blocks, scan, same_key, without_key, release, collect_garbage,
}
use context_bridge.Jobs.Tables.{
  World, Digests, save, enqueue_job, dequeue_job, job_event, step_event, release_lock,
  resolve_probes, probe_exists, record_failure, log_event, sequence_of,
}
use context_bridge.Jobs.Complete.Results.{Codecs, result_problem}
use context_bridge.Jobs.Complete.Retry.{Report, no_evidence, retry_allowed}
use context_bridge.Jobs.Labels.{
  bytes, truncate, clean_label, any_hidden, valid_routing_label, is_adapter,
}
use context_bridge.Jobs.Probes.{in_probation, claim, probe_failure, resolve_probe, probes}
use context_bridge.Jobs.Prepare.{is_reserved, valid_key, check_request, prepare}
use context_bridge.Jobs.Admit.{
  submission_at, recorded_job, replayed, save_submission, check_room, admit_new, check_limits,
  admit_prepared, admit,
}
use context_bridge.Jobs.Assign.{
  parent_ended, adapt, claim_probe, lock_session, offers, decided, assignable,
}
use context_bridge.Jobs.Run.{
  valid_fence, fence_fails, at_attempt, mark_running, progress_event, update_progress,
}
use context_bridge.Jobs.Cancel.{tenant_allowed, cancelled_job, cancel_stored, cancel}
use context_bridge.Jobs.Complete.{
  redacted, classified, retry, completion_error, accepted_job, refused_job, refused_report, timed,
  saturating_add, final_progress, ended_job, finished_job, route_key_of, credit_node, finish,
  conclude, complete,
}
use context_bridge.Jobs.Complete.Placements.{
  placement_key, profile_eq, put_newest, put_placement, place,
}
use context_bridge.Jobs.Recover.{
  settle_ended, take_out, walk, store_told, blame, store_ended, store_all, recovered, visit_of_node,
  requeue_node, visit_at_restart, Change, recover_restart,
}
use context_bridge.Jobs.Recover.Stale.{visit_stale, recover_stale}
use context_bridge.Store.RateLimit.{window_at, count_job, consume}
use context_bridge.Pipeline.Checkpoint.Identifiers.{all_chars, has_dots, valid_sha256, valid_job_id}
use context_bridge.Jobs.Prepare
use context_bridge.Jobs.Admit
use context_bridge.Jobs.Assign
use context_bridge.Jobs.Machine.{Agrees, Advances}
use context_bridge.Jobs.Machine.Runs.{
  Call, submit, assign, start, complete_job, cancel_job, run, perform, committed,
}
use context_bridge.Jobs.Machine.Runs.Calls.{perform-Advances, run-Agrees}
use context_bridge.Jobs.Machine.Runs.Final.{run-final}
use context_bridge.Jobs.Machine.Runs.Attempts.{Within, AllWithin, run-Within}
use context_bridge.Jobs.Machine.Runs.Late.{Refused, TriedAtLeast, run-Refused}
use context_bridge.Jobs.Machine.Runs.Restart.{busy, after_restart, recover_restart-idle}
use context_bridge.Jobs.Tests.Stores.{
  digests, codecs, empty_queue-Counted, empty_world, empty_world-Agrees, empty_world-Within,
  request, limits, calls,
}

abbrev submission : Call
submission = submit limits (codes "x") 100 request

abbrev submitted : World
submitted = committed empty_world (perform digests codecs submission empty_world)

submitted_ok : perform digests codecs submission empty_world ≡ ok submitted
unfolding equal_fold fold_rune perform admit prepare check_request is_reserved valid_key
    admit_prepared admit_new check_limits replayed check_room owned save_submission enqueue_job
    put_entry requeue enqueue without_entry without_index incremented add_owned log_event
    sequence_of job_event step_event consume count_job window_at lookup has text_eq trim_space
    trim_left to_lower lower_rune clean_label bytes truncate all_chars has_dots valid_job_id save
submitted_ok = refl

perform-Advances_example : Advances empty_world submitted
perform-Advances_example =
    perform-Advances digests codecs submission empty_world submitted empty_world-Agrees submitted_ok

run-Agrees_example : Agrees (run digests codecs calls empty_world)
run-Agrees_example = run-Agrees digests codecs calls empty_world empty_world-Agrees

run-Within_example : AllWithin (run digests codecs calls empty_world)
run-Within_example =
    run-Within digests codecs calls empty_world empty_world-Agrees empty_world-Within

abbrev job_of : Status → ℤ → Job
job_of s attempt = record (Prepare.new_job (codes "job-1") 100 request) {
  status = s;
  attempt = attempt;
  assigned_node = codes "n1";
}

-- A store with one job that is not queued.
abbrev world_with : Job → World
world_with j = record empty_world { jobs = (codes "job-1", j) ∷ [] }

world_with-Agrees :
    (j : Job) → j.id ≡ codes "job-1" → status_eq j.status queued ≡ false → Agrees (world_with j)
unfolding is_queued lookup
world_with-Agrees j named other = record {
  keyed = (refl, named, tt);
  queue = λ i. elim (Bool-cases (text_eq i (codes "job-1"))) [
    | inl same ↦ rw same (sym other)
    | inr apart ↦ rw apart refl
  ];
  counted = empty_queue-Counted;
}

abbrev done : Job
done = job_of completed (pos 1)

done-Agrees : Agrees (world_with done)
unfolding status_eq
done-Agrees = world_with-Agrees done refl refl

done_found : lookup (codes "job-1") (world_with done).jobs ≡ some done
unfolding lookup text_eq
done_found = refl

done_final : terminal completed ≡ true
unfolding terminal status_eq
done_final = refl

run-final_example :
    lookup (codes "job-1") (run digests codecs calls (world_with done)).jobs ≡ some done
run-final_example =
    run-final digests codecs calls (world_with done) (codes "job-1") done done-Agrees done_found
      done_final

abbrev again : Job
again = job_of running (pos 2)

again-Agrees : Agrees (world_with again)
unfolding status_eq
again-Agrees = world_with-Agrees again refl refl

again-Within : Within again
unfolding status_eq
again-Within = record { counted = refl; bounded = omega arith; small = omega arith; room = refl }

again-AllWithin : AllWithin (world_with again)
unfolding lookup
again-AllWithin i = elim (Bool-cases (text_eq i (codes "job-1"))) [
  | inl same ↦ rw same again-Within
  | inr apart ↦ rw apart tt
]

again_tried : TriedAtLeast 2 (lookup (codes "job-1") (world_with again).jobs)
unfolding lookup text_eq
again_tried = omega arith

run-Refused_example :
    Refused digests codecs (codes "job-1") (pos 1) (run digests codecs calls (world_with again))
run-Refused_example =
    run-Refused digests codecs calls (world_with again) (codes "job-1") 1 again-Agrees
      again-AllWithin again_tried

recover_restart-idle_example :
    (r : World × List Change) × (recover_restart digests 200 (codes "restart") (world_with again)
      ≡ ok r)
    × ((i : Text)
        → (busy (lookup i r.0.jobs) ≡ false)
          × (lookup i r.0.jobs
              ≡ after_restart 200 (codes "restart") (lookup i (world_with again).jobs)))
recover_restart-idle_example =
    recover_restart-idle digests 200 (codes "restart") (world_with again) again-Agrees

normalized_code-stable_example :
    has (normalized_code (codes "made_up") (codes "boom")) stable_codes ≡ true
normalized_code-stable_example = normalized_code-stable (codes "made_up") (codes "boom") refl
