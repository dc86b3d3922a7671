-- ===== src/Jobs/Tests/Ended.antt =====
-- internal/cluster/store.go: the calls of a small store, computed.
use context_bridge.Prelude.{Option, none, some, ◌≡◌, refl}
use context_bridge.Text.{
  Text, codes, text_eq, has, to_lower, trim_space, trim_left, lower_rune, cut_prefix, cut_suffix,
  cut, equal_fold, fold_rune,
}
use context_bridge.Pipeline.Graph.Edges.{lookup}
use context_bridge.Jobs.Records.{Status, completed, status_eq, terminal, increment, fence_eq}
use context_bridge.Jobs.Failures.{normalized_code, cases_of, code_from_text, sealed_message}
use context_bridge.Jobs.Queue.{
  is_queued, key_eq, entry_at, without_entry, without_index, incremented, decremented, owned,
  add_owned, drop_owned, requeue, enqueue, put_entry, remove_entry, delete_entry,
}
use context_bridge.Jobs.Locks.{
  acquire, base_eq, active, overlaps, needs_lock, kind_eq, scope_eq, eligible, canonical_session,
  base_of, scope_of, same_holder, blocks, scan, same_key, without_key, release, collect_garbage,
}
use context_bridge.Jobs.Tables.{
  World, save, enqueue_job, dequeue_job, job_event, step_event, release_lock, resolve_probes,
  probe_exists, record_failure, log_event, sequence_of,
}
use context_bridge.Jobs.Complete.Results.{result_problem}
use context_bridge.Jobs.Complete.Retry.{no_evidence, retry_allowed}
use context_bridge.Jobs.Labels.{
  bytes, truncate, clean_label, any_hidden, valid_routing_label, is_adapter,
}
use context_bridge.Jobs.Probes.{in_probation, claim, probe_failure, resolve_probe, probes}
use context_bridge.Jobs.Prepare.{is_reserved, valid_key, check_request, prepare}
use context_bridge.Jobs.Admit.{
  submission_at, recorded_job, replayed, save_submission, check_room, admit_new, check_limits,
  admit_prepared, admit,
}
use context_bridge.Jobs.Assign.{
  parent_ended, adapt, claim_probe, lock_session, offers, decided, assignable,
}
use context_bridge.Jobs.Run.{
  valid_fence, fence_fails, at_attempt, mark_running, progress_event, update_progress,
}
use context_bridge.Jobs.Cancel.{tenant_allowed, cancelled_job, cancel_stored, cancel}
use context_bridge.Jobs.Complete.{
  redacted, classified, retry, completion_error, accepted_job, refused_job, refused_report, timed,
  saturating_add, final_progress, ended_job, finished_job, route_key_of, credit_node, finish,
  conclude, complete,
}
use context_bridge.Jobs.Complete.Placements.{
  placement_key, profile_eq, put_newest, put_placement, place,
}
use context_bridge.Jobs.Recover.{
  settle_ended, take_out, walk, store_told, blame, store_ended, store_all, recovered, visit_of_node,
  requeue_node, visit_at_restart, recover_restart,
}
use context_bridge.Jobs.Recover.Stale.{visit_stale, recover_stale}
use context_bridge.Store.RateLimit.{window_at, count_job, consume}
use context_bridge.Pipeline.Checkpoint.Identifiers.{all_chars, has_dots, valid_sha256, valid_job_id}
use context_bridge.Jobs.Assign
use context_bridge.Jobs.Machine.Runs.{run, perform}
use context_bridge.Jobs.Tests.Stores.{digests, codecs, empty_world, calls}

abbrev status_at : Text → World → Option Status
status_at i w = elim (lookup i w.jobs) [ none ↦ none | some j ↦ some j.status ]

-- A job that a worker refuses before its execution is tried again, and then ends.
calls_completed : status_at (codes "job-1") (run digests codecs calls empty_world) ≡ some completed
unfolding equal_fold fold_rune fence_eq status_eq terminal increment bytes truncate clean_label
    any_hidden valid_routing_label is_adapter cases_of code_from_text normalized_code sealed_message
    key_eq entry_at without_entry without_index incremented decremented owned add_owned drop_owned
    requeue enqueue put_entry remove_entry delete_entry is_queued kind_eq scope_eq base_eq eligible
    canonical_session base_of scope_of active overlaps same_holder blocks scan same_key without_key
    acquire needs_lock release collect_garbage in_probation claim probe_failure resolve_probe probes
    save enqueue_job dequeue_job log_event sequence_of job_event step_event release_lock
    resolve_probes probe_exists record_failure is_reserved valid_key check_request prepare
    submission_at recorded_job replayed save_submission check_room admit_new check_limits
    admit_prepared admit parent_ended adapt claim_probe lock_session offers decided assignable
    Assign.assign valid_fence fence_fails at_attempt mark_running progress_event update_progress
    tenant_allowed cancelled_job cancel_stored cancel redacted classified retry completion_error
    accepted_job refused_job refused_report timed saturating_add final_progress ended_job
    finished_job route_key_of credit_node finish conclude complete result_problem no_evidence
    retry_allowed placement_key profile_eq put_newest put_placement place settle_ended take_out walk
    store_told blame store_ended store_all recovered visit_of_node requeue_node visit_at_restart
    recover_restart visit_stale recover_stale perform run window_at count_job consume trim_left
    trim_space lower_rune to_lower cut_prefix cut_suffix cut lookup all_chars has_dots valid_sha256
    valid_job_id text_eq has
calls_completed = refl
