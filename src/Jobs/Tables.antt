-- ===== src/Jobs/Tables.antt =====
-- internal/cluster/store.go: the buckets that the life of a job reads and writes, and what its
-- transactions share. A bucket is a list of keys and values; bbolt's own errors and JSON are left out.
pub mod Saved
pub mod Keys
use context_bridge.Prelude.{
  ℕ, ◌+◌, ◌-◌, Bool, true, false, not, ◌&&◌, ◌||◌, List, [], ◌∷◌, ◌++◌, map, Option, none, some,
  ltb, leb, ◌==◌, if◌then◌else◌, Result, ok, err, ◌>>=◌,
}
use context_bridge.Prelude.Int.{ℤ, pos, negsuc, ltb_ℤ, pos_part, neg_part}
use context_bridge.Text.{Text, text_eq, trim_space, to_lower}
use context_bridge.Pipeline.Graph.Template.{is_empty}
use context_bridge.Pipeline.Graph.Edges.{lookup, is_some}
use context_bridge.Pipeline.Checkpoint.Identifiers.{valid_sha256}
use context_bridge.Routing.Health.{Health}
use context_bridge.Routing.Outcome.{Outcome, record_outcome, chosen_route}
use context_bridge.Store.RateLimit.{Window, RateError}
use context_bridge.Jobs.Records.{Requirements, Job, Progress, status_eq, queued}
use context_bridge.Jobs.Labels.{is_adapter}
use context_bridge.Jobs.Queue.{Queue, QueueError, Key, Entry, put_entry, delete_entry}
use context_bridge.Jobs.Locks.{Lock, LockError, Kind, job, release, canonical_session}
use context_bridge.Jobs.Probes.{ProbeError, resolve_probe, probes}

pub data JobError : Type 0 where
  not_found not_queued parent_terminal bound_elsewhere draining bad_credential : JobError
  bad_route not_adapter bad_endpoint sealed_endpoint other_endpoint overflow : JobError
  other_node no_candidate stale_attempt bad_fence sealed_progress bad_progress : JobError
  reserved_task not_internal policy_refused unsupported_version bad_job_id bad_priority : JobError
  no_payload no_producer bad_key bad_hash e2ee_required priority_forbidden : JobError
  tenant_forbidden exists queue_full owner_queue_full conflict unavailable owner_mismatch : JobError
  already_final too_many_executions not_assigned log_exhausted : JobError
  queue_failed : QueueError → JobError
  lock_failed : LockError → JobError
  rate_failed : RateError → JobError
  probe_failed : ProbeError → JobError

-- The types of job events and of pipeline step events that the life of a job appends.
pub data EventKind : Type 0 where
  job_accepted route_selected worker_assigned execution_started retrying job_queued : EventKind
  job_completed job_failed job_cancelled job_ambiguous progressed : EventKind
  step_queued step_started step_completed step_failed step_cancelled step_ambiguous : EventKind

-- JobEvent. The logs of all jobs and runs are one list here, with nothing deleted yet.
pub record Event : Type 0 where
  pub kind : EventKind
  pub job_id : Text
  pub run_id : Text
  pub time : ℕ
  pub attempt : ℤ
  pub node_id : Text
  pub step_id : Text

-- Node, without its costs and measured performance.
pub record Node : Type 0 where
  pub id : Text
  pub draining : Bool
  pub connected : Bool
  pub state : Text
  pub running : ℤ
  pub jobs_total : ℕ
  pub jobs_failed : ℕ
  pub compute_ms : ℕ
  pub routing_health : List Health

-- What sessionPlacementKey digests, and sessionPlacement.
pub record PlacementKey : Type 0 where
  pub owner : Text
  pub session : Text
  pub profile : Option Text

pub record Placement : Type 0 where
  pub node_id : Text
  pub adapter_endpoint_id : ℤ
  pub adapter_principal : Text
  pub updated_at : ℕ

-- What jobIdempotencyKey digests, and jobIdempotencyRecord.
pub record SubmissionKey : Type 0 where
  pub owner : Text
  pub key : Text

pub record Submission : Type 0 where
  pub job_id : Text
  pub request_hash : Text

-- TokenRecord, with the fields that a node's credential is checked by. `expires_at` may be 0, never.
pub record Token : Type 0 where
  pub role : Text
  pub subject : Text
  pub revoked : Bool
  pub expires_at : ℕ

-- The store. `runs` has the status of each pipeline run, `tokens` the credentials by their hash.
-- `exhausted` says that an event of the transaction had no sequence number left: the transaction is
-- then rolled back.
pub record World : Type 0 where
  pub jobs : List (Text × Job)
  pub queue : Queue
  pub locks : List Lock
  pub nodes : List (Text × Node)
  pub runs : List (Text × Text)
  pub tokens : List (Text × Token)
  pub placements : List (PlacementKey × Placement)
  pub windows : List (Text × Window)
  pub submissions : List (SubmissionKey × Submission)
  pub events : List Event
  pub exhausted : Bool
  pub progress_counts : List (Text × ℕ)

-- The hashes of routingHealthKey, with its provider and model, and of routingHealthOwnerScope.
pub record Digests : Type 0 where
  pub route : Requirements → Text
  pub provider : Requirements → Text
  pub model : Requirements → Text
  pub owner_scope : Text → Text

-- bucket.Put.
unfoldable pub save {ℓ} : {V : Type ℓ} → Text → V → List (Text × V) → List (Text × V)
save k v [] = (k, v) ∷ []
save k v ((j, u) ∷ m) = let rest = save k v m in if text_eq k j then (k, v) ∷ m else (j, u) ∷ rest

abbrev pub put_job : Job → World → World
put_job j w = record w { jobs = save j.id j w.jobs }

abbrev pub put_node : Node → World → World
put_node n w = record w { nodes = save n.id n w.nodes }

abbrev pub found {ℓ} : {A : Type ℓ} → JobError → Option A → Result JobError A
found e none = err e
found e (some a) = ok a

-- queueKey, and the entry of a job.
abbrev pub key_of : Job → Key
key_of j = record { priority = j.priority; created_at = j.created_at; job_id = j.id }

abbrev pub entry_of : Job → Entry
entry_of j = record { job_id = j.id; owner_subject = j.owner_subject; priority = j.priority }

abbrev pub lift_queue : World → Result QueueError Queue → Result JobError World
lift_queue w (ok q) = ok (record w { queue = q })
lift_queue w (err e) = err (queue_failed e)

unfoldable pub enqueue_job : Job → World → Result JobError World
enqueue_job j w = lift_queue w (put_entry (key_of j) (entry_of j) w.queue)

unfoldable pub dequeue_job : Text → World → Result JobError World
dequeue_job id w = lift_queue w (delete_entry id w.queue)

-- ^uint64(0).
abbrev pub maximum_sequence : ℕ
maximum_sequence = 18446744073709551615

-- The events stand in the same bucket: that of a run, or that of a job.
abbrev pub same_log : Event → Event → Bool
same_log e f = text_eq e.run_id f.run_id && (not (is_empty e.run_id) || text_eq e.job_id f.job_id)

-- The sequence number of the bucket of an event: it counts the bucket's events.
unfoldable pub sequence_of : Event → List Event → ℕ
unfolding text_eq
sequence_of e [] = 0
sequence_of e (f ∷ fs) = let rest = sequence_of e fs in if same_log e f then rest + 1 else rest

-- appendExecutionEventTx, with its error as the flag of the store.
unfoldable pub log_event : Event → World → World
unfolding sequence_of
log_event e w = record w {
  events = w.events ++ (e ∷ []);
  exhausted = w.exhausted || sequence_of e w.events == maximum_sequence;
}

-- appendAuthoritativeJobEventTx.
unfoldable pub job_event : ℕ → EventKind → Job → World → World
unfolding log_event
job_event now kind j w =
    let event : Event = record {
      kind = kind;
      job_id = j.id;
      run_id = [];
      time = if j.updated_at == 0 then now else j.updated_at;
      attempt = j.attempt;
      node_id = j.assigned_node;
      step_id = j.step;
    } in
    log_event event w

-- appendPipelineStepEventTx.
unfoldable pub step_event : EventKind → Job → World → World
unfolding log_event
step_event kind j w =
    let event : Event = record {
      kind = kind;
      job_id = j.id;
      run_id = j.parent_id;
      time = j.updated_at;
      attempt = j.attempt;
      node_id = j.assigned_node;
      step_id = j.step;
    } in
    if is_empty j.parent_id || is_empty j.step then w else log_event event w

-- releaseAdapterSessionLockTx of a job.
unfoldable pub release_lock : Job → World → World
release_lock j w = record w { locks = release j.owner_subject j.requirements job j.id w.locks }

abbrev pub with_health : List Health → Node → Node
with_health hs n = record n { routing_health = hs }

abbrev pub blank : Text → Bool
blank s = is_empty (trim_space s)

-- resolveRoutingRecoveryProbeTx.
unfoldable pub resolve_probes : Text → Text → Text → ℕ → World → World
resolve_probes node_id job_id code now w =
    if blank node_id || blank job_id then w else elim (lookup node_id w.nodes) [
      | none ↦ w
      | some n ↦
          if probes job_id n.routing_health
          then put_node (with_health (map (resolve_probe job_id code now) n.routing_health) n) w
          else w
    ]

-- routingRecoveryProbeExistsTx.
unfoldable pub probe_exists : Text → Text → World → Bool
probe_exists node_id job_id w =
    if blank node_id || blank job_id
    then false
    else elim (lookup node_id w.nodes) [ none ↦ false | some n ↦ probes job_id n.routing_health ]

-- The outcome of a job on a node's route.
abbrev pub outcome : Digests → Text → Text → Job → Bool → Text → ℕ → Outcome
outcome digests owner admitted j success code now = record {
  route = chosen_route admitted (digests.route j.requirements);
  provider = digests.provider j.requirements;
  model = digests.model j.requirements;
  scope = digests.owner_scope owner;
  job_id = j.id;
  success = success;
  code = code;
  now = now;
}

-- recordNodeRoutingOutcomeTx for a job that failed.
unfoldable pub record_failure : Digests → Text → Text → Job → Text → ℕ → World → World
record_failure digests owner admitted j code now w =
    if blank j.assigned_node then w else elim (lookup j.assigned_node w.nodes) [
      | none ↦ w
      | some n ↦
          let o = outcome digests owner admitted j false code now in
          put_node (with_health (record_outcome o n.routing_health) n) w
    ]
