-- ===== src/Jobs/Tests/Stores.antt =====
-- internal/cluster/store.go: a small store, a request for a job, and calls that take the job to its end.
use context_bridge.Prelude.{arith, ℕ, Bool, true, false, List, [], ◌∷◌, none, some, refl, ◌==◌}
use context_bridge.Prelude.Int.{pos}
use context_bridge.Text.{codes}
use context_bridge.Pipeline.Graph.Edges.{lookup}
use context_bridge.Jobs.Records.{Requirements, no_usage}
use context_bridge.Jobs.Queue.{Queue, is_queued}
use context_bridge.Jobs.Tables.{World, Digests}
use context_bridge.Jobs.Complete.Results.{Codecs}
use context_bridge.Jobs.Complete.Retry.{Report}
use context_bridge.Jobs.Prepare.{is_reserved, valid_key, check_request, prepare}
use context_bridge.Jobs.Admit.{
  submission_at, recorded_job, replayed, save_submission, check_room, admit_new, check_limits,
  admit_prepared, admit,
}
use context_bridge.Jobs.Assign.{
  parent_ended, adapt, claim_probe, lock_session, offers, decided, assignable,
}
use context_bridge.Jobs.Prepare
use context_bridge.Jobs.Admit
use context_bridge.Jobs.Assign
use context_bridge.Jobs.Queue.{entry_at, owned}
use context_bridge.Jobs.Queue.Counts.{owner_entries}
use context_bridge.Jobs.Queue.Counted.{Counted}
use context_bridge.Jobs.Machine.{Agrees}
use context_bridge.Jobs.Machine.Runs.{Call, submit, assign, start, complete_job, cancel_job}
use context_bridge.Jobs.Machine.Runs.Attempts.{AllWithin}

abbrev pub digests : Digests
digests = record {
  route = λ r. r.provider;
  provider = λ r. r.provider;
  model = λ r. codes "*";
  owner_scope = λ o. o;
}

abbrev is_braced : List ℕ → Bool
is_braced [] = false
is_braced (c ∷ cs) = c == b'{'

abbrev pub codecs : Codecs
codecs = record {
  valid_utf8 = λ bs. true;
  valid_json = is_braced;
  is_object = is_braced;
  decode = λ t. some t;
}

abbrev pub empty_queue : Queue
empty_queue = record { entries = []; index = []; total = 0; owners = [] }

pub empty_queue-Counted : Counted empty_queue
unfolding entry_at lookup owned owner_entries
empty_queue-Counted = record {
  consistent = record {
    distinct = tt;
    keyed = λ k e h. cc;
    indexed = λ k e h. cc;
    located = λ id k h. cc;
  };
  total = refl;
  owners = λ o. refl;
  bounded = omega arith;
}

abbrev pub empty_world : World
empty_world = record {
  jobs = [];
  queue = empty_queue;
  locks = [];
  nodes = [];
  runs = [];
  tokens = [];
  placements = [];
  windows = [];
  submissions = [];
  events = [];
  exhausted = false;
  progress_counts = [];
}

pub empty_world-Agrees : Agrees empty_world
unfolding is_queued lookup
empty_world-Agrees = record { keyed = tt; queue = λ i. refl; counted = empty_queue-Counted }

pub empty_world-Within : AllWithin empty_world
unfolding lookup
empty_world-Within i = tt

abbrev pub plain : Requirements
plain = record {
  provider = codes "openai";
  session_id = [];
  adapter_profile = [];
  adapter_endpoint_id = pos 0;
  adapter_principal = [];
  adapter_session_recovery = false;
  adapter_ephemeral_session = false;
}

abbrev pub request : Prepare.Request
request = record {
  id = codes "job-1";
  contract_version = [];
  owner_subject = codes "alice";
  tenant_id = [];
  step = [];
  parent_id = [];
  task = codes "chat";
  internal = false;
  policy_allows = true;
  requirements = plain;
  payload = codes "{}";
  sealed = none;
  priority = pos 0;
  max_attempts = pos 2;
  idempotency_key = [];
  request_hash = [];
}

abbrev pub limits : Admit.Limits
limits = record {
  max_queued = pos 10;
  max_owner_queued = pos 0;
  max_jobs_per_hour = pos 5;
  max_priority = none;
  allowed_tenants = [];
  require_e2ee = false;
  hour = 3600;
}

abbrev to_node : Assign.Request
to_node = record {
  node_id = codes "n1";
  credential = [];
  adapter = none;
  decision = none;
  authority = none;
}

abbrev report : Report
report = record {
  result = codes "{}";
  sealed = none;
  usage = no_usage;
  error = [];
  failure_code = [];
  execution = [];
}

abbrev refusal : Report
refusal = record report {
  result = [];
  error = codes "busy";
  failure_code = codes "worker_stopping";
}

abbrev pub calls : List Call
calls =
    submit limits (codes "x") 100 request
    ∷ assign (codes "d") 110 (codes "job-1") to_node
    ∷ complete_job 120 (codes "job-1") (codes "n1") (pos 1) none refusal
    ∷ assign (codes "d") 130 (codes "job-1") to_node
    ∷ start 131 (codes "job-1") (codes "n1") (pos 2) none
    ∷ complete_job 140 (codes "job-1") (codes "n1") (pos 2) none report
    ∷ cancel_job 150 (codes "job-1") [] []
    ∷ []
