-- ===== src/Jobs/Prepare.antt =====
-- internal/cluster/store.go: prepareJob, which checks a request and makes the job of it. `fresh` is the
-- ID that randomID draws.
use context_bridge.Prelude.{
  ℕ, Bool, false, not, ◌&&◌, ◌||◌, List, [], Option, none, leb, ◌==◌, if◌then◌else◌, length, Result,
  ok, ◌>>◌, reject_if,
}
use context_bridge.Prelude.Int.{ℤ, pos, negsuc, ltb_ℤ}
use context_bridge.Text.{Text, codes, text_eq, trim_space, equal_fold}
use context_bridge.Pipeline.Graph.Template.{is_empty}
use context_bridge.Pipeline.Graph.Edges.{is_some}
use context_bridge.Pipeline.Checkpoint.Identifiers.{valid_job_id, all_chars}
use context_bridge.Jobs.Records.{Requirements, Envelope, Job, no_usage, queued, positive}
use context_bridge.Jobs.Labels.{clean_label}
use context_bridge.Jobs.Tables.{
  JobError, reserved_task, not_internal, policy_refused, unsupported_version, bad_job_id,
  bad_priority, no_payload, no_producer, bad_key, bad_hash,
}

-- SubmitRequest. `task` is that of the requirements, `policy_allows` what ValidateAllowed says of the
-- policy decision.
pub record Request : Type 0 where
  pub id : Text
  pub contract_version : Text
  pub owner_subject : Text
  pub tenant_id : Text
  pub step : Text
  pub parent_id : Text
  pub task : Text
  pub internal : Bool
  pub policy_allows : Bool
  pub requirements : Requirements
  pub payload : List ℕ
  pub sealed : Option Envelope
  pub priority : ℤ
  pub max_attempts : ℤ
  pub idempotency_key : Text
  pub request_hash : Text

abbrev pub scheduled_task : Text
scheduled_task = codes "scheduled_action"

-- IsRelayReservedTask.
unfoldable pub is_reserved : Text → Bool
unfolding equal_fold trim_space
is_reserved task = equal_fold (trim_space task) scheduled_task

-- The checks of the task at the start of prepareJob.
abbrev pub check_task : Request → Result JobError (Unit {0})
check_task r =
    if r.internal
    then reject_if (not (text_eq r.task scheduled_task)) not_internal
    else reject_if (is_reserved r.task) reserved_task

abbrev is_visible : ℕ → Bool
is_visible c = leb 0x21 c && leb c 0x7E

-- ValidateIdempotencyKey. Only ASCII passes, so characters and bytes count alike.
unfoldable pub valid_key : Text → Bool
unfolding all_chars
valid_key s = leb 1 (length s) && (leb (length s) 200 && all_chars is_visible s)

-- NormalizeJobContractVersion, whose version 1 is the only one.
abbrev pub contract_v1 : Text
contract_v1 = codes "contextbridge.job.v1"

abbrev pub normal_attempts : ℤ → ℤ
normal_attempts n = if positive n then (if ltb_ℤ (pos 10) n then pos 10 else n) else pos 3

-- The checks of the idempotency key and of the hash of the request.
abbrev pub check_submission : Text → Request → Result JobError (Unit {0})
check_submission owner r = do
  reject_if (is_empty owner) no_producer
  reject_if (not (valid_key r.idempotency_key)) bad_key
  reject_if (not (length r.request_hash == 64)) bad_hash
  ok tt

abbrev pub new_job : Text → ℕ → Request → Job
new_job id now r = record {
  id = id;
  owner_subject = clean_label r.owner_subject 120;
  tenant_id = clean_label r.tenant_id 200;
  step = clean_label r.step 128;
  parent_id = clean_label r.parent_id 128;
  requirements = r.requirements;
  payload = r.payload;
  sealed_payload = r.sealed;
  result = [];
  sealed_result = none;
  status = queued;
  priority = r.priority;
  attempt = pos 0;
  max_attempts = normal_attempts r.max_attempts;
  assigned_node = [];
  assignment_fence = none;
  routing_decision = none;
  executed_adapter_endpoint_id = pos 0;
  ephemeral_adapter_endpoint = false;
  error = [];
  failure_code = [];
  usage = no_usage;
  progress = none;
  created_at = now;
  updated_at = now;
  assigned_at = 0;
  started_at = 0;
  finished_at = 0;
}

abbrev pub job_id_of : Text → Request → Text
job_id_of fresh r = if is_empty r.id then fresh else r.id

-- The checks of prepareJob. The job reads the request's payload, priority and owner.
unfoldable pub check_request : Request → Result JobError (Unit {0})
unfolding is_reserved valid_key
check_request r = do
  check_task r
  reject_if (not r.policy_allows) policy_refused
  reject_if (not (is_empty r.contract_version) && not (text_eq r.contract_version contract_v1))
      unsupported_version
  reject_if (not (is_empty r.id) && not (valid_job_id r.id)) bad_job_id
  reject_if (ltb_ℤ r.priority (negsuc 99) || ltb_ℤ (pos 100) r.priority) bad_priority
  reject_if (is_empty r.payload && not (is_some r.sealed)) no_payload
  if is_empty r.idempotency_key then ok tt else check_submission (clean_label r.owner_subject 120) r

-- prepareJob.
unfoldable pub prepare : Text → ℕ → Request → Result JobError Job
unfolding check_request
prepare fresh now r = do check_request r; ok (new_job (job_id_of fresh r) now r)
