-- ===== src/Jobs/Records.antt =====
-- internal/cluster/types.go: a job, its requirements, and what a worker reports of it. An int is an
-- integer; the fields that a job only carries are left out. A cost is the bit pattern of its float64.
use context_bridge.Prelude.{
  ℕ, zero, suc, ◌+◌, Bool, true, false, ◌&&◌, ◌||◌, List, [], Option, ltb, ◌==◌,
}
use context_bridge.Prelude.Int.{ℤ, pos, negsuc}
use context_bridge.Text.{Text, text_eq}

-- Requirements, with the fields that the life of a job reads.
pub record Requirements : Type 0 where
  pub provider : Text
  pub session_id : Text
  pub adapter_profile : Text
  pub adapter_endpoint_id : ℤ
  pub adapter_principal : Text
  pub adapter_session_recovery : Bool
  pub adapter_ephemeral_session : Bool

pub record Envelope : Type 0 where
  pub algorithm : Text
  pub ephemeral_public : Text
  pub nonce : Text
  pub ciphertext : Text

pub record Usage : Type 0 where
  pub input_tokens : ℕ
  pub output_tokens : ℕ
  pub total_tokens : ℕ
  pub compute_ms : ℕ
  pub queue_ms : ℕ
  pub reserved_cost : ℕ
  pub estimated_cost : ℕ
  pub equivalent_cost : ℕ
  pub saved_cost : ℕ
  pub resource_scope : Text
  pub peak_vram_bytes : ℕ
  pub peak_ram_bytes : ℕ
  pub peak_gpu_utilization : ℤ

abbrev pub no_usage : Usage
no_usage = record {
  input_tokens = 0;
  output_tokens = 0;
  total_tokens = 0;
  compute_ms = 0;
  queue_ms = 0;
  reserved_cost = 0;
  estimated_cost = 0;
  equivalent_cost = 0;
  saved_cost = 0;
  resource_scope = [];
  peak_vram_bytes = 0;
  peak_ram_bytes = 0;
  peak_gpu_utilization = pos 0;
}

-- JobProgress.
pub record Progress : Type 0 where
  pub sequence : ℕ
  pub text : Text
  pub phase : Text
  pub detail : Text
  pub percent : ℤ
  pub busy : Bool
  pub updated_at : ℕ

-- ExecutionMetadata.
pub record Execution : Type 0 where
  pub adapter_endpoint_id : ℤ
  pub ephemeral_adapter_endpoint : Bool

-- RelayAuthority and AssignmentFence.
pub record Authority : Type 0 where
  pub cluster_id : Text
  pub epoch : ℕ

pub record Fence : Type 0 where
  pub cluster_id : Text
  pub relay_epoch : ℕ
  pub generation : ℕ

-- AssignmentFence.Equal.
unfoldable pub fence_eq : Fence → Fence → Bool
fence_eq f g =
    text_eq f.cluster_id g.cluster_id
    && (f.relay_epoch == g.relay_epoch && f.generation == g.generation)

pub record Candidate : Type 0 where
  pub node_id : Text
  pub eligible : Bool

-- RoutingDecision.
pub record Decision : Type 0 where
  pub id : Text
  pub job_id : Text
  pub preview : Bool
  pub selected_node_id : Text
  pub route_key : Text
  pub requirements : Requirements
  pub candidates : List Candidate
  pub created_at : ℕ

pub data Status : Type 0 where
  reserved queued assigned running completed failed cancelled : Status

unfoldable pub status_eq : Status → Status → Bool
status_eq reserved reserved = true
status_eq queued queued = true
status_eq assigned assigned = true
status_eq running running = true
status_eq completed completed = true
status_eq failed failed = true
status_eq cancelled cancelled = true
status_eq _ _ = false

-- terminalJobStatus.
unfoldable pub terminal : Status → Bool
unfolding status_eq
terminal s = status_eq s completed || status_eq s failed || status_eq s cancelled

-- The worker may be executing the job.
abbrev pub at_worker : Status → Bool
at_worker s = status_eq s assigned || status_eq s running

pub record Job : Type 0 where
  pub id : Text
  pub owner_subject : Text
  pub tenant_id : Text
  pub step : Text
  pub parent_id : Text
  pub requirements : Requirements
  pub payload : List ℕ
  pub sealed_payload : Option Envelope
  pub result : List ℕ
  pub sealed_result : Option Envelope
  pub status : Status
  pub priority : ℤ
  pub attempt : ℤ
  pub max_attempts : ℤ
  pub assigned_node : Text
  pub assignment_fence : Option Fence
  pub routing_decision : Option Decision
  pub executed_adapter_endpoint_id : ℤ
  pub ephemeral_adapter_endpoint : Bool
  pub error : Text
  pub failure_code : Text
  pub usage : Usage
  pub progress : Option Progress
  pub created_at : ℕ
  pub updated_at : ℕ
  pub assigned_at : ℕ
  pub started_at : ℕ
  pub finished_at : ℕ

-- `Attempt++` of a 64-bit int.
unfoldable pub increment : ℤ → ℤ
increment (pos n) = elim (n == 9223372036854775807) [
  | true ↦ negsuc 9223372036854775807
  | false ↦ pos (n + 1)
]
increment (negsuc zero) = pos 0
increment (negsuc (suc n)) = negsuc n

-- x > 0.
abbrev pub positive : ℤ → Bool
positive (pos n) = ltb 0 n
positive (negsuc n) = false
