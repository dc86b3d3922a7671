-- ===== src/Routing/Health.antt =====
-- internal/cluster/routing_health.go: the failure records of a node. Route keys and owner scopes are
-- SHA-256 digests; here they are the arguments that the code computes by routingHealthKey and
-- routingHealthOwnerScope. Times are nanoseconds since Go's zero time.
pub mod Cooldown
use context_bridge.Prelude.{
  ℕ, zero, suc, ◌+◌, ◌-◌, ◌*◌, Bool, true, false, not, ◌&&◌, ◌||◌, List, [], ◌∷◌, ◌++◌, map, Option,
  none, some, ltb, leb, ◌==◌, if◌then◌else◌, length, filter,
}
use context_bridge.Text.{Text, codes, text_eq, has}
use context_bridge.Pipeline.Graph.Template.{is_empty}
use context_bridge.Pipeline.Checkpoint.Identifiers.{valid_sha256}

-- RoutingHealth.
pub record Health : Type 0 where
  pub owner_scope : Text
  pub route_key : Text
  pub provider : Text
  pub model : Text
  pub consecutive_failures : ℕ
  pub last_failure_code : Text
  pub last_failure_at : ℕ
  pub circuit_open_until : ℕ
  pub probe_job_id : Text
  pub probe_owner_scope : Text

abbrev pub maximum_records : ℕ
maximum_records = 64

abbrev pub maximum_records_per_owner : ℕ
maximum_records_per_owner = 8

abbrev pub failure_threshold : ℕ
failure_threshold = 3

abbrev pub failure_window : ℕ
failure_window = 600000000000

abbrev pub initial_cooldown : ℕ
initial_cooldown = 30000000000

abbrev pub maximum_cooldown : ℕ
maximum_cooldown = 900000000000

-- ^uint32(0).
abbrev pub maximum_uint32 : ℕ
maximum_uint32 = 4294967295

-- The codes that count against a route, trackRoutingFailure.
abbrev tracked_codes : List Text
tracked_codes =
    codes "adapter_rate_limited"
    ∷ codes "adapter_timeout"
    ∷ codes "adapter_automation_error"
    ∷ codes "provider_route_unavailable"
    ∷ codes "worker_execution_timeout"
    ∷ codes "worker_execution_failed"
    ∷ codes "worker_result_rejected"
    ∷ codes "execution_state_ambiguous"
    ∷ codes "execution_timeout_ambiguous"
    ∷ []

unfoldable pub track_failure : Text → Bool
track_failure code = has code tracked_codes

-- The last failure is unknown, outside the window, or in the future.
abbrev pub stale : ℕ → Health → Bool
stale now h =
    h.last_failure_at == 0
    || ltb failure_window (now - h.last_failure_at)
    || ltb now h.last_failure_at

-- The loop that doubles the cooldown, `shift` times at most.
unfoldable pub doubled : ℕ → ℕ → ℕ
doubled zero cooldown = cooldown
doubled (suc shift) cooldown =
    if ltb cooldown maximum_cooldown then doubled shift (cooldown * 2) else cooldown

unfoldable pub cooldown_for : ℕ → ℕ
unfolding doubled
cooldown_for failures =
    let cooldown = doubled (failures - failure_threshold) initial_cooldown in
    if ltb maximum_cooldown cooldown then maximum_cooldown else cooldown

-- ConsecutiveFailures after one more, which saturates.
unfoldable pub next_count : ℕ → Health → ℕ
next_count now h =
    let count = if stale now h then 0 else h.consecutive_failures in
    if ltb count maximum_uint32 then count + 1 else count

-- applyRoutingFailure.
unfoldable pub apply_failure : Text → ℕ → Health → Health
apply_failure code now h =
    let count = next_count now h in
    record {
      owner_scope = h.owner_scope;
      route_key = h.route_key;
      provider = h.provider;
      model = h.model;
      consecutive_failures = count;
      last_failure_code = code;
      last_failure_at = now;
      circuit_open_until =
          if leb failure_threshold count then now + cooldown_for count else h.circuit_open_until;
      probe_job_id = h.probe_job_id;
      probe_owner_scope = h.probe_owner_scope;
    }
