-- ===== src/Routing/Outcome.antt =====
-- internal/cluster/routing_health.go: recordRoutingOutcomeForOwnerRoute, which learns from the end of
-- a job.
pub mod Eviction
pub mod Limits
pub mod Probes
pub mod Isolation
use context_bridge.Prelude.{
  ℕ, zero, suc, ◌+◌, Bool, true, false, not, ◌&&◌, ◌||◌, List, [], ◌∷◌, ◌++◌, map, Option, none,
  some, ltb, leb, ◌==◌, if◌then◌else◌, length, filter,
}
use context_bridge.Text.{Text, text_eq}
use context_bridge.Pipeline.Graph.Template.{is_empty}
use context_bridge.Pipeline.Checkpoint.Identifiers.{valid_sha256}
use context_bridge.Routing.Health.{
  Health, maximum_records, maximum_records_per_owner, track_failure, stale, apply_failure,
}

-- What an outcome reports, and of which job.
pub record Outcome : Type 0 where
  pub route : Text
  pub provider : Text
  pub model : Text
  pub scope : Text
  pub job_id : Text
  pub success : Bool
  pub code : Text
  pub now : ℕ

abbrev pub failed_probe : Outcome → Bool
failed_probe o = not o.success && track_failure o.code

abbrev pub same_scope : Outcome → Health → Bool
same_scope o h = text_eq h.owner_scope o.scope

abbrev pub global_probe : Outcome → Health → Bool
global_probe o h = is_empty h.owner_scope && text_eq h.probe_owner_scope o.scope

-- The record is probed by this job, for its owner.
abbrev pub resolves : Outcome → Health → Bool
resolves o h =
    text_eq h.route_key o.route
    && (not (is_empty h.probe_job_id)
        && (text_eq h.probe_job_id o.job_id && (same_scope o h || global_probe o h)))

abbrev pub without_probe : Outcome → Health → Health
without_probe o h = record {
  owner_scope = h.owner_scope;
  route_key = h.route_key;
  provider = h.provider;
  model = h.model;
  consecutive_failures = h.consecutive_failures;
  last_failure_code = h.last_failure_code;
  last_failure_at = if failed_probe o && stale o.now h then o.now else h.last_failure_at;
  circuit_open_until = h.circuit_open_until;
  probe_job_id = [];
  probe_owner_scope = [];
}

-- The body of the loop that resolves probes.
unfoldable pub resolve : Outcome → Health → Health
resolve o h =
    if not (resolves o h)
    then h
    else if failed_probe o && (global_probe o h && not (is_empty o.scope))
    then apply_failure o.code o.now (without_probe o h)
    else without_probe o h

-- The records that a success removes.
abbrev pub cleared : Outcome → Health → Bool
cleared o h =
    text_eq h.route_key o.route
    && ((same_scope o h || (not (is_empty o.scope) && is_empty h.owner_scope))
        && (is_empty h.probe_job_id || text_eq h.probe_job_id o.job_id))

abbrev pub own_record : Outcome → Health → Bool
own_record o h = same_scope o h && text_eq h.route_key o.route

unfoldable pub holds_own : Outcome → List Health → Bool
holds_own o [] = false
holds_own o (h ∷ hs) = own_record o h || holds_own o hs

-- The failure is applied to the first record of the owner and the route.
unfoldable pub apply_first : Outcome → List Health → List Health
apply_first o [] = []
apply_first o (h ∷ hs) =
    if own_record o h then apply_failure o.code o.now h ∷ hs else h ∷ apply_first o hs

-- routingHealthScopeCount.
unfoldable pub scope_count : Text → List Health → ℕ
scope_count scope [] = 0
scope_count scope (h ∷ hs) = (if text_eq h.owner_scope scope then 1 else 0) + scope_count scope hs

-- Records that protect no probe, of a scope or of any owner.
abbrev pub idle_of : Text → Health → Bool
idle_of scope h = text_eq h.owner_scope scope && is_empty h.probe_job_id

abbrev pub idle_owned : Health → Bool
idle_owned h = not (is_empty h.owner_scope) && is_empty h.probe_job_id

-- The scan of oldestRoutingHealthForScope and oldestOwnerScopedRoutingHealth: `best` is the index
-- and the time of the oldest record so far.
unfoldable pub oldest : (Health → Bool) → ℕ → List Health → Option (ℕ × ℕ) → Option ℕ
oldest p i [] best = elim best [ none ↦ none | some b ↦ some b.0 ]
oldest p i (h ∷ hs) best = elim (p h) [
  | false ↦ oldest p (suc i) hs best
  | true ↦ elim best [
    | none ↦ oldest p (suc i) hs (some (i, h.last_failure_at))
    | some b ↦ elim (ltb h.last_failure_at b.1) [
      | true ↦ oldest p (suc i) hs (some (i, h.last_failure_at))
      | false ↦ oldest p (suc i) hs (some b)
    ]
  ]
]

unfoldable pub remove_at : ℕ → List Health → List Health
remove_at i [] = []
remove_at zero (h ∷ hs) = hs
remove_at (suc i) (h ∷ hs) = h ∷ remove_at i hs

-- The record of a first failure, before the failure is applied to it.
abbrev pub new_record : Outcome → Health
new_record o = record {
  owner_scope = o.scope;
  route_key = o.route;
  provider = o.provider;
  model = o.model;
  consecutive_failures = 0;
  last_failure_code = [];
  last_failure_at = 0;
  circuit_open_until = 0;
  probe_job_id = [];
  probe_owner_scope = [];
}

-- Room within the owner's share: none when probes protect all of its records.
unfoldable pub owner_room : Outcome → List Health → Option (List Health)
owner_room o hs =
    if not (is_empty o.scope) && leb maximum_records_per_owner (scope_count o.scope hs)
    then elim (oldest (idle_of o.scope) 0 hs none) [ none ↦ none | some i ↦ some (remove_at i hs) ]
    else some hs

-- The record that makes room among all of them.
unfoldable pub victim : Outcome → List Health → Option ℕ
victim o hs =
    if is_empty o.scope
    then elim (oldest idle_owned 0 hs none) [
      | none ↦ oldest (idle_of []) 0 hs none
      | some i ↦ some i
    ]
    else oldest (idle_of o.scope) 0 hs none

unfoldable pub total_room : Outcome → List Health → Option (List Health)
total_room o hs =
    if leb maximum_records (length hs)
    then elim (victim o hs) [ none ↦ none | some i ↦ some (remove_at i hs) ]
    else some hs

-- A first failure of a route is remembered where there is room for it.
unfoldable pub remember : Outcome → List Health → List Health
remember o hs = elim (owner_room o hs) [
  | none ↦ hs
  | some kept ↦ elim (total_room o kept) [
    | none ↦ kept
    | some room ↦ room ++ (apply_failure o.code o.now (new_record o) ∷ [])
  ]
]

-- What follows once the probes are resolved, for a success and for a failure.
unfoldable pub learn : Outcome → Bool → List Health → List Health
learn o true hs = filter (λ h. not (cleared o h)) hs
learn o false hs =
    if not (track_failure o.code)
    then hs
    else if holds_own o hs
    then apply_first o hs
    else remember o hs

-- recordRoutingOutcomeForOwnerRoute, after the admitted route key is chosen.
unfoldable pub record_outcome : Outcome → List Health → List Health
unfolding learn
record_outcome o hs = learn o o.success (map (resolve o) hs)

-- The key under which the job was admitted, where it is one, and the key of its requirements
-- otherwise.
abbrev pub chosen_route : Text → Text → Text
chosen_route admitted hashed = if valid_sha256 admitted then admitted else hashed
