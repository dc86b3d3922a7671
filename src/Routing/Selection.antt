-- ===== src/Routing/Selection.antt =====
-- internal/cluster/routing_health.go: routingHealthForOwnerAt, the record that decides how a route is
-- treated for an owner.
pub mod Severest
use context_bridge.Prelude.{
  ℕ, ◌-◌, Bool, true, false, not, ◌&&◌, ◌||◌, List, [], ◌∷◌, Option, none, some, ltb, leb, ◌==◌,
  if◌then◌else◌,
}
use context_bridge.Text.{Text, text_eq}
use context_bridge.Pipeline.Graph.Template.{is_empty}
use context_bridge.Routing.Health.{Health, failure_threshold, failure_window}

-- routingHealthState: 3 is an open circuit, 2 recovery probation, 1 a recent failure.
unfoldable pub health_state : ℕ → Health → ℕ
health_state now h =
    if ltb now h.circuit_open_until
    then 3
    else if leb failure_threshold h.consecutive_failures && not (h.circuit_open_until == 0)
    then 2
    else if not (h.last_failure_at == 0)
        && (not (ltb now h.last_failure_at) && leb (now - h.last_failure_at) failure_window)
    then 1
    else 0

-- routingHealthMoreSevere.
unfoldable pub more_severe : Health → ℕ → Health → ℕ → Bool
more_severe c c_state s s_state =
    if not (c_state == s_state)
    then ltb s_state c_state
    else if leb 2 c_state && not (c.circuit_open_until == s.circuit_open_until)
    then ltb s.circuit_open_until c.circuit_open_until
    else if not (c.consecutive_failures == s.consecutive_failures)
    then ltb s.consecutive_failures c.consecutive_failures
    else ltb s.last_failure_at c.last_failure_at

-- Records of other routes and of other owners are passed over.
abbrev pub concerns : Text → Text → Health → Bool
concerns route scope h =
    not (is_empty h.route_key)
    && (text_eq h.route_key route
        && (is_empty h.owner_scope || (not (is_empty scope) && text_eq h.owner_scope scope)))

-- The body of the loop; `best` is `selected`, once one is found, with its state.
unfoldable pub consider : Text → Text → ℕ → Health → Option (Health × ℕ) → Option (Health × ℕ)
consider route scope now h best =
    let state = health_state now h in
    if not (concerns route scope h) || state == 0 then best else elim best [
      | none ↦ some (h, state)
      | some b ↦ if more_severe h state b.0 b.1 then some (h, state) else some b
    ]

unfoldable pub scan : Text → Text → ℕ → List Health → Option (Health × ℕ) → Option (Health × ℕ)
unfolding consider
scan route scope now [] best = best
scan route scope now (h ∷ hs) best = scan route scope now hs (consider route scope now h best)

abbrev pub without_owner : Health → Health
without_owner h = record {
  owner_scope = [];
  route_key = h.route_key;
  provider = h.provider;
  model = h.model;
  consecutive_failures = h.consecutive_failures;
  last_failure_code = h.last_failure_code;
  last_failure_at = h.last_failure_at;
  circuit_open_until = h.circuit_open_until;
  probe_job_id = h.probe_job_id;
  probe_owner_scope = h.probe_owner_scope;
}

-- routingHealthForOwnerAt, of a route key and an owner scope; none is its false.
unfoldable pub health_for : Text → Text → ℕ → List Health → Option Health
unfolding scan
health_for route scope now hs = elim (scan route scope now hs none) [
  | none ↦ none
  | some b ↦ some (without_owner b.0)
]
