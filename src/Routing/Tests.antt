-- ===== src/Routing/Tests.antt =====
-- Failure records of internal/cluster/routing_health.go on small inputs.
use context_bridge.Prelude.{
  ℕ, ◌+◌, true, false, List, [], ◌∷◌, some, none, In, if◌then◌else◌, leb, ◌≡◌, refl, arith, inl,
  inr,
}
use context_bridge.Text.{Text, codes, text_eq, has}
use context_bridge.Routing.Health.{
  Health, apply_failure, next_count, cooldown_for, doubled, track_failure,
}
use context_bridge.Routing.Health.Cooldown.{back_off, apply_failure-back_off, in_a_row}
use context_bridge.Routing.Outcome.{
  Outcome, record_outcome, learn, remember, resolve, owner_room, total_room, scope_count, holds_own,
}
use context_bridge.Routing.Outcome.Limits.{Bounded, record_outcome-Bounded}
use context_bridge.Routing.Outcome.Isolation.{record_outcome-OfAnother}
use context_bridge.Routing.Outcome.Probes.{Leased, record_outcome-Leased}
use context_bridge.Routing.Selection.{
  health_for, scan, consider, health_state, more_severe, without_owner,
}
use context_bridge.Routing.Selection.Severest.{live, health_for-severest, health_for-none}

abbrev health : Text → ℕ → ℕ → ℕ → Text → Health
health scope count at until probe = record {
  owner_scope = scope;
  route_key = codes "r";
  provider = codes "p";
  model = codes "m";
  consecutive_failures = count;
  last_failure_code = codes "adapter_timeout";
  last_failure_at = at;
  circuit_open_until = until;
  probe_job_id = probe;
  probe_owner_scope = probe;
}

abbrev outcome : Text → Text → Outcome
outcome scope code = record {
  route = codes "r";
  provider = codes "p";
  model = codes "m";
  scope = scope;
  job_id = codes "job";
  success = false;
  code = code;
  now = 1000;
}

-- The third failure in a row opens the circuit for 30 seconds.
third_failure :
    (apply_failure
      (codes "adapter_timeout")
      1000
      (health (codes "o") 2 900 0 [])).circuit_open_until
    ≡ 30000001000
unfolding apply_failure next_count cooldown_for doubled
third_failure = refl

abbrev twice_failed : Health
twice_failed = health (codes "o") 2 900 0 []

apply_failure-back_off_example :
    let after = apply_failure (codes "x") 1000 twice_failed in
    (after.consecutive_failures ≡ in_a_row 1000 twice_failed)
    × (after.last_failure_code ≡ codes "x")
    × (after.last_failure_at ≡ 1000)
    × (after.circuit_open_until ≡ (
        if leb 3 (in_a_row 1000 twice_failed)
        then 1000 + back_off (in_a_row 1000 twice_failed)
        else twice_failed.circuit_open_until))
apply_failure-back_off_example = apply_failure-back_off (codes "x") 1000 twice_failed (omega arith)

-- A first failure is remembered for its owner.
first_failure :
    record_outcome (outcome (codes "o") (codes "adapter_timeout")) []
    ≡ health (codes "o") 1 1000 0 [] ∷ []
unfolding record_outcome learn remember resolve owner_room total_room scope_count holds_own
    apply_failure next_count track_failure has text_eq
first_failure = refl

abbrev two : List Health
two = health (codes "o") 2 900 0 [] ∷ health [] 3 800 5000 (codes "other") ∷ []

two-Bounded : Bounded two
unfolding scope_count
two-Bounded = record { total = omega arith; shares = λ s d. ground arith }

record_outcome-Bounded_example :
    Bounded (record_outcome (outcome (codes "o") (codes "adapter_timeout")) two)
record_outcome-Bounded_example =
    record_outcome-Bounded (outcome (codes "o") (codes "adapter_timeout")) two two-Bounded

record_outcome-Leased_example :
    (y : Health) × In y (record_outcome (outcome (codes "o") (codes "adapter_timeout")) two)
    × Leased (health [] 3 800 5000 (codes "other")) y
record_outcome-Leased_example =
    record_outcome-Leased (outcome (codes "o") (codes "adapter_timeout"))
      (health [] 3 800 5000 (codes "other")) two (inr (inl refl)) ((λ e. cc), (λ e. cc))

-- The open circuit of the node outweighs the owner's recent failure; another owner sees it as well.
open_selected :
    health_for (codes "r") (codes "o") 1000 two ≡ some (health [] 3 800 5000 (codes "other"))
unfolding health_for scan consider health_state more_severe text_eq
open_selected = refl

health_for-severest_example :
    (h : Health) × In h two
    × (live (codes "r") (codes "o") 1000 h ≡ true)
    × (health [] 3 800 5000 (codes "other") ≡ without_owner h)
    × ((x : Health)
        → In x two
        → live (codes "r") (codes "o") 1000 x ≡ true
        → more_severe x (health_state 1000 x) h (health_state 1000 h) ≡ false)
health_for-severest_example = health_for-severest (codes "r") (codes "o") 1000 two open_selected

-- An owner does not see the record of another.
hidden : health_for (codes "r") (codes "q") 1000 (health (codes "o") 2 900 0 [] ∷ []) ≡ none
unfolding health_for scan consider health_state more_severe text_eq
hidden = refl

health_for-none_example : live (codes "r") (codes "q") 1000 (health (codes "o") 2 900 0 []) ≡ false
health_for-none_example =
    health_for-none (codes "r") (codes "q") 1000 (health (codes "o") 2 900 0 [] ∷ [])
      (health (codes "o") 2 900 0 []) hidden (inl refl)

record_outcome-OfAnother_example :
    In
      (health (codes "o") 2 900 0 [])
      (record_outcome (outcome (codes "q") (codes "adapter_timeout")) two)
record_outcome-OfAnother_example =
    record_outcome-OfAnother (outcome (codes "q") (codes "adapter_timeout"))
      (health (codes "o") 2 900 0 []) two (inl refl)
      ((λ e. cc), (λ e. cc), (λ e. absurd (ground arith)))
