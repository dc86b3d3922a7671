-- ===== src/Store/Tests.antt =====
-- The event log and the hourly limits of internal/cluster/store.go on small inputs.
use context_bridge.Prelude.{ℕ, ◌≤◌, [], ◌∷◌, ok, ◌≡◌, arith, take}
use context_bridge.Prelude.{err, refl}
use context_bridge.Prelude.Int.{pos}
use context_bridge.Text.{codes, text_eq}
use context_bridge.Pipeline.Graph.Edges.{lookup}
use context_bridge.Store.RateLimit.{Window, consume, count_job, window_at, rate_capacity}
use context_bridge.Store.RateLimit.Pace.{within, none_yet, admitted, Calls-within}
use context_bridge.Store.Events.{Event, Log, step_ready, empty_log, append_events}
use context_bridge.Store.Events.Retention.{Retains, append_events-Retains, newest_first}

abbrev event : ℕ → Event
event at = record {
  run_id = codes "run-1";
  kind = step_ready;
  time = at;
  step_id = codes "a";
  sequence = 0;
}

append_events-Retains_example :
    (after : Log) × (append_events 5 (event 3 ∷ event 0 ∷ []) empty_log ≡ ok after)
    × Retains after
    × (after.sequence ≡ 2)
    × (after.events ≡ take 256 (newest_first 5 0 (event 3 ∷ event 0 ∷ []) []))
append_events-Retains_example = append_events-Retains 5 (event 3 ∷ event 0 ∷ []) (omega arith)

-- Two jobs an hour of 60 minutes: the third of an hour is refused, and the next hour is a new one.
abbrev window : ℕ → ℕ → Window
window at n = record { started_at = at; count = n }

first_admitted : consume 60 [] (codes "o") (pos 2) 100 ≡ ok ((codes "o", window 100 1) ∷ [])
unfolding consume count_job window_at lookup
first_admitted = refl

third_refused :
    consume 60 ((codes "o", window 100 2) ∷ []) (codes "o") (pos 2) 159 ≡ err rate_capacity
unfolding consume count_job window_at lookup text_eq
third_refused = refl

hour_over :
    consume 60 ((codes "o", window 100 1) ∷ []) (codes "o") (pos 2) 160
    ≡ ok ((codes "o", window 160 1) ∷ (codes "o", window 100 1) ∷ [])
unfolding consume count_job window_at lookup text_eq
hour_over = refl

Calls-within_example : within 60 105 (160 ∷ 100 ∷ []) ≤ 4
Calls-within_example =
    Calls-within {hour = 60} {maximum = 2} 105 (omega arith)
      (admitted 160 (admitted 100 none_yet (omega arith) first_admitted) (omega arith) hour_over)
