-- ===== src/Queue/Tests.antt =====
-- Fair windows of internal/cluster/store.go on small queues.
use context_bridge.Prelude.{◌≤◌, List, [], ◌∷◌, length, ◌≡◌, refl}
use Prim.Native.Nat.{min}
use context_bridge.Prelude.Int.{ℤ, pos, negsuc}
use context_bridge.Text.{Text, codes, text_eq}
use context_bridge.Queue.Fair.{
  Job, fair_window, tiers, tier_jobs, rounds, round, by_owner, file_owner, rotate, by_priority,
  file_priority, insert, sorted, bounded_scan_size,
}
use context_bridge.Queue.Fair.Taken.{tally, tally-fair_window}
use context_bridge.Queue.Fair.Priority.{at_least}
use context_bridge.Queue.Fair.Ordered.{Ordered, fair_window-Ordered}
use context_bridge.Queue.Fair.Filled.{length-fair_window}

abbrev job : Text → Text → ℤ → Job
job id owner priority = record { id = id; owner_subject = owner; priority = priority }

abbrev queue : List Job
queue =
    job (codes "a1") (codes "a") (pos 0)
    ∷ job (codes "a2") (codes "a") (pos 0)
    ∷ job (codes "b1") (codes "b") (pos 0)
    ∷ job (codes "a3") (codes "a") (pos 5)
    ∷ []

-- The urgent job first; then the owners in turn, from the one behind a.
window_of_three :
    fair_window queue 3 (λ p. codes "a")
    ≡ job (codes "a3") (codes "a") (pos 5)
      ∷ job (codes "b1") (codes "b") (pos 0)
      ∷ job (codes "a1") (codes "a") (pos 0)
      ∷ []
unfolding fair_window tiers tier_jobs rounds round by_owner file_owner rotate by_priority
    file_priority insert sorted text_eq
window_of_three = refl

scan_sizes :
    (bounded_scan_size (pos 10) (pos 1000) ≡ 256)
    × (bounded_scan_size (pos 10000) (negsuc 0) ≡ 20000)
unfolding bounded_scan_size
scan_sizes = (refl, refl)

tally-fair_window_example :
    tally (λ j. text_eq j.owner_subject (codes "a")) (fair_window queue 3 (λ p. codes "a"))
    ≤ tally (λ j. text_eq j.owner_subject (codes "a")) queue
tally-fair_window_example =
    tally-fair_window (λ j. text_eq j.owner_subject (codes "a")) queue 3 (λ p. codes "a")

length-fair_window_example : length (fair_window queue 3 (λ p. codes "a")) ≡ min 4 3
length-fair_window_example = length-fair_window queue 3 (λ p. codes "a")

fair_window-Ordered_example :
    Ordered (fair_window queue 3 (λ p. codes "a"))
    × ((k : ℤ)
        → tally (at_least k) (fair_window queue 3 (λ p. codes "a"))
          ≡ min (tally (at_least k) queue) 3)
fair_window-Ordered_example = fair_window-Ordered queue 3 (λ p. codes "a")
