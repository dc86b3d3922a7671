-- ===== src/Jobs/Queue/Tests.antt =====
-- internal/cluster/store.go: a queue with one job.
use context_bridge.Prelude.{true, List, [], ◌∷◌, refl, ok, ◌≡◌}
use context_bridge.Text.{codes}
use context_bridge.Jobs.Prepare
use context_bridge.Jobs.Queue.{Queue, entry_at, valid_entry}
use context_bridge.Jobs.Queue.Counted.{Counted}
use context_bridge.Jobs.Queue.History.{
  Operation, puts, deletes, operate, history, has_room, AllValid, history-Counted, history-ok,
}
use context_bridge.Jobs.Tests.Stores.{request, empty_queue, empty_queue-Counted}
use context_bridge.Pipeline.Checkpoint.Identifiers.{valid_job_id, all_chars, has_dots}
use context_bridge.Jobs.Queue.Sound.{Sound}

abbrev operations : List Operation
operations =
    puts (Prepare.new_job (codes "job-1") 100 request)
    ∷ deletes (codes "job-2")
    ∷ puts (Prepare.new_job (codes "job-2") 90 request)
    ∷ []

history-Counted_example : Counted (history operations empty_queue)
history-Counted_example = history-Counted operations empty_queue empty_queue-Counted

empty_queue-Sound : Sound empty_queue.entries
unfolding Sound entry_at
empty_queue-Sound k e h = cc

operations-AllValid : AllValid operations
unfolding valid_entry valid_job_id all_chars has_dots
operations-AllValid = (refl, (refl, tt))

room : has_room (deletes (codes "job-1")) (history operations empty_queue) ≡ true
unfolding has_room
room = refl

history-ok_example :
    (q : Queue) × (operate (deletes (codes "job-1")) (history operations empty_queue) ≡ ok q)
history-ok_example =
    history-ok operations (deletes (codes "job-1")) empty_queue empty_queue-Counted
      empty_queue-Sound operations-AllValid room
