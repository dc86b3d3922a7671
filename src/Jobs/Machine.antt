-- ===== src/Jobs/Machine.antt =====
-- internal/cluster/store.go: the life of a job as a state machine, which the transactions implement.
pub mod Saves
pub mod Reports
pub mod Assignments
pub mod Completions
pub mod Admissions
pub mod Recoveries
pub mod Runs
use context_bridge.Prelude.{Bool, true, false, not, ◌&&◌, List, Option, none, some, ◌≡◌, ◌<◌, ◌≤◌}
use context_bridge.Prelude.Int.{ℤ, pos, pos_part, ltb_ℤ}
use context_bridge.Text.{Text, text_eq}
use context_bridge.Pipeline.Graph.Edges.{lookup}
use context_bridge.Jobs.Records.{
  Job, Status, queued, assigned, running, failed, cancelled, status_eq, terminal, at_worker,
  increment,
}
use context_bridge.Jobs.Queue.{is_queued}
use context_bridge.Jobs.Queue.Counted.{Counted}
use context_bridge.Jobs.Tables.{World, save}
use context_bridge.Jobs.Tables.Keys.{Keyed}

-- The transitions of a job's status, and what becomes of its attempt.
pub data Moves (j k : Job) : Type 0 where
  assigns : j.status ≡ queued → k.status ≡ assigned → k.attempt ≡ increment j.attempt → Moves j k
  starts : j.status ≡ assigned → k.status ≡ running → k.attempt ≡ j.attempt → Moves j k
  reports : at_worker j.status ≡ true → k.status ≡ j.status → k.attempt ≡ j.attempt → Moves j k
  retries :
      j.status ≡ assigned
      → k.status ≡ queued
      → k.attempt ≡ j.attempt
      → ltb_ℤ j.attempt j.max_attempts ≡ true
      → Moves j k
  ends : at_worker j.status ≡ true → terminal k.status ≡ true → k.attempt ≡ j.attempt → Moves j k
  cancels : terminal j.status ≡ false → k.status ≡ cancelled → k.attempt ≡ j.attempt → Moves j k
  expires : j.status ≡ queued → k.status ≡ failed → k.attempt ≡ j.attempt → Moves j k

-- A transition of one job, with what no transition changes.
pub record Step (j k : Job) : Type 0 where
  pub id : k.id ≡ j.id
  pub owner : k.owner_subject ≡ j.owner_subject
  pub tenant : k.tenant_id ≡ j.tenant_id
  pub maximum : k.max_attempts ≡ j.max_attempts
  pub moves : Moves j k

abbrev pub waits : Option Job → Bool
waits none = false
waits (some j) = status_eq j.status queued

-- The store is well formed: each job under its ID, once, and in the queue exactly while it waits. The
-- queue's entries, its index by job, and its counters agree.
pub record Agrees (w : World) : Type 0 where
  pub keyed : Keyed w.jobs
  pub queue : (i : Text) → is_queued i w.queue ≡ waits (lookup i w.jobs)
  pub counted : Counted w.queue

-- One job takes a step, and the other jobs and queue entries stay.
pub record Update (id : Text) (w w' : World) : Type 0 where
  pub before : Job
  pub after : Job
  pub found : lookup id w.jobs ≡ some before
  pub at_id : before.id ≡ id
  pub jobs : w'.jobs ≡ save after.id after w.jobs
  pub others : (i : Text) → text_eq i id ≡ false → is_queued i w'.queue ≡ is_queued i w.queue
  pub entry : is_queued id w'.queue ≡ status_eq after.status queued
  pub counted : Counted w.queue → Counted w'.queue
  pub step : Step before after

-- A job as its admission makes it: it waits, before its first attempt.
pub record Fresh (j : Job) : Type 0 where
  pub waiting : j.status ≡ queued
  pub untried : j.attempt ≡ pos 0
  pub allowed : 0 < pos_part j.max_attempts
  pub small : pos_part j.max_attempts ≤ 10

-- What a transaction makes of one ID: nothing, a step of its job, or a job where none was.
pub data Advanced : Option Job → Option Job → Type 0 where
  stays : (o : Option Job) → Advanced o o
  steps : (j k : Job) → Step j k → Advanced (some j) (some k)
  appears : (j : Job) → Fresh j → Advanced none (some j)

-- A transaction of the machine: a well-formed store, of which each job has advanced.
pub record Advances (w w' : World) : Type 0 where
  pub agrees : Agrees w'
  pub each : (i : Text) → Advanced (lookup i w.jobs) (lookup i w'.jobs)
