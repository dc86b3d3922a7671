-- ===== src/Jobs/Machine/Runs.antt =====
-- internal/cluster/store.go: any sequence of transactions on jobs.
pub mod Calls
pub mod Final
pub mod Attempts
pub mod Late
pub mod Restart
use context_bridge.Prelude.{
  ℕ, Bool, true, false, List, [], ◌∷◌, Option, none, some, Result, ok, err, ◌>>=◌, ◌>>◌, reject_if,
}
use context_bridge.Prelude.Int.{ℤ}
use context_bridge.Text.{Text}
use context_bridge.Jobs.Records.{Job, Progress, Fence}
use context_bridge.Jobs.Prepare
use context_bridge.Jobs.Admit
use context_bridge.Jobs.Assign
use context_bridge.Jobs.Run.{mark_running, update_progress}
use context_bridge.Jobs.Cancel.{cancel}
use context_bridge.Jobs.Complete.{complete}
use context_bridge.Jobs.Complete.Results.{Codecs}
use context_bridge.Jobs.Complete.Retry.{Report}
use context_bridge.Jobs.Recover.{requeue_node, recover_restart}
use context_bridge.Jobs.Recover.Stale.{recover_stale}
use context_bridge.Jobs.Tables.{JobError, World, Digests, log_exhausted}

-- The store's calls, each with its clock and the IDs that it draws.
pub data Call : Type 0 where
  submit : Admit.Limits → Text → ℕ → Prepare.Request → Call
  assign : Text → ℕ → Text → Assign.Request → Call
  start : ℕ → Text → Text → ℤ → Option Fence → Call
  progress : ℕ → Text → Text → ℤ → Option Fence → Progress → Call
  cancel_job : ℕ → Text → Text → List Text → Call
  complete_job : ℕ → Text → Text → ℤ → Option Fence → Report → Call
  lose_node : ℕ → Text → Text → Call
  restart : ℕ → Text → Call
  expire : ℕ → ℤ → ℤ → Call

-- The store after a transaction, unless an event has exhausted its log.
abbrev pub world_of {ℓ} : {A : Type ℓ} → Result JobError (World × A) → Result JobError World
world_of (ok r) = do reject_if r.0.exhausted log_exhausted; ok r.0
world_of (err e) = err e

-- One call.
unfoldable pub perform : Digests → Codecs → Call → World → Result JobError World
perform digests codecs (submit limits fresh now r) w = world_of (Admit.admit limits fresh now r w)
perform digests codecs (assign fresh now id r) w = world_of (Assign.assign digests fresh now id r w)
perform digests codecs (start now id node_id attempt fence) w =
    world_of (mark_running now id node_id attempt fence w)
perform digests codecs (progress now id node_id attempt fence p) w =
    world_of (update_progress now id node_id attempt fence p w)
perform digests codecs (cancel_job now id owner tenants) w =
    world_of (cancel now id owner tenants w)
perform digests codecs (complete_job now id node_id attempt fence r) w =
    world_of (complete digests codecs now id node_id attempt fence r w)
perform digests codecs (lose_node now node_id reason) w =
    world_of (requeue_node digests now node_id reason w)
perform digests codecs (restart now reason) w = world_of (recover_restart digests now reason w)
perform digests codecs (expire now sealed_wait execution) w =
    world_of (recover_stale digests now sealed_wait execution w)

-- A transaction that fails is rolled back.
abbrev pub committed : World → Result JobError World → World
committed w (ok v) = v
committed w (err e) = w

unfoldable pub run : Digests → Codecs → List Call → World → World
unfolding perform
run digests codecs [] w = w
run digests codecs (c ∷ cs) w = run digests codecs cs (committed w (perform digests codecs c w))
