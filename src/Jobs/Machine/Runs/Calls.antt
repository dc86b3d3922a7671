-- ===== src/Jobs/Machine/Runs/Calls.antt =====
-- internal/cluster/store.go: every call is a transition of the machine, and so is every run of calls.
use context_bridge.Prelude.{
  List, [], ◌∷◌, Result, ok, err, ok-injective, ◌≡◌, refl, sym, subst, inl, inr, ◌⊎◌, >>-eq-ok,
}
use context_bridge.Text.{Text}
use context_bridge.Pipeline.Graph.Edges.{lookup}
use context_bridge.Jobs.Tables.{JobError, World, Digests}
use context_bridge.Jobs.Admit
use context_bridge.Jobs.Assign
use context_bridge.Jobs.Run.{mark_running, update_progress}
use context_bridge.Jobs.Cancel.{cancel}
use context_bridge.Jobs.Complete.{complete}
use context_bridge.Jobs.Complete.Results.{Codecs}
use context_bridge.Jobs.Recover.{requeue_node, recover_restart}
use context_bridge.Jobs.Recover.Stale.{recover_stale}
use context_bridge.Jobs.Machine.{Agrees, Update, stays, Advances}
use context_bridge.Jobs.Machine.Saves.{Update-Advances}
use context_bridge.Jobs.Machine.Reports.{mark_running-Update, update_progress-Update}
use context_bridge.Jobs.Machine.Assignments.{assign-Update, cancel-Update}
use context_bridge.Jobs.Machine.Completions.{complete-Update}
use context_bridge.Jobs.Machine.Admissions.{admit-Advances}
use context_bridge.Jobs.Machine.Recoveries.{
  requeue_node-Advances, recover_restart-Advances, recover_stale-Advances,
}
use context_bridge.Jobs.Machine.Runs.{
  Call, submit, assign, start, progress, cancel_job, complete_job, lose_node, restart, expire,
  perform, world_of, run, committed,
}

world_of-eq-ok {ℓ} :
    {A : Type ℓ} (m : Result JobError (World × A)) {w : World}
    → world_of m ≡ ok w
    → (r : World × A) × (m ≡ ok r) × (r.0 ≡ w)
world_of-eq-ok (err e) h = cc
world_of-eq-ok (ok r) h = let (_, h) = >>-eq-ok r.0.exhausted _ _ h in (r, refl, ok-injective h)

idle : (w : World) → Agrees w → Advances w w
idle w a = record { agrees = a; each = λ i. stays (lookup i w.jobs) }

reported : (id : Text) (w v : World) → Agrees w → (v ≡ w) ⊎ Update id w v → Advances w v
reported id w v a (inl same) = subst (Advances w) (sym same) (idle w a)
reported id w v a (inr u) = Update-Advances id w v a u

-- Every call of the store that succeeds keeps the store well formed, and moves each job by one step
-- of the state machine at most: a job is admitted as waiting, and from then on follows its edges.
pub perform-Advances :
    (digests : Digests) (codecs : Codecs) (c : Call) (w w' : World)
    → Agrees w
    → perform digests codecs c w ≡ ok w'
    → Advances w w'
unfolding perform
perform-Advances digests codecs (submit limits fresh now r) w w' a h =
    let (o, e, same) = world_of-eq-ok (Admit.admit limits fresh now r w) h in
    subst (Advances w) same (admit-Advances limits fresh now r w o a e)
perform-Advances digests codecs (assign fresh now id r) w w' a h =
    let (o, e, same) = world_of-eq-ok (Assign.assign digests fresh now id r w) h in
    subst (Advances w) same
      (Update-Advances id w o.0 a (assign-Update digests fresh now id r w o a e))
perform-Advances digests codecs (start now id node_id attempt fence) w w' a h =
    let (o, e, same) = world_of-eq-ok (mark_running now id node_id attempt fence w) h in
    subst (Advances w) same
      (Update-Advances id w o.0 a (mark_running-Update now id node_id attempt fence w o a e))
perform-Advances digests codecs (progress now id node_id attempt fence p) w w' a h =
    let (o, e, same) = world_of-eq-ok (update_progress now id node_id attempt fence p w) h in
    subst (Advances w) same
      (reported id w o.0 a (update_progress-Update now id node_id attempt fence p w o a e))
perform-Advances digests codecs (cancel_job now id owner tenants) w w' a h =
    let (o, e, same) = world_of-eq-ok (cancel now id owner tenants w) h in
    subst (Advances w) same
      (Update-Advances id w o.0 a (cancel-Update now id owner tenants w o a e))
perform-Advances digests codecs (complete_job now id node_id attempt fence r) w w' a h =
    let (o, e, same) =
      world_of-eq-ok (complete digests codecs now id node_id attempt fence r w) h in
    subst (Advances w) same (
      Update-Advances id w o.0 a
        (complete-Update digests codecs now id node_id attempt fence r w o a e))
perform-Advances digests codecs (lose_node now node_id reason) w w' a h =
    let (o, e, same) = world_of-eq-ok (requeue_node digests now node_id reason w) h in
    subst (Advances w) same (requeue_node-Advances digests now node_id reason w o.0 o.1 a e)
perform-Advances digests codecs (restart now reason) w w' a h =
    let (o, e, same) = world_of-eq-ok (recover_restart digests now reason w) h in
    subst (Advances w) same (recover_restart-Advances digests now reason w o.0 o.1 a e)
perform-Advances digests codecs (expire now sealed_wait execution) w w' a h =
    let (o, e, same) = world_of-eq-ok (recover_stale digests now sealed_wait execution w) h in
    subst (Advances w) same (recover_stale-Advances digests now sealed_wait execution w o.0 o.1 a e)

of_result :
    (digests : Digests) (codecs : Codecs) (c : Call) (w : World)
    → Agrees w
    → (m : Result JobError World) → perform digests codecs c w ≡ m
    → Advances w (committed w m)
of_result digests codecs c w a (ok v) e = perform-Advances digests codecs c w v a e
of_result digests codecs c w a (err x) e = idle w a

pub committed-Advances :
    (digests : Digests) (codecs : Codecs) (c : Call) (w : World)
    → Agrees w
    → Advances w (committed w (perform digests codecs c w))
committed-Advances digests codecs c w a =
    of_result digests codecs c w a (perform digests codecs c w) refl

-- In every state that a run of calls reaches from a well-formed store, each job is stored once, under
-- its ID, and has a queue entry exactly while its status is queued. The queue is consistent: the
-- index by job names the entry of each job that it lists and nothing else, and the counters of all
-- jobs and of each owner are the numbers of their entries.
pub run-Agrees :
    (digests : Digests) (codecs : Codecs) (cs : List Call) (w : World)
    → Agrees w
    → Agrees (run digests codecs cs w)
unfolding run
run-Agrees digests codecs [] w a = a
run-Agrees digests codecs (c ∷ cs) w a =
    run-Agrees digests codecs cs _ (committed-Advances digests codecs c w a).agrees
