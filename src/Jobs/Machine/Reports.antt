-- ===== src/Jobs/Machine/Reports.antt =====
-- internal/cluster/store.go: starts and progress as transitions.
use context_bridge.Prelude.{
  ℕ, Bool, true, false, not, ◌&&◌, Option, some, if◌then◌else◌, ok, >>=-eq-ok, >>-eq-ok,
  ok-injective, ◌≡◌, refl, ap, arith, inl, inr, subst, ◌⊎◌,
}
use context_bridge.Prelude.Int.{ℤ}
use context_bridge.Text.{Text}
use context_bridge.Pipeline.Graph.Edges.{lookup, is_some}
use context_bridge.Jobs.Records.{
  Job, Progress, Fence, Status, queued, assigned, status_eq, at_worker,
}
use context_bridge.Jobs.Tables.{World, not_found, found, execution_started, step_started}
use context_bridge.Jobs.Tables.Saved.{Keeps, then_kept, job_event-Keeps, step_event-Keeps}
use context_bridge.Jobs.Run.{
  mark_running, running_job, at_attempt, fence_fails, update_progress, progress_event, malformed,
  outdated, cleaned, progressed_job, with_progress,
}
use context_bridge.Jobs.Machine.{starts, reports, Agrees, Update}
use context_bridge.Jobs.Machine.Saves.{found-eq-ok, kept-Update}

pub status_of_eq : (s t : Status) → status_eq s t ≡ true → s ≡ t
unfolding status_eq
status_of_eq s t h = ground arith

pub worker_not_queued : (s : Status) → at_worker s ≡ true → status_eq s queued ≡ false
unfolding status_eq
worker_not_queued s h = ground arith

pub mark_running-Update :
    (now : ℕ) (id node_id : Text) (attempt : ℤ) (fence : Option Fence) (w : World) (r : World × Job)
    → Agrees w
    → mark_running now id node_id attempt fence w ≡ ok r
    → Update id w r.0
unfolding mark_running status_eq
mark_running-Update now id node_id attempt fence w r a h =
    let (j, at, h) = >>=-eq-ok (found not_found (lookup id w.jobs)) _ h in
    let (here, h) =
      >>-eq-ok (not (status_eq j.status assigned && at_attempt node_id attempt j)) _ _ h in
    let (_, h) = >>-eq-ok (fence_fails j fence) _ _ h in
    let is_assigned : status_eq j.status assigned ≡ true = ground (arith, here) in
    let was : j.status ≡ assigned = status_of_eq j.status assigned is_assigned in
    subst (λ p. Update id w p.0) (ok-injective h)
      (kept-Update id w _ j (running_job now j) a (found-eq-ok not_found (lookup id w.jobs) at)
        (ap (λ s. status_eq s queued) was) refl
        (record {
          id = refl;
          owner = refl;
          tenant = refl;
          maximum = refl;
          moves = starts was refl refl;
        })
        (then_kept (job_event-Keeps now execution_started (running_job now j) _)
          (step_event-Keeps step_started (running_job now j) _)))

progress_event-Keeps : (j : Job) (p : Progress) (w : World) → Keeps w (progress_event j p w)
unfolding progress_event
progress_event-Keeps j p w = record { jobs = ground arith; queue = ground arith }

-- A report that is not outdated.
progressed :
    (p : Progress) (id : Text) (w : World) (j : Job)
    → Agrees w
    → lookup id w.jobs ≡ some j
    → at_worker j.status ≡ true
    → Update id w (with_progress p j w).0
progressed p id w j a at busy =
    let out = worker_not_queued j.status busy in
    kept-Update id w _ j (progressed_job p j) a at out out
      (record {
        id = refl;
        owner = refl;
        tenant = refl;
        maximum = refl;
        moves = reports busy refl refl;
      })
      (progress_event-Keeps (progressed_job p j) p _)

either :
    (old : Bool) (p : Progress) (id : Text) (w : World) (j : Job)
    → Update id w (with_progress p j w).0
    → ((if old then (w, j) else with_progress p j w).0 ≡ w)
      ⊎ Update id w (if old then (w, j) else with_progress p j w).0
either true p id w j u = inl refl
either false p id w j u = inr u

-- An outdated report changes nothing.
pub update_progress-Update :
    (now : ℕ) (id node_id : Text) (attempt : ℤ) (fence : Option Fence) (p : Progress) (w : World)
    → (r : World × Job) → Agrees w
    → update_progress now id node_id attempt fence p w ≡ ok r
    → (r.0 ≡ w) ⊎ Update id w r.0
unfolding update_progress
update_progress-Update now id node_id attempt fence p w r a h =
    let (j, at, h) = >>=-eq-ok (found not_found (lookup id w.jobs)) _ h in
    let (here, h) = >>-eq-ok (not (at_worker j.status && at_attempt node_id attempt j)) _ _ h in
    let (_, h) = >>-eq-ok (fence_fails j fence) _ _ h in
    let (_, h) = >>-eq-ok (is_some j.sealed_payload) _ _ h in
    let (_, h) = >>-eq-ok (malformed p) _ _ h in
    let busy : at_worker j.status ≡ true = ground (arith, here) in
    let at = found-eq-ok not_found (lookup id w.jobs) at in
    subst (λ q. (q.0 ≡ w) ⊎ Update id w q.0) (ok-injective h)
      (either (outdated j p) (cleaned now p) id w j (progressed (cleaned now p) id w j a at busy))
