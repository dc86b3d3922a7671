-- ===== src/Jobs/Recover/Parts.antt =====
-- internal/cluster/store.go: what the parts of a walk over the jobs leave of the jobs and the queue.
use context_bridge.Prelude.{
  ℕ, Bool, true, false, [], if◌then◌else◌, ok, >>=-eq-ok, ok-injective, ◌≡◌, sym, ap, subst, ◌∙◌,
}
use context_bridge.Text.{Text, text_eq}
use context_bridge.Jobs.Records.{Job}
use context_bridge.Jobs.Queue.{is_queued}
use context_bridge.Jobs.Queue.Counted.{Counted}
use context_bridge.Jobs.Tables.{
  World, Digests, EventKind, put_job, dequeue_job, probe_exists, job_ambiguous, step_ambiguous,
  job_failed, step_failed,
}
use context_bridge.Jobs.Tables.Saved.{
  Keeps, Keeps-Counted, kept, then_kept, job_event-Keeps, step_event-Keeps, release_lock-Keeps,
  resolve_probes-Keeps, record_failure-Keeps, dequeue_job_lem,
}
use context_bridge.Jobs.Complete.{route_key_of}
use context_bridge.Jobs.Failures.{state_ambiguous}
use context_bridge.Jobs.Recover.{
  Change, End, lost, timed_out, expired, settle_ended, take_out, unlocked, store_ended, store_told,
  blame,
}

if_kept : (b : Bool) (w a : World) → Keeps w a → Keeps w (if b then a else w)
if_kept true w a k = k
if_kept false w a k = kept w

pub settle_ended-Keeps :
    (digests : Digests) (now : ℕ) (j : Job) (w : World) → Keeps w (settle_ended digests now j w)
unfolding settle_ended
settle_ended-Keeps digests now j w =
    then_kept
      (if_kept (probe_exists j.assigned_node j.id w) w _ (
        then_kept (record_failure-Keeps digests [] (route_key_of j) j state_ambiguous now w)
          (resolve_probes-Keeps j.assigned_node j.id state_ambiguous now _)))
      (release_lock-Keeps j _)

store_told-Keeps :
    (kind step_kind : EventKind) (j : Job) (w : World)
    → Keeps (put_job j w) (store_told kind step_kind j w)
unfolding store_told
store_told-Keeps kind step_kind j w =
    then_kept (job_event-Keeps j.updated_at kind j (put_job j w)) (step_event-Keeps step_kind j _)

blame-Keeps :
    (digests : Digests) (owner : Text) (j : Job) (w : World) → Keeps w (blame digests owner j w)
unfolding blame
blame-Keeps digests owner j w =
    record_failure-Keeps digests owner (route_key_of j) j j.failure_code j.finished_at w

pub store_ended-Keeps :
    (digests : Digests) (how : End) (j : Job) (w : World)
    → Keeps (put_job j w) (store_ended digests how j w)
unfolding store_ended
store_ended-Keeps digests lost j w =
    then_kept
      (then_kept (store_told-Keeps job_ambiguous step_ambiguous j w) (blame-Keeps digests [] j _))
      (resolve_probes-Keeps j.assigned_node j.id j.failure_code j.finished_at _)
store_ended-Keeps digests timed_out j w =
    then_kept (store_told-Keeps job_ambiguous step_ambiguous j w)
      (blame-Keeps digests j.owner_subject j _)
store_ended-Keeps digests expired j w = store_told-Keeps job_failed step_failed j w

pub unlocked-Keeps : (how : End) (j : Job) (w : World) → Keeps w (unlocked how j w)
unlocked-Keeps lost j w = release_lock-Keeps j w
unlocked-Keeps timed_out j w = kept w
unlocked-Keeps expired j w = release_lock-Keeps j w

pub take_out_lem :
    (c : Change) (w w' : World)
    → take_out c w ≡ ok w'
    → (w'.jobs ≡ w.jobs)
      × ((i : Text)
          → is_queued i w'.queue ≡ (if text_eq i c.job.id then false else is_queued i w.queue))
      × (Counted w.queue → Counted w'.queue)
unfolding take_out
take_out_lem c w w' h =
    let (v, out, h) = >>=-eq-ok (dequeue_job c.job.id w) _ h in
    let (jobs, queue, counted) = dequeue_job_lem c.job.id w v out in
    let k = unlocked-Keeps c.how c.job v in
    let same = ok-injective h in
    (
      ap (λ x. x.jobs) (sym same) ∙ k.jobs ∙ jobs,
      λ i. ap (λ x. is_queued i x.queue) (sym same) ∙ ap (is_queued i) k.queue ∙ queue i,
      λ c. subst (λ x. Counted x.queue) same (Keeps-Counted v _ k (counted c)),
    )
