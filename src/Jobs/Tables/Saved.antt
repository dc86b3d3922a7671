-- ===== src/Jobs/Tables/Saved.antt =====
-- internal/cluster/store.go: what the shared parts of a transaction leave of the jobs and the queue.
use context_bridge.Prelude.{
  ℕ, subst, true, false, List, [], ◌∷◌, some, if◌then◌else◌, Result, ok, err, ◌≡◌, refl, ap, sym,
  ◌∙◌, arith, ok-injective,
}
use context_bridge.Text.{Text, text_eq, eq_of_text_eq, text_eq_refl}
use context_bridge.Pipeline.Graph.Edges.{lookup}
use context_bridge.Jobs.Records.{Job}
use context_bridge.Jobs.Queue.{is_queued, put_entry, delete_entry, Queue, QueueError}
use context_bridge.Jobs.Queue.Entries.{is_queued-put_entry, is_queued-delete_entry}
use context_bridge.Jobs.Queue.Counted.{Counted, put_entry-Counted, delete_entry-Counted}
use context_bridge.Jobs.Tables.{
  World, save, job_event, step_event, release_lock, resolve_probes, record_failure, enqueue_job,
  dequeue_job, EventKind, Digests, key_of, entry_of, lift_queue,
}

pub lookup-save {ℓ} :
    {V : Type ℓ} (i k : Text) (v : V) (m : List (Text × V))
    → lookup i (save k v m) ≡ (if text_eq i k then some v else lookup i m)
unfolding lookup save
lookup-save i k v [] = ground arith
lookup-save i k v ((j, u) ∷ m) = ground (
  arith,
  lookup-save i k v m,
  eq_of_text_eq k j,
  eq_of_text_eq i k,
  eq_of_text_eq i j,
  text_eq_refl i,
  text_eq_refl k,
)

-- The same jobs and the same queue.
pub record Keeps (w w' : World) : Type 0 where
  pub jobs : w'.jobs ≡ w.jobs
  pub queue : w'.queue ≡ w.queue

pub Keeps-Counted : (w w' : World) → Keeps w w' → Counted w.queue → Counted w'.queue
Keeps-Counted w w' k c = subst Counted (sym k.queue) c

pub kept : (w : World) → Keeps w w
kept w = record { jobs = refl; queue = refl }

pub then_kept : {w w' w'' : World} → Keeps w w' → Keeps w' w'' → Keeps w w''
then_kept k l = record { jobs = l.jobs ∙ k.jobs; queue = l.queue ∙ k.queue }

pub job_event-Keeps :
    (now : ℕ) (kind : EventKind) (j : Job) (w : World) → Keeps w (job_event now kind j w)
unfolding job_event
job_event-Keeps now kind j w = record { jobs = refl; queue = refl }

pub step_event-Keeps : (kind : EventKind) (j : Job) (w : World) → Keeps w (step_event kind j w)
unfolding step_event
step_event-Keeps kind j w = record { jobs = ground arith; queue = ground arith }

pub release_lock-Keeps : (j : Job) (w : World) → Keeps w (release_lock j w)
unfolding release_lock
release_lock-Keeps j w = record { jobs = refl; queue = refl }

pub resolve_probes-Keeps :
    (node_id job_id code : Text) (now : ℕ) (w : World)
    → Keeps w (resolve_probes node_id job_id code now w)
unfolding resolve_probes
resolve_probes-Keeps node_id job_id code now w = record {
  jobs = ground arith;
  queue = ground arith;
}

pub record_failure-Keeps :
    (digests : Digests) (owner admitted : Text) (j : Job) (code : Text) (now : ℕ) (w : World)
    → Keeps w (record_failure digests owner admitted j code now w)
unfolding record_failure
record_failure-Keeps digests owner admitted j code now w = record {
  jobs = ground arith;
  queue = ground arith;
}

lift_queue-eq-ok :
    (w w' : World) (r : Result QueueError Queue)
    → lift_queue w r ≡ ok w'
    → (q : Queue) × (r ≡ ok q) × (w' ≡ record w { queue = q })
lift_queue-eq-ok w w' (err e) h = cc
lift_queue-eq-ok w w' (ok q) h = (q, refl, sym (ok-injective h))

pub enqueue_job_lem :
    (j : Job) (w w' : World)
    → enqueue_job j w ≡ ok w'
    → (w'.jobs ≡ w.jobs)
      × ((i : Text) → is_queued i w'.queue ≡ (if text_eq i j.id then true else is_queued i w.queue))
      × (Counted w.queue → Counted w'.queue)
unfolding enqueue_job
enqueue_job_lem j w w' h =
    let (q, put, same) = lift_queue-eq-ok w w' (put_entry (key_of j) (entry_of j) w.queue) h in
    (
      ap (λ x. x.jobs) same,
      λ i.
          ap (λ x. is_queued i x.queue) same
          ∙ is_queued-put_entry i (key_of j) (entry_of j) w.queue q put,
      λ c.
          subst (λ x. Counted x.queue) (sym same)
            (put_entry-Counted (key_of j) (entry_of j) w.queue q c refl put),
    )

pub dequeue_job_lem :
    (id : Text) (w w' : World)
    → dequeue_job id w ≡ ok w'
    → (w'.jobs ≡ w.jobs)
      × ((i : Text) → is_queued i w'.queue ≡ (if text_eq i id then false else is_queued i w.queue))
      × (Counted w.queue → Counted w'.queue)
unfolding dequeue_job
dequeue_job_lem id w w' h =
    let (q, put, same) = lift_queue-eq-ok w w' (delete_entry id w.queue) h in
    (
      ap (λ x. x.jobs) same,
      λ i. ap (λ x. is_queued i x.queue) same ∙ is_queued-delete_entry i id w.queue q put,
      λ c. subst (λ x. Counted x.queue) (sym same) (delete_entry-Counted id w.queue q c put),
    )
