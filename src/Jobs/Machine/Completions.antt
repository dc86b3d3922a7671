-- ===== src/Jobs/Machine/Completions.antt =====
-- internal/cluster/store.go: the end of a job, and its return to the queue, as transitions.
use context_bridge.Prelude.{
  ℕ, Bool, true, false, not, ◌&&◌, ◌||◌, [], Option, some, if◌then◌else◌, ok, ltb, length,
  >>=-eq-ok, >>-eq-ok, ok-injective, ◌≡◌, refl, ap, ◌∙◌, arith, Bool-cases, Option-cases, inl, inr,
  subst,
}
use context_bridge.Prelude.Int.{ℤ, ltb_ℤ}
use context_bridge.Text.{Text, text_eq}
use context_bridge.Pipeline.Graph.Template.{is_empty}
use context_bridge.Pipeline.Graph.Edges.{lookup}
use context_bridge.Jobs.Records.{Job, Fence, queued, assigned, status_eq, terminal, at_worker}
use context_bridge.Jobs.Queue.{is_queued}
use context_bridge.Jobs.Tables.{
  World, Digests, not_found, found, put_job, save, enqueue_job, retrying, job_queued,
  resolve_probes,
}
use context_bridge.Jobs.Tables.Saved.{
  Keeps, Keeps-Counted, kept, then_kept, job_event-Keeps, step_event-Keeps, release_lock-Keeps,
  resolve_probes-Keeps, enqueue_job_lem,
}
use context_bridge.Jobs.Run.{at_attempt, fence_fails}
use context_bridge.Jobs.Complete.{
  complete, conclude, classified, retry, retried_job, finish, finished_job, ended_job, accepted_job,
  refused_job, refused_report, completion_error, credit_node,
}
use context_bridge.Jobs.Complete.Results.{Codecs}
use context_bridge.Jobs.Complete.Retry.{Report, retry_allowed}
use context_bridge.Jobs.Complete.Placements.{place, put_placement}
use context_bridge.Jobs.Machine.{retries, ends, Agrees, Update}
use context_bridge.Jobs.Tables.Keys.{Keyed-named}
use context_bridge.Jobs.Machine.Saves.{found-eq-ok, kept-Update, queue-Update}
use context_bridge.Jobs.Machine.Reports.{status_of_eq, worker_not_queued}

-- What the end of a job keeps.
record Ended (j k : Job) : Type 0 where
  id : k.id ≡ j.id
  owner : k.owner_subject ≡ j.owner_subject
  tenant : k.tenant_id ≡ j.tenant_id
  maximum : k.max_attempts ≡ j.max_attempts
  attempt : k.attempt ≡ j.attempt
  final : terminal k.status ≡ true
  unqueued : status_eq k.status queued ≡ false

ended_job-Ended : (now : ℕ) (r : Report) (j : Job) → Ended j (ended_job now r j)
unfolding ended_job terminal status_eq
ended_job-Ended now r j = elim (Bool-cases (is_empty r.error)) [
  | inl clean ↦ rw clean (record {
    id = refl;
    owner = refl;
    tenant = refl;
    maximum = refl;
    attempt = refl;
    final = refl;
    unqueued = refl;
  })
  | inr faulty ↦ rw faulty (record {
    id = refl;
    owner = refl;
    tenant = refl;
    maximum = refl;
    attempt = refl;
    final = refl;
    unqueued = refl;
  })
]

finished_job-Ended :
    (codecs : Codecs) (now : ℕ) (r : Report) (j : Job) → Ended j (finished_job codecs now r j)
unfolding finished_job accepted_job refused_job
finished_job-Ended codecs now r j = elim (Option-cases (completion_error codecs j r)) [
  | inl fine ↦
      let e = ended_job-Ended now r (accepted_job r j) in
      rw (fine, finished_job)
        (record {
          id = e.id;
          owner = e.owner;
          tenant = e.tenant;
          maximum = e.maximum;
          attempt = e.attempt;
          final = e.final;
          unqueued = e.unqueued;
        })
  | inr (problem, bad) ↦
      let e = ended_job-Ended now (refused_report problem r) (refused_job j) in
      rw (bad, finished_job)
        (record {
          id = e.id;
          owner = e.owner;
          tenant = e.tenant;
          maximum = e.maximum;
          attempt = e.attempt;
          final = e.final;
          unqueued = e.unqueued;
        })
]

place-Keeps : (j : Job) (w : World) → Keeps w (place j w)
unfolding place put_placement
place-Keeps j w = record { jobs = ground arith; queue = ground arith }

credit_node-Keeps :
    (digests : Digests) (now : ℕ) (j : Job) (w : World) → Keeps w (credit_node digests now j w)
unfolding credit_node
credit_node-Keeps digests now j w = elim (Option-cases (lookup j.assigned_node w.nodes)) [
  | inl missing ↦ rw (missing, credit_node) (kept w)
  | inr (n, e) ↦ rw (e, credit_node) (record { jobs = refl; queue = refl })
]

finish-Keeps :
    (digests : Digests) (now : ℕ) (j : Job) (w : World)
    → Keeps (put_job j w) (finish digests now j w).0
unfolding finish
finish-Keeps digests now j w = then_kept (place-Keeps j (put_job j w)) (
    then_kept (release_lock-Keeps j _) (
      then_kept (credit_node-Keeps digests now j _)
        (then_kept (job_event-Keeps now _ j _) (step_event-Keeps _ j _))))

retry-Update :
    (now : ℕ) (id : Text) (j : Job) (w : World) (o : World × Job)
    → Agrees w
    → lookup id w.jobs ≡ some j
    → j.status ≡ assigned
    → ltb_ℤ j.attempt j.max_attempts ≡ true
    → retry now j w ≡ ok o
    → Update id w o.0
unfolding retry status_eq
retry-Update now id j w o a at was room h =
    let k = retried_job now j in
    let freed = resolve_probes j.assigned_node j.id [] now w in
    let (v, put, h) = >>=-eq-ok (enqueue_job k (put_job k freed)) _ h in
    let (jobs, queue, counted) = enqueue_job_lem k (put_job k freed) v put in
    let free = resolve_probes-Keeps j.assigned_node j.id [] now w in
    let tell = then_kept (job_event-Keeps now retrying k v) (job_event-Keeps now job_queued k _) in
    let same_id = Keyed-named id j w.jobs a.keyed at in
    subst (λ x. Update id w x.0) (ok-injective h)
      (queue-Update id w _ j k true a at
        (record {
          id = refl;
          owner = refl;
          tenant = refl;
          maximum = refl;
          moves = retries was refl refl room;
        })
        refl (tell.jobs ∙ jobs ∙ ap (save k.id k) free.jobs)
        (λ i.
          ap (is_queued i) tell.queue
          ∙ queue i
          ∙ ap (λ q. if text_eq i j.id then true else is_queued i q) free.queue
          ∙ ap (λ x. if text_eq i x then true else is_queued i w.queue) same_id)
        (λ c. Keeps-Counted v _ tell (counted (Keeps-Counted w freed free c))))

finish-Update :
    (digests : Digests) (codecs : Codecs) (now : ℕ) (id : Text) (r : Report) (j : Job) (w : World)
    → Agrees w
    → lookup id w.jobs ≡ some j
    → at_worker j.status ≡ true
    → Update id w (finish digests now (finished_job codecs now r j) w).0
finish-Update digests codecs now id r j w a at busy =
    let k = finished_job codecs now r j in
    let e = finished_job-Ended codecs now r j in
    kept-Update id w _ j k a at (worker_not_queued j.status busy) e.unqueued
      (record {
        id = e.id;
        owner = e.owner;
        tenant = e.tenant;
        maximum = e.maximum;
        moves = ends busy e.final e.attempt;
      })
      (finish-Keeps digests now k w)

left_of : (a b : Bool) → (a && b) ≡ true → a ≡ true
left_of a b h = ground (arith, h)

right_of : (a b : Bool) → (a && b) ≡ true → b ≡ true
right_of a b h = ground (arith, h)

-- Only a job that was assigned, and has an attempt left, goes back to the queue.
pub retry_allowed-assigned :
    (j : Job) (reported : Text) (r : Report)
    → retry_allowed j reported r ≡ true
    → (j.status ≡ assigned) × (ltb_ℤ j.attempt j.max_attempts ≡ true)
unfolding retry_allowed
retry_allowed-assigned j reported r h =
    (status_of_eq j.status assigned (left_of _ _ h), left_of _ _ (right_of _ _ (right_of _ _ h)))

pub conclude-Update :
    (digests : Digests) (codecs : Codecs) (now : ℕ) (id reported : Text) (r : Report) (j : Job)
    (w : World)
    → (o : World × Job) → Agrees w
    → lookup id w.jobs ≡ some j
    → at_worker j.status ≡ true
    → conclude digests codecs now reported r j w ≡ ok o
    → Update id w o.0
unfolding conclude
conclude-Update digests codecs now id reported r j w o a at busy h =
    elim (Bool-cases (retry_allowed j reported r)) [
      | inl allowed ↦
          let h = rw (allowed, conclude) at h in
          let (was, room) = retry_allowed-assigned j reported r allowed in
          retry-Update now id j w o a at was room h
      | inr refused ↦
          let h = rw (refused, conclude) at h in
          subst (λ x. Update id w x.0) (ok-injective h)
            (finish-Update digests codecs now id r j w a at busy)
    ]

pub complete-Update :
    (digests : Digests) (codecs : Codecs) (now : ℕ) (id node_id : Text) (attempt : ℤ)
    (fence : Option Fence)
    → (r : Report) (w : World) (o : World × Job) → Agrees w
    → complete digests codecs now id node_id attempt fence r w ≡ ok o
    → Update id w o.0
unfolding complete
complete-Update digests codecs now id node_id attempt fence r w o a h =
    let (_, h) = >>-eq-ok (ltb 1 (length r.execution)) _ _ h in
    let (j, at, h) = >>=-eq-ok (found not_found (lookup id w.jobs)) _ h in
    let (busy, h) = >>-eq-ok (not (at_worker j.status)) _ _ h in
    let (_, h) = >>-eq-ok (is_empty node_id || not (text_eq j.assigned_node node_id)) _ _ h in
    let (_, h) = >>-eq-ok (not (at_attempt node_id attempt j)) _ _ h in
    let (_, h) = >>-eq-ok (fence_fails j fence) _ _ h in
    conclude-Update digests codecs now id r.failure_code (classified j r) j w o a
      (found-eq-ok not_found (lookup id w.jobs) at) (ground (arith, busy)) h
