-- ===== src/Jobs/Machine/Assignments.antt =====
-- internal/cluster/store.go: assignments and cancellations as transitions.
use context_bridge.Prelude.{
  ℕ, Bool, true, false, not, ◌&&◌, ◌||◌, List, Option, some, if◌then◌else◌, Result, ok, err, ◌>>=◌,
  >>=-eq-ok, >>-eq-ok, ok-injective, ◌≡◌, refl, ap, ◌∙◌, arith, Bool-cases, Option-cases, inl, inr,
  subst,
}
use context_bridge.Text.{Text, text_eq}
use context_bridge.Pipeline.Graph.Template.{is_empty}
use context_bridge.Pipeline.Graph.Edges.{lookup, is_some}
use context_bridge.Jobs.Records.{
  Job, Decision, Requirements, queued, assigned, status_eq, terminal, increment, positive,
}
use context_bridge.Routing.Health.{Health}
use context_bridge.Jobs.Queue.{is_queued}
use context_bridge.Jobs.Tables.{
  JobError, World, Node, Digests, not_found, found, put_job, save, job_cancelled, step_cancelled,
  dequeue_job, job_event, step_event, worker_assigned, route_selected, put_node,
}
use context_bridge.Jobs.Tables.Saved.{
  Keeps, Keeps-Counted, kept, then_kept, job_event-Keeps, step_event-Keeps, dequeue_job_lem,
}
use context_bridge.Jobs.Locks.{job, acquire, needs_lock}
use context_bridge.Jobs.Cancel.{cancel, cancel_stored, cancelled_job, tenant_allowed}
use context_bridge.Jobs.Assign.{
  Request, assign, assignable, adapt, claim_probe, lock_session, decided, assigned_job, announced,
  claimed_on, lift_lock,
}
use context_bridge.Jobs.Machine.{assigns, cancels, Step, Agrees, Update}
use context_bridge.Jobs.Tables.Keys.{Keyed-named}
use context_bridge.Jobs.Machine.Saves.{found-eq-ok, queue-Update}
use context_bridge.Jobs.Machine.Reports.{status_of_eq}

pub cancelled-Step : (now : ℕ) (j : Job) → terminal j.status ≡ false → Step j (cancelled_job now j)
unfolding cancelled_job
cancelled-Step now j still_open = elim (Bool-cases (status_eq j.status queued)) [
  | inl q ↦ rw q (record {
    id = refl;
    owner = refl;
    tenant = refl;
    maximum = refl;
    moves = cancels still_open refl refl;
  })
  | inr q ↦ rw q (record {
    id = refl;
    owner = refl;
    tenant = refl;
    maximum = refl;
    moves = cancels still_open refl refl;
  })
]

cancelled-out : (now : ℕ) (j : Job) → status_eq (cancelled_job now j).status queued ≡ false
unfolding cancelled_job status_eq
cancelled-out now j = ground arith

-- cancelJobTx behind its guard.
cancelled-Update :
    (now : ℕ) (id : Text) (w v : World) (j : Job)
    → Agrees w
    → lookup id w.jobs ≡ some j
    → terminal j.status ≡ false
    → dequeue_job j.id w ≡ ok v
    → let k = cancelled_job now j in
      Update id w (step_event step_cancelled k (job_event now job_cancelled k (put_job k v)))
cancelled-Update now id w v j a at still_open out =
    let k = cancelled_job now j in
    let (jobs, queue, counted) = dequeue_job_lem j.id w v out in
    let same_id = Keyed-named id j w.jobs a.keyed at in
    let keep =
      then_kept (job_event-Keeps now job_cancelled k (put_job k v))
        (step_event-Keeps step_cancelled k _) in
    queue-Update id w _ j k false a at (cancelled-Step now j still_open) (cancelled-out now j)
      (keep.jobs ∙ ap (save k.id k) jobs)
      (λ i.
        ap (is_queued i) keep.queue
        ∙ queue i
        ∙ ap (λ x. if text_eq i x then false else is_queued i w.queue) same_id)
      (λ c. Keeps-Counted (put_job k v) _ keep (counted c))

pub cancel-Update :
    (now : ℕ) (id owner : Text) (tenants : List Text) (w : World) (r : World × Job)
    → Agrees w
    → cancel now id owner tenants w ≡ ok r
    → Update id w r.0
unfolding cancel cancel_stored
cancel-Update now id owner tenants w r a h =
    let (j, at, h) = >>=-eq-ok (found not_found (lookup id w.jobs)) _ h in
    let (_, h) =
      >>-eq-ok
        (not (is_empty owner)
          && (not (text_eq j.owner_subject owner) || not (tenant_allowed j.tenant_id tenants)))
        _ _ h in
    let (still_open, h) = >>-eq-ok (terminal j.status) _ _ h in
    let (v, out, h) = >>=-eq-ok (dequeue_job j.id w) _ h in
    let at = found-eq-ok not_found (lookup id w.jobs) at in
    subst (λ p. Update id w p.0) (ok-injective h)
      (cancelled-Update now id w v j a at still_open out)

assigned-out : status_eq assigned queued ≡ false
unfolding status_eq
assigned-out = refl

put_node-Keeps : (n : Node) (w : World) → Keeps w (put_node n w)
put_node-Keeps n w = record { jobs = refl; queue = refl }

claimed_on-Keeps :
    (b : Bool) (n : Node) (hs : List Health) (w : World) → Keeps w (claimed_on n w (b, hs))
claimed_on-Keeps true n hs w = put_node-Keeps _ w
claimed_on-Keeps false n hs w = kept w

claimed-Keeps :
    (nameless : Bool) (n : Node) (w v : World) (m : Result JobError (Bool × List Health))
    → (if nameless then ok w else (m >>= λ c. ok (claimed_on n w c))) ≡ ok v
    → Keeps w v
claimed-Keeps true n w v m h = subst (Keeps w) (ok-injective h) (kept w)
claimed-Keeps false n w v (err e) h = cc
claimed-Keeps false n w v (ok (b, hs)) h =
    subst (Keeps w) (ok-injective h) (claimed_on-Keeps b n hs w)

claim_probe-Keeps :
    (digests : Digests) (r : Request) (reqs : Requirements) (j : Job) (now : ℕ) (w v : World)
    → claim_probe digests r reqs j now w ≡ ok v
    → Keeps w v
unfolding claim_probe
claim_probe-Keeps digests r reqs j now w v h = elim (Option-cases (lookup r.node_id w.nodes)) [
  | inl missing ↦
      let h = rw (missing, claim_probe) at h in subst (Keeps w) (ok-injective h) (kept w)
  | inr (n, e) ↦ let h = rw (e, claim_probe) at h in claimed-Keeps (is_empty n.id) n w v _ h
]

lock_session-Keeps :
    (reqs : Requirements) (j : Job) (now : ℕ) (w v : World)
    → lock_session reqs j now w ≡ ok v
    → Keeps w v
unfolding lock_session
lock_session-Keeps reqs j now w v h =
    let (locks, _, h) =
      >>=-eq-ok (lift_lock (acquire j.owner_subject reqs job j.id 0 now (needs_lock reqs) w.locks))
        _ h in
    subst (Keeps w) (ok-injective h) (record { jobs = refl; queue = refl })

routed-Keeps :
    (b : Bool) (now : ℕ) (j : Job) (w : World)
    → Keeps w (if b then job_event now route_selected j w else w)
routed-Keeps true now j w = job_event-Keeps now route_selected j w
routed-Keeps false now j w = kept w

announced-Keeps : (now : ℕ) (j : Job) (w : World) → Keeps w (announced now j w)
announced-Keeps now j w =
    then_kept (routed-Keeps (is_some j.routing_decision) now j w)
      (job_event-Keeps now worker_assigned j _)

assigned-Update :
    (now : ℕ) (id : Text) (r : Request) (reqs : Requirements) (d : Option Decision) (w l v : World)
    (j : Job)
    → Agrees w
    → lookup id w.jobs ≡ some j
    → status_eq j.status queued ≡ true
    → Keeps w l
    → dequeue_job id (put_job (assigned_job r reqs d now j) l) ≡ ok v
    → Update id w (announced now (assigned_job r reqs d now j) v)
assigned-Update now id r reqs d w l v j a at is_waiting keep out =
    let k = assigned_job r reqs d now j in
    let (jobs, queue, counted) = dequeue_job_lem id (put_job k l) v out in
    let tell = announced-Keeps now k v in
    let was = status_of_eq j.status queued is_waiting in
    queue-Update id w _ j k false a at
      (record {
        id = refl;
        owner = refl;
        tenant = refl;
        maximum = refl;
        moves = assigns was refl refl;
      })
      assigned-out (tell.jobs ∙ jobs ∙ ap (save k.id k) keep.jobs)
      (λ i.
        ap (is_queued i) tell.queue
        ∙ queue i
        ∙ ap (λ q. if text_eq i id then false else is_queued i q) keep.queue)
      (λ c. Keeps-Counted v _ tell (counted (Keeps-Counted w l keep c)))

pub assignable-queued :
    (digests : Digests) (now : ℕ) (r : Request) (j : Job) (w : World)
    → assignable digests now r j w ≡ ok tt
    → status_eq j.status queued ≡ true
unfolding assignable
assignable-queued digests now r j w h =
    let (here, _) = >>-eq-ok (not (status_eq j.status queued)) _ _ h in ground (arith, here)

pub assign-Update :
    (digests : Digests) (fresh : Text) (now : ℕ) (id : Text) (r : Request) (w : World)
    (o : World × Job)
    → Agrees w
    → assign digests fresh now id r w ≡ ok o
    → Update id w o.0
unfolding assign
assign-Update digests fresh now id r w o a h =
    let (j, at, h) = >>=-eq-ok (found not_found (lookup id w.jobs)) _ h in
    let (_, passes, h) = >>=-eq-ok (assignable digests now r j w) _ h in
    let (reqs, _, h) = >>=-eq-ok (adapt r.adapter j) _ h in
    let (p, claimed, h) = >>=-eq-ok (claim_probe digests r reqs j now w) _ h in
    let (l, locked, h) = >>=-eq-ok (lock_session reqs j now p) _ h in
    let (_, h) = >>-eq-ok (not (positive (increment j.attempt))) _ _ h in
    let (d, _, h) = >>=-eq-ok (decided fresh r reqs j now r.decision) _ h in
    let (v, out, h) = >>=-eq-ok (dequeue_job id (put_job (assigned_job r reqs d now j) l)) _ h in
    let keep =
      then_kept (claim_probe-Keeps digests r reqs j now w p claimed)
        (lock_session-Keeps reqs j now p l locked) in
    subst (λ x. Update id w x.0) (ok-injective h)
      (assigned-Update now id r reqs d w l v j a (found-eq-ok not_found (lookup id w.jobs) at)
        (assignable-queued digests now r j w passes) keep out)
