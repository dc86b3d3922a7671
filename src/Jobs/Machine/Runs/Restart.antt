-- ===== src/Jobs/Machine/Runs/Restart.antt =====
-- internal/cluster/store.go: RecoverRelayRestart always succeeds, and leaves no job with a worker.
use context_bridge.Prelude.{
  ℕ, Bool, true, false, List, [], ◌∷◌, Option, none, some, Result, ok, ◌>>=◌, if◌then◌else◌, map,
  ◌≡◌, refl, sym, ap, ◌∙◌, arith, Bool-cases, inl, inr,
}
use context_bridge.Text.{Text, text_eq, text_eq_refl, eq_of_text_eq}
use context_bridge.Pipeline.Graph.Edges.{lookup, is_some}
use context_bridge.Jobs.Records.{Job, Status, cancelled, status_eq, at_worker}
use context_bridge.Jobs.Queue.{Queue, delete_entry, is_queued}
use context_bridge.Jobs.Tables.{JobError, World, Digests, dequeue_job, lift_queue}
use context_bridge.Jobs.Tables.Keys.{Keyed}
use context_bridge.Jobs.Recover.{
  Visit, untouched, settled, ending, Change, take_out, unlocked, walk, keep_change, recovered,
  recover_restart, visit_at_restart, restarted_job, lost_job, disconnected, all_stored,
}
use context_bridge.Jobs.Recover.Parts.{settle_ended-Keeps, unlocked-Keeps}
use context_bridge.Jobs.Recover.Walked.{or_else, end_of, ended_by, KeepsIds}
use context_bridge.Jobs.Recover.Walks.{recovered-Recovered}
use context_bridge.Jobs.Machine.{Agrees, waits}
use context_bridge.Jobs.Machine.Reports.{worker_not_queued}

none_of : {A : Type 0} (o : Option A) → is_some o ≡ false → o ≡ none
none_of none h = refl
none_of (some a) h = cc

delete_entry-none : (id : Text) (q : Queue) → lookup id q.index ≡ none → delete_entry id q ≡ ok q
unfolding delete_entry
delete_entry-none id q missing = rw (missing, delete_entry) refl

take_out-unqueued :
    (c : Change) (w : World)
    → is_queued c.job.id w.queue ≡ false
    → take_out c w ≡ ok (unlocked c.how c.job w)
unfolding take_out dequeue_job is_queued
take_out-unqueued c w free =
    let missing = none_of (lookup c.job.id w.queue.index) free in
    ap (λ m. lift_queue w m >>= λ v. ok (unlocked c.how c.job v))
      (delete_entry-none c.job.id w.queue missing)

-- No job that the walk ends has a queue entry.
Free : (Job → Visit) → Queue → List (Text × Job) → Type 0
Free visit q [] = Unit
Free visit q ((k, j) ∷ js) =
    ((c : Change) → visit j ≡ ending c → is_queued c.job.id q ≡ false) × Free visit q js

Succeeds : {A : Type 0} → Result JobError A → Type 0
Succeeds {A} m = (a : A) × (m ≡ ok a)

then_succeeds :
    {A B : Type 0} (m : Result JobError A) (f : A → B) → Succeeds m → Succeeds (m >>= λ a. ok (f a))
unfolding Succeeds
then_succeeds m f (a, e) = (f a, rw e refl)

first :
    (digests : Digests) (now : ℕ) (visit : Job → Visit) (q : Queue)
    → (k : Text) (j : Job) (js : List (Text × Job)) (w : World) → w.queue ≡ q
    → (v : Visit) → visit j ≡ v
    → ((c : Change) → visit j ≡ ending c → is_queued c.job.id q ≡ false)
    → ((u : World) → u.queue ≡ q → Succeeds (walk digests now visit js u))
    → Succeeds (walk digests now visit ((k, j) ∷ js) w)
unfolding walk
first digests now visit q k j js w same untouched e here rest = rw (e, walk) (rest w same)
first digests now visit q k j js w same settled e here rest =
    rw (e, walk) (rest _ ((settle_ended-Keeps digests now j w).queue ∙ same))
first digests now visit q k j js w same (ending c) e here rest =
    let free = ap (is_queued c.job.id) same ∙ here c e in
    let at = (unlocked-Keeps c.how c.job w).queue ∙ same in
    rw (e, walk)
      (rw (take_out-unqueued c w free) (
        then_succeeds (walk digests now visit js (unlocked c.how c.job w)) (keep_change c)
          (rest (unlocked c.how c.job w) at)))

walk-succeeds :
    (digests : Digests) (now : ℕ) (visit : Job → Visit) (q : Queue) (js : List (Text × Job))
    (w : World)
    → w.queue ≡ q
    → Free visit q js
    → Succeeds (walk digests now visit js w)
unfolding walk Free Succeeds
walk-succeeds digests now visit q [] w same free = ((w, []), refl)
walk-succeeds digests now visit q ((k, j) ∷ js) w same (here, rest) =
    first digests now visit q k j js w same (visit j) refl here
      (λ u at. walk-succeeds digests now visit q js u at rest)

-- What a restart makes of the job at an ID.
abbrev pub after_restart : ℕ → Text → Option Job → Option Job
after_restart now reason none = none
after_restart now reason (some j) =
    if at_worker j.status then some (restarted_job now reason j) else some j

abbrev pub busy : Option Job → Bool
busy none = false
busy (some j) = at_worker j.status

cancelled_idle : (s : Status) → status_eq s cancelled ≡ true → at_worker s ≡ false
unfolding status_eq
cancelled_idle s h = ground arith

-- The visit, by whether a worker has the job.
visit_busy :
    (now : ℕ) (reason : Text) (j : Job)
    → at_worker j.status ≡ true
    → visit_at_restart now reason j ≡ ending (lost_job (restarted_job now reason j))
unfolding visit_at_restart
visit_busy now reason j at = elim (Bool-cases (status_eq j.status cancelled)) [
  | inl gone ↦ absurd (cc (sym at ∙ cancelled_idle j.status gone))
  | inr here ↦ rw (here, at, visit_at_restart) refl
]

visit_idle :
    (now : ℕ) (reason : Text) (j : Job)
    → at_worker j.status ≡ false
    → end_of (visit_at_restart now reason) (some j) ≡ none
unfolding visit_at_restart
visit_idle now reason j at = elim (Bool-cases (status_eq j.status cancelled)) [
  | inl gone ↦ rw (gone, visit_at_restart) refl
  | inr here ↦ rw (here, at, visit_at_restart) refl
]

ended_id : Job → Visit → Text
ended_id j untouched = j.id
ended_id j settled = j.id
ended_id j (ending c) = c.job.id

ending_busy :
    (now : ℕ) (reason : Text) (j : Job) (c : Change)
    → visit_at_restart now reason j ≡ ending c
    → (at_worker j.status ≡ true) × (c.job.id ≡ j.id)
unfolding ended_id
ending_busy now reason j c e = elim (Bool-cases (at_worker j.status)) [
  | inl at ↦ (at, ap (λ v. ended_id j v) (sym e ∙ visit_busy now reason j at))
  | inr idle ↦ absurd (cc (sym (visit_idle now reason j idle) ∙ ap ended_by e))
]

-- Each job of a part of the bucket.
Free-jobs :
    (now : ℕ) (reason : Text) (w : World)
    → Agrees w
    → (js : List (Text × Job)) → Keyed js
    → ((i : Text) (j : Job) → lookup i js ≡ some j → lookup i w.jobs ≡ some j)
    → Free (visit_at_restart now reason) w.queue js
unfolding Free lookup
Free-jobs now reason w a [] keyed part = tt
Free-jobs now reason w a ((k, j) ∷ js) (fresh, named, keyed) part = (
  λ c e.
      let (at, same_id) = ending_busy now reason j c e in
      ap (λ x. is_queued x w.queue) (same_id ∙ named)
      ∙ a.queue k
      ∙ ap waits (part k j (rw (text_eq_refl k) refl))
      ∙ worker_not_queued j.status at,
  Free-jobs now reason w a js keyed (λ i u at. part i u (elim (Bool-cases (text_eq i k)) [
    | inl same ↦ absurd (cc (sym at ∙ ap (λ x. lookup x js) (eq_of_text_eq i k same) ∙ fresh))
    | inr other ↦ rw other at
  ])),
)

restart_lem :
    (now : ℕ) (reason : Text) (o : Option Job)
    → or_else (end_of (visit_at_restart now reason) o) o ≡ after_restart now reason o
restart_lem now reason none = refl
restart_lem now reason (some j) = elim (Bool-cases (at_worker j.status)) [
  | inl at ↦
      ap (λ v. or_else (ended_by v) (some j)) (visit_busy now reason j at)
      ∙ sym (ap (λ b. if b then some (restarted_job now reason j) else some j) at)
  | inr idle ↦
      ap (λ e. or_else e (some j)) (visit_idle now reason j idle)
      ∙ sym (ap (λ b. if b then some (restarted_job now reason j) else some j) idle)
]

after_restart-idle :
    (now : ℕ) (reason : Text) (o : Option Job) → busy (after_restart now reason o) ≡ false
unfolding status_eq
after_restart-idle now reason none = refl
after_restart-idle now reason (some j) = elim (Bool-cases (at_worker j.status)) [
  | inl at ↦ ap (λ b. busy (if b then some (restarted_job now reason j) else some j)) at
  | inr idle ↦ ap (λ b. busy (if b then some (restarted_job now reason j) else some j)) idle ∙ idle
]

restart_succeeds :
    (digests : Digests) (now : ℕ) (reason : Text) (w : World)
    → Agrees w
    → (r : World × List Change) × (recover_restart digests now reason w ≡ ok r)
unfolding recover_restart recovered Succeeds
restart_succeeds digests now reason w a =
    let x = record w { nodes = map disconnected w.nodes } in
    then_succeeds (walk digests now (visit_at_restart now reason) w.jobs x) (all_stored digests) (
      walk-succeeds digests now (visit_at_restart now reason) w.queue w.jobs x refl
        (Free-jobs now reason w a w.jobs a.keyed (λ i j at. at)))

restart_jobs :
    (digests : Digests) (now : ℕ) (reason : Text) (w : World) (r : World × List Change)
    → Agrees w
    → recover_restart digests now reason w ≡ ok r
    → (i : Text) → lookup i r.0.jobs ≡ after_restart now reason (lookup i w.jobs)
unfolding recover_restart KeepsIds
restart_jobs digests now reason w r a h i =
    let x = record w { nodes = map disconnected w.nodes } in
    let done =
      recovered-Recovered digests now (visit_at_restart now reason) x r.0 r.1
        (λ j c e. (ending_busy now reason j c e).1) a.keyed h in
    done.job i ∙ restart_lem now reason (lookup i w.jobs)

-- The recovery after a restart of the relay gets through every well-formed store (the sequence numbers
-- of its events aside, whose exhaustion the resulting store flags), and in the result no job is at a
-- worker any more: those that were have failed with an uncertain outcome, and the others are as
-- before.
pub recover_restart-idle :
    (digests : Digests) (now : ℕ) (reason : Text) (w : World)
    → Agrees w
    → (r : World × List Change) × (recover_restart digests now reason w ≡ ok r)
      × ((i : Text)
          → (busy (lookup i r.0.jobs) ≡ false)
            × (lookup i r.0.jobs ≡ after_restart now reason (lookup i w.jobs)))
recover_restart-idle digests now reason w a =
    let (r, e) = restart_succeeds digests now reason w a in
    (
      r,
      e,
      λ i.
          let at = restart_jobs digests now reason w r a e i in
          (ap busy at ∙ after_restart-idle now reason (lookup i w.jobs), at),
    )
