-- ===== src/Jobs/Admit/Replay.antt =====
-- internal/cluster/store.go: a repeated submission is answered by the job of the first.
use context_bridge.Prelude.{
  ℕ, Bool, true, false, ◌||◌, List, ◌∷◌, Option, none, some, if◌then◌else◌, ok, >>=-eq-ok, >>-eq-ok,
  ok-injective, ◌≡◌, refl, sym, ap, ◌∙◌, arith, subst,
}
use context_bridge.Text.{Text, text_eq, text_eq_refl}
use context_bridge.Pipeline.Graph.Template.{is_empty}
use context_bridge.Pipeline.Graph.Edges.{lookup, is_some}
use context_bridge.Store.RateLimit.{consume}
use context_bridge.Jobs.Records.{Job, positive}
use context_bridge.Jobs.Labels.{clean_label}
use context_bridge.Jobs.Tables.{
  World, Submission, SubmissionKey, put_job, job_event, step_event, enqueue_job, job_accepted,
  job_queued, step_queued,
}
use context_bridge.Jobs.Tables.Saved.{
  lookup-save, enqueue_job_lem, job_event-Keeps, step_event-Keeps, then_kept,
}
use context_bridge.Jobs.Admit.{
  Limits, admit_prepared, admit_unless, admit_new, check_room, check_limits, lift_rate, earlier,
  replayed, recorded_job, save_submission, submission_at, submission_key,
}

told_submissions :
    (now : ℕ) (j : Job) (u : World)
    → (step_event step_queued j
        (job_event now job_queued j (job_event now job_accepted j u))).submissions
      ≡ u.submissions
unfolding step_event job_event
told_submissions now j u = ground arith

-- The job that a recorded submission names is given back.
recorded-found :
    (owner hash : Text) (w : World) (s : Submission) (k : Job)
    → s.request_hash ≡ hash
    → lookup s.job_id w.jobs ≡ some k
    → k.owner_subject ≡ clean_label owner 120
    → recorded_job owner hash w s ≡ ok k
unfolding recorded_job
recorded-found owner hash w s k same at owns =
    let hashes : text_eq s.request_hash hash ≡ true =
      ap (λ x. text_eq x hash) same ∙ text_eq_refl hash in
    let owners : text_eq k.owner_subject (clean_label owner 120) ≡ true =
      ap (λ x. text_eq x (clean_label owner 120)) owns ∙ text_eq_refl (clean_label owner 120) in
    rw (hashes, recorded_job) (rw at (rw owners refl))

at_itself :
    (k : SubmissionKey) (s : Submission) (m : List (SubmissionKey × Submission))
    → submission_at k ((k, s) ∷ m) ≡ some s
unfolding submission_at
at_itself k s m = ground (arith, text_eq_refl k.owner, text_eq_refl k.key)

replayed-recorded :
    (owner key hash : Text) (w : World) (s : Submission) (k : Job)
    → submission_at (submission_key owner key) w.submissions ≡ some s
    → recorded_job owner hash w s ≡ ok k
    → replayed owner key hash w ≡ ok (some k)
unfolding replayed
replayed-recorded owner key hash w s k at e = rw (at, replayed) (rw e refl)

saved_submission :
    (owner key hash id : Text) (w v : World)
    → save_submission owner key hash id w ≡ ok v
    → (submission_at (submission_key owner key) v.submissions
        ≡ some (record { job_id = id; request_hash = hash }))
      × (v.jobs ≡ w.jobs)
unfolding save_submission submission_at
saved_submission owner key hash id w v h =
    let (_, h) =
      >>-eq-ok (is_some (submission_at (submission_key owner key) w.submissions)) _ _ h in
    let same = sym (ok-injective h) in
    (
      ap (λ x. submission_at (submission_key owner key) x.submissions) same
          ∙ at_itself (submission_key owner key) _ w.submissions,
      ap (λ x. x.jobs) same,
    )

new-replayed :
    (l : Limits) (now : ℕ) (key hash : Text) (j : Job) (w : World) (o : World × Job)
    → is_empty key ≡ false
    → clean_label j.owner_subject 120 ≡ j.owner_subject
    → admit_new l now key hash j w ≡ ok o
    → replayed j.owner_subject key hash o.0 ≡ ok (some o.1)
unfolding admit_new
new-replayed l now key hash j w o keyed clean h =
    let (missing, h) = >>-eq-ok (is_some (lookup j.id w.jobs)) _ _ h in
    let (_, _, h) =
      >>=-eq-ok
        (if positive l.max_queued || positive l.max_owner_queued
          then check_room l j.owner_subject w.queue
          else ok tt)
        _ h in
    let (windows, _, h) =
      >>=-eq-ok (lift_rate (consume l.hour w.windows j.owner_subject l.max_jobs_per_hour now)) _
        h in
    let x = put_job j (record w { windows = windows }) in
    let (v, put, h) = >>=-eq-ok (enqueue_job j x) _ h in
    let (u, stored, h) =
      >>=-eq-ok (if is_empty key then ok v else save_submission j.owner_subject key hash j.id v) _
        h in
    let stored =
      sym (ap (λ b. if b then ok v else save_submission j.owner_subject key hash j.id v) keyed)
      ∙ stored in
    let (recorded, same_jobs) = saved_submission j.owner_subject key hash j.id v u stored in
    let (jobs, _, _) = enqueue_job_lem j x v put in
    let told =
      step_event step_queued j (job_event now job_queued j (job_event now job_accepted j u)) in
    let tell =
      then_kept (job_event-Keeps now job_accepted j u)
        (then_kept (job_event-Keeps now job_queued j _) (step_event-Keeps step_queued j _)) in
    let at : lookup j.id told.jobs ≡ some j =
      ap (lookup j.id) (tell.jobs ∙ same_jobs ∙ jobs)
      ∙ lookup-save j.id j.id j w.jobs
      ∙ ap (λ b. if b then some j else lookup j.id w.jobs) (text_eq_refl j.id) in
    let recorded_told =
      ap (submission_at (submission_key j.owner_subject key)) (told_submissions now j u)
      ∙ recorded in
    subst (λ p. replayed j.owner_subject key hash p.0 ≡ ok (some p.1)) (ok-injective h)
      (replayed-recorded j.owner_subject key hash told
        (record { job_id = j.id; request_hash = hash }) j recorded_told
        (recorded-found j.owner_subject hash told _ j refl at (sym clean)))

unless-replayed :
    (l : Limits) (now : ℕ) (key hash : Text) (j : Job) (w : World) (old : Option Job)
    → (o : World × (Job × Bool)) → is_empty key ≡ false
    → clean_label j.owner_subject 120 ≡ j.owner_subject
    → replayed j.owner_subject key hash w ≡ ok old
    → admit_unless l now key hash j w old ≡ ok o
    → replayed j.owner_subject key hash o.0 ≡ ok (some o.1.0)
unless-replayed l now key hash j w (some k) o keyed clean before h =
    subst (λ p. replayed j.owner_subject key hash p.0 ≡ ok (some p.1.0)) (ok-injective h) before
unless-replayed l now key hash j w none o keyed clean before h =
    let (r, new, h) = >>=-eq-ok (admit_new l now key hash j w) _ h in
    subst (λ p. replayed j.owner_subject key hash p.0 ≡ ok (some p.1.0)) (ok-injective h)
      (new-replayed l now key hash j w r keyed clean new)

admit_prepared-replayed :
    (l : Limits) (now : ℕ) (key hash : Text) (j : Job) (w : World) (o : World × (Job × Bool))
    → is_empty key ≡ false
    → clean_label j.owner_subject 120 ≡ j.owner_subject
    → admit_prepared l now key hash j w ≡ ok o
    → replayed j.owner_subject key hash o.0 ≡ ok (some o.1.0)
unfolding admit_prepared
admit_prepared-replayed l now key hash j w o keyed clean h =
    let (_, _, h) = >>=-eq-ok (check_limits l j) _ h in
    let (old, before, h) = >>=-eq-ok (earlier key hash j w) _ h in
    unless-replayed l now key hash j w old o keyed clean
      (sym (ap (λ b. if b then ok none else replayed j.owner_subject key hash w) keyed) ∙ before) h

-- A submission with an idempotency key is recorded with its job: when the same owner submits again
-- under this key with the same request hash, and its limits allow the new job, the answer is the job
-- of the first submission, marked as a replay, and the store does not change. The owner's name is
-- one that cleanLabel keeps.
pub admit_prepared-again :
    (l m : Limits) (now later : ℕ) (key hash : Text) (j k : Job) (w : World)
    (o : World × (Job × Bool))
    → is_empty key ≡ false
    → clean_label j.owner_subject 120 ≡ j.owner_subject
    → k.owner_subject ≡ j.owner_subject
    → check_limits m k ≡ ok tt
    → admit_prepared l now key hash j w ≡ ok o
    → admit_prepared m later key hash k o.0 ≡ ok (o.0, (o.1.0, true))
unfolding admit_prepared
admit_prepared-again l m now later key hash j k w o keyed clean same_owner allowed h =
    let again : replayed k.owner_subject key hash o.0 ≡ ok (some o.1.0) =
      ap (λ x. replayed x key hash o.0) same_owner
      ∙ admit_prepared-replayed l now key hash j w o keyed clean h in
    rw (allowed, admit_prepared) (rw keyed (rw again refl))
