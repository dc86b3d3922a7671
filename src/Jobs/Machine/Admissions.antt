-- ===== src/Jobs/Machine/Admissions.antt =====
-- internal/cluster/store.go: the admission of a job as a transition.
use context_bridge.Prelude.{
  ℕ, ◌<◌, ◌≤◌, Bool, true, false, ◌||◌, Option, none, some, if◌then◌else◌, ok, >>=-eq-ok, >>-eq-ok,
  ok-injective, ◌≡◌, refl, sym, ap, ◌∙◌, arith, Bool-cases, inl, inr, subst,
}
use context_bridge.Prelude.Int.{ℤ, pos, negsuc, pos_part}
use context_bridge.Text.{Text, text_eq, eq_of_text_eq}
use context_bridge.Pipeline.Graph.Template.{is_empty}
use context_bridge.Pipeline.Graph.Edges.{lookup, is_some}
use context_bridge.Store.RateLimit.{consume}
use context_bridge.Jobs.Records.{Job, queued, status_eq, positive}
use context_bridge.Jobs.Queue.{is_queued}
use context_bridge.Jobs.Queue.Counted.{Counted}
use context_bridge.Jobs.Tables.{
  World, put_job, save, enqueue_job, job_accepted, job_queued, step_queued,
}
use context_bridge.Jobs.Tables.Saved.{
  Keeps, Keeps-Counted, kept, then_kept, lookup-save, job_event-Keeps, step_event-Keeps,
  enqueue_job_lem,
}
use context_bridge.Jobs.Prepare.{Request, prepare, check_request, normal_attempts}
use context_bridge.Jobs.Admit.{
  Limits, admit, admit_prepared, admit_unless, admit_new, check_room, lift_rate, earlier,
  save_submission, check_limits, submission_at, submission_key,
}
use context_bridge.Jobs.Tables.Keys.{Keyed}
use context_bridge.Jobs.Machine.{Fresh, waits, Agrees, Advanced, stays, appears, Advances}
use context_bridge.Jobs.Tables.Keys.{save-Keyed}

normal_attempts-within :
    (n : ℤ) → (0 < pos_part (normal_attempts n)) × (pos_part (normal_attempts n) ≤ 10)
normal_attempts-within (pos n) = ground arith
normal_attempts-within (negsuc n) = ground arith

save_submission-Keeps :
    (owner key hash id : Text) (w v : World)
    → save_submission owner key hash id w ≡ ok v
    → Keeps w v
unfolding save_submission
save_submission-Keeps owner key hash id w v h =
    let (_, h) =
      >>-eq-ok (is_some (submission_at (submission_key owner key) w.submissions)) _ _ h in
    subst (Keeps w) (ok-injective h) (record { jobs = refl; queue = refl })

saved-Keeps :
    (b : Bool) (owner key hash id : Text) (w v : World)
    → (if b then ok w else save_submission owner key hash id w) ≡ ok v
    → Keeps w v
saved-Keeps true owner key hash id w v h = subst (Keeps w) (ok-injective h) (kept w)
saved-Keeps false owner key hash id w v h = save_submission-Keeps owner key hash id w v h

-- A job that was not there is stored and enters the queue.
added :
    (w w' : World) (j : Job)
    → Agrees w
    → Fresh j
    → lookup j.id w.jobs ≡ none
    → w'.jobs ≡ save j.id j w.jobs
    → ((i : Text) → is_queued i w'.queue ≡ (if text_eq i j.id then true else is_queued i w.queue))
    → (Counted w.queue → Counted w'.queue)
    → Advances w w'
unfolding status_eq
added w w' j a fresh missing jobs queue counted =
    let at : (i : Text) → lookup i w'.jobs ≡ (if text_eq i j.id then some j else lookup i w.jobs) =
      λ i. ap (lookup i) jobs ∙ lookup-save i j.id j w.jobs in
    let waits_j : status_eq j.status queued ≡ true = ap (λ s. status_eq s queued) fresh.waiting in
    record {
      agrees = record {
        keyed = subst Keyed (sym jobs) (save-Keyed j.id j w.jobs a.keyed refl);
        queue = λ i. elim (Bool-cases (text_eq i j.id)) [
          | inl same ↦
              queue i
              ∙ ap (λ b. if b then true else is_queued i w.queue) same
              ∙ sym waits_j
              ∙ sym (ap waits (at i ∙ ap (λ b. if b then some j else lookup i w.jobs) same))
          | inr other ↦
              queue i
              ∙ ap (λ b. if b then true else is_queued i w.queue) other
              ∙ a.queue i
              ∙ sym (ap waits (at i ∙ ap (λ b. if b then some j else lookup i w.jobs) other))
        ];
        counted = counted a.counted;
      };
      each = λ i. elim (Bool-cases (text_eq i j.id)) [
        | inl same ↦
            subst (λ o. Advanced o (lookup i w'.jobs))
              (sym (ap (λ x. lookup x w.jobs) (eq_of_text_eq i j.id same) ∙ missing))
              (subst (Advanced none)
                (sym (at i ∙ ap (λ b. if b then some j else lookup i w.jobs) same))
                (appears j fresh))
        | inr other ↦
            subst (Advanced (lookup i w.jobs))
              (sym (at i ∙ ap (λ b. if b then some j else lookup i w.jobs) other))
              (stays (lookup i w.jobs))
      ];
    }

is_some-false : {A : Type 0} (o : Option A) → is_some o ≡ false → o ≡ none
is_some-false none h = refl
is_some-false (some a) h = cc

pub admit_new-Advances :
    (l : Limits) (now : ℕ) (key hash : Text) (j : Job) (w : World) (o : World × Job)
    → Agrees w
    → Fresh j
    → admit_new l now key hash j w ≡ ok o
    → Advances w o.0
unfolding admit_new
admit_new-Advances l now key hash j w o a fresh h =
    let (missing, h) = >>-eq-ok (is_some (lookup j.id w.jobs)) _ _ h in
    let (_, _, h) =
      >>=-eq-ok
        (if positive l.max_queued || positive l.max_owner_queued
          then check_room l j.owner_subject w.queue
          else ok tt)
        _ h in
    let (windows, _, h) =
      >>=-eq-ok (lift_rate (consume l.hour w.windows j.owner_subject l.max_jobs_per_hour now)) _
        h in
    let x = put_job j (record w { windows = windows }) in
    let (v, put, h) = >>=-eq-ok (enqueue_job j x) _ h in
    let (u, stored, h) =
      >>=-eq-ok (if is_empty key then ok v else save_submission j.owner_subject key hash j.id v) _
        h in
    let (jobs, queue, counted) = enqueue_job_lem j x v put in
    let tell = then_kept (saved-Keeps (is_empty key) j.owner_subject key hash j.id v u stored) (
      then_kept (job_event-Keeps now job_accepted j u)
        (then_kept (job_event-Keeps now job_queued j _) (step_event-Keeps step_queued j _))) in
    subst (λ p. Advances w p.0) (ok-injective h)
      (added w _ j a fresh (is_some-false (lookup j.id w.jobs) missing) (tell.jobs ∙ jobs)
        (λ i. ap (is_queued i) tell.queue ∙ queue i) (λ c. Keeps-Counted v _ tell (counted c)))

unchanged : (w : World) → Agrees w → Advances w w
unchanged w a = record { agrees = a; each = λ i. stays (lookup i w.jobs) }

admit_unless-Advances :
    (l : Limits) (now : ℕ) (key hash : Text) (j : Job) (w : World) (old : Option Job)
    → (o : World × (Job × Bool)) → Agrees w
    → Fresh j
    → admit_unless l now key hash j w old ≡ ok o
    → Advances w o.0
admit_unless-Advances l now key hash j w (some k) o a fresh h =
    subst (λ p. Advances w p.0) (ok-injective h) (unchanged w a)
admit_unless-Advances l now key hash j w none o a fresh h =
    let (r, new, h) = >>=-eq-ok (admit_new l now key hash j w) _ h in
    subst (λ p. Advances w p.0) (ok-injective h)
      (admit_new-Advances l now key hash j w r a fresh new)

prepare-Fresh :
    (fresh : Text) (now : ℕ) (r : Request) (j : Job) → prepare fresh now r ≡ ok j → Fresh j
unfolding prepare
prepare-Fresh fresh now r j h =
    let (_, _, h) = >>=-eq-ok (check_request r) _ h in
    subst Fresh (ok-injective h) (record {
      waiting = refl;
      untried = refl;
      allowed = (normal_attempts-within r.max_attempts).0;
      small = (normal_attempts-within r.max_attempts).1;
    })

pub admit-Advances :
    (l : Limits) (fresh : Text) (now : ℕ) (r : Request) (w : World) (o : World × (Job × Bool))
    → Agrees w
    → admit l fresh now r w ≡ ok o
    → Advances w o.0
unfolding admit admit_prepared
admit-Advances l fresh now r w o a h =
    let (j, prepared, h) = >>=-eq-ok (prepare fresh now r) _ h in
    let (_, _, h) = >>=-eq-ok (check_limits l j) _ h in
    let (old, _, h) = >>=-eq-ok (earlier r.idempotency_key r.request_hash j w) _ h in
    admit_unless-Advances l now r.idempotency_key r.request_hash j w old o a
      (prepare-Fresh fresh now r j prepared) h
