-- ===== src/Jobs/Machine/Saves.antt =====
-- internal/cluster/store.go: the update of one job keeps the store well formed.
use context_bridge.Prelude.{
  Bool, false, Option, none, some, if◌then◌else◌, ◌≡◌, refl, sym, ap, ◌∙◌, Bool-cases, inl, inr,
  subst, ok, ok-injective,
}
use context_bridge.Text.{Text, text_eq, eq_of_text_eq, text_eq_refl}
use context_bridge.Pipeline.Graph.Edges.{lookup}
use context_bridge.Jobs.Records.{Job, queued, status_eq}
use context_bridge.Jobs.Queue.{is_queued}
use context_bridge.Jobs.Queue.Counted.{Counted}
use context_bridge.Jobs.Tables.{JobError, World, save, found, put_job}
use context_bridge.Jobs.Tables.Saved.{Keeps, Keeps-Counted, lookup-save}
use context_bridge.Jobs.Tables.Keys.{Keyed, Keyed-named, save-Keyed}
use context_bridge.Jobs.Machine.{Step, waits, Agrees, Update, Advanced, stays, steps, Advances}

-- The job at an ID after an update.
pub lookup-Update :
    (id : Text) (w w' : World) (u : Update id w w') (i : Text)
    → lookup i w'.jobs ≡ (if text_eq i id then some u.after else lookup i w.jobs)
lookup-Update id w w' u i =
    ap (lookup i) u.jobs
    ∙ lookup-save i u.after.id u.after w.jobs
    ∙ ap (λ k. if text_eq i k then some u.after else lookup i w.jobs) (u.step.id ∙ u.at_id)

pub Update-Agrees : (id : Text) (w w' : World) → Agrees w → Update id w w' → Agrees w'
Update-Agrees id w w' a u = record {
  keyed = subst Keyed (sym u.jobs) (save-Keyed u.after.id u.after w.jobs a.keyed refl);
  queue = λ i. elim (Bool-cases (text_eq i id)) [
    | inl same ↦
        ap (λ x. is_queued x w'.queue) (eq_of_text_eq i id same)
        ∙ u.entry
        ∙ sym (
            ap waits (
              lookup-Update id w w' u i
              ∙ ap (λ b. if b then some u.after else lookup i w.jobs) same))
    | inr other ↦
        u.others i other
        ∙ a.queue i
        ∙ sym (
            ap waits (
              lookup-Update id w w' u i
              ∙ ap (λ b. if b then some u.after else lookup i w.jobs) other))
  ];
  counted = u.counted a.counted;
}

pub found-eq-ok : {A : Type 0} (e : JobError) (o : Option A) {a : A} → found e o ≡ ok a → o ≡ some a
found-eq-ok e none h = cc
found-eq-ok e (some x) h = ap some (ok-injective h)

-- A job that is not queued is stored again, and still is not queued.
pub kept-Update :
    (id : Text) (w w' : World) (j k : Job)
    → Agrees w
    → lookup id w.jobs ≡ some j
    → status_eq j.status queued ≡ false
    → status_eq k.status queued ≡ false
    → Step j k
    → Keeps (put_job k w) w'
    → Update id w w'
kept-Update id w w' j k a at j_out k_out step keep = record {
  before = j;
  after = k;
  found = at;
  at_id = Keyed-named id j w.jobs a.keyed at;
  jobs = keep.jobs;
  others = λ i other. ap (is_queued i) keep.queue;
  entry = ap (is_queued id) keep.queue ∙ a.queue id ∙ ap waits at ∙ j_out ∙ sym k_out;
  counted = Keeps-Counted (put_job k w) w' keep;
  step = step;
}

-- A job is stored, and enters or leaves the queue.
pub queue-Update :
    (id : Text) (w w' : World) (j k : Job) (b : Bool)
    → Agrees w
    → lookup id w.jobs ≡ some j
    → Step j k
    → status_eq k.status queued ≡ b
    → w'.jobs ≡ save k.id k w.jobs
    → ((i : Text) → is_queued i w'.queue ≡ (if text_eq i id then b else is_queued i w.queue))
    → (Counted w.queue → Counted w'.queue)
    → Update id w w'
queue-Update id w w' j k b a at step k_queued jobs queue counted = record {
  before = j;
  after = k;
  found = at;
  at_id = Keyed-named id j w.jobs a.keyed at;
  jobs = jobs;
  others = λ i other. queue i ∙ ap (λ c. if c then b else is_queued i w.queue) other;
  entry =
      queue id ∙ ap (λ c. if c then b else is_queued id w.queue) (text_eq_refl id) ∙ sym k_queued;
  counted = counted;
  step = step;
}

pub Update-Advances : (id : Text) (w w' : World) → Agrees w → Update id w w' → Advances w w'
Update-Advances id w w' a u = record {
  agrees = Update-Agrees id w w' a u;
  each = λ i. elim (Bool-cases (text_eq i id)) [
    | inl same ↦
        subst (λ o. Advanced o (lookup i w'.jobs))
          (sym (ap (λ x. lookup x w.jobs) (eq_of_text_eq i id same) ∙ u.found))
          (subst (Advanced (some u.before))
            (sym (
              lookup-Update id w w' u i
              ∙ ap (λ b. if b then some u.after else lookup i w.jobs) same))
            (steps u.before u.after u.step))
    | inr other ↦
        subst (Advanced (lookup i w.jobs))
          (sym (
            lookup-Update id w w' u i
            ∙ ap (λ b. if b then some u.after else lookup i w.jobs) other))
          (stays (lookup i w.jobs))
  ];
}
