-- ===== src/Jobs/Recover/Walked.antt =====
-- internal/cluster/store.go: what a visit to one job adds to a walk over the others.
use context_bridge.Prelude.{
  Bool, true, false, List, [], ◌∷◌, Option, none, some, if◌then◌else◌, ok, ◌≡◌, refl, sym, ap, ◌∙◌,
  Bool-cases, inl, inr,
}
use context_bridge.Text.{Text, text_eq, eq_of_text_eq}
use context_bridge.Pipeline.Graph.Edges.{lookup}
use context_bridge.Jobs.Records.{Job}
use context_bridge.Jobs.Queue.{is_queued}
use context_bridge.Jobs.Queue.Counted.{Counted}
use context_bridge.Jobs.Tables.{World, Digests}
use context_bridge.Jobs.Tables.Saved.{Keeps, Keeps-Counted, lookup-save}
use context_bridge.Jobs.Recover.Parts.{store_ended-Keeps, take_out_lem}
use context_bridge.Jobs.Recover.{
  Visit, untouched, settled, ending, Change, take_out, store_ended, store_all,
}

-- The job with which a visit ends, if it does.
abbrev pub ended_by : Visit → Option Job
ended_by untouched = none
ended_by settled = none
ended_by (ending c) = some c.job

abbrev pub or_else : Option Job → Option Job → Option Job
or_else none o = o
or_else (some j) o = some j

-- What becomes of a job that may be missing.
abbrev pub end_of : (Job → Visit) → Option Job → Option Job
end_of visit none = none
end_of visit (some j) = ended_by (visit j)

abbrev pub ends : Option Job → Bool
ends none = false
ends (some j) = true

unfoldable pub KeepsIds : (Job → Visit) → Type 0
KeepsIds visit = (j : Job) (c : Change) → visit j ≡ ending c → c.job.id ≡ j.id

-- What the walk and the second loop make of the job at each ID.
pub record Walked (visit : Job → Visit) (js : List (Text × Job)) (w v : World) (cs : List Change)
    : Type 0 where
  pub same_jobs : v.jobs ≡ w.jobs
  pub queue :
      (i : Text)
      → is_queued i v.queue
        ≡ (if ends (end_of visit (lookup i js)) then false else is_queued i w.queue)
  pub counted : Counted w.queue → Counted v.queue
  pub stored :
      (i : Text) (digests : Digests) (u : World)
      → lookup i (store_all digests cs u).jobs
        ≡ or_else (end_of visit (lookup i js)) (lookup i u.jobs)
  pub unqueued : (digests : Digests) (u : World) → (store_all digests cs u).queue ≡ u.queue

-- The first job of the list, when its visit does not end it, and when it does.
passed :
    (visit : Job → Visit) (k : Text) (j : Job) (js : List (Text × Job))
    → ended_by (visit j) ≡ none
    → lookup k js ≡ none
    → (i : Text) → end_of visit (lookup i ((k, j) ∷ js)) ≡ end_of visit (lookup i js)
unfolding lookup
passed visit k j js stays fresh i = elim (Bool-cases (text_eq i k)) [
  | inr other ↦ rw other refl
  | inl same ↦
      let at_k : i ≡ k = eq_of_text_eq i k same in
      rw same (stays ∙ sym (ap (λ x. end_of visit (lookup x js)) at_k ∙ ap (end_of visit) fresh))
]

ended :
    (visit : Job → Visit) (k : Text) (j : Job) (js : List (Text × Job)) (c : Change)
    → visit j ≡ ending c
    → (i : Text)
    → end_of visit (lookup i ((k, j) ∷ js))
      ≡ (if text_eq i k then some c.job else end_of visit (lookup i js))
unfolding lookup
ended visit k j js c e i = elim (Bool-cases (text_eq i k)) [
  | inr other ↦ rw other refl
  | inl same ↦ rw same (ap ended_by e)
]

pub skipped :
    (visit : Job → Visit) (k : Text) (j : Job) (js : List (Text × Job)) (w w' v : World)
    (cs : List Change)
    → ended_by (visit j) ≡ none
    → lookup k js ≡ none
    → Keeps w w'
    → Walked visit js w' v cs
    → Walked visit ((k, j) ∷ js) w v cs
skipped visit k j js w w' v cs stays fresh keep rest = record {
  same_jobs = rest.same_jobs ∙ keep.jobs;
  queue = λ i.
      rest.queue i
      ∙ ap (λ q. if ends (end_of visit (lookup i js)) then false else is_queued i q) keep.queue
      ∙ ap (λ o. if ends o then false else is_queued i w.queue)
          (sym (passed visit k j js stays fresh i));
  counted = λ c. rest.counted (Keeps-Counted w w' keep c);
  stored = λ i digests u.
      rest.stored i digests u
      ∙ ap (λ o. or_else o (lookup i u.jobs)) (sym (passed visit k j js stays fresh i));
  unqueued = rest.unqueued;
}

both_out :
    (b q : Bool) (o full : Option Job) (x : Job)
    → full ≡ (if b then some x else o)
    → (if ends o then false else (if b then false else q)) ≡ (if ends full then false else q)
both_out true q none full x e = sym (ap (λ f. if ends f then false else q) e)
both_out true q (some y) full x e = sym (ap (λ f. if ends f then false else q) e)
both_out false q o full x e = sym (ap (λ f. if ends f then false else q) e)

both_stored :
    (b : Bool) (o full l : Option Job) (x : Job)
    → full ≡ (if b then some x else o)
    → (b ≡ true → o ≡ none)
    → or_else o (if b then some x else l) ≡ or_else full l
both_stored true o full l x e first =
    ap (λ p. or_else p (some x)) (first refl) ∙ sym (ap (λ f. or_else f l) e)
both_stored false o full l x e first = sym (ap (λ f. or_else f l) e)

pub taken :
    (visit : Job → Visit) (k : Text) (j : Job) (js : List (Text × Job)) (c : Change)
    → (w w' v : World) (cs : List Change) → visit j ≡ ending c
    → c.job.id ≡ k
    → lookup k js ≡ none
    → take_out c w ≡ ok w'
    → Walked visit js w' v cs
    → Walked visit ((k, j) ∷ js) w v (c ∷ cs)
unfolding store_all
taken visit k j js c w w' v cs e at_k fresh out rest =
    let (jobs, queue, counted) = take_out_lem c w w' out in
    let at : (i : Text) → text_eq i c.job.id ≡ text_eq i k = λ i. ap (text_eq i) at_k in
    let first : (i : Text) → text_eq i k ≡ true → end_of visit (lookup i js) ≡ none = λ i same.
      ap (λ x. end_of visit (lookup x js)) (eq_of_text_eq i k same) ∙ ap (end_of visit) fresh in
    record {
      same_jobs = rest.same_jobs ∙ jobs;
      queue = λ i.
          rest.queue i
          ∙ ap (λ b. if ends (end_of visit (lookup i js)) then false else b)
              (queue i ∙ ap (λ b. if b then false else is_queued i w.queue) (at i))
          ∙ both_out (text_eq i k) (is_queued i w.queue) (end_of visit (lookup i js)) _ c.job
              (ended visit k j js c e i);
      counted = λ x. rest.counted (counted x);
      stored = λ i digests u.
          rest.stored i digests (store_ended digests c.how c.job u)
          ∙ ap (or_else (end_of visit (lookup i js))) (
              ap (lookup i) (store_ended-Keeps digests c.how c.job u).jobs
              ∙ lookup-save i c.job.id c.job u.jobs
              ∙ ap (λ b. if b then some c.job else lookup i u.jobs) (at i))
          ∙ both_stored (text_eq i k) (end_of visit (lookup i js)) _ (lookup i u.jobs) c.job
              (ended visit k j js c e i) (first i);
      unqueued = λ digests u.
          rest.unqueued digests (store_ended digests c.how c.job u)
          ∙ (store_ended-Keeps digests c.how c.job u).queue;
    }

pub nothing_walked : (visit : Job → Visit) (w : World) → Walked visit [] w w []
unfolding lookup store_all
nothing_walked visit w = record {
  same_jobs = refl;
  queue = λ i. refl;
  counted = λ c. c;
  stored = λ i digests u. refl;
  unqueued = λ digests u. refl;
}
