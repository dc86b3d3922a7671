-- ===== src/Jobs/Recover/Walks.antt =====
-- internal/cluster/store.go: what a walk over the jobs leaves of each job and of its queue entry.
use context_bridge.Prelude.{
  ℕ, false, List, [], ◌∷◌, none, if◌then◌else◌, ok, >>=-eq-ok, ok-injective, ◌≡◌, refl, sym, ap,
  ◌∙◌, inl, inr, subst, ◌⊎◌,
}
use context_bridge.Text.{Text}
use context_bridge.Pipeline.Graph.Edges.{lookup}
use context_bridge.Jobs.Records.{Job}
use context_bridge.Jobs.Queue.{is_queued}
use context_bridge.Jobs.Queue.Counted.{Counted}
use context_bridge.Jobs.Tables.{World, Digests}
use context_bridge.Jobs.Tables.Saved.{kept}
use context_bridge.Jobs.Tables.Keys.{Keyed, save-Keyed}
use context_bridge.Jobs.Recover.Parts.{settle_ended-Keeps, store_ended-Keeps}
use context_bridge.Jobs.Recover.{
  Visit, untouched, settled, ending, Change, take_out, walk, store_ended, store_all, recovered,
}
use context_bridge.Jobs.Recover.Walked.{
  ended_by, or_else, end_of, ends, KeepsIds, Walked, skipped, taken, nothing_walked,
}

pub Visit-cases : (v : Visit) → (ended_by v ≡ none) ⊎ ((c : Change) × (v ≡ ending c))
Visit-cases untouched = inl refl
Visit-cases settled = inl refl
Visit-cases (ending c) = inr (c, refl)

walked_first :
    (digests : Digests) (now : ℕ) (visit : Job → Visit)
    → KeepsIds visit
    → (k : Text) (j : Job) (js : List (Text × Job)) (w v : World) (cs : List Change)
    → lookup k js ≡ none
    → j.id ≡ k
    → (now_visited : Visit) → visit j ≡ now_visited
    → walk digests now visit ((k, j) ∷ js) w ≡ ok (v, cs)
    → ((u v : World) (cs : List Change)
        → walk digests now visit js u ≡ ok (v, cs)
        → Walked visit js u v cs)
    → Walked visit ((k, j) ∷ js) w v cs
unfolding walk KeepsIds
walked_first digests now visit keeps k j js w v cs fresh named untouched e h rest =
    let h = rw (e, walk) at h in
    skipped visit k j js w w v cs (ap ended_by e) fresh (kept w) (rest w v cs h)
walked_first digests now visit keeps k j js w v cs fresh named settled e h rest =
    let h = rw (e, walk) at h in
    skipped visit k j js w _ v cs (ap ended_by e) fresh (settle_ended-Keeps digests now j w)
      (rest _ v cs h)
walked_first digests now visit keeps k j js w v cs fresh named (ending c) e h rest =
    let h = rw (e, walk) at h in
    let (w', out, h) = >>=-eq-ok (take_out c w) _ h in
    let (r, walked, h) = >>=-eq-ok (walk digests now visit js w') _ h in
    let same_id = keeps j c e ∙ named in
    let all = taken visit k j js c w w' r.0 r.1 e same_id fresh out (rest w' r.0 r.1 walked) in
    subst (λ p. Walked visit ((k, j) ∷ js) w p.0 p.1) (ok-injective h) all

walk-Walked :
    (digests : Digests) (now : ℕ) (visit : Job → Visit)
    → KeepsIds visit
    → (js : List (Text × Job)) (w v : World) (cs : List Change) → Keyed js
    → walk digests now visit js w ≡ ok (v, cs)
    → Walked visit js w v cs
unfolding walk KeepsIds
walk-Walked digests now visit keeps [] w v cs keyed h =
    let same = ok-injective h in
    subst (λ r. Walked visit [] w r.0 r.1) same (nothing_walked visit w)
walk-Walked digests now visit keeps ((k, j) ∷ js) w v cs (fresh, named, keyed) h =
    walked_first digests now visit keeps k j js w v cs fresh named (visit j) refl h
      (λ u v cs h. walk-Walked digests now visit keeps js u v cs keyed h)

store_all-Keyed :
    (digests : Digests) (cs : List Change) (u : World)
    → Keyed u.jobs
    → Keyed (store_all digests cs u).jobs
unfolding store_all
store_all-Keyed digests [] u keyed = keyed
store_all-Keyed digests (c ∷ cs) u keyed =
    store_all-Keyed digests cs (store_ended digests c.how c.job u) (
      subst Keyed (sym (store_ended-Keeps digests c.how c.job u).jobs)
        (save-Keyed c.job.id c.job u.jobs keyed refl))

-- What a recovery makes of the job and the queue entry at each ID.
pub record Recovered (visit : Job → Visit) (w w' : World) : Type 0 where
  pub job :
      (i : Text) → lookup i w'.jobs ≡ or_else (end_of visit (lookup i w.jobs)) (lookup i w.jobs)
  pub queue :
      (i : Text)
      → is_queued i w'.queue
        ≡ (if ends (end_of visit (lookup i w.jobs)) then false else is_queued i w.queue)
  pub keyed : Keyed w'.jobs
  pub counted : Counted w.queue → Counted w'.queue

pub recovered-Recovered :
    (digests : Digests) (now : ℕ) (visit : Job → Visit) (w w' : World) (cs : List Change)
    → KeepsIds visit
    → Keyed w.jobs
    → recovered digests now visit w ≡ ok (w', cs)
    → Recovered visit w w'
unfolding recovered
recovered-Recovered digests now visit w w' cs keeps keyed h =
    let (r, walked, h) = >>=-eq-ok (walk digests now visit w.jobs w) _ h in
    let all = walk-Walked digests now visit keeps w.jobs w r.0 r.1 keyed walked in
    let same = ap (λ p. p.0) (ok-injective h) in
    record {
      job = λ i.
          ap (λ x. lookup i x.jobs) (sym same)
          ∙ all.stored i digests r.0
          ∙ ap (λ js. or_else (end_of visit (lookup i w.jobs)) (lookup i js)) all.same_jobs;
      queue = λ i.
          ap (λ x. is_queued i x.queue) (sym same)
          ∙ ap (is_queued i) (all.unqueued digests r.0)
          ∙ all.queue i;
      counted = λ c.
          subst (λ x. Counted x.queue) same
            (subst Counted (sym (all.unqueued digests r.0)) (all.counted c));
      keyed =
          subst (λ x. Keyed x.jobs) same
            (store_all-Keyed digests r.1 r.0 (subst Keyed (sym all.same_jobs) keyed));
    }
