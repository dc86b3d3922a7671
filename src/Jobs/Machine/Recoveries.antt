-- ===== src/Jobs/Machine/Recoveries.antt =====
-- internal/cluster/store.go: the recovery of jobs from lost workers as transitions of many jobs.
use context_bridge.Prelude.{
  ℕ, Bool, true, false, not, List, Option, none, some, if◌then◌else◌, ok, ◌≡◌, refl, sym, ap, ◌∙◌,
  arith, inl, inr, subst, map,
}
use context_bridge.Prelude.Int.{ℤ}
use context_bridge.Text.{Text, text_eq}
use context_bridge.Pipeline.Graph.Edges.{lookup}
use context_bridge.Jobs.Records.{Job, queued, failed, cancelled, status_eq, terminal, at_worker}
use context_bridge.Jobs.Tables.{World, Digests}
use context_bridge.Jobs.Recover.{
  Visit, untouched, settled, ending, Change, lost_job, ambiguous_job, restarted_job, visit_of_node,
  settles, visit_at_restart, recovered, requeue_node, recover_restart, disconnected,
}
use context_bridge.Jobs.Recover.Stale.{
  visit_stale, stale_execution, stale_bound, recover_stale, effective, default_wait,
  default_execution, expired_job,
}
use context_bridge.Jobs.Recover.Walked
use context_bridge.Jobs.Recover.Walked.{KeepsIds, ended_by, or_else, end_of}
use context_bridge.Jobs.Recover.Walks.{Visit-cases, recovered-Recovered}
use context_bridge.Jobs.Machine.{
  ends, expires, Step, waits, Agrees, Advanced, stays, steps, Advances,
}
use context_bridge.Jobs.Machine.Reports.{status_of_eq}

-- What a visit may do to a job: a step to a status that is final.
abbrev pub Allowed : Job → Visit → Type 0
Allowed j untouched = Unit
Allowed j settled = Unit
Allowed j (ending c) = Step j c.job × (status_eq c.job.status queued ≡ false)

abbrev pub Steps : (Job → Visit) → Type 0
Steps visit = (j : Job) → Allowed j (visit j)

allowed_at :
    (visit : Job → Visit) (j : Job) (c : Change)
    → Steps visit
    → visit j ≡ ending c
    → Step j c.job × (status_eq c.job.status queued ≡ false)
allowed_at visit j c s e = subst (Allowed j) e (s j)

advance :
    (visit : Job → Visit) (o : Option Job) → Steps visit → Advanced o (or_else (end_of visit o) o)
advance visit none s = stays none
advance visit (some j) s = elim (Visit-cases (visit j)) [
  | inl stay ↦ subst (λ e. Advanced (some j) (or_else e (some j))) (sym stay) (stays (some j))
  | inr (c, e) ↦
      subst (λ v. Advanced (some j) (or_else (ended_by v) (some j))) (sym e)
        (steps j c.job (allowed_at visit j c s e).0)
]

leaves :
    (visit : Job → Visit) (o : Option Job)
    → Steps visit
    → waits (or_else (end_of visit o) o) ≡ (if Walked.ends (end_of visit o) then false else waits o)
leaves visit none s = refl
leaves visit (some j) s = elim (Visit-cases (visit j)) [
  | inl stay ↦
      subst (λ e. waits (or_else e (some j)) ≡ (if Walked.ends e then false else waits (some j)))
        (sym stay) refl
  | inr (c, e) ↦
      subst
        (λ v.
          waits (or_else (ended_by v) (some j))
          ≡ (if Walked.ends (ended_by v) then false else waits (some j)))
        (sym e) (allowed_at visit j c s e).1
]

pub recovered-Advances :
    (digests : Digests) (now : ℕ) (visit : Job → Visit) (w w' : World) (cs : List Change)
    → Steps visit
    → Agrees w
    → recovered digests now visit w ≡ ok (w', cs)
    → Advances w w'
unfolding KeepsIds
recovered-Advances digests now visit w w' cs s a h =
    let r =
      recovered-Recovered digests now visit w w' cs (λ j c e. (allowed_at visit j c s e).0.id)
        a.keyed h in
    record {
      agrees = record {
        keyed = r.keyed;
        queue = λ i.
            r.queue i
            ∙ ap (λ b. if Walked.ends (end_of visit (lookup i w.jobs)) then false else b)
                (a.queue i)
            ∙ sym (ap waits (r.job i) ∙ leaves visit (lookup i w.jobs) s);
        counted = r.counted a.counted;
      };
      each = λ i.
          subst (Advanced (lookup i w.jobs)) (sym (r.job i)) (advance visit (lookup i w.jobs) s);
    }

-- The end of a job that may be executing, and of one that waits.
lost-Allowed :
    (j k : Job)
    → at_worker j.status ≡ true
    → k.status ≡ failed
    → k.id ≡ j.id
    → k.owner_subject ≡ j.owner_subject
    → k.tenant_id ≡ j.tenant_id
    → k.max_attempts ≡ j.max_attempts
    → k.attempt ≡ j.attempt
    → Step j k × (status_eq k.status queued ≡ false)
unfolding terminal status_eq
lost-Allowed j k busy now_failed id owner tenant maximum attempt = (
  record {
    id = id;
    owner = owner;
    tenant = tenant;
    maximum = maximum;
    moves = ends busy (ap terminal now_failed) attempt;
  },
  ap (λ s. status_eq s queued) now_failed,
)

unless_idle :
    (busy : Bool) (j : Job) (c : Change)
    → (busy ≡ true → Allowed j (ending c))
    → Allowed j (if not busy then untouched else ending c)
unless_idle true j c h = h refl
unless_idle false j c h = tt

if_Allowed :
    (b : Bool) (j : Job) (v u : Visit)
    → (b ≡ true → Allowed j v)
    → Allowed j u
    → Allowed j (if b then v else u)
if_Allowed true j v u hv hu = hv refl
if_Allowed false j v u hv hu = hu

pub visit_of_node-Steps :
    (now : ℕ) (node_id reason : Text) → Steps (visit_of_node now node_id reason)
unfolding visit_of_node
visit_of_node-Steps now node_id reason j =
    let last =
      if not (at_worker j.status)
      then untouched
      else ending (lost_job (ambiguous_job now reason j)) in
    if_Allowed (not (text_eq j.assigned_node node_id)) j untouched
      (if settles j then settled else last) (λ e. tt)
      (if_Allowed (settles j) j settled last (λ e. tt)
        (unless_idle (at_worker j.status) j (lost_job (ambiguous_job now reason j))
          (λ busy. lost-Allowed j _ busy refl refl refl refl refl refl)))

pub visit_at_restart-Steps : (now : ℕ) (reason : Text) → Steps (visit_at_restart now reason)
unfolding visit_at_restart
visit_at_restart-Steps now reason j =
    if_Allowed (status_eq j.status cancelled) j settled _ (λ e. tt)
      (unless_idle (at_worker j.status) j (lost_job (restarted_job now reason j))
        (λ busy. lost-Allowed j _ busy refl refl refl refl refl refl))

expired-Allowed :
    (now : ℕ) (j : Job)
    → status_eq j.status queued ≡ true
    → Step j (expired_job now j) × (status_eq failed queued ≡ false)
unfolding status_eq
expired-Allowed now j waiting = (
  record {
    id = refl;
    owner = refl;
    tenant = refl;
    maximum = refl;
    moves = expires (status_of_eq j.status queued waiting) refl refl;
  },
  refl,
)

pub visit_stale-Steps : (now wait execution : ℕ) → Steps (visit_stale now wait execution)
unfolding visit_stale
visit_stale-Steps now wait execution j =
    if_Allowed (stale_execution now execution j) j _ _
      (λ late. lost-Allowed j _ (ground (arith, late)) refl refl refl refl refl refl)
      (if_Allowed (stale_bound now wait j) j _ untouched
        (λ late. expired-Allowed now j (ground (arith, late))) tt)

pub requeue_node-Advances :
    (digests : Digests) (now : ℕ) (node_id reason : Text) (w w' : World) (cs : List Change)
    → Agrees w
    → requeue_node digests now node_id reason w ≡ ok (w', cs)
    → Advances w w'
unfolding requeue_node
requeue_node-Advances digests now node_id reason w w' cs a h =
    recovered-Advances digests now (visit_of_node now node_id reason) w w' cs
      (visit_of_node-Steps now node_id reason) a h

pub recover_restart-Advances :
    (digests : Digests) (now : ℕ) (reason : Text) (w w' : World) (cs : List Change)
    → Agrees w
    → recover_restart digests now reason w ≡ ok (w', cs)
    → Advances w w'
unfolding recover_restart
recover_restart-Advances digests now reason w w' cs a h =
    let x = record w { nodes = map disconnected w.nodes } in
    let r =
      recovered-Advances digests now (visit_at_restart now reason) x w' cs
        (visit_at_restart-Steps now reason)
        (record { keyed = a.keyed; queue = a.queue; counted = a.counted }) h in
    record { agrees = r.agrees; each = r.each }

pub recover_stale-Advances :
    (digests : Digests) (now : ℕ) (sealed_wait execution : ℤ) (w w' : World) (cs : List Change)
    → Agrees w
    → recover_stale digests now sealed_wait execution w ≡ ok (w', cs)
    → Advances w w'
unfolding recover_stale
recover_stale-Advances digests now sealed_wait execution w w' cs a h =
    let wait = effective sealed_wait default_wait in
    let limit = effective execution default_execution in
    recovered-Advances digests now (visit_stale now wait limit) w w' cs
      (visit_stale-Steps now wait limit) a h
