-- ===== src/Pipeline/Reconcile/Outcome.antt =====
-- internal/cluster/store.go: the facts behind a successful ReconcileDAGChildTerminal.
use context_bridge.Prelude.{
  ℕ, true, not, ◌&&◌, List, Option, none, some, get_elem?, ◌||◌, Result, ok, err, ok-injective,
  >>=-eq-ok, >>-eq-ok, ◌≡◌, refl, sym, subst, ap, arith, inl, inr, Bool-cases, false,
}
use context_bridge.Text.{Text, text_eq, trim_space, codes}
use context_bridge.Pipeline.Graph.Edges.{lookup}
use context_bridge.Pipeline.NodeState.{queued, running, state_eq}
use context_bridge.Pipeline.Records.{Binding, Job, Run}
use context_bridge.Pipeline.Checkpoint.{Immutable, CheckpointError, validate_state}
use context_bridge.Pipeline.Checkpoint.Identifiers.{valid_job_id}
use context_bridge.Pipeline.Transition.{validate_transition}
use context_bridge.Pipeline.Propagation.{Sweep, propagated}
use context_bridge.Store.Events.{Log}
use context_bridge.Pipeline.Reconcile.{
  ReconcileError, Store, Child, required, terminal_state, index_of, set_snapshot, active_graph,
  same_context, checkpoint_time, recorded, with_nodes, lift_checkpoint, append_changes, log_of,
  saved, child_node, next_run, reconcile, not_bound, no_snapshot, unavailable, no_run, no_job,
  inactive_run,
}

required-eq-ok {ℓ} :
    {A : Type ℓ} (e : ReconcileError) (o : Option A) {a : A} → required e o ≡ ok a → o ≡ some a
required-eq-ok e none h = cc
required-eq-ok e (some a) h = cc

lift_checkpoint-eq-ok :
    (r : Result CheckpointError (Unit {0})) {u : Unit {0}} → lift_checkpoint r ≡ ok u → r ≡ ok tt
lift_checkpoint-eq-ok (ok u) h = refl
lift_checkpoint-eq-ok (err e) h = cc

-- The child and its node, as the run held them.
pub record Bound (run : Run) (job : Job) (c : Child) : Type 0 where
  pub ended : terminal_state job ≡ ok c.target
  pub placed : index_of 0 job.step run.node_states ≡ some c.index
  pub there : get_elem? run.node_states c.index ≡ some c.before
  pub owned : text_eq c.before.job_id job.id ≡ true
  pub taken :
      (not (state_eq c.before.state queued)
        && not (state_eq c.before.state running)
        && not (state_eq c.before.state c.target))
      ≡ false

child_node-Bound : (run : Run) (job : Job) {c : Child} → child_node run job ≡ ok c → Bound run job c
child_node-Bound run job {c} e =
    let (target, ended, e1) = >>=-eq-ok (terminal_state job) _ e in
    let (i, placed, e2) =
      >>=-eq-ok (required not_bound (index_of 0 job.step run.node_states)) _ e1 in
    let (before, there, e3) = >>=-eq-ok (required not_bound (get_elem? run.node_states i)) _ e2 in
    let e4 = >>-eq-ok (not (text_eq before.job_id job.id)) _ _ e3 in
    let e5 =
      >>-eq-ok
        (not (state_eq before.state queued)
          && not (state_eq before.state running)
          && not (state_eq before.state target))
        _ _ e4.1 in
    let same : record { index = i; before = before; target = target } ≡ c = cc (e5.1) in
    rw (← same) (record {
      ended = ended;
      placed = required-eq-ok not_bound _ placed;
      there = required-eq-ok not_bound _ there;
      owned = ground (arith, e4.0);
      taken = e5.0;
    })

-- The checkpoint that a reconciliation leaves.
pub record Next (digest : Immutable → Text) (now : ℕ) (run : Run) (b : Binding) (job : Job)
    (r : Run) (w : Sweep) : Type 0 where
  pub child : Child
  pub steps : List Job
  pub bound : Bound run job child
  pub snapshot : set_snapshot job run.steps ≡ some steps
  pub passed :
      propagated (checkpoint_time now job child.before) b.order (
        recorded
          (checkpoint_time now job child.before)
          child.index
          child.before
          child.target
          run.node_states)
      ≡ some w
  pub result : r ≡ with_nodes run w.nodes steps
  pub valid : validate_state digest r ≡ ok tt
  pub moved : validate_transition run r ≡ ok tt

next_run-Next :
    (digest : Immutable → Text) (now : ℕ) (run : Run) (b : Binding) (job : Job) {r : Run × Sweep}
    → next_run digest now run b job ≡ ok r
    → Next digest now run b job r.0 r.1
unfolding next_run
next_run-Next digest now run b job {r} e =
    let (child, bound, e1) = >>=-eq-ok (child_node run job) _ e in
    let (steps, snapshot, e2) =
      >>=-eq-ok (required no_snapshot (set_snapshot job run.steps)) _ e1 in
    let (w, passed, e3) = >>=-eq-ok (required unavailable (propagated _ b.order _)) _ e2 in
    let (_, valid, e4) =
      >>=-eq-ok (lift_checkpoint (validate_state digest (with_nodes run w.nodes steps))) _ e3 in
    let (_, moved, e5) =
      >>=-eq-ok (lift_checkpoint (validate_transition run (with_nodes run w.nodes steps))) _ e4 in
    let same : (with_nodes run w.nodes steps, w) ≡ r = cc e5 in
    rw (← same) (record {
      child = child;
      steps = steps;
      bound = child_node-Bound run job bound;
      snapshot = required-eq-ok no_snapshot _ snapshot;
      passed = required-eq-ok unavailable _ passed;
      result = refl;
      valid = lift_checkpoint-eq-ok _ valid;
      moved = lift_checkpoint-eq-ok _ moved;
    })

pub record Reconciled (digest : Immutable → Text) (now : ℕ) (run_id job_id : Text)
    (before after : Store) (r : Run) : Type 0 where
  pub run : Run
  pub b : Binding
  pub job : Job
  pub w : Sweep
  pub log : Log
  pub stored : lookup (trim_space run_id) before.runs ≡ some run
  pub finished : lookup (trim_space job_id) before.jobs ≡ some job
  pub graph : run.graph ≡ some b
  pub was_valid : validate_state digest run ≡ ok tt
  pub context : same_context job run ≡ true
  pub next : Next digest now run b job r w
  pub logged : append_changes now r w.changed (log_of r.id before) ≡ ok log
  pub committed : after ≡ saved before r log

active_graph-eq : (run : Run) {b : Binding} → active_graph run ≡ some b → run.graph ≡ some b
active_graph-eq run {b} e = elim (Bool-cases (text_eq run.status (codes "running"))) [
  | inl y ↦ rw y at e
  | inr n ↦ absurd (cc (rw n at e))
]

pub reconcile-Reconciled :
    (digest : Immutable → Text) (now : ℕ) (run_id job_id : Text) (before : Store) {after : Store}
    {r : Run}
    → reconcile digest now run_id job_id before ≡ ok (after, r)
    → Reconciled digest now run_id job_id before after r
unfolding reconcile
reconcile-Reconciled digest now run_id job_id before {after} {r} e =
    let e0 =
      >>-eq-ok (not (valid_job_id (trim_space run_id)) || not (valid_job_id (trim_space job_id))) _
        _ e in
    let (run, stored, e1) =
      >>=-eq-ok (required no_run (lookup (trim_space run_id) before.runs)) _ e0.1 in
    let (b, active, e2) = >>=-eq-ok (required inactive_run (active_graph run)) _ e1 in
    let (_, was_valid, e3) = >>=-eq-ok (lift_checkpoint (validate_state digest run)) _ e2 in
    let (job, finished, e4) =
      >>=-eq-ok (required no_job (lookup (trim_space job_id) before.jobs)) _ e3 in
    let e5 = >>-eq-ok (not (same_context job run)) _ _ e4 in
    let (p, next, e6) = >>=-eq-ok (next_run digest now run b job) _ e5.1 in
    let (log, logged, e7) =
      >>=-eq-ok (append_changes now p.0 p.1.changed (log_of p.0.id before)) _ e6 in
    let same = ok-injective e7 in
    let same_run : p.0 ≡ r = ap (λ x. x.1) same in
    let same_store : saved before p.0 log ≡ after = ap (λ x. x.0) same in
    record {
      run = run;
      b = b;
      job = job;
      w = p.1;
      log = log;
      stored = required-eq-ok no_run _ stored;
      finished = required-eq-ok no_job _ finished;
      graph = active_graph-eq run (required-eq-ok inactive_run _ active);
      was_valid = lift_checkpoint-eq-ok _ was_valid;
      context = ground (arith, e5.0);
      next =
          subst (λ x. Next digest now run b job x p.1) same_run
            (next_run-Next digest now run b job next);
      logged =
          subst (λ x. append_changes now x p.1.changed (log_of x.id before) ≡ ok log) same_run
            logged;
      committed = subst (λ x. after ≡ saved before x log) same_run (sym same_store);
    }
