-- ===== src/Pipeline/Reconcile/Effects.antt =====
-- internal/cluster/store.go: what ReconcileDAGChildTerminal leaves in the run and in the store.
use context_bridge.Prelude.{
  ℕ, List, some, get_elem?, length, ok, ◌≡◌, ◌≢◌, sym, subst, ap, ◌∙◌, arith, In,
}
use context_bridge.Text.{Text, text_eq_refl, trim_space, eq_of_text_eq}
use context_bridge.Pipeline.Graph.Edges.{lookup}
use context_bridge.Pipeline.NodeState.{NodeState}
use context_bridge.Pipeline.Records.{Node, Job, Run}
use context_bridge.Pipeline.Checkpoint.{Immutable, validate_state}
use context_bridge.Pipeline.Checkpoint.Upstream.{validate_graph-Accepted}
use context_bridge.Pipeline.Transition.{validate_transition}
use context_bridge.Pipeline.Transition.Saves.{graph_kept}
use context_bridge.Pipeline.Propagation.{is_open}
use context_bridge.Pipeline.Propagation.Pass.{Grown}
use context_bridge.Pipeline.Propagation.Quiet.{Quiet}
use context_bridge.Pipeline.Propagation.Closure.{propagated-Quiet}
use context_bridge.Pipeline.Propagation.Order.{place_of, In-get_elem?}
use context_bridge.Pipeline.Reconcile.{Store, recorded, terminal_state, checkpoint_time, reconcile}
use context_bridge.Pipeline.Reconcile.Outcome.{Reconciled, reconcile-Reconciled}
use context_bridge.Pipeline.Reconcile.Recording.{
  Recorded, recorded-Recorded, Recorded-Shape, at_same_length, validate_state-graph, Recorded-some,
  terminal-closed, index_of_sound,
}

module _ (digest : Immutable → Text) (now : ℕ) (run_id job_id : Text) (before : Store)
    {after : Store} {r : Run} where
  module _ (x : Reconciled digest now run_id job_id before after r) where
    abbrev pub child_at : ℕ
    child_at = checkpoint_time now x.job x.next.child.before

    abbrev pub start : List Node
    start =
        recorded child_at x.next.child.index x.next.child.before x.next.child.target
          x.run.node_states

    pub child-Recorded :
        Recorded x.next.child.index x.next.child.before x.next.child.target x.run.node_states start
    child-Recorded =
        recorded-Recorded child_at x.next.child.index x.next.child.before x.next.child.target
          x.run.node_states x.next.bound.there

    same_length : length x.run.node_states ≡ length r.node_states
    same_length =
        (graph_kept x.run.graph r.graph x.run.node_states r.node_states x.b x.graph
          (unfold validate_transition in x.next.moved)).1

    -- The pass, from the state in which the child is recorded.
    node_after :
        (i : ℕ) (n : Node)
        → get_elem? start i ≡ some n
        → (m : Node) × (get_elem? r.node_states i ≡ some m) × Grown n m × Quiet r.node_states m
    node_after i n g =
        let valid = validate_state-graph digest x.run x.b x.graph x.was_valid in
        let a = validate_graph-Accepted digest x.b x.run.node_states valid in
        let sh =
          Recorded-Shape x.next.child.index x.next.child.before x.next.child.target
            x.run.node_states start x.next.bound.there child-Recorded in
        subst (λ ns. (m : Node) × (get_elem? ns i ≡ some m) × Grown n m × Quiet ns m)
          (sym (ap (λ y. y.node_states) x.next.result))
          (propagated-Quiet x.run.node_states a start sh child_at i n x.next.passed g)

    every_Quiet : (m : Node) → In m r.node_states → Quiet r.node_states m
    every_Quiet m h =
        let (i, g) = place_of r.node_states m h in
        let (k, gk) = at_same_length x.run.node_states r.node_states i same_length g in
        let (n, gn) =
          Recorded-some x.next.child.index x.next.child.before x.next.child.target x.run.node_states
            start i k child-Recorded gk in
        let (m', g', _, quiet) = node_after i n gn in
        let same : m' ≡ m = cc (g, g') in subst (Quiet r.node_states) same quiet

    child_after :
        (m : Node) × In m r.node_states × (m.step ≡ x.job.step) × (m.state ≡ x.next.child.target)
    child_after =
        let c = child-Recorded in
        let (j, n, q, g, named) =
          index_of_sound 0 x.job.step x.run.node_states x.next.child.index x.next.bound.placed in
        let ij : x.next.child.index ≡ j = omega (arith, q) in
        let here : n ≡ x.next.child.before = cc (ij, g, x.next.bound.there) in
        let (m, gm, grown, _) = node_after x.next.child.index c.child c.there in
        let closed = ap is_open c.state_is ∙ terminal-closed x.job x.next.bound.ended in
        (
          m,
          In-get_elem? r.node_states x.next.child.index m gm,
          grown.same_step ∙ c.same_step ∙ sym (ap (λ y. y.step) here) ∙ named,
          ap (λ y. y.state) (grown.kept closed) ∙ c.state_is,
        )

  -- When a finished child is reconciled, nothing is left to derive: in the run that is stored, no
  -- waiting or ready node has a dependency that blocks it, and no waiting node has only completed
  -- dependencies.
  pub reconcile-Quiet :
      (m : Node)
      → reconcile digest now run_id job_id before ≡ ok (after, r)
      → In m r.node_states
      → Quiet r.node_states m
  reconcile-Quiet m e h = every_Quiet (reconcile-Reconciled digest now run_id job_id before e) m h

  -- When a finished child is reconciled, its node ends in the state that its job calls for, whatever
  -- the pass derives for the other nodes.
  pub reconcile-child :
      reconcile digest now run_id job_id before ≡ ok (after, r)
      → (job : Job) × (t : NodeState) × (m : Node) × (lookup (trim_space job_id) before.jobs
          ≡ some job)
        × (terminal_state job ≡ ok t)
        × In m r.node_states
        × (m.step ≡ job.step)
        × (m.state ≡ t)
  reconcile-child e =
      let x = reconcile-Reconciled digest now run_id job_id before e in
      let (m, h, q, s) = child_after x in
      (x.job, x.next.child.target, m, x.finished, x.next.bound.ended, h, q, s)

  -- The run that a reconciliation returns is the one that the store then holds under its ID. It is a
  -- permitted save of the run before it, and passes the checkpoint checks again. The jobs, and the
  -- runs with other IDs, stay as they were.
  pub reconcile-stored :
      reconcile digest now run_id job_id before ≡ ok (after, r)
      → (run : Run) × (lookup (trim_space run_id) before.runs ≡ some run)
        × (r.id ≡ run.id)
        × (validate_transition run r ≡ ok tt)
        × (validate_state digest r ≡ ok tt)
        × (lookup r.id after.runs ≡ some r)
        × ((t : Text) → t ≢ r.id → lookup t after.runs ≡ lookup t before.runs)
        × (after.jobs ≡ before.jobs)
  reconcile-stored e =
      let x = reconcile-Reconciled digest now run_id job_id before e in
      (
        x.run,
        x.stored,
        ap (λ y. y.id) x.next.result,
        x.next.moved,
        x.next.valid,
        ap (λ s. lookup r.id s.runs) x.committed
            ∙ (unfold lookup in ground (arith, text_eq_refl r.id)),
        λ t d.
            ap (λ s. lookup t s.runs) x.committed
            ∙ (unfold lookup in ground (arith, eq_of_text_eq t r.id, d)),
        ap (λ s. s.jobs) x.committed,
      )
