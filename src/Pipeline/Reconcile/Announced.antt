-- ===== src/Pipeline/Reconcile/Announced.antt =====
-- internal/cluster/store.go: the events that ReconcileDAGChildTerminal appends to the run's log.
use context_bridge.Prelude.{
  ℕ, List, [], ◌∷◌, some, get_elem?, Result, ok, err, >>=-eq-ok, ◌≡◌, sym, subst, arith, inl, inr,
  Option-cases, ap, take, if◌then◌else◌, not, ◌&&◌, Bool-cases, refl, false, ◌∙◌, ◌==◌,
}
use context_bridge.Text.{Text, text_eq_refl, trim_space}
use context_bridge.Pipeline.Graph.Edges.{lookup}
use context_bridge.Pipeline.Records.{Run, Node, Binding}
use context_bridge.Pipeline.Checkpoint.{Immutable}
use context_bridge.Store.Events.{
  Log, EventError, append_event, Event, append_events, step_ready, step_blocked,
}
use context_bridge.Store.Events.Retention.{
  Retains, newest_first, append_events-take, Retains-append_events,
}
use context_bridge.Pipeline.Reconcile.{
  Store, lift_event, event_of, append_changes, log_of, saved, reconcile,
}
use context_bridge.Pipeline.Reconcile.Outcome.{reconcile-Reconciled, Reconciled}
use context_bridge.Pipeline.NodeState.{
  NodeState, queued, running, blocked_by_dependency, state_eq, eq_of_state_eq,
}
use context_bridge.Pipeline.Propagation.{is_open}
use context_bridge.Pipeline.Propagation.Changes.{
  events_at, change_events, change_events-Alike, Alike-refl,
}
use context_bridge.Pipeline.Propagation.Closure.{change_events-propagated}
use context_bridge.Pipeline.Checkpoint.Upstream.{validate_graph-Accepted}
use context_bridge.Pipeline.Reconcile.Effects.{start, child_at, child-Recorded}
use context_bridge.Pipeline.Reconcile.Recording.{
  terminal-closed, validate_state-graph, Recorded-Shape,
}

lift_event-eq-ok {ℓ} :
    {A : Type ℓ} (r : Result EventError A) {a : A} → lift_event r ≡ ok a → r ≡ ok a
lift_event-eq-ok (ok a) h = cc
lift_event-eq-ok (err e) h = cc

append_changes-append_events :
    (now : ℕ) (run : Run) (is : List ℕ) (log : Log) {after : Log}
    → append_changes now run is log ≡ ok after
    → append_events now (events_at (event_of run) run.node_states is) log ≡ ok after
unfolding append_changes append_events events_at
append_changes-append_events now run [] log {after} e = let same : log ≡ after = cc in ap ok same
append_changes-append_events now run (i ∷ is) log e =
    elim (Option-cases (get_elem? run.node_states i)) [
      | inl no_node ↦
          rw no_node
            (append_changes-append_events now run is log (rw (no_node, append_changes) at e))
      | inr (n, there) ↦
          let (l, first, rest) =
            >>=-eq-ok (lift_event (append_event now (event_of run n) log)) _
              (rw (there, append_changes) at e) in
          rw (there, lift_event-eq-ok _ first) (append_changes-append_events now run is l rest)
    ]

-- The event of a node of a run.
abbrev pub node_event : Run → Node → Event
node_event run n = record {
  run_id = run.id;
  kind = if state_eq n.state blocked_by_dependency then step_blocked else step_ready;
  time = n.updated_at;
  step_id = n.step;
  sequence = 0;
}

closed_before :
    (s t : NodeState)
    → (not (state_eq s queued) && not (state_eq s running) && not (state_eq s t)) ≡ false
    → is_open t ≡ false
    → is_open s ≡ false
unfolding state_eq
closed_before s t h closed = elim (Bool-cases (state_eq s t)) [
  | inl same ↦ ap is_open (eq_of_state_eq s t same) ∙ closed
  | inr other ↦ ground (arith, h, other)
]

module _ (digest : Immutable → Text) (now : ℕ) (run_id job_id : Text) (before : Store)
    {after : Store} {r : Run} (x : Reconciled digest now run_id job_id before after r) where
  -- The child itself is not announced, as it was neither waiting nor ready.
  change_events-start :
      change_events (node_event r) (start digest now run_id job_id before x) r.node_states x.b.order
      ≡ change_events (node_event r) x.run.node_states r.node_states x.b.order
  change_events-start =
      let c = child-Recorded digest now run_id job_id before x in
      let i = x.next.child.index in
      let was = x.next.child.before in
      let target_closed = terminal-closed x.job x.next.bound.ended in
      let closed = closed_before was.state x.next.child.target x.next.bound.taken target_closed in
      let now_closed = ap is_open c.state_is ∙ target_closed in
      change_events-Alike (node_event r) _ x.run.node_states r.node_states x.b.order (λ t h j.
        elim (Bool-cases (j == i)) [
          | inr away ↦
              rw (c.others j (ground (arith, away)))
                (Alike-refl (node_event r) t (get_elem? x.run.node_states j))
          | inl here ↦
              let ij : j ≡ i = ground (arith, here) in
              rw (ij, c.there, x.next.bound.there)
                (c.same_step, λ g k. rw (now_closed, closed) refl)
        ])

  change_events-changed :
      events_at (event_of r) r.node_states x.w.changed
      ≡ change_events (node_event r) x.run.node_states r.node_states x.b.order
  change_events-changed =
      let valid = validate_state-graph digest x.run x.b x.graph x.was_valid in
      let a = validate_graph-Accepted digest x.b x.run.node_states valid in
      let from = start digest now run_id job_id before x in
      let sh =
        Recorded-Shape x.next.child.index x.next.child.before x.next.child.target x.run.node_states
          from x.next.bound.there (child-Recorded digest now run_id job_id before x) in
      let at = child_at digest now run_id job_id before x in
      let nodes = ap (λ y. y.node_states) x.next.result in
      ap (λ ns. events_at (event_of r) ns x.w.changed) nodes
      ∙ change_events-propagated x.run.node_states a from sh at (event_of r) x.next.passed
      ∙ ap (λ ns. change_events (node_event r) from ns x.b.order) (sym nodes)
      ∙ change_events-start

-- A reconciliation keeps the promise of the run's event log: if it held the newest events without a
-- gap, at most 256 of them, it does so with the events that the reconciliation appends. These are one
-- for each node that was waiting or ready in the run before and has changed its state, in the order
-- of the graph's binding: that the step is blocked, if it now is by a dependency, and else that it is
-- ready, at the time of the node's change.
pub reconcile-Retains :
    (digest : Immutable → Text) (now : ℕ) (run_id job_id : Text) (before : Store) {after : Store}
    {r : Run}
    → reconcile digest now run_id job_id before ≡ ok (after, r)
    → Retains (log_of r.id before)
    → Retains (log_of r.id after)
      × (run : Run) × (b : Binding) × (lookup (trim_space run_id) before.runs ≡ some run)
      × (run.graph ≡ some b)
      × ((log_of r.id after).events
          ≡ take 256 (
              newest_first now
                (log_of r.id before).sequence
                (change_events (node_event r) run.node_states r.node_states b.order)
                (log_of r.id before).events))
reconcile-Retains digest now run_id job_id before {after} {r} e h =
    let x = reconcile-Reconciled digest now run_id job_id before e in
    let log = log_of r.id before in
    let done = append_changes-append_events now r x.w.changed log x.logged in
    let there : lookup r.id (saved before r x.log).logs ≡ some x.log =
      unfold lookup in ground (arith, text_eq_refl r.id) in
    let held : log_of r.id after ≡ x.log = ap (log_of r.id) x.committed ∙ rw (there, log_of) refl in
    (
      subst Retains (sym held) (Retains-append_events now _ log h done),
      x.run,
      x.b,
      x.stored,
      x.graph,
      ap (λ l. l.events) held
          ∙ append_events-take now _ log h done
          ∙ ap (λ es. take 256 (newest_first now log.sequence es log.events))
              (change_events-changed digest now run_id job_id before x),
    )
