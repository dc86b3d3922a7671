-- ===== src/Pipeline/Ready/Snapshot.antt =====
-- What the snapshot of internal/cluster/pipeline_dag_ready_set.go offers for admission.
use context_bridge.Prelude.{
  ℕ, zero, suc, ◌+◌, ◌≤◌, Bool, true, List, [], ◌∷◌, some, length, take, ok, ◌≡◌, refl, sym, subst,
  ap, ◌∙◌, arith, inl, inr, ◌⊎◌, filter, In, Option-cases, Bool-cases,
}
use context_bridge.Prelude.Int.{pos_part}
use context_bridge.Text.{Text, text_eq, eq_of_text_eq}
use context_bridge.Pipeline.Graph.Edges.{lookup}
use context_bridge.Pipeline.NodeState.{
  NodeState, ready, completed, eq_of_state_eq, requires_completed,
}
use context_bridge.Pipeline.Records.{Binding, Node, Run}
use context_bridge.Pipeline.Checkpoint.{Immutable}
use context_bridge.Pipeline.Checkpoint.Upstream.{
  Upstream, validate_graph-Accepted, Upstream-completed,
}
use context_bridge.Pipeline.Ready.{
  count_active, states_by_step, is_ready, available, first_ready, ready_set, ready_set-eq-ok,
}

length-take-le : (k : ℕ) (xs : List Text) → length (take k xs) ≤ k
length-take-le zero xs = omega arith
length-take-le (suc k) [] = omega arith
length-take-le (suc k) (x ∷ xs) = omega (arith, length-take-le k xs)

In-take-filter :
    (p : Text → Bool) (k : ℕ) (x : Text) (xs : List Text) → In x (take k (filter p xs)) → p x ≡ true
In-take-filter p zero x xs h = absurd h
In-take-filter p (suc k) x [] h = absurd h
In-take-filter p (suc k) x (y ∷ ys) h = elim (Bool-cases (p y)) [
  | inl t ↦ elim (rw (t, filter, In) at h) [
    | inl here ↦ rw here t
    | inr there ↦ In-take-filter p k x ys there
  ]
  | inr f ↦ In-take-filter p (suc k) x ys (rw (f, filter) at h)
]

-- An entry of `stateByStep` is the state of a node of that step.
states_sound :
    (ns : List Node) (m : List (Text × NodeState)) (t : Text) (s : NodeState)
    → lookup t (states_by_step ns m) ≡ some s
    → (lookup t m ≡ some s) ⊎ ((n : Node) × In n ns × (n.step ≡ t) × (n.state ≡ s))
unfolding states_by_step
states_sound [] m t s e = inl e
states_sound (n ∷ ns) m t s e = elim (states_sound ns ((n.step, n.state) ∷ m) t s e) [
  | inr (k, there, q, r) ↦ inr (k, inr there, q, r)
  | inl old ↦ elim (Bool-cases (text_eq t n.step)) [
    | inl y ↦ inr (
      n,
      inl refl,
      sym (eq_of_text_eq t n.step y),
      unfold lookup in ground (arith, rw (y, lookup) at old),
    )
    | inr no_match ↦ inl (unfold lookup in rw (no_match, lookup) at old)
  ]
]

ready_node :
    (ns : List Node) (t : Text)
    → is_ready (states_by_step ns []) t ≡ true
    → (n : Node) × In n ns × (n.step ≡ t) × (n.state ≡ ready)
ready_node ns t h = elim (Option-cases (lookup t (states_by_step ns []))) [
  | inl l ↦ absurd (cc (rw (l, is_ready) at h))
  | inr (s, l) ↦ elim (states_sound ns [] t s l) [
    | inl none_found ↦ unfold lookup in cc
    | inr (n, there, q, r) ↦ (n, there, q, r ∙ eq_of_state_eq s ready (rw (l, is_ready) at h))
  ]
]

-- The snapshot is the first ready steps of the bound order, and with the children that are queued
-- or running they do not exceed `max_parallel`, unless nothing is offered.
pub ready_set_bounded :
    (digest : Immutable → Text) (run : Run) (b : Binding) {steps : List Text}
    → run.graph ≡ some b
    → ready_set digest run ≡ ok steps
    → (steps ≡ first_ready b run.node_states)
      × ((steps ≡ []) ⊎ (length steps + count_active run.node_states ≤ pos_part b.max_parallel))
ready_set_bounded digest run b {steps} g e =
    let (_, _, same) = ready_set-eq-ok digest run b g e in
    let bound =
      length-take-le (available b.max_parallel (count_active run.node_states))
        (filter (is_ready (states_by_step run.node_states [])) b.order) in
    (same, fits steps (omega (arith, ap length same, bound)))
  where
    fits :
        (s : List Text)
        → length s ≤ available b.max_parallel (count_active run.node_states)
        → (s ≡ []) ⊎ (length s + count_active run.node_states ≤ pos_part b.max_parallel)
    fits [] h = inl refl
    fits (x ∷ xs) h = inr (omega arith)

-- Every step that is offered is a node in state ready, and all that is upstream of it is completed.
pub ready_set_sound :
    (digest : Immutable → Text) (run : Run) (b : Binding) {steps : List Text} (t : Text)
    → run.graph ≡ some b
    → ready_set digest run ≡ ok steps
    → In t steps
    → (n : Node) × In n run.node_states
      × (n.step ≡ t)
      × (n.state ≡ ready)
      × ((m : Node) → Upstream run.node_states n m → m.state ≡ completed)
ready_set_sound digest run b t g e h =
    let (_, valid, same) = ready_set-eq-ok digest run b g e in
    let (n, there, q, r) = ready_node run.node_states t (
      In-take-filter (is_ready (states_by_step run.node_states []))
        (available b.max_parallel (count_active run.node_states)) t b.order
        (subst (In t) same h)) in
    (
      n,
      there,
      q,
      r,
      λ m u.
          Upstream-completed run.node_states
            (validate_graph-Accepted digest b run.node_states valid) u
            (ap requires_completed r ∙ unfold requires_completed in refl),
    )
