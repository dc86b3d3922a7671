-- ===== src/Pipeline/Propagation.antt =====
-- internal/cluster/store.go: the pass of ReconcileDAGChildTerminal over the bound order, which makes
-- nodes ready or blocked.
pub mod Settled
pub mod Pass
pub mod Changes
pub mod Order
pub mod Quiet
pub mod Closure
use context_bridge.Prelude.{
  ℕ, zero, suc, Bool, true, false, not, ◌&&◌, ◌||◌, List, [], ◌∷◌, ◌++◌, Option, none, some,
  if◌then◌else◌, get_elem?, set,
}
use context_bridge.Text.{Text}
use context_bridge.Pipeline.Graph.Edges.{lookup}
use context_bridge.Pipeline.NodeState.{
  NodeState, not_ready, ready, completed, blocked_by_dependency, state_eq, blocks_descendants,
}
use context_bridge.Pipeline.Records.{Node}
use context_bridge.Pipeline.Ready.{states_by_step}

abbrev pub with_state : Node → NodeState → ℕ → Node
with_state n s at = record {
  step = n.step;
  depends_on = n.depends_on;
  state = s;
  job_id = n.job_id;
  updated_at = at;
}

-- `indexByStep`; a later node of the same step would overwrite an earlier one.
unfoldable pub indices_by_step : ℕ → List Node → List (Text × ℕ) → List (Text × ℕ)
indices_by_step i [] m = m
indices_by_step i (n ∷ ns) m = indices_by_step (suc i) ns ((n.step, i) ∷ m)

-- What the loop over the order holds: the nodes, `stateByStep`, and the indices that it changed.
pub record Sweep : Type 0 where
  pub nodes : List Node
  pub states : List (Text × NodeState)
  pub changed : List ℕ

-- A missing state reads as the empty string, which is neither completed nor blocking.
abbrev pub state_holds : (NodeState → Bool) → Option NodeState → Bool
state_holds p none = false
state_holds p (some s) = p s

unfoldable pub all_completed : List (Text × NodeState) → List Text → Bool
all_completed states [] = true
all_completed states (d ∷ ds) =
    state_holds (λ s. state_eq s completed) (lookup d states) && all_completed states ds

unfoldable pub any_blocks : List (Text × NodeState) → List Text → Bool
any_blocks states [] = false
any_blocks states (d ∷ ds) =
    state_holds blocks_descendants (lookup d states) || any_blocks states ds

abbrev pub is_open : NodeState → Bool
is_open s = state_eq s not_ready || state_eq s ready

unfoldable pub next_state : List (Text × NodeState) → List Text → NodeState → NodeState
next_state states deps s =
    if any_blocks states deps
    then blocked_by_dependency
    else if all_completed states deps && state_eq s not_ready
    then ready
    else s

-- The body of the loop, for the node at `i`.
unfoldable pub visit_node : ℕ → ℕ → Node → Sweep → Sweep
visit_node at i n w =
    let next = next_state w.states n.depends_on n.state in
    if not (is_open n.state)
    then record { nodes = w.nodes; states = (n.step, n.state) ∷ w.states; changed = w.changed }
    else if state_eq next n.state
    then record { nodes = w.nodes; states = (n.step, n.state) ∷ w.states; changed = w.changed }
    else record {
      nodes = set w.nodes i (with_state n next at);
      states = (n.step, next) ∷ w.states;
      changed = w.changed ++ (i ∷ []);
    }

-- The loop over the bound order; none is its error. The index of a step is always in range.
unfoldable pub propagate : ℕ → List (Text × ℕ) → List Text → Sweep → Option Sweep
propagate at indices [] w = some w
propagate at indices (s ∷ ss) w = elim (lookup s indices) [
  | none ↦ none
  | some i ↦ elim (get_elem? w.nodes i) [
    | none ↦ none
    | some n ↦ propagate at indices ss (visit_node at i n w)
  ]
]

-- The two maps and the loop.
abbrev pub propagated : ℕ → List Text → List Node → Option Sweep
propagated at order nodes =
    propagate at (indices_by_step 0 nodes []) order
      (record { nodes = nodes; states = states_by_step nodes []; changed = [] })
