-- ===== src/Pipeline/Checkpoint/Accepted.antt =====
-- What validatePipelineRunGraphState of internal/cluster/pipeline_graph_state.go promises about a
-- checkpoint that it accepts.
use context_bridge.Prelude.{true, List, ok, ◌≡◌, In}
use context_bridge.Text.{Text}
use context_bridge.Pipeline.NodeState.{
  completed, blocked_by_dependency, state_eq, requires_completed,
}
use context_bridge.Pipeline.Records.{Binding, Node}
use context_bridge.Pipeline.Checkpoint.{Immutable, validate_graph}
use context_bridge.Pipeline.Checkpoint.Upstream.{
  Upstream, is_root, validate_graph-Accepted, Upstream-completed, Upstream-irreflexive,
  blocked_cause,
}

-- In an accepted checkpoint, when a node is ready, queued, running, completed, failed or ambiguous,
-- every node upstream of it, through any number of dependencies, is completed.
pub validate_graph-Upstream :
    (digest : Immutable → Text) (b : Binding) (nodes : List Node) {n m : Node}
    → validate_graph digest b nodes ≡ ok tt
    → Upstream nodes n m
    → requires_completed n.state ≡ true
    → m.state ≡ completed
validate_graph-Upstream digest b nodes e u r =
    Upstream-completed nodes (validate_graph-Accepted digest b nodes e) u r

-- In an accepted checkpoint no node is upstream of itself, through any number of dependencies.
pub validate_graph-acyclic :
    (digest : Immutable → Text) (b : Binding) (nodes : List Node) (n : Node)
    → validate_graph digest b nodes ≡ ok tt
    → ¬ Upstream nodes n n
validate_graph-acyclic digest b nodes n e =
    Upstream-irreflexive nodes (validate_graph-Accepted digest b nodes e) n

-- In an accepted checkpoint, upstream of every node that is blocked by a dependency stands a node
-- that failed, was cancelled or is ambiguous itself.
pub validate_graph-blocked :
    (digest : Immutable → Text) (b : Binding) (nodes : List Node) (n : Node)
    → validate_graph digest b nodes ≡ ok tt
    → In n nodes
    → state_eq n.state blocked_by_dependency ≡ true
    → (m : Node) × Upstream nodes n m × (is_root m.state ≡ true)
validate_graph-blocked digest b nodes n e h s =
    blocked_cause nodes (validate_graph-Accepted digest b nodes e) n h s
