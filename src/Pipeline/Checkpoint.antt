-- ===== src/Pipeline/Checkpoint.antt =====
-- internal/cluster/pipeline_graph_state.go: the durable checkpoint of a DAG run, and the checks
-- that every saved checkpoint passes.
pub mod Identifiers
pub mod Nodes
pub mod Upstream
pub mod Accepted
mod Tests
use context_bridge.Prelude.{
  ℕ, zero, suc, ◌+◌, ◌<◌, Bool, true, false, not, ◌&&◌, ◌||◌, List, [], ◌∷◌, map, Option, none,
  some, ltb, leb, ◌==◌, if◌then◌else◌, length, Result, ok, err, ◌>>=◌, ◌>>◌, reject_if,
}
use context_bridge.Prelude.Int.{ℤ, pos, negsuc, ltb_ℤ}
use context_bridge.Text.{Text, codes, text_eq, has, trim_space}
use context_bridge.Pipeline.Graph.{maximum_parallelism, mode_dag}
use context_bridge.Pipeline.Graph.Template.{is_empty}
use context_bridge.Pipeline.Graph.Edges.{lookup, is_some, maximum_fan, maximum_edges}
use context_bridge.Pipeline.NodeState.{
  NodeState, not_ready, ready, queued, running, completed, failed, cancelled, ambiguous,
  blocked_by_dependency, state_eq, valid_state, requires_completed, blocks_descendants, allowed,
}
use context_bridge.Pipeline.Records.{Binding, Node, Run}
use Identifiers.{valid_sha256, valid_job_id}

abbrev pub contract_v1 : Text
contract_v1 = codes "contextbridge.pipeline-graph.v1"

pub data CheckpointError : Type 0 where
  states_without_graph unsupported_contract bad_sha256 bad_parallel bad_step_count : CheckpointError
  empty_step too_many_links edge_count_mismatch not_topological digest_mismatch : CheckpointError
  repeated_step invalid_checkpoint too_many_dependencies invalid_job : Text → CheckpointError
  job_before_admission job_required self_dependency : Text → CheckpointError
  shared_job unknown_dependency repeated_dependency : Text → Text → CheckpointError
  started_too_early blocked_without_cause : Text → CheckpointError
  order_unknown order_repeated : Text → CheckpointError
  graph_added graph_changed node_changed : CheckpointError
  job_changed time_backwards : Text → CheckpointError
  forbidden_move : Text → NodeState → NodeState → CheckpointError

-- An int field against a length.
abbrev pub equals_ℕ : ℤ → ℕ → Bool
equals_ℕ (pos m) n = m == n
equals_ℕ (negsuc m) n = false

-- What the graph digest covers: everything but the digest itself and the mutable node fields.
pub record Immutable : Type 0 where
  pub contract_version : Text
  pub mode : Text
  pub config_sha256 : Text
  pub max_parallel : ℤ
  pub step_count : ℤ
  pub edge_count : ℤ
  pub order : List Text
  pub nodes : List (Text × List Text)

unfoldable pub immutable : Binding → List Node → Immutable
immutable b nodes = record {
  contract_version = b.contract_version;
  mode = b.mode;
  config_sha256 = b.config_sha256;
  max_parallel = b.max_parallel;
  step_count = b.step_count;
  edge_count = b.edge_count;
  order = b.order;
  nodes = map (λ n. (n.step, n.depends_on)) nodes;
}

abbrev pub check_binding : Binding → ℕ → Result CheckpointError (Unit {0})
check_binding b n = do
  reject_if (not (text_eq b.contract_version contract_v1) || not (text_eq b.mode mode_dag))
      unsupported_contract
  reject_if (not (valid_sha256 b.config_sha256) || not (valid_sha256 b.graph_sha256)) bad_sha256
  reject_if (ltb_ℤ b.max_parallel (pos 1) || ltb_ℤ (pos maximum_parallelism) b.max_parallel)
      bad_parallel
  reject_if
      (ltb_ℤ b.step_count (pos 1) || not (equals_ℕ b.step_count n) || not (length b.order == n))
      bad_step_count

abbrev pub before_admission : NodeState → Bool
before_admission s = state_eq s not_ready || state_eq s ready || state_eq s blocked_by_dependency

abbrev pub after_admission : NodeState → Bool
after_admission s = state_eq s queued || state_eq s running || state_eq s completed

-- The body of the first loop over the nodes; `by_name` and `jobs` are its two maps.
unfoldable pub check_node :
    Node → List (Text × Node) → List (Text × Text) → Result CheckpointError (Unit {0})
check_node n by_name jobs = do
  reject_if (is_empty (trim_space n.step)) empty_step
  reject_if (is_some (lookup n.step by_name)) (repeated_step n.step)
  reject_if (not (valid_state n.state) || n.updated_at == 0) (invalid_checkpoint n.step)
  reject_if (ltb maximum_fan (length n.depends_on)) (too_many_dependencies n.step)
  reject_if (not (is_empty n.job_id) && not (valid_job_id n.job_id)) (invalid_job n.step)
  reject_if (not (is_empty n.job_id) && is_some (lookup n.job_id jobs)) (shared_job n.step n.job_id)
  reject_if (before_admission n.state && not (is_empty n.job_id)) (job_before_admission n.step)
  reject_if (after_admission n.state && not (valid_job_id n.job_id)) (job_required n.step)

abbrev pub with_job : Node → List (Text × Text) → List (Text × Text)
with_job n jobs = if is_empty n.job_id then jobs else (n.job_id, n.step) ∷ jobs

unfoldable pub check_nodes :
    List Node
    → List (Text × Node)
    → List (Text × Text)
    → Result CheckpointError (List (Text × Node))
check_nodes [] by_name jobs = ok by_name
check_nodes (n ∷ ns) by_name jobs =
    check_node n by_name jobs >> check_nodes ns ((n.step, n) ∷ by_name) (with_job n jobs)

-- `outgoing[k]++` and its new value.
abbrev pub value_of : Option ℕ → ℕ
value_of none = 0
value_of (some v) = v

-- The counters of the second loop.
pub record Tally : Type 0 where
  pub edges : ℕ
  pub outgoing : List (Text × ℕ)

-- What the dependency loop of one node found.
pub record Found : Type 0 where
  pub tally : Tally
  pub seen : List Text
  pub all_completed : Bool
  pub has_blocking : Bool

abbrev pub known : Option Node → CheckpointError → Result CheckpointError Node
known none e = err e
known (some m) e = ok m

unfoldable pub check_dependency :
    List (Text × Node) → Node → Text → Found → Result CheckpointError Found
check_dependency by_name n d f = do
  reject_if (text_eq d n.step) (self_dependency n.step)
  m ← known (lookup d by_name) (unknown_dependency n.step d)
  reject_if (has d f.seen) (repeated_dependency n.step d)
  let out = suc (value_of (lookup d f.tally.outgoing))
  reject_if (ltb maximum_fan out || ltb maximum_edges (f.tally.edges + 1)) too_many_links
  ok (record {
    tally = record { edges = f.tally.edges + 1; outgoing = (d, out) ∷ f.tally.outgoing };
    seen = d ∷ f.seen;
    all_completed = f.all_completed && state_eq m.state completed;
    has_blocking = f.has_blocking || blocks_descendants m.state;
  })

unfoldable pub check_dependencies :
    List (Text × Node) → Node → List Text → Found → Result CheckpointError Found
check_dependencies by_name n [] f = ok f
check_dependencies by_name n (d ∷ ds) f =
    check_dependency by_name n d f >>= λ g. check_dependencies by_name n ds g

abbrev pub nothing_found : Tally → Found
nothing_found t = record { tally = t; seen = []; all_completed = true; has_blocking = false }

-- The second loop over the nodes.
unfoldable pub check_links : List (Text × Node) → List Node → Tally → Result CheckpointError Tally
check_links by_name [] t = ok t
check_links by_name (n ∷ ns) t = do
  f ← check_dependencies by_name n n.depends_on (nothing_found t)
  reject_if (requires_completed n.state && not f.all_completed) (started_too_early n.step)
  reject_if (state_eq n.state blocked_by_dependency && not f.has_blocking)
      (blocked_without_cause n.step)
  check_links by_name ns f.tally

-- The loop over the bound order, which builds `position`.
unfoldable pub check_order :
    List (Text × Node) → ℕ → List Text → List (Text × ℕ) → Result CheckpointError (List (Text × ℕ))
check_order by_name i [] position = ok position
check_order by_name i (s ∷ ss) position = do
  reject_if (not (is_some (lookup s by_name))) (order_unknown s)
  reject_if (is_some (lookup s position)) (order_repeated s)
  check_order by_name (suc i) ss ((s, i) ∷ position)

-- A missing key reads as 0, as in a Go map.
abbrev pub position_of : List (Text × ℕ) → Text → ℕ
position_of position s = value_of (lookup s position)

unfoldable pub behind_all : List (Text × ℕ) → Text → List Text → Bool
behind_all position s [] = true
behind_all position s (d ∷ ds) =
    ltb (position_of position d) (position_of position s) && behind_all position s ds

unfoldable pub topological : List (Text × ℕ) → List Node → Bool
topological position [] = true
topological position (n ∷ ns) = behind_all position n.step n.depends_on && topological position ns

-- The JSON encoding of the immutable view and its SHA-256 digest are the argument `digest`.
unfoldable pub validate_graph :
    (Immutable → Text) → Binding → List Node → Result CheckpointError (Unit {0})
validate_graph digest b nodes = do
  check_binding b (length nodes)
  by_name ← check_nodes nodes [] []
  tally ← check_links by_name nodes (record { edges = 0; outgoing = [] })
  reject_if (not (equals_ℕ b.edge_count tally.edges)) edge_count_mismatch
  position ← check_order by_name 0 b.order []
  reject_if (not (topological position nodes)) not_topological
  reject_if (not (text_eq (digest (immutable b nodes)) b.graph_sha256)) digest_mismatch

-- validatePipelineRunGraphState.
unfoldable pub validate_state : (Immutable → Text) → Run → Result CheckpointError (Unit {0})
unfolding validate_graph
validate_state digest run = elim run.graph [
  | none ↦ reject_if (not (is_empty run.node_states)) states_without_graph
  | some b ↦ validate_graph digest b run.node_states
]
