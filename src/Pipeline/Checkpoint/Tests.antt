-- ===== src/Pipeline/Checkpoint/Tests.antt =====
-- Checkpoints of internal/cluster/pipeline_graph_state.go on small runs.
use context_bridge.Prelude.{
  ℕ, ◌+◌, List, [], ◌∷◌, some, length, ◌≡◌, refl, ok, err, inl, inr, In, get_elem?, true, ◌≤◌, ◌⊎◌,
}
use context_bridge.Prelude.Int.{pos}
use context_bridge.Text.{Text, codes, text_eq, has, trim_space}
use context_bridge.Pipeline.Graph.{mode_dag}
use context_bridge.Pipeline.Graph.Edges.{lookup}
use context_bridge.Pipeline.NodeState.{
  NodeState, not_ready, ready, running, completed, failed, blocked_by_dependency, state_eq,
  valid_state, requires_completed, blocks_descendants, moves, allowed,
}
use context_bridge.Pipeline.Records.{Binding, Node, Run}
use context_bridge.Pipeline.Checkpoint.{
  Immutable, contract_v1, validate_graph, validate_state, check_node, check_nodes, check_dependency,
  check_dependencies, check_links, check_order, behind_all, topological, started_too_early,
  forbidden_move,
}
use context_bridge.Pipeline.Transition.{
  validate_transition, texts_eq, check_move, check_moves, check_graph_kept,
}
use context_bridge.Pipeline.Checkpoint.Identifiers.{valid_sha256, valid_job_id, all_chars, has_dots}
use context_bridge.Pipeline.Checkpoint.Upstream.{Upstream, direct, is_root}
use context_bridge.Pipeline.Checkpoint.Accepted.{
  validate_graph-Upstream, validate_graph-acyclic, validate_graph-blocked,
}
use context_bridge.Pipeline.Transition.Saves.{start, save, Saves-Follows, Follows}
use context_bridge.Pipeline.Ready.{ready_set, collect, states_by_step, count_active, first_ready}
use context_bridge.Pipeline.Ready.Snapshot.{ready_set_bounded, ready_set_sound}

abbrev zeros : Text
zeros = codes "0000000000000000000000000000000000000000000000000000000000000000"

abbrev digest : Immutable → Text
digest v = zeros

abbrev node : Text → List Text → NodeState → Text → ℕ → Node
node s deps st job at = record {
  step = s;
  depends_on = deps;
  state = st;
  job_id = job;
  updated_at = at;
}

abbrev bound : Binding
bound = record {
  contract_version = contract_v1;
  mode = mode_dag;
  config_sha256 = zeros;
  graph_sha256 = zeros;
  max_parallel = pos 2;
  step_count = pos 3;
  edge_count = pos 2;
  order = codes "a" ∷ codes "b" ∷ codes "c" ∷ [];
}

abbrev a_completed : Node
a_completed = node (codes "a") [] completed (codes "job-a") 5

abbrev a_failed : Node
a_failed = node (codes "a") [] failed (codes "job-a") 5

abbrev a_running : Node
a_running = node (codes "a") [] running (codes "job-a") 4

abbrev b_ready : Node
b_ready = node (codes "b") (codes "a" ∷ []) ready [] 6

abbrev c_not_ready : Node
c_not_ready = node (codes "c") (codes "b" ∷ []) not_ready [] 3

abbrev blocked : Text → Text → Node
blocked s d = node s (d ∷ []) blocked_by_dependency [] 6

-- a is done, b may start, c waits for b.
abbrev advancing : List Node
advancing = c_not_ready ∷ b_ready ∷ a_completed ∷ []

-- a failed, which blocks b and, behind it, c.
abbrev stopped : List Node
stopped = blocked (codes "c") (codes "b") ∷ blocked (codes "b") (codes "a") ∷ a_failed ∷ []

advancing_accepted : validate_graph digest bound advancing ≡ ok tt
unfolding validate_graph check_node check_nodes check_dependency check_dependencies check_links
    check_order behind_all topological valid_sha256 valid_job_id all_chars has_dots lookup text_eq
    has trim_space state_eq valid_state requires_completed blocks_descendants
advancing_accepted = refl

stopped_accepted : validate_graph digest bound stopped ≡ ok tt
unfolding validate_graph check_node check_nodes check_dependency check_dependencies check_links
    check_order behind_all topological valid_sha256 valid_job_id all_chars has_dots lookup text_eq
    has trim_space state_eq valid_state requires_completed blocks_descendants
stopped_accepted = refl

-- b may not be ready while a is running.
early_refused :
    validate_graph digest bound (c_not_ready ∷ b_ready ∷ a_running ∷ [])
    ≡ err (started_too_early (codes "b"))
unfolding validate_graph check_node check_nodes check_dependency check_dependencies check_links
    check_order behind_all topological valid_sha256 valid_job_id all_chars has_dots lookup text_eq
    has trim_space state_eq valid_state requires_completed blocks_descendants
early_refused = refl

validate_graph-Upstream_example : a_completed.state ≡ completed
validate_graph-Upstream_example =
    validate_graph-Upstream digest bound advancing advancing_accepted
      (direct {n = b_ready} {m = a_completed} (inr (inl refl)) (inr (inr (inl refl)))
        (unfold has text_eq in refl))
      (unfold requires_completed in refl)

validate_graph-acyclic_example : ¬ Upstream advancing b_ready b_ready
validate_graph-acyclic_example =
    validate_graph-acyclic digest bound advancing b_ready advancing_accepted

validate_graph-blocked_example :
    (m : Node) × Upstream stopped (blocked (codes "c") (codes "b")) m × (is_root m.state ≡ true)
validate_graph-blocked_example =
    validate_graph-blocked digest bound stopped (blocked (codes "c") (codes "b")) stopped_accepted
      (inl refl) (unfold state_eq in refl)

abbrev run_of : List Node → Run
run_of nodes = record {
  id = codes "run-1";
  pipeline = codes "p";
  owner_subject = codes "owner";
  tenant_id = [];
  status = codes "running";
  graph = some bound;
  node_states = nodes;
  steps = [];
}

abbrev before_a : List Node
before_a = c_not_ready ∷ node (codes "b") (codes "a" ∷ []) not_ready [] 3 ∷ a_running ∷ []

abbrev after_a : List Node
after_a = c_not_ready ∷ node (codes "b") (codes "a" ∷ []) not_ready [] 3 ∷ a_completed ∷ []

first_saved : validate_transition (run_of before_a) (run_of after_a) ≡ ok tt
unfolding validate_transition check_graph_kept check_moves check_move texts_eq text_eq state_eq
    allowed moves
first_saved = refl

second_saved : validate_transition (run_of after_a) (run_of advancing) ≡ ok tt
unfolding validate_transition check_graph_kept check_moves check_move texts_eq text_eq state_eq
    allowed moves
second_saved = refl

-- A completed node does not run again.
return_refused :
    validate_transition (run_of after_a) (
      run_of (
        c_not_ready
        ∷ node (codes "b") (codes "a" ∷ []) not_ready [] 3
        ∷ node (codes "a") [] running (codes "job-a") 7
        ∷ []))
    ≡ err (forbidden_move (codes "a") completed running)
unfolding validate_transition check_graph_kept check_moves check_move texts_eq text_eq state_eq
    allowed moves
return_refused = refl

Saves-Follows_example :
    (some bound ≡ some bound)
    × ((m : Node) × (get_elem? advancing 2 ≡ some m) × Follows a_running m)
Saves-Follows_example =
    Saves-Follows bound 2 a_running
      (save {s = run_of after_a} (save {s = run_of before_a} start first_saved) second_saved) refl
      refl

b_offered : ready_set digest (run_of advancing) ≡ ok (codes "b" ∷ [])
unfolding ready_set validate_state collect states_by_step count_active validate_graph check_node
    check_nodes check_dependency check_dependencies check_links check_order behind_all topological
    valid_sha256 valid_job_id all_chars has_dots lookup text_eq has trim_space state_eq valid_state
    requires_completed blocks_descendants
b_offered = refl

ready_set_bounded_example :
    (codes "b" ∷ [] ≡ first_ready bound advancing)
    × ((codes "b" ∷ [] ≡ []) ⊎ (length (codes "b" ∷ []) + count_active advancing ≤ 2))
ready_set_bounded_example = ready_set_bounded digest (run_of advancing) bound refl b_offered

ready_set_sound_example :
    (n : Node) × In n advancing
    × (n.step ≡ codes "b")
    × (n.state ≡ ready)
    × ((m : Node) → Upstream advancing n m → m.state ≡ completed)
ready_set_sound_example =
    ready_set_sound digest (run_of advancing) bound (codes "b") refl b_offered (inl refl)
