-- ===== src/Pipeline/Transition.antt =====
-- internal/cluster/pipeline_graph_state.go: what a later checkpoint of a run may change.
pub mod Saves
use context_bridge.Prelude.{
  ℕ, Bool, true, false, not, ◌&&◌, ◌||◌, List, [], ◌∷◌, Option, none, some, ltb, ◌==◌, length,
  Result, ok, err, ◌>>=◌, ◌>>◌, reject_if,
}
use context_bridge.Prelude.Int.{ℤ, pos, negsuc, int_eq}
use context_bridge.Text.{Text, text_eq}
use context_bridge.Pipeline.Graph.Template.{is_empty}
use context_bridge.Pipeline.NodeState.{allowed}
use context_bridge.Pipeline.Records.{Binding, Node, Run}
use context_bridge.Pipeline.Checkpoint.{
  CheckpointError, graph_added, graph_changed, node_changed, job_changed, time_backwards,
  forbidden_move,
}

unfoldable pub texts_eq : List Text → List Text → Bool
texts_eq [] [] = true
texts_eq (s ∷ ss) (t ∷ ts) = text_eq s t && texts_eq ss ts
texts_eq _ _ = false

-- reflect.DeepEqual of two bindings.
abbrev pub binding_eq : Binding → Binding → Bool
binding_eq a b =
    text_eq a.contract_version b.contract_version
    && (text_eq a.mode b.mode
        && (text_eq a.config_sha256 b.config_sha256
            && (text_eq a.graph_sha256 b.graph_sha256
                && (int_eq a.max_parallel b.max_parallel
                    && (int_eq a.step_count b.step_count
                        && (int_eq a.edge_count b.edge_count && texts_eq a.order b.order))))))

-- The body of the loop of validatePipelineRunGraphTransition.
unfoldable pub check_move : Node → Node → Result CheckpointError (Unit {0})
check_move before after = do
  reject_if
      (not (text_eq before.step after.step) || not (texts_eq before.depends_on after.depends_on))
      node_changed
  reject_if (not (is_empty before.job_id) && not (text_eq before.job_id after.job_id))
      (job_changed before.step)
  reject_if (ltb after.updated_at before.updated_at) (time_backwards before.step)
  reject_if (not (allowed before.state after.state))
      (forbidden_move before.step before.state after.state)

-- The two lists have one length where this is called.
unfoldable pub check_moves : List Node → List Node → Result CheckpointError (Unit {0})
check_moves (b ∷ bs) (a ∷ as') = check_move b a >> check_moves bs as'
check_moves _ _ = ok tt

unfoldable pub check_graph_kept :
    Option Binding → Option Binding → List Node → List Node → Result CheckpointError (Unit {0})
check_graph_kept (some a) (some b) before after = do
  reject_if (not (binding_eq a b) || not (length before == length after)) graph_changed
  check_moves before after
check_graph_kept none none before after =
    reject_if (not (length before == length after)) graph_added
check_graph_kept _ _ before after = err graph_added

-- validatePipelineRunGraphTransition.
unfoldable pub validate_transition : Run → Run → Result CheckpointError (Unit {0})
unfolding check_graph_kept
validate_transition previous next =
    check_graph_kept previous.graph next.graph previous.node_states next.node_states
