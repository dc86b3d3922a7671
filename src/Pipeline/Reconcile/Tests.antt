-- ===== src/Pipeline/Reconcile/Tests.antt =====
-- Reconciliations of internal/cluster/store.go on a small run.
use context_bridge.Prelude.{ℕ, List, [], ◌∷◌, some, ◌≡◌, ◌≢◌, refl, arith, ok, inl, inr, In, take}
use context_bridge.Prelude.Int.{pos}
use context_bridge.Text.{Text, codes, text_eq, has, trim_space}
use context_bridge.Pipeline.Graph.{mode_dag}
use context_bridge.Pipeline.Graph.Edges.{lookup}
use context_bridge.Pipeline.NodeState.{
  NodeState, not_ready, ready, running, completed, failed, blocked_by_dependency, state_eq,
  valid_state, requires_completed, blocks_descendants, moves, allowed,
}
use context_bridge.Pipeline.Records.{Binding, Node, Job, Run}
use context_bridge.Pipeline.Checkpoint.{
  Immutable, contract_v1, validate_graph, validate_state, check_node, check_nodes, check_dependency,
  check_dependencies, check_links, check_order, behind_all, topological,
}
use context_bridge.Pipeline.Checkpoint.Identifiers.{valid_sha256, valid_job_id, all_chars, has_dots}
use context_bridge.Pipeline.Transition.{
  validate_transition, check_graph_kept, check_moves, check_move, texts_eq,
}
use context_bridge.Pipeline.Ready.{states_by_step}
use context_bridge.Pipeline.Propagation.{
  indices_by_step, propagate, visit_node, next_state, any_blocks, all_completed,
}
use context_bridge.Pipeline.Propagation.Quiet.{Quiet}
use context_bridge.Store.Events.{Event, append_event, delete, step_ready, step_blocked}
use context_bridge.Store.Events.Retention.{Retains, latest, newest_first}
use context_bridge.Pipeline.Reconcile.{
  Store, reconcile, next_run, append_changes, terminal_state, index_of, set_snapshot, log_of,
}
use context_bridge.Pipeline.Reconcile.Effects.{reconcile-Quiet, reconcile-child, reconcile-stored}
use context_bridge.Pipeline.Reconcile.Announced.{reconcile-Retains, node_event}
use context_bridge.Pipeline.Propagation.Changes.{change_events}

abbrev zeros : Text
zeros = codes "0000000000000000000000000000000000000000000000000000000000000000"

abbrev digest : Immutable → Text
digest v = zeros

abbrev node : Text → List Text → NodeState → Text → ℕ → Node
node s deps st job at = record {
  step = s;
  depends_on = deps;
  state = st;
  job_id = job;
  updated_at = at;
}

abbrev bound : Binding
bound = record {
  contract_version = contract_v1;
  mode = mode_dag;
  config_sha256 = zeros;
  graph_sha256 = zeros;
  max_parallel = pos 2;
  step_count = pos 3;
  edge_count = pos 2;
  order = codes "a" ∷ codes "b" ∷ codes "c" ∷ [];
}

-- The child of step a, in a status.
abbrev child : Text → Text → Job
child status code = record {
  id = codes "job-a";
  parent_id = codes "run-1";
  pipeline = codes "p";
  owner_subject = codes "owner";
  tenant_id = [];
  step = codes "a";
  status = status;
  failure_code = code;
  updated_at = 8;
}

abbrev run_of : List Node → Job → Run
run_of nodes job = record {
  id = codes "run-1";
  pipeline = codes "p";
  owner_subject = codes "owner";
  tenant_id = [];
  status = codes "running";
  graph = some bound;
  node_states = nodes;
  steps = job ∷ [];
}

-- c needs b, which needs a, which runs.
abbrev waiting : Run
waiting =
    run_of
      (node (codes "c") (codes "b" ∷ []) not_ready [] 3
        ∷ node (codes "b") (codes "a" ∷ []) not_ready [] 3
        ∷ node (codes "a") [] running (codes "job-a") 4
        ∷ [])
      (child (codes "running") [])

abbrev store_of : Job → Store
store_of job = record {
  runs = (codes "run-1", waiting) ∷ [];
  jobs = (codes "job-a", job) ∷ [];
  logs = [];
}

abbrev done : Job
done = child (codes "completed") []

abbrev broken : Job
broken = child (codes "failed") (codes "adapter_timeout")

-- a is completed at the job's time, which makes b ready, and leaves c waiting.
abbrev advanced : Run
advanced =
    run_of
      (node (codes "c") (codes "b" ∷ []) not_ready [] 3
        ∷ node (codes "b") (codes "a" ∷ []) ready [] 8
        ∷ node (codes "a") [] completed (codes "job-a") 8
        ∷ [])
      done

-- a failed, which blocks b, and through b also c.
abbrev stopped : Run
stopped =
    run_of
      (node (codes "c") (codes "b" ∷ []) blocked_by_dependency [] 9
        ∷ node (codes "b") (codes "a" ∷ []) blocked_by_dependency [] 9
        ∷ node (codes "a") [] failed (codes "job-a") 9
        ∷ [])
      broken

abbrev event : Text → ℕ → ℕ → Event
event step at n = record {
  run_id = codes "run-1";
  kind = step_blocked;
  time = at;
  step_id = step;
  sequence = n;
}

abbrev after_done : Store
after_done = record {
  runs = (codes "run-1", advanced) ∷ (codes "run-1", waiting) ∷ [];
  jobs = (codes "job-a", done) ∷ [];
  logs =
      (
        codes "run-1",
        record {
          sequence = 1;
          events =
              (
                1,
                record {
                  run_id = codes "run-1";
                  kind = step_ready;
                  time = 8;
                  step_id = codes "b";
                  sequence = 1;
                },
              )
              ∷ [];
        },
      )
      ∷ [];
}

abbrev after_broken : Store
after_broken = record {
  runs = (codes "run-1", stopped) ∷ (codes "run-1", waiting) ∷ [];
  jobs = (codes "job-a", broken) ∷ [];
  logs =
      (
        codes "run-1",
        record {
          sequence = 2;
          events = (2, event (codes "c") 9 2) ∷ (1, event (codes "b") 9 1) ∷ [];
        },
      )
      ∷ [];
}

done_reconciled :
    reconcile digest 7 (codes " run-1") (codes "job-a") (store_of done) ≡ ok (after_done, advanced)
unfolding reconcile next_run append_changes terminal_state index_of set_snapshot append_event delete
    states_by_step indices_by_step propagate visit_node next_state any_blocks all_completed
    validate_transition check_graph_kept check_moves check_move texts_eq allowed moves
    validate_state validate_graph check_node check_nodes check_dependency check_dependencies
    check_links check_order behind_all topological valid_sha256 valid_job_id all_chars has_dots
    lookup text_eq has trim_space state_eq valid_state requires_completed blocks_descendants
done_reconciled = refl

broken_reconciled :
    reconcile digest 9 (codes "run-1") (codes "job-a") (store_of broken)
    ≡ ok (after_broken, stopped)
unfolding reconcile next_run append_changes terminal_state index_of set_snapshot append_event delete
    states_by_step indices_by_step propagate visit_node next_state any_blocks all_completed
    validate_transition check_graph_kept check_moves check_move texts_eq allowed moves
    validate_state validate_graph check_node check_nodes check_dependency check_dependencies
    check_links check_order behind_all topological valid_sha256 valid_job_id all_chars has_dots
    lookup text_eq has trim_space state_eq valid_state requires_completed blocks_descendants
broken_reconciled = refl

reconcile-Quiet_example : Quiet advanced.node_states (node (codes "b") (codes "a" ∷ []) ready [] 8)
reconcile-Quiet_example =
    reconcile-Quiet digest 7 (codes " run-1") (codes "job-a") (store_of done)
      (node (codes "b") (codes "a" ∷ []) ready [] 8) done_reconciled (inr (inl refl))

reconcile-child_example :
    (job : Job) × (t : NodeState) × (m : Node) × (lookup
        (trim_space (codes "job-a"))
        (store_of broken).jobs
      ≡ some job)
    × (terminal_state job ≡ ok t)
    × In m stopped.node_states
    × (m.step ≡ job.step)
    × (m.state ≡ t)
reconcile-child_example =
    reconcile-child digest 9 (codes "run-1") (codes "job-a") (store_of broken) broken_reconciled

reconcile-stored_example :
    (run : Run) × (lookup (trim_space (codes "run-1")) (store_of broken).runs ≡ some run)
    × (stopped.id ≡ run.id)
    × (validate_transition run stopped ≡ ok tt)
    × (validate_state digest stopped ≡ ok tt)
    × (lookup stopped.id after_broken.runs ≡ some stopped)
    × ((t : Text) → t ≢ stopped.id → lookup t after_broken.runs ≡ lookup t (store_of broken).runs)
    × (after_broken.jobs ≡ (store_of broken).jobs)
reconcile-stored_example =
    reconcile-stored digest 9 (codes "run-1") (codes "job-a") (store_of broken) broken_reconciled

no_events : Retains (log_of stopped.id (store_of broken))
unfolding latest lookup text_eq
no_events = record {
  all_or_full = inl refl;
  bounded = omega arith;
  newest = refl;
  fits = omega arith;
}

reconcile-Retains_example :
    Retains (log_of stopped.id after_broken)
    × (run : Run) × (b : Binding) × (lookup (trim_space (codes "run-1")) (store_of broken).runs
        ≡ some run)
    × (run.graph ≡ some b)
    × ((log_of stopped.id after_broken).events
        ≡ take 256 (
            newest_first 9
              (log_of stopped.id (store_of broken)).sequence
              (change_events (node_event stopped) run.node_states stopped.node_states b.order)
              (log_of stopped.id (store_of broken)).events))
reconcile-Retains_example =
    reconcile-Retains digest 9 (codes "run-1") (codes "job-a") (store_of broken) broken_reconciled
      no_events
