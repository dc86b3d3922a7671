-- ===== src/Pipeline.antt =====
-- Pipelines of internal/cluster: the graph planner of pipeline_graph.go, the checkpointed node
-- states of pipeline_graph_state.go, the ready set of pipeline_dag_ready_set.go, and the
-- reconciliation of finished children in store.go.
pub mod Graph
pub mod NodeState
pub mod Records
pub mod Checkpoint
pub mod Transition
pub mod Ready
pub mod Propagation
pub mod Reconcile
