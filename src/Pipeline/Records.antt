-- ===== src/Pipeline/Records.antt =====
-- internal/cluster/types.go: a durable pipeline run, its graph binding, its node checkpoints and
-- its child jobs.
use context_bridge.Prelude.{ℕ, List, Option}
use context_bridge.Prelude.Int.{ℤ}
use context_bridge.Text.{Text}
use context_bridge.Pipeline.NodeState.{NodeState}

-- PipelineGraphBinding.
pub record Binding : Type 0 where
  pub contract_version : Text
  pub mode : Text
  pub config_sha256 : Text
  pub graph_sha256 : Text
  pub max_parallel : ℤ
  pub step_count : ℤ
  pub edge_count : ℤ
  pub order : List Text

-- PipelineNodeCheckpoint. A time counts from Go's zero time, which IsZero recognises.
pub record Node : Type 0 where
  pub step : Text
  pub depends_on : List Text
  pub state : NodeState
  pub job_id : Text
  pub updated_at : ℕ

-- Job, with the fields that the reconciliation of a DAG run reads.
pub record Job : Type 0 where
  pub id : Text
  pub parent_id : Text
  pub pipeline : Text
  pub owner_subject : Text
  pub tenant_id : Text
  pub step : Text
  pub status : Text
  pub failure_code : Text
  pub updated_at : ℕ

-- PipelineRun, with the fields that the graph checks and the reconciliation read.
pub record Run : Type 0 where
  pub id : Text
  pub pipeline : Text
  pub owner_subject : Text
  pub tenant_id : Text
  pub status : Text
  pub graph : Option Binding
  pub node_states : List Node
  pub steps : List Job
