-- ===== src/Jobs/Complete/Retry.antt =====
-- internal/cluster/store.go: preExecutionRetryAllowed and usageHasNoExecutionEvidence.
use context_bridge.Prelude.{ℕ, Bool, true, not, ◌&&◌, ◌||◌, List, [], ◌∷◌, Option, none, some, ◌==◌}
use context_bridge.Prelude.Int.{ltb_ℤ, is_zero_ℤ}
use context_bridge.Text.{Text, text_eq, trim_space}
use context_bridge.Pipeline.Graph.Template.{is_empty}
use context_bridge.Pipeline.Graph.Edges.{is_some}
use context_bridge.Jobs.Records.{Job, Usage, Execution, Envelope, assigned, status_eq, positive}
use context_bridge.Jobs.Labels.{is_adapter}
use context_bridge.Jobs.Failures.{worker_capacity, worker_stopping}
use context_bridge.Jobs.Tables.{blank}

-- What a worker reports when a job has ended.
pub record Report : Type 0 where
  pub result : List ℕ
  pub sealed : Option Envelope
  pub usage : Usage
  pub error : Text
  pub failure_code : Text
  pub execution : List (Option Execution)

-- A float64 is zero: its bits are 0, or the sign alone.
abbrev pub is_zero_float : ℕ → Bool
is_zero_float bits = bits == 0 || bits == 9223372036854775808

-- usageHasNoExecutionEvidence.
unfoldable pub no_evidence : Usage → Bool
no_evidence u =
    u.input_tokens == 0
    && (u.output_tokens == 0
        && (u.total_tokens == 0
            && (u.compute_ms == 0
                && (u.queue_ms == 0
                    && (is_zero_float u.reserved_cost
                        && (is_zero_float u.estimated_cost
                            && (is_zero_float u.equivalent_cost
                                && (is_zero_float u.saved_cost
                                    && (u.peak_vram_bytes == 0
                                        && (u.peak_ram_bytes == 0
                                            && (is_zero_ℤ u.peak_gpu_utilization
                                                && is_empty u.resource_scope)))))))))))

-- The first record of execution metadata, if it is given.
abbrev pub first_execution : Report → Option Execution
first_execution r = elim r.execution [ [] ↦ none | e ∷ es ↦ e ]

abbrev pub no_execution : Option Execution → Bool
no_execution none = true
no_execution (some e) = is_zero_ℤ e.adapter_endpoint_id && not e.ephemeral_adapter_endpoint

-- preExecutionRetryAllowed. `reported` is the class that the worker sent, the report has the
-- normalized one.
unfoldable pub retry_allowed : Job → Text → Report → Bool
unfolding no_evidence
retry_allowed j reported r =
    status_eq j.status assigned
    && (positive j.attempt
        && (ltb_ℤ j.attempt j.max_attempts
            && (not (blank r.error)
                && (not (is_adapter (trim_space j.requirements.provider))
                    && (text_eq reported r.failure_code
                        && ((text_eq r.failure_code worker_capacity
                              || text_eq r.failure_code worker_stopping)
                            && (is_empty r.result
                                && (not (is_some r.sealed)
                                    && (no_evidence r.usage
                                        && no_execution (first_execution r))))))))))
