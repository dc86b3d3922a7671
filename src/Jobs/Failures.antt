-- ===== src/Jobs/Failures.antt =====
-- internal/cluster/failure_codes.go: the stable classes of a failed execution.
pub mod Stable
use context_bridge.Prelude.{
  Bool, true, false, not, ◌&&◌, ◌||◌, List, [], ◌∷◌, ◌++◌, Option, none, some, if◌then◌else◌,
}
use context_bridge.Text.{Text, codes, text_eq, trim_space, to_lower, cut_prefix, cut, has}
use context_bridge.Pipeline.Graph.Template.{is_empty}
use context_bridge.Pipeline.Graph.Edges.{is_some}

abbrev pub worker_capacity : Text
worker_capacity = codes "worker_capacity_exceeded"

abbrev pub worker_stopping : Text
worker_stopping = codes "worker_stopping"

abbrev pub worker_execution : Text
worker_execution = codes "worker_execution_failed"

abbrev pub worker_result_rejected : Text
worker_result_rejected = codes "worker_result_rejected"

abbrev pub state_ambiguous : Text
state_ambiguous = codes "execution_state_ambiguous"

abbrev pub timeout_ambiguous : Text
timeout_ambiguous = codes "execution_timeout_ambiguous"

abbrev pub reservation_expired : Text
reservation_expired = codes "encrypted_reservation_expired"

-- stableFailureCodeList.
abbrev pub stable_codes : List Text
stable_codes =
    codes "adapter_automation_error"
    ∷ codes "adapter_rate_limited"
    ∷ codes "adapter_timeout"
    ∷ codes "artifact_requirement_unsatisfied"
    ∷ codes "cost_budget_exceeded"
    ∷ codes "cost_budget_unverifiable"
    ∷ reservation_expired
    ∷ state_ambiguous
    ∷ timeout_ambiguous
    ∷ codes "pipeline_parent_terminal"
    ∷ codes "pool_authorization_rejected"
    ∷ codes "provider_route_unavailable"
    ∷ worker_capacity
    ∷ codes "worker_execution_cancelled"
    ∷ worker_execution
    ∷ codes "worker_execution_timeout"
    ∷ worker_result_rejected
    ∷ worker_stopping
    ∷ []

abbrev pub has_prefix : Text → Text → Bool
has_prefix prefix value = is_some (cut_prefix prefix value)

-- `value == code || strings.HasPrefix(value, code+":")`.
abbrev pub names_code : Text → Text → Bool
names_code code value = text_eq value code || has_prefix (code ++ codes ":") value

abbrev pub misses : Text → Bool
misses value =
    has_prefix (codes "artifacts_missing:") value
    || has_prefix (codes "images_missing:") value
    || has_prefix (codes "music_missing:") value

-- A switch without a tag: the first case that holds.
abbrev pub first_case : List (Bool × Text) → Text → Text
first_case [] otherwise = otherwise
first_case ((holds, code) ∷ cases) otherwise = if holds then code else first_case cases otherwise

abbrev pub named : Text → Text → Bool × Text
named code value = (names_code code value, code)

-- The cases of failureCodeFromText, of the trimmed message in lower case.
unfoldable pub cases_of : Text → List (Bool × Text)
unfolding cut_prefix cut
cases_of value =
    named state_ambiguous value
    ∷ named (codes "adapter_rate_limited") value
    ∷ named (codes "adapter_timeout") value
    ∷ named (codes "adapter_automation_error") value
    ∷ named (codes "cost_budget_exceeded") value
    ∷ named (codes "cost_budget_unverifiable") value
    ∷ (misses value, codes "artifact_requirement_unsatisfied")
    ∷ (
      has_prefix (codes "provider_not_bound_to_local_route:") value,
      codes "provider_route_unavailable",
    )
    ∷ (is_some (cut (codes "worker capacity exceeded") value), worker_capacity)
    ∷ (is_some (cut (codes "worker is stopping") value), worker_stopping)
    ∷ []

unfoldable pub code_from_text : Text → Text
unfolding cases_of trim_space
code_from_text message = first_case (cases_of (to_lower (trim_space message))) worker_execution

-- normalizedWorkerFailureCode.
unfoldable pub normalized_code : Text → Text → Text
unfolding code_from_text
normalized_code reported message =
    if is_empty message
    then []
    else if has reported stable_codes
    then reported
    else code_from_text message

-- sealedJobFailureMessage.
unfoldable pub sealed_message : Text → Text
sealed_message code =
    codes "sealed job failed: " ++ (if has code stable_codes then code else worker_execution)
