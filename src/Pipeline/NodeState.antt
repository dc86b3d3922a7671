-- ===== src/Pipeline/NodeState.antt =====
-- internal/cluster/pipeline_graph_state.go and store.go: the states of a graph node, and which
-- moves between them a checkpoint may record.
use context_bridge.Prelude.{Bool, true, false, ◌||◌, ◌≡◌, refl, ap, arith}
use context_bridge.Text.{Text, text_eq, eq_of_text_eq, text_eq_refl}

-- The state strings. `other` is any string that is no state; a checkpoint with it is refused.
pub data NodeState : Type 0 where
  not_ready ready queued running completed failed cancelled : NodeState
  blocked_by_dependency ambiguous : NodeState
  other : Text → NodeState

unfoldable pub state_eq : NodeState → NodeState → Bool
state_eq not_ready not_ready = true
state_eq ready ready = true
state_eq queued queued = true
state_eq running running = true
state_eq completed completed = true
state_eq failed failed = true
state_eq cancelled cancelled = true
state_eq blocked_by_dependency blocked_by_dependency = true
state_eq ambiguous ambiguous = true
state_eq (other s) (other t) = text_eq s t
state_eq _ _ = false

-- validPipelineNodeState.
unfoldable pub valid_state : NodeState → Bool
valid_state (other s) = false
valid_state _ = true

-- pipelineNodeRequiresCompletedDependencies.
unfoldable pub requires_completed : NodeState → Bool
requires_completed ready = true
requires_completed queued = true
requires_completed running = true
requires_completed completed = true
requires_completed failed = true
requires_completed ambiguous = true
requires_completed _ = false

-- pipelineNodeBlocksDescendants.
unfoldable pub blocks_descendants : NodeState → Bool
blocks_descendants failed = true
blocks_descendants cancelled = true
blocks_descendants ambiguous = true
blocks_descendants blocked_by_dependency = true
blocks_descendants _ = false

-- The `switch` of allowedPipelineNodeTransition.
unfoldable pub moves : NodeState → NodeState → Bool
moves not_ready ready = true
moves not_ready blocked_by_dependency = true
moves not_ready cancelled = true
moves ready queued = true
moves ready failed = true
moves ready cancelled = true
moves ready blocked_by_dependency = true
moves queued running = true
moves queued completed = true
moves queued failed = true
moves queued cancelled = true
moves queued ambiguous = true
moves running completed = true
moves running failed = true
moves running cancelled = true
moves running ambiguous = true
moves _ _ = false

-- allowedPipelineNodeTransition.
unfoldable pub allowed : NodeState → NodeState → Bool
unfolding moves
allowed before after = state_eq before after || moves before after

-- A dispatched child occupies one of the run's parallel slots.
abbrev pub is_active : NodeState → Bool
is_active queued = true
is_active running = true
is_active _ = false

pub eq_of_state_eq : (s t : NodeState) → state_eq s t ≡ true → s ≡ t
unfolding state_eq
eq_of_state_eq (other s) (other t) h = ap other (eq_of_text_eq s t h)
eq_of_state_eq s t h = ground arith

pub state_eq_refl : (s : NodeState) → state_eq s s ≡ true
unfolding state_eq
state_eq_refl (other s) = text_eq_refl s
state_eq_refl _ = refl
