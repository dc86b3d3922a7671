-- ===== src/Pipeline/Graph/Schedule.antt =====
-- What a plan of internal/cluster/pipeline_graph.go promises: every step once, and each in a later
-- layer than the steps that it depends on.
pub mod Start
pub mod Linear
pub mod Errors
pub mod Outcome
pub mod Limits
use context_bridge.Prelude.{ℕ, ◌<◌, ◌≡◌, true, List, length, count, map, Bool, false}
use context_bridge.Pipeline.Graph.Template.{Step}
use context_bridge.Pipeline.Graph.{Plan, step_name}
use context_bridge.Pipeline.Graph.Names.{requires}
use context_bridge.Pipeline.Graph.Rounds.Layers.{concat, layer_of}

-- Layers of step indices that hold each step once, behind what it requires.
pub record Schedules (steps : List Step) (layers : List (List ℕ)) : Type 0 where
  pub once : (i : ℕ) → i < length steps → count i (concat layers) ≡ 1
  pub only : (i : ℕ) → 0 < count i (concat layers) → i < length steps
  pub behind :
      (i d : ℕ)
      → i < length steps
      → d < length steps
      → requires steps i d ≡ true
      → layer_of d layers < layer_of i layers

-- The plan lists the steps' names by those layers.
abbrev pub Lists : List Step → List (List ℕ) → Plan → Type 0
Lists steps layers pl =
    (pl.order ≡ map (step_name steps) (concat layers))
    × (pl.layers ≡ map (map (step_name steps)) layers)
