-- ===== src/Pipeline/Graph/Rounds.antt =====
-- internal/cluster/pipeline_graph.go: the rounds of the planner, each of which takes every step
-- whose dependencies are all processed (Kahn's algorithm, layer by layer).
pub mod Layers
pub mod Counters
pub mod Invariant
pub mod Outcome
use context_bridge.Prelude.{
  ℕ, zero, suc, ◌+◌, ◌-◌, Bool, true, false, not, ◌&&◌, List, [], ◌∷◌, ◌++◌, map, ltb, ◌==◌, length,
  set, get_or, Result, ok, err, select,
}
use context_bridge.Pipeline.Graph.Template.{PlanError, cycle, unfinished}

pub record Progress {ℓ} (A : Type ℓ) : Type ℓ where
  pub processed : List Bool
  pub remaining : List ℕ
  pub order : List A
  pub layers : List (List A)

unfoldable pub is_ready : List Bool → List ℕ → ℕ → Bool
is_ready processed remaining i = not (get_or processed i false) && get_or remaining i 0 == 0

unfoldable pub mark : List Bool → List ℕ → List Bool
mark processed [] = processed
mark processed (i ∷ is) = mark (set processed i true) is

-- `remaining[child]--`. A counter is the number of unprocessed dependencies, so it is not 0 here.
unfoldable pub decrement : List ℕ → List ℕ → List ℕ
decrement remaining [] = remaining
decrement remaining (c ∷ cs) = decrement (set remaining c (get_or remaining c 0 - 1)) cs

unfoldable pub release : List (List ℕ) → List ℕ → List ℕ → List ℕ
release children remaining [] = remaining
release children remaining (i ∷ is) =
    release children (decrement remaining (get_or children i [])) is

-- One round, with the ready steps that it found.
unfoldable pub round {ℓ} : {A : Type ℓ} → (ℕ → A) → List (List ℕ) → List ℕ → Progress A → Progress A
unfolding mark release
round name children ready s = record {
  processed = mark s.processed ready;
  remaining = release children s.remaining ready;
  order = s.order ++ map name ready;
  layers = s.layers ++ map name ready ∷ [];
}

-- The loop `for len(order) < len(steps)`. Each round adds a step to the order.
unfoldable pub plan_rounds {ℓ} :
    {A : Type ℓ} → (ℕ → A) → ℕ → List (List ℕ) → ℕ → Progress A → Result PlanError (Progress A)
plan_rounds name n children zero s = err unfinished
plan_rounds name n children (suc fuel) s = elim (ltb (length s.order) n) [
  | false ↦ ok s
  | true ↦ elim (select (is_ready s.processed s.remaining) 0 n) [
    | [] ↦ err cycle
    | i ∷ is ↦ plan_rounds name n children fuel (round name children (i ∷ is) s)
  ]
]
