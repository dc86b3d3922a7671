-- ===== src/Pipeline/Graph.antt =====
-- internal/cluster/pipeline_graph.go: the plan of a pipeline before any child job exists.
pub mod Template
pub mod Edges
pub mod Rounds
pub mod Names
pub mod Schedule
mod Tests
use context_bridge.Prelude.{
  ℕ, zero, suc, ◌+◌, ◌<◌, Bool, true, false, not, ◌&&◌, ◌||◌, List, [], ◌∷◌, ◌++◌, Option, none,
  some, ltb, if◌then◌else◌, length, Result, ok, err, ◌>>=◌, ◌>>◌, reject_if, replicate, select,
}
use context_bridge.Prelude.Int.{ℤ, pos, ltb_ℤ, is_zero_ℤ}
use context_bridge.Text.{Text, codes, text_eq, has, trim_space, to_lower}
use Template.{
  PlanError, unsupported_mode, no_steps, linear_parallel, linear_dependency, parallel_range,
  dag_iterations, empty_name, repeated_name, iteration_fields, is_empty, Step,
}
use Edges.{Links, lookup, is_some, link_steps}
use Rounds.{Progress, plan_rounds}

pub record Pipeline : Type 0 where
  pub mode : Text
  pub max_parallel : ℤ
  pub max_iterations : ℤ
  pub steps : List Step

pub record Plan : Type 0 where
  pub mode : Text
  pub max_parallel : ℤ
  pub edge_count : ℕ
  pub order : List Text
  pub layers : List (List Text)

abbrev pub mode_linear : Text
mode_linear = codes "linear"

abbrev pub mode_dag : Text
mode_dag = codes "dag"

abbrev pub maximum_parallelism : ℕ
maximum_parallelism = 16

unfoldable pub effective_mode : Pipeline → Text
effective_mode p =
    let mode = to_lower (trim_space p.mode) in if is_empty mode then mode_linear else mode

-- The loop over the steps of a linear pipeline: each is a layer of its own.
unfoldable pub plan_linear : List Step → List Text → List (List Text) → Result PlanError Plan
plan_linear [] order layers = ok (record {
  mode = mode_linear;
  max_parallel = pos 1;
  edge_count = 0;
  order = order;
  layers = layers;
})
plan_linear (s ∷ ss) order layers = do
  reject_if (not (is_empty s.depends_on)) (linear_dependency s.name)
  plan_linear ss (order ++ s.name ∷ []) (layers ++ (s.name ∷ []) ∷ [])

-- The fields that only a linear pipeline's step may set.
unfoldable pub iterates : Step → Bool
iterates s =
    not (is_zero_ℤ s.max_iterations)
    || not (is_empty (trim_space s.continue_path))
    || not (is_empty (trim_space s.continue_equals))

-- The first loop over a DAG's steps: `indexByName`, with the checks on each step alone.
unfoldable pub index_names : ℕ → List Step → List (Text × ℕ) → Result PlanError (List (Text × ℕ))
index_names i [] names = ok names
index_names i (s ∷ ss) names = do
  let name = trim_space s.name
  reject_if (is_empty name) empty_name
  reject_if (is_some (lookup name names)) (repeated_name name)
  reject_if (iterates s) (iteration_fields name)
  index_names (suc i) ss ((name, i) ∷ names)

unfoldable pub step_name : List Step → ℕ → Text
step_name [] i = []
step_name (s ∷ ss) zero = s.name
step_name (s ∷ ss) (suc i) = step_name ss i

abbrev pub no_links : ℕ → Links
no_links n = record { indegree = replicate n 0; children = replicate n []; edges = 0 }

abbrev pub start : ℕ → List ℕ → Progress Text
start n indegree = record {
  processed = replicate n false;
  remaining = indegree;
  order = [];
  layers = [];
}

unfoldable pub plan_dag : Pipeline → Result PlanError Plan
plan_dag p = do
  reject_if (ltb_ℤ p.max_parallel (pos 1) || ltb_ℤ (pos maximum_parallelism) p.max_parallel)
      parallel_range
  reject_if (not (is_zero_ℤ p.max_iterations)) dag_iterations
  let n = length p.steps
  names ← index_names 0 p.steps []
  links ← link_steps names 0 p.steps (no_links n)
  progress ← plan_rounds (step_name p.steps) n links.children (suc n) (start n links.indegree)
  ok (record {
    mode = mode_dag;
    max_parallel = p.max_parallel;
    edge_count = links.edges;
    order = progress.order;
    layers = progress.layers;
  })

-- PlanPipelineGraph.
unfoldable pub plan : Pipeline → Result PlanError Plan
plan p =
    let mode = effective_mode p in
    reject_if (not (text_eq mode mode_linear) && not (text_eq mode mode_dag)) unsupported_mode
    >> (reject_if (is_empty p.steps) no_steps
        >> (if text_eq mode mode_linear
            then (reject_if (not (is_zero_ℤ p.max_parallel)) linear_parallel
                >> plan_linear p.steps [] [])
            else plan_dag p))
