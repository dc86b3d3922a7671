-- ===== src/Pipeline/Graph/Tests.antt =====
-- Runs of the planner of internal/cluster/pipeline_graph.go on small pipelines.
use context_bridge.Prelude.{ℕ, ◌<◌, ◌≤◌, List, [], ◌∷◌, length, ◌≡◌, refl, ok, err, select, ◌≢◌}
use context_bridge.Prelude.Int.{pos}
use context_bridge.Text.{Text, codes, text_eq, has, trim_space, to_lower, cut, cut_suffix}
use context_bridge.Pipeline.Graph.Template.{
  Step, cycle, unfinished, validate_template, check_keys, check_key, template_undeclared,
}
use context_bridge.Pipeline.Graph.Edges.{
  lookup, link, link_all, link_steps, maximum_edges, maximum_fan,
}
use context_bridge.Pipeline.Graph.Edges.Linked.{step_deps}
use context_bridge.Pipeline.Graph.Rounds.{is_ready, decrement, round, plan_rounds}
use context_bridge.Pipeline.Graph.Schedule.{Schedules, Lists}
use context_bridge.Pipeline.Graph.Schedule.Outcome.{
  plan-Schedules, plan-Circular, plan-not_Circular, plan-finishes, Circular,
}
use context_bridge.Pipeline.Graph.Schedule.Limits.{plan_limits, dependency_count, dependants}
use context_bridge.Pipeline.Graph.{
  Pipeline, Plan, plan, plan_dag, index_names, iterates, step_name, effective_mode, mode_dag,
}

abbrev step : Text → List Text → Text → Step
step name deps input = record {
  name = name;
  depends_on = deps;
  input = input;
  continue_path = [];
  continue_equals = [];
  max_iterations = pos 0;
}

abbrev dag : List Step → Pipeline
dag steps = record {
  mode = codes " DAG ";
  max_parallel = pos 4;
  max_iterations = pos 0;
  steps = steps;
}

-- `join` is declared first, and needs both branches; the branches need `load`.
abbrev diamond : Pipeline
diamond = dag (
    step (codes "join") (codes "left" ∷ codes " right" ∷ []) (codes "${steps.left.output}")
    ∷ step (codes "left") (codes "load" ∷ []) (codes "${input}")
    ∷ step (codes "right") (codes "load" ∷ []) (codes "r")
    ∷ step (codes "load") [] (codes "x")
    ∷ [])

abbrev diamond_plan : Plan
diamond_plan = record {
  mode = mode_dag;
  max_parallel = pos 4;
  edge_count = 4;
  order = codes "load" ∷ codes "left" ∷ codes "right" ∷ codes "join" ∷ [];
  layers = (codes "load" ∷ []) ∷ (codes "left" ∷ codes "right" ∷ []) ∷ (codes "join" ∷ []) ∷ [];
}

diamond_planned : plan diamond ≡ ok diamond_plan
unfolding plan plan_dag effective_mode index_names iterates step_name lookup link link_all
    link_steps validate_template check_keys check_key is_ready round decrement plan_rounds to_lower
    trim_space text_eq has cut cut_suffix select
diamond_planned = refl

plan-Schedules_example :
    (layers : List (List ℕ)) × Schedules diamond.steps layers
    × Lists diamond.steps layers diamond_plan
plan-Schedules_example = plan-Schedules diamond diamond_planned

plan-not_Circular_example : ¬ Circular diamond.steps
plan-not_Circular_example = plan-not_Circular diamond diamond_planned

plan_limits_example :
    (diamond_plan.edge_count ≡ dependency_count diamond.steps)
    × (diamond_plan.edge_count ≤ maximum_edges)
    × ((i : ℕ) → length (step_deps diamond.steps i) ≤ maximum_fan)
    × ((d : ℕ) → d < length diamond.steps → length (dependants diamond.steps d) ≤ maximum_fan)
plan_limits_example = plan_limits diamond diamond_planned

-- Two steps that need each other, behind one that is free.
abbrev knot : Pipeline
knot = dag (
    step (codes "free") [] (codes "x")
    ∷ step (codes "a") (codes "b" ∷ []) (codes "x")
    ∷ step (codes "b") (codes "a" ∷ []) (codes "x")
    ∷ [])

knot_refused : plan knot ≡ err cycle
unfolding plan plan_dag effective_mode index_names iterates step_name lookup link link_all
    link_steps validate_template check_keys check_key is_ready round decrement plan_rounds to_lower
    trim_space text_eq has cut cut_suffix select
knot_refused = refl

plan-Circular_example : Circular knot.steps
plan-Circular_example = plan-Circular knot knot_refused

plan-finishes_example : plan knot ≢ err unfinished
plan-finishes_example = plan-finishes knot

-- A template may name only declared dependencies.
undeclared_refused :
    plan (dag (step (codes "a") [] (codes "${steps.b.output}") ∷ []))
    ≡ err (template_undeclared (codes "a") (codes "b"))
unfolding plan plan_dag effective_mode index_names iterates step_name lookup link link_all
    link_steps validate_template check_keys check_key is_ready round decrement plan_rounds to_lower
    trim_space text_eq has cut cut_suffix select
undeclared_refused = refl
