-- ===== src/Pipeline/Graph/Template.antt =====
-- internal/cluster/pipeline_graph.go: a step of a pipeline, the refusals of the planner, and
-- validateDAGTemplate, the check of a step's input template.
use context_bridge.Prelude.{
  ℕ, zero, suc, Bool, true, false, List, [], ◌∷◌, Option, none, some, if◌then◌else◌, length, Result,
  ok, err, ◌>>◌, reject_if,
}
use context_bridge.Prelude.Int.{ℤ}
use context_bridge.Text.{Text, codes, text_eq, has, trim_space, cut, cut_prefix, cut_suffix}

-- PipelineStep, with the fields that the planner reads.
pub record Step : Type 0 where
  pub name : Text
  pub depends_on : List Text
  pub input : Text
  pub continue_path : Text
  pub continue_equals : Text
  pub max_iterations : ℤ

-- The errors, each with the names that its message prints.
pub data PlanError : Type 0 where
  unsupported_mode no_steps linear_parallel parallel_range dag_iterations empty_name : PlanError
  linear_dependency repeated_name iteration_fields too_many_dependencies : Text → PlanError
  unknown_dependency repeated_dependency : Text → Text → PlanError
  self_dependency too_many_dependants : Text → PlanError
  too_many_edges cycle unfinished : PlanError
  template_empty template_unresolved template_previous : Text → PlanError
  template_unsupported template_undeclared : Text → Text → PlanError

abbrev pub is_empty {ℓ} : {A : Type ℓ} → List A → Bool
is_empty [] = true
is_empty (x ∷ xs) = false

-- `${steps.X.output}` names X.
unfoldable pub output_of : Text → Option Text
output_of key = elim (cut_prefix (codes "steps.") key) [
  | none ↦ none
  | some rest ↦ elim (cut_suffix (codes ".output") key) [
    | none ↦ none
    | some front ↦ elim (cut_suffix (codes ".output") rest) [ none ↦ some rest | some x ↦ some x ]
  ]
]

-- One placeholder's key, between `${` and `}`.
unfoldable pub check_key : Text → List Text → Text → Result PlanError (Unit {0})
unfolding output_of
check_key step dependencies key =
    if text_eq key (codes "input")
    then ok tt
    else if text_eq key (codes "previous")
    then err (template_previous step)
    else elim (output_of key) [
      | none ↦ err (template_unsupported step key)
      | some dependency ↦
          if has dependency dependencies then ok tt else err (template_undeclared step dependency)
    ]

-- The loop over the template: each round consumes a placeholder, so `length template` rounds
-- suffice.
unfoldable pub check_keys : ℕ → Text → List Text → Text → Result PlanError (Unit {0})
check_keys zero step dependencies template = elim template [ [] ↦ ok tt | _ ∷ _ ↦ err unfinished ]
check_keys (suc fuel) step dependencies template = elim (cut (codes "${") template) [
  | none ↦ ok tt
  | some (_, behind) ↦ elim (cut (codes "}") behind) [
    | none ↦ err (template_unresolved step)
    | some (key, rest) ↦ elim (check_key step dependencies key) [
      | err e ↦ err e
      | ok _ ↦ check_keys fuel step dependencies rest
    ]
  ]
]

-- validateDAGTemplate.
unfoldable pub validate_template : Step → List Text → Result PlanError (Unit {0})
validate_template s dependencies =
    let template = trim_space s.input in
    reject_if (is_empty template) (template_empty s.name)
    >> check_keys (length template) s.name dependencies template
