-- ===== src/Pipeline/Graph/Edges.antt =====
-- internal/cluster/pipeline_graph.go: the dependency edges of a DAG, with the limits on them.
pub mod Linked
pub mod Balance
use context_bridge.Prelude.{
  ℕ, zero, suc, ◌+◌, ◌<◌, Bool, true, false, not, List, [], ◌∷◌, ◌++◌, Option, none, some, ltb,
  ◌==◌, if◌then◌else◌, length, set, get_or, Result, ok, err, ◌>>=◌, ◌>>◌, reject_if,
}
use context_bridge.Text.{Text, text_eq, has, trim_space}
use context_bridge.Pipeline.Graph.Template.{
  Step, PlanError, unknown_dependency, self_dependency, repeated_dependency, too_many_edges,
  too_many_dependants, too_many_dependencies, validate_template,
}

pub record Links : Type 0 where
  pub indegree : List ℕ
  pub children : List (List ℕ)
  pub edges : ℕ

abbrev pub maximum_fan : ℕ
maximum_fan = 32

abbrev pub maximum_edges : ℕ
maximum_edges = 1024

unfoldable pub lookup {ℓ} : {V : Type ℓ} → Text → List (Text × V) → Option V
lookup k [] = none
lookup k ((j, v) ∷ m) = if text_eq k j then some v else lookup k m

abbrev pub is_some {ℓ} : {A : Type ℓ} → Option A → Bool
is_some none = false
is_some (some a) = true

abbrev pub found : Option ℕ → PlanError → Result PlanError ℕ
found none e = err e
found (some i) e = ok i

-- One dependency of the step at `index`; `seen` is `seenDependencies`.
unfoldable pub link :
    List (Text × ℕ) → ℕ → Step → Text → Links → List Text → Result PlanError (Links × List Text)
link names index step raw links seen = do
  let dependency = trim_space raw
  d ← found (lookup dependency names) (unknown_dependency step.name dependency)
  reject_if (d == index) (self_dependency step.name)
  reject_if (has dependency seen) (repeated_dependency step.name dependency)
  let indegree = set links.indegree index (get_or links.indegree index 0 + 1)
  let dependants = get_or links.children d [] ++ index ∷ []
  reject_if (ltb maximum_edges (links.edges + 1)) too_many_edges
  reject_if (ltb maximum_fan (length dependants)) (too_many_dependants dependency)
  ok (
    record {
      indegree = indegree;
      children = set links.children d dependants;
      edges = links.edges + 1;
    },
    dependency ∷ seen,
  )

unfoldable pub link_all :
    List (Text × ℕ)
    → ℕ
    → Step
    → List Text
    → Links
    → List Text
    → Result PlanError (Links × List Text)
link_all names index step [] links seen = ok (links, seen)
link_all names index step (raw ∷ raws) links seen =
    link names index step raw links seen >>= λ r. link_all names index step raws r.0 r.1

-- The second loop over a DAG's steps.
unfoldable pub link_steps : List (Text × ℕ) → ℕ → List Step → Links → Result PlanError Links
link_steps names index [] links = ok links
link_steps names index (s ∷ ss) links = do
  reject_if (ltb maximum_fan (length s.depends_on)) (too_many_dependencies s.name)
  r ← link_all names index s s.depends_on links []
  validate_template s r.1
  link_steps names (suc index) ss r.0
