-- ===== src/Pipeline/Graph/Schedule/Linear.antt =====
-- The plan of a linear pipeline (internal/cluster/pipeline_graph.go): one layer for each step, in
-- declaration order.
use context_bridge.Prelude.{
  ℕ, zero, suc, ◌+◌, ◌<◌, false, not, ◌&&◌, List, [], ◌∷◌, ◌++◌, map, length, ◌≡◌, refl, sym, ap,
  ◌∙◌, arith, count, Result, ok, err, >>-eq-ok, ltb, leb, if◌then◌else◌,
}
use context_bridge.Text.{Text, has}
use context_bridge.Pipeline.Graph.Template.{Step, PlanError, is_empty}
use context_bridge.Pipeline.Graph.Edges.Linked.{step_deps}
use context_bridge.Pipeline.Graph.Rounds.Layers.{concat, append_assoc, append-nil}
use context_bridge.Pipeline.Graph.Names.{requires}
use context_bridge.Pipeline.Graph.{Plan, plan_linear, step_name}
use context_bridge.Pipeline.Graph.Schedule.{Schedules, Lists}

singles : ℕ → ℕ → List (List ℕ)
singles i zero = []
singles i (suc k) = (i ∷ []) ∷ singles (suc i) k

count-singles :
    (x i k : ℕ) → count x (concat (singles i k)) ≡ (if leb i x && ltb x (i + k) then 1 else 0)
unfolding singles count
count-singles x i zero = ground arith
count-singles x i (suc k) = ground (arith, count-singles x (suc i) k)

empty_cases : {A : Type 0} (xs : List A) → not (is_empty xs) ≡ false → xs ≡ []
empty_cases [] h = refl
empty_cases (x ∷ xs) h = cc

pub plan_linear-eq-ok :
    (s : Step) (ss : List Step) (order : List Text) (layers : List (List Text)) {pl : Plan}
    → plan_linear (s ∷ ss) order layers ≡ ok pl
    → (s.depends_on ≡ [])
      × (plan_linear ss (order ++ s.name ∷ []) (layers ++ (s.name ∷ []) ∷ []) ≡ ok pl)
unfolding plan_linear
plan_linear-eq-ok s ss order layers e =
    let (free, rest) = >>-eq-ok (not (is_empty s.depends_on)) _ _ e in
    (empty_cases s.depends_on free, rest)

pub no_deps :
    (ss : List Step) (order : List Text) (layers : List (List Text)) {pl : Plan}
    → plan_linear ss order layers ≡ ok pl
    → (i : ℕ) → step_deps ss i ≡ []
unfolding step_deps
no_deps [] order layers e i = refl
no_deps (s ∷ ss) order layers e zero = (plan_linear-eq-ok s ss order layers e).0
no_deps (s ∷ ss) order layers e (suc i) =
    no_deps ss (order ++ s.name ∷ []) (layers ++ (s.name ∷ []) ∷ [])
      (plan_linear-eq-ok s ss order layers e).1 i

-- The fields of a plan that was returned.
order_of : Result PlanError Plan → List Text
order_of (ok pl) = pl.order
order_of (err e) = []

layers_of : Result PlanError Plan → List (List Text)
layers_of (ok pl) = pl.layers
layers_of (err e) = []

lists_from :
    (f : ℕ → Text) (i : ℕ) (ss : List Step) (order : List Text) (layers : List (List Text))
    {pl : Plan}
    → ((k : ℕ) → k < length ss → step_name ss k ≡ f (i + k))
    → plan_linear ss order layers ≡ ok pl
    → (pl.order ≡ order ++ map f (concat (singles i (length ss))))
      × (pl.layers ≡ layers ++ map (map f) (singles i (length ss)))
unfolding singles step_name plan_linear order_of layers_of
lists_from f i [] order layers {pl} h e =
    (rw append-nil (ap (λ q. order_of q) (sym e)), rw append-nil (ap (λ q. layers_of q) (sym e)))
lists_from f i (s ∷ ss) order layers {pl} h e =
    let rest = (plan_linear-eq-ok s ss order layers e).1 in
    let r =
      lists_from f (suc i) ss (order ++ s.name ∷ []) (layers ++ (s.name ∷ []) ∷ [])
        (λ k l. h (suc k) (omega arith) ∙ ap f (omega arith)) rest in
    let named : s.name ≡ f i = h 0 (omega arith) ∙ ap f (omega arith) in
    (
      r.0 ∙ rw named (append_assoc order (f i ∷ []) (map f (concat (singles (suc i) (length ss))))),
      r.1 ∙ rw named (append_assoc layers _ _),
    )

pub plan_linear-Schedules :
    (steps : List Step) {pl : Plan}
    → plan_linear steps [] [] ≡ ok pl
    → (layers : List (List ℕ)) × Schedules steps layers × Lists steps layers pl
plan_linear-Schedules steps e = (
  singles 0 (length steps),
  record {
    once = λ i h. ground (arith, count-singles i 0 (length steps));
    only = λ i h. ground (arith, count-singles i 0 (length steps));
    behind = λ i d h k r. unfold requires has in cc (no_deps steps [] [] e i);
  },
  lists_from (step_name steps) 0 steps [] [] (λ k l. ap (step_name steps) (omega arith)) e,
)
