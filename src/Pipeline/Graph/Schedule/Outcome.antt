-- ===== src/Pipeline/Graph/Schedule/Outcome.antt =====
-- What PlanPipelineGraph of internal/cluster/pipeline_graph.go returns, in both modes.
use context_bridge.Prelude.{
  ℕ, zero, suc, ◌-◌, ◌≤◌, ◌<◌, Bool, true, false, not, ◌&&◌, ◌||◌, List, [], length, get_or,
  replicate, leb, ◌≡◌, ◌≢◌, refl, ap, ◌∙◌, arith, count, count-select, count-le-length, Result, ok,
  err, ◌>>=◌, >>=-eq-ok, >>-eq-ok, Bool-cases, inl, inr, ◌⊎◌, length-map, count_pos_of_length,
}
use context_bridge.Prelude.Int.{pos, ltb_ℤ, is_zero_ℤ}
use context_bridge.Text.{Text, text_eq}
use context_bridge.Pipeline.Graph.Template.{Step, PlanError, cycle, unfinished, is_empty}
use context_bridge.Pipeline.Graph.Edges.{Links, link_steps}
use context_bridge.Pipeline.Graph.Edges.Linked.{
  has_edge, step_deps, resolves, link_steps-keeps, link_steps-edges,
}
use context_bridge.Pipeline.Graph.Edges.Balance.{Balanced, Balanced-add}
use context_bridge.Pipeline.Graph.Rounds.{Progress, plan_rounds}
use context_bridge.Pipeline.Graph.Rounds.Layers.{concat, layer_of}
use context_bridge.Pipeline.Graph.Rounds.Invariant.{Inv, pending}
use context_bridge.Pipeline.Graph.Rounds.Outcome.{
  plan_rounds-Inv, plan_rounds-cycle, IsStuck, plan_rounds-finishes,
}
use context_bridge.Pipeline.Graph.Names.{requires, resolves-requires, in_range}
use context_bridge.Pipeline.Graph.{
  Pipeline, Plan, plan, plan_dag, plan_linear, index_names, step_name, no_links, start, mode_linear,
  mode_dag, effective_mode, maximum_parallelism,
}
use context_bridge.Pipeline.Graph.Schedule.{Schedules, Lists}
use context_bridge.Pipeline.Graph.Schedule.Start.{get_or-replicate, Balanced-no_links, start-Inv}
use context_bridge.Pipeline.Graph.Schedule.Linear.{plan_linear-Schedules}
use context_bridge.Pipeline.Graph.Schedule.Errors.{
  Direct, index_names-Direct, link_steps-Direct, plan_linear-Direct, from_rounds, >>=-eq-err,
  guard-eq-err,
}

-- A set of steps each of which requires another of the set.
abbrev pub Circular : List Step → Type 0
Circular steps =
    (S : List ℕ) × (0 < length S)
    × ((i : ℕ)
        → 0 < count i S
        → (i < length steps) × ((d : ℕ) × (0 < count d S) × (requires steps i d ≡ true)))

-- The links of a DAG whose steps passed every check.
module _ (steps : List Step) (names : List (Text × ℕ)) (links : Links)
    (indexed : index_names 0 steps [] ≡ ok names)
    (linked : link_steps names 0 steps (no_links (length steps)) ≡ ok links) where
  pub links-Balanced : Balanced (length steps) links
  links-Balanced =
      link_steps-keeps names (length steps) (λ t d l. in_range steps names t d indexed l)
        (Balanced (length steps))
        (λ index target l lt lu _ _ b. Balanced-add (length steps) index target l lt lu b) 0 steps
        (no_links (length steps)) (omega arith) (Balanced-no_links (length steps)) linked

  -- An edge is recorded exactly where a step requires another.
  pub edges-requires : (i d : ℕ) → d < length steps → has_edge links d i ≡ requires steps i d
  unfolding count
  edges-requires i d h =
      link_steps-edges names (length steps) (λ t d l. in_range steps names t d indexed l) 0 steps
        (no_links (length steps)) (omega arith) (Balanced-no_links (length steps)).size linked d i
      ∙ bare
      ∙ resolves-requires steps names i d indexed h
    where
      zero_count : count i (get_or (replicate (length steps) []) d []) ≡ 0
      zero_count = ap (count i) (get_or-replicate (length steps) d [])

      no_offset : i - 0 ≡ i
      no_offset = omega arith

      bare :
          (has_edge (no_links (length steps)) d i
            || (leb 0 i && resolves names (step_deps steps (i - 0)) d))
          ≡ resolves names (step_deps steps i) d
      bare = rw (no_offset) (ground (arith, zero_count))

  module _ {t : Progress Text} (layers : List (List ℕ))
      (v : Inv (step_name steps) (length steps) links.children t layers)
      (full : length steps ≤ length t.order) where
    placed_once : (i : ℕ) → i < length steps → count i (concat layers) ≡ 1
    placed_once i lt = ground (
      arith,
      v.once i lt,
      v.counted,
      ap length v.order_done,
      length-map (concat layers) (step_name steps),
      count-le-length i (pending t.processed (length steps)),
      count-select (λ x. not (get_or t.processed x false)) i 0 (length steps),
    )

    rounds-Schedules : Schedules steps layers
    rounds-Schedules = record {
      once = placed_once;
      only = v.below;
      behind = λ i d lt lu r.
          v.layered i d (ground (arith, edges-requires i d lu)) (omega (arith, placed_once i lt));
    }

  -- Steps that wait for one another.
  stuck-Circular :
      (t : Progress Text)
      → IsStuck (step_name steps) (length steps) links.children (links-Balanced.source) t
      → Circular steps
  stuck-Circular t (some_pending, waits_on) = (
    pending t.processed (length steps),
    some_pending,
    λ i h.
        let (d, c, e) = waits_on i h in
        (
          ground (arith, count-select (λ x. not (get_or t.processed x false)) i 0 (length steps)),
          (d, c, ground (arith, edges-requires i d, links-Balanced.source d i e)),
        ),
  )

-- What the checks of a DAG that was planned, or that was found circular, returned.
pub record Checked (p : Pipeline) (r : Result PlanError (Progress Text)) : Type 0 where
  pub names : List (Text × ℕ)
  pub links : Links
  pub indexed : index_names 0 p.steps [] ≡ ok names
  pub linked : link_steps names 0 p.steps (no_links (length p.steps)) ≡ ok links
  pub rounds :
      plan_rounds
        (step_name p.steps)
        (length p.steps)
        links.children
        (suc (length p.steps))
        (start (length p.steps) links.indegree)
      ≡ r

abbrev pub dag_plan : Pipeline → Links → Progress Text → Plan
dag_plan p links t = record {
  mode = mode_dag;
  max_parallel = p.max_parallel;
  edge_count = links.edges;
  order = t.order;
  layers = t.layers;
}

-- The two guards before the loops of a DAG.
abbrev pub out_of_range : Pipeline → Bool
out_of_range p = ltb_ℤ p.max_parallel (pos 1) || ltb_ℤ (pos maximum_parallelism) p.max_parallel

pub plan_dag-eq-ok :
    (p : Pipeline) {pl : Plan}
    → plan_dag p ≡ ok pl
    → (t : Progress Text) × (c : Checked p (ok t)) × (pl ≡ dag_plan p c.links t)
      × (out_of_range p ≡ false)
unfolding plan_dag
plan_dag-eq-ok p {pl} e =
    let e1 = >>-eq-ok (out_of_range p) _ _ e in
    let e2 = >>-eq-ok (not (is_zero_ℤ p.max_iterations)) _ _ e1.1 in
    let (names, indexed, e3) = >>=-eq-ok (index_names 0 p.steps []) _ e2.1 in
    let (links, linked, e4) =
      >>=-eq-ok (link_steps names 0 p.steps (no_links (length p.steps))) _ e3 in
    let (t, rounds, e5) =
      >>=-eq-ok
        (plan_rounds (step_name p.steps) (length p.steps) links.children (suc (length p.steps))
          (start (length p.steps) links.indegree))
        _ e4 in
    (
      t,
      record { names = names; links = links; indexed = indexed; linked = linked; rounds = rounds },
      cc,
      e1.0,
    )

-- An error of the rounds comes from the rounds.
plan_dag-from_rounds :
    (p : Pipeline) (e : PlanError) → from_rounds e ≡ true → plan_dag p ≡ err e → Checked p (err e)
unfolding plan_dag
plan_dag-from_rounds p e f h =
    let e1 = guard-eq-err (out_of_range p) _ _ e f refl h in
    let e2 = guard-eq-err (not (is_zero_ℤ p.max_iterations)) _ _ e f refl e1.1 in
    let (names, indexed, e3) =
      >>=-eq-err (index_names 0 p.steps []) _ e f (index_names-Direct 0 p.steps []) e2.1 in
    let (links, linked, e4) =
      >>=-eq-err (link_steps names 0 p.steps (no_links (length p.steps))) _ e f
        (link_steps-Direct names 0 p.steps (no_links (length p.steps))) e3 in
    record {
      names = names;
      links = links;
      indexed = indexed;
      linked = linked;
      rounds =
          failed
            (plan_rounds (step_name p.steps) (length p.steps) links.children (suc (length p.steps))
              (start (length p.steps) links.indegree))
            (dag_plan p links) e4;
    }
  where
    failed :
        (r : Result PlanError (Progress Text)) (f : Progress Text → Plan)
        → (r >>= λ t. ok (f t)) ≡ err e
        → r ≡ err e
    failed (ok t) f h = cc
    failed (err x) f h = cc

abbrev is_linear : Pipeline → Bool
is_linear p = text_eq (effective_mode p) mode_linear

-- The mode chooses the planner.
pub plan_cases :
    (p : Pipeline) {pl : Plan}
    → plan p ≡ ok pl
    → (plan_linear p.steps [] [] ≡ ok pl) ⊎ (plan_dag p ≡ ok pl)
unfolding plan
plan_cases p e =
    let e1 = >>-eq-ok (not (is_linear p) && not (text_eq (effective_mode p) mode_dag)) _ _ e in
    let e2 = >>-eq-ok (is_empty p.steps) _ _ e1.1 in
    elim (Bool-cases (is_linear p)) [
      | inl l ↦ inl (>>-eq-ok (not (is_zero_ℤ p.max_parallel)) _ _ (rw l at e2.1)).1
      | inr d ↦ inr (rw d at e2.1)
    ]

plan-from_rounds :
    (p : Pipeline) (e : PlanError) → from_rounds e ≡ true → plan p ≡ err e → plan_dag p ≡ err e
unfolding plan
plan-from_rounds p e f h =
    let e1 =
      guard-eq-err (not (is_linear p) && not (text_eq (effective_mode p) mode_dag)) _ _ e f refl
        h in
    let e2 = guard-eq-err (is_empty p.steps) _ _ e f refl e1.1 in
    elim (Bool-cases (is_linear p)) [
      | inl l ↦
          let e3 = guard-eq-err (not (is_zero_ℤ p.max_parallel)) _ _ e f refl (rw l at e2.1) in
          let d = rw (e3.1, Direct) at (plan_linear-Direct p.steps [] []) in absurd (ground arith)
      | inr d ↦ rw d at e2.1
    ]

-- Every plan, of either mode, holds each step once, in a later layer than what it requires.
pub plan-Schedules :
    (p : Pipeline) {pl : Plan}
    → plan p ≡ ok pl
    → (layers : List (List ℕ)) × Schedules p.steps layers × Lists p.steps layers pl
plan-Schedules p {pl} e = elim (plan_cases p e) [
  | inl l ↦ plan_linear-Schedules p.steps l
  | inr d ↦
      let (t, c, same, _) = plan_dag-eq-ok p d in
      let (layers, v, full) =
        plan_rounds-Inv (step_name p.steps) (length p.steps) c.links.children
          (links-Balanced p.steps c.names c.links c.indexed c.linked).source (suc (length p.steps))
          (start (length p.steps) c.links.indegree) []
          (start-Inv (step_name p.steps) (length p.steps) c.links
            (links-Balanced p.steps c.names c.links c.indexed c.linked))
          c.rounds in
      (
        layers,
        rounds-Schedules p.steps c.names c.links c.indexed c.linked layers v full,
        (ap (λ q. q.order) same ∙ v.order_done, ap (λ q. q.layers) same ∙ v.layers_done),
      )
]

-- No loop of the planner runs out of rounds: `n + 1` of them suffice for `n` steps.
pub plan-finishes : (p : Pipeline) → plan p ≢ err unfinished
plan-finishes p h =
    let c = plan_dag-from_rounds p unfinished refl (plan-from_rounds p unfinished refl h) in
    plan_rounds-finishes (step_name p.steps) (length p.steps) c.links.children
      (suc (length p.steps)) (start (length p.steps) c.links.indegree) (omega arith) c.rounds

-- A cycle is reported only where steps require one another in a circle.
pub plan-Circular : (p : Pipeline) → plan p ≡ err cycle → Circular p.steps
plan-Circular p h =
    let c = plan_dag-from_rounds p cycle refl (plan-from_rounds p cycle refl h) in
    let b = links-Balanced p.steps c.names c.links c.indexed c.linked in
    let (t, stuck) =
      plan_rounds-cycle (step_name p.steps) (length p.steps) c.links.children b.source
        (suc (length p.steps)) (start (length p.steps) c.links.indegree) []
        (start-Inv (step_name p.steps) (length p.steps) c.links b) c.rounds in
    stuck-Circular p.steps c.names c.links c.indexed c.linked t stuck

-- So no circle goes unreported: steps with a plan are not circular.
pub plan-not_Circular : (p : Pipeline) {pl : Plan} → plan p ≡ ok pl → ¬ Circular p.steps
plan-not_Circular p e (S, some_step, next) =
    let (layers, v, _) = plan-Schedules p e in
    let (i, h) = count_pos_of_length S some_step in
    descend layers v (suc (layer_of i layers)) i h (omega arith)
  where
    descend :
        (layers : List (List ℕ))
        → Schedules p.steps layers
        → (b i : ℕ) → 0 < count i S
        → layer_of i layers < b
        → ⊥
    descend layers v zero i h lt = elim lt [ ]
    descend layers v (suc b) i h lt =
        let (below, (d, c, r)) = next i h in
        descend layers v b d c (omega (arith, v.behind i d below (next d c).0 r))
