-- ===== src/Pipeline/Graph/Schedule/Limits.antt =====
-- The limits on fan-in, fan-out and edges that a plan of internal/cluster/pipeline_graph.go keeps.
use context_bridge.Prelude.{
  ℕ, zero, suc, ◌+◌, ◌≤◌, ◌<◌, Bool, false, ◌||◌, ◌&&◌, List, [], ◌∷◌, ◌++◌, length, map, get_or,
  ltb, leb, ◌==◌, if◌then◌else◌, ◌≡◌, refl, ap, arith, count, select, select-eq, ok, inl, inr,
}
use context_bridge.Text.{Text, has, trim_space}
use context_bridge.Pipeline.Graph.Template.{Step}
use context_bridge.Pipeline.Graph.Edges.{Links, link_all, link_steps, maximum_fan, maximum_edges}
use context_bridge.Pipeline.Graph.Edges.Linked.{
  add_edge, step_deps, link_steps-keeps, link_steps-eq-ok, link_all-eq-ok, link-Accepted, has_edge,
}
use context_bridge.Pipeline.Graph.Rounds.Counters.{get_or-set}
use context_bridge.Pipeline.Graph.Names.{requires, in_range}
use context_bridge.Pipeline.Graph.{Pipeline, Plan, plan, plan_dag, plan_linear, no_links, step_name}
use context_bridge.Pipeline.Graph.Schedule.Start.{get_or-replicate}
use context_bridge.Pipeline.Graph.Schedule.Linear.{no_deps, plan_linear-eq-ok}
use context_bridge.Pipeline.Graph.Schedule.Outcome.{plan_cases, plan_dag-eq-ok, edges-requires}

-- The declared dependencies of all steps.
unfoldable pub dependency_count : List Step → ℕ
dependency_count [] = 0
dependency_count (s ∷ ss) = length s.depends_on + dependency_count ss

-- The steps that require step `d`.
unfoldable pub dependants : List Step → ℕ → List ℕ
dependants steps d = select (λ i. requires steps i d) 0 (length steps)

link_all-edge_count :
    (names : List (Text × ℕ)) (index : ℕ) (step : Step) (raws : List Text) (links : Links)
    (seen : List Text) {r : Links × List Text}
    → link_all names index step raws links seen ≡ ok r
    → r.0.edges ≡ links.edges + length raws
link_all-edge_count names index step [] links seen {r} e =
    let same : links ≡ r.0 = unfold link_all in cc in rw (← same) (omega arith)
link_all-edge_count names index step (raw ∷ raws) links seen e =
    let (q, first, rest) = link_all-eq-ok names index step raw raws links seen e in
    let a = link-Accepted names index step raw links seen first in
    omega
      (arith, link_all-edge_count names index step raws q.0 q.1 rest, ap (λ l. l.edges) a.extended)

link_steps-counts :
    (names : List (Text × ℕ)) (index : ℕ) (ss : List Step) (links : Links) {r : Links}
    → link_steps names index ss links ≡ ok r
    → (r.edges ≡ links.edges + dependency_count ss)
      × ((i : ℕ) → length (step_deps ss i) ≤ maximum_fan)
unfolding dependency_count step_deps
link_steps-counts names index [] links {r} e =
    let same : links ≡ r = unfold link_steps in cc in (rw (← same) (omega arith), λ i. omega arith)
link_steps-counts names index (s ∷ ss) links e =
    let (q, first, rest, few, _) = link_steps-eq-ok names index s ss links e in
    let (counted, fans) = link_steps-counts names (suc index) ss q.0 rest in
    (omega (arith, link_all-edge_count names index s s.depends_on links [] first), fan few fans)
  where
    fan :
        length s.depends_on ≤ maximum_fan
        → ((i : ℕ) → length (step_deps ss i) ≤ maximum_fan)
        → (i : ℕ) → length (step_deps (s ∷ ss) i) ≤ maximum_fan
    fan few fans zero = few
    fan few fans (suc i) = fans i

record Limited (links : Links) : Type 0 where
  edges_le : links.edges ≤ maximum_edges
  fan_le : (d : ℕ) → length (get_or links.children d []) ≤ maximum_fan

Limited-add :
    (index target : ℕ) (links : Links)
    → links.edges + 1 ≤ maximum_edges
    → length (get_or links.children target [] ++ index ∷ []) ≤ maximum_fan
    → Limited links
    → Limited (add_edge target index links)
Limited-add index target links few fan v = record {
  edges_le = few;
  fan_le = λ d. ground (
    arith,
    v.fan_le d,
    get_or-set links.children target (get_or links.children target [] ++ index ∷ []) d [],
  );
}

length-select_or :
    (x : ℕ) (p : ℕ → Bool) (i k : ℕ)
    → length (select (λ y. y == x || p y) i k)
      ≤ (if leb i x && ltb x (i + k) then 1 else 0) + length (select p i k)
unfolding select
length-select_or x p i zero = omega arith
length-select_or x p i (suc k) = ground (arith, length-select_or x p (suc i) k)

select_never : (i k : ℕ) → length (select (λ _. false) i k) ≡ 0
unfolding select
select_never i zero = refl
select_never i (suc k) = select_never (suc i) k

-- A list holds at least as many entries as different values.
length-select-count :
    (xs : List ℕ) (n : ℕ) → length (select (λ i. ltb 0 (count i xs)) 0 n) ≤ length xs
unfolding count
length-select-count [] n = omega (arith, select_never 0 n)
length-select-count (x ∷ xs) n =
    let split =
      select-eq (λ i. ltb 0 (count i (x ∷ xs))) (λ i. i == x || ltb 0 (count i xs)) 0 n
        (λ i _ _. ground arith) in
    ground (
      arith,
      ap length split,
      length-select_or x (λ i. ltb 0 (count i xs)) 0 n,
      length-select-count xs n,
    )

dag_limits :
    (p : Pipeline) {pl : Plan}
    → plan_dag p ≡ ok pl
    → (pl.edge_count ≡ dependency_count p.steps)
      × (pl.edge_count ≤ maximum_edges)
      × ((i : ℕ) → length (step_deps p.steps i) ≤ maximum_fan)
      × ((d : ℕ) → d < length p.steps → length (dependants p.steps d) ≤ maximum_fan)
unfolding dependants
dag_limits p e =
    let (t, c, same, _) = plan_dag-eq-ok p e in
    let counts = link_steps-counts c.names 0 p.steps (no_links (length p.steps)) c.linked in
    let limited =
      link_steps-keeps c.names (length p.steps) (λ u d l. in_range p.steps c.names u d c.indexed l)
        Limited (λ index target l _ _ few fan v. Limited-add index target l few fan v) 0 p.steps
        (no_links (length p.steps)) (omega arith)
        (record {
          edges_le = omega arith;
          fan_le = λ d. omega (arith, ap (length {A = ℕ}) (get_or-replicate (length p.steps) d []));
        })
        c.linked in
    (
      omega (arith, ap (λ q. q.edge_count) same, counts.0),
      omega (arith, ap (λ q. q.edge_count) same, limited.edges_le),
      counts.1,
      λ d h. omega (
        arith,
        limited.fan_le d,
        length-select-count (get_or c.links.children d []) (length p.steps),
        ap length (
            select-eq (λ i. has_edge c.links d i) (λ i. requires p.steps i d) 0 (length p.steps)
              (λ i _ _. edges-requires p.steps c.names c.links c.indexed c.linked i d h)),
      ),
    )

linear_counts :
    (ss : List Step) (order : List Text) (layers : List (List Text)) {pl : Plan}
    → plan_linear ss order layers ≡ ok pl
    → (pl.edge_count ≡ 0) × (dependency_count ss ≡ 0)
unfolding dependency_count
linear_counts [] order layers e = (unfold plan_linear in ground arith, refl)
linear_counts (s ∷ ss) order layers e =
    let (free, rest) = plan_linear-eq-ok s ss order layers e in
    let (none_counted, none_declared) =
      linear_counts ss (order ++ s.name ∷ []) (layers ++ (s.name ∷ []) ∷ []) rest in
    (none_counted, omega (arith, none_declared, ap length free))

linear_limits :
    (p : Pipeline) {pl : Plan}
    → plan_linear p.steps [] [] ≡ ok pl
    → (pl.edge_count ≡ dependency_count p.steps)
      × (pl.edge_count ≤ maximum_edges)
      × ((i : ℕ) → length (step_deps p.steps i) ≤ maximum_fan)
      × ((d : ℕ) → d < length p.steps → length (dependants p.steps d) ≤ maximum_fan)
unfolding dependants requires has
linear_limits p e =
    let (none_counted, none_declared) = linear_counts p.steps [] [] e in
    (
      omega arith,
      omega arith,
      λ i. omega (arith, ap length (no_deps p.steps [] [] e i)),
      λ d h. omega (
        arith,
        select_never 0 (length p.steps),
        ap length (
            select-eq (λ i. requires p.steps i d) (λ _. false) 0 (length p.steps)
              (λ i _ _.
                ap (λ q. has (trim_space (step_name p.steps d)) (map trim_space q))
                  (no_deps p.steps [] [] e i))),
      ),
    )

-- A plan counts each declared dependency, and keeps the limits on edges, on the dependencies of a
-- step and on the steps that depend on one.
pub plan_limits :
    (p : Pipeline) {pl : Plan}
    → plan p ≡ ok pl
    → (pl.edge_count ≡ dependency_count p.steps)
      × (pl.edge_count ≤ maximum_edges)
      × ((i : ℕ) → length (step_deps p.steps i) ≤ maximum_fan)
      × ((d : ℕ) → d < length p.steps → length (dependants p.steps d) ≤ maximum_fan)
plan_limits p {pl} e = elim (plan_cases p e) [ inl l ↦ linear_limits p l | inr d ↦ dag_limits p d ]
