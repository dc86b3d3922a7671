-- ===== src/Pipeline/Graph/Edges/Balance.antt =====
-- The in-degrees that internal/cluster/pipeline_graph.go counts agree with the edges it records.
use context_bridge.Prelude.{
  ℕ, ◌+◌, ◌≤◌, ◌<◌, true, List, [], ◌∷◌, ◌++◌, ◌==◌, if◌then◌else◌, get_or, ◌≡◌, arith, select,
  count, total, count-append, count-select,
}
use context_bridge.Pipeline.Graph.Edges.{Links}
use context_bridge.Pipeline.Graph.Edges.Linked.{add_edge, Sized, Sized-add}
use context_bridge.Pipeline.Graph.Rounds.Counters.{get_or-set, waits}

-- One summand grows.
total_grow :
    (v w : ℕ → ℕ) (d e : ℕ) (xs : List ℕ)
    → ((x : ℕ) → w x ≡ (if x == d then v x + e else v x))
    → count d xs ≤ 1
    → total w xs ≡ total v xs + (if count d xs == 1 then e else 0)
unfolding total count
total_grow v w d e [] h c = ground arith
total_grow v w d e (x ∷ xs) h c = ground (arith, h x, total_grow v w d e xs h)

abbrev pub all : ℕ → List ℕ
all n = select (λ _. true) 0 n

pub record Balanced (n : ℕ) (links : Links) : Type 0 where
  pub size : Sized n links
  pub counted : (i : ℕ) → i < n → get_or links.indegree i 0 ≡ waits links.children (all n) i
  pub source : (d i : ℕ) → 0 < count i (get_or links.children d []) → d < n

pub Balanced-add :
    (n index target : ℕ) (links : Links)
    → index < n
    → target < n
    → Balanced n links
    → Balanced n (add_edge target index links)
unfolding count
Balanced-add n index target links lt lu b = record {
  size = Sized-add n target index links b.size;
  counted = λ i h. ground (
    arith,
    b.size,
    b.counted i h,
    get_or-set links.indegree index (get_or links.indegree index 0 + 1) i 0,
    count-select (λ _. true) target 0 n,
    total_grow (λ j. count i (get_or links.children j []))
        (λ j. count i (get_or (add_edge target index links).children j [])) target
        (if i == index then 1 else 0) (all n)
        (λ x. ground (
          arith,
          b.size,
          get_or-set links.children target (get_or links.children target [] ++ index ∷ []) x [],
          count-append i (get_or links.children target []) (index ∷ []),
        )),
  );
  source = λ d i e. ground (
    arith,
    e,
    b.source d i,
    get_or-set links.children target (get_or links.children target [] ++ index ∷ []) d [],
  );
}
