-- ===== src/Pipeline/Graph/Schedule/Start.antt =====
-- The invariants hold where the loops of internal/cluster/pipeline_graph.go begin.
use context_bridge.Prelude.{
  ℕ, zero, suc, true, false, not, List, [], ◌∷◌, length, get_or, replicate, ◌≡◌, refl, ap, arith,
  select, count, total, select-eq, length-replicate,
}
use context_bridge.Pipeline.Graph.{no_links}
use context_bridge.Pipeline.Graph.Edges.{Links}
use context_bridge.Pipeline.Graph.Edges.Balance.{Balanced, all}
use context_bridge.Pipeline.Graph.Rounds.Invariant.{Inv, pending}

pub get_or-replicate {ℓ} : {A : Type ℓ} (n i : ℕ) (a : A) → get_or (replicate n a) i a ≡ a
get_or-replicate zero i a = refl
get_or-replicate (suc n) zero a = refl
get_or-replicate (suc n) (suc i) a = get_or-replicate n i a

total_zero : (w : ℕ → ℕ) (xs : List ℕ) → ((x : ℕ) → w x ≡ 0) → total w xs ≡ 0
unfolding total
total_zero w [] h = refl
total_zero w (x ∷ xs) h = omega (arith, h x, total_zero w xs h)

length-all : (i k : ℕ) → length (select (λ _. true) i k) ≡ k
unfolding select
length-all i zero = refl
length-all i (suc k) = ap suc (length-all (suc i) k)

pub Balanced-no_links : (n : ℕ) → Balanced n (no_links n)
unfolding count
Balanced-no_links n = record {
  size = (length-replicate n [], length-replicate n 0);
  counted = λ i h. omega (
    arith,
    get_or-replicate {A = ℕ} n i 0,
    total_zero (λ j. count i (get_or (replicate n []) j [])) (all n)
        (λ x. ap (count i) (get_or-replicate n x [])),
  );
  source = λ d i e. absurd (omega (arith, ap (count i) (get_or-replicate n d [])));
}

pub start-Inv {ℓ} :
    {A : Type ℓ} (name : ℕ → A) (n : ℕ) (links : Links)
    → Balanced n links
    → Inv name n links.children
        (record {
          processed = replicate n false;
          remaining = links.indegree;
          order = [];
          layers = [];
        })
        []
unfolding count
start-Inv name n links b =
    let fresh : pending (replicate n false) n ≡ all n =
      select-eq (λ x. not (get_or (replicate n false) x false)) (λ _. true) 0 n
        (λ x _ _. ap not (get_or-replicate n x false)) in
    record {
      order_done = refl;
      layers_done = refl;
      processed_all = length-replicate n false;
      once = λ i h. ground (arith, get_or-replicate n i false);
      below = λ i h. absurd (omega arith);
      waiting = λ i h. rw fresh (b.counted i h);
      counted = rw fresh (omega (arith, length-all 0 n));
      layered = λ i d e h. absurd (omega arith);
    }
