-- ===== src/Pipeline/Propagation/Quiet.antt =====
-- internal/cluster/store.go: when nothing is left to derive for a node.
use context_bridge.Prelude.{
  true, false, List, [], ◌∷◌, some, In, ◌≡◌, refl, subst, ap, ◌∙◌, inl, inr, arith, Bool-cases,
}
use context_bridge.Text.{Text, text_eq, text_eq_refl, eq_of_text_eq, has}
use context_bridge.Pipeline.Graph.Edges.{lookup}
use context_bridge.Pipeline.NodeState.{
  NodeState, not_ready, completed, state_eq, state_eq_refl, blocks_descendants,
}
use context_bridge.Pipeline.Records.{Node}
use context_bridge.Pipeline.Propagation.{is_open, all_completed, any_blocks, next_state}
use context_bridge.Pipeline.Propagation.Settled.{Settled}
use context_bridge.Pipeline.Propagation.Pass.{Mirrors}
use context_bridge.Pipeline.Propagation.Order.{place_of}

-- Nothing is left to derive for `m`: while it waits or is ready, no dependency of it blocks it, and
-- while it waits, its dependencies are not all completed.
pub record Quiet (nodes : List Node) (m : Node) : Type 0 where
  pub unblocked :
      is_open m.state ≡ true
      → (k : Node) → In k nodes
      → has k.step m.depends_on ≡ true
      → blocks_descendants k.state ≡ false
  pub waits :
      m.state ≡ not_ready
      → ¬ (
          (d : Text)
          → has d m.depends_on ≡ true
          → (k : Node) × In k nodes × (k.step ≡ d) × (k.state ≡ completed))

no_block_at :
    (states : List (Text × NodeState)) (ds : List Text) (d : Text) (s : NodeState)
    → any_blocks states ds ≡ false
    → has d ds ≡ true
    → lookup d states ≡ some s
    → blocks_descendants s ≡ false
unfolding any_blocks has
no_block_at states [] d s h i l = cc
no_block_at states (x ∷ xs) d s h i l = elim (Bool-cases (text_eq d x)) [
  | inl same ↦
      let here : lookup x states ≡ some s =
        subst (λ y. lookup y states ≡ some s) (eq_of_text_eq d x same) l in
      ground (arith, rw here at h)
  | inr other ↦ no_block_at states xs d s (ground (arith, h)) (ground (arith, i, other)) l
]

all_completed_of :
    (states : List (Text × NodeState)) (ds : List Text)
    → ((d : Text) → has d ds ≡ true → lookup d states ≡ some completed)
    → all_completed states ds ≡ true
unfolding all_completed has
all_completed_of states [] h = refl
all_completed_of states (x ∷ xs) h =
    rw
      (
        h x (ground (arith, text_eq_refl x)),
        all_completed_of states xs (λ d i. h d (ground (arith, i))),
      )
      (ground (arith, state_eq_refl completed))

next_state_same :
    (states : List (Text × NodeState)) (ds : List Text) (s : NodeState)
    → is_open s ≡ true
    → next_state states ds s ≡ s
    → (any_blocks states ds ≡ false) × (s ≡ not_ready → all_completed states ds ≡ false)
unfolding next_state state_eq
next_state_same states ds s o e = ground arith

pub Settled-Quiet :
    (nodes : List Node) (states : List (Text × NodeState)) (m : Node)
    → Mirrors nodes states
    → Settled states m
    → Quiet nodes m
Settled-Quiet nodes states m mi st = record {
  unblocked = λ o k h i.
      let (j, g) = place_of nodes k h in
      no_block_at states m.depends_on k.step k.state
        (next_state_same states m.depends_on m.state o (st o)).0 i (mi j k g);
  waits = λ e done.
      let o : is_open m.state ≡ true = rw e (unfold state_eq in refl) in
      let missing = (next_state_same states m.depends_on m.state o (st o)).1 e in
      let all = all_completed_of states m.depends_on (λ d i. at d (done d i)) in
      absurd (cc (missing, all));
}
  where
    at :
        (d : Text)
        → (k : Node) × In k nodes × (k.step ≡ d) × (k.state ≡ completed)
        → lookup d states ≡ some completed
    at d (k, h, q, c) =
        let (j, g) = place_of nodes k h in
        subst (λ t. lookup t states ≡ some completed) q (mi j k g ∙ ap some c)
