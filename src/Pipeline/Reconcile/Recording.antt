-- ===== src/Pipeline/Reconcile/Recording.antt =====
-- internal/cluster/store.go: how ReconcileDAGChildTerminal finds the node of a child and records its
-- state, before the pass.
use context_bridge.Prelude.{
  ℕ, zero, suc, ◌+◌, false, List, [], ◌∷◌, some, get_elem?, length, ◌==◌, ok, ◌≡◌, ◌≢◌, refl, sym,
  ap, ◌∙◌, arith, inl, inr, Bool-cases, get_elem?-set_self, get_elem?-set_ne,
}
use context_bridge.Text.{Text, text_eq, eq_of_text_eq}
use context_bridge.Pipeline.NodeState.{NodeState, state_eq, eq_of_state_eq}
use context_bridge.Pipeline.Records.{Binding, Node, Job, Run}
use context_bridge.Pipeline.Checkpoint.{Immutable, validate_state, validate_graph}
use context_bridge.Pipeline.Propagation.{is_open, with_state}
use context_bridge.Pipeline.Propagation.Settled.{in_range}
use context_bridge.Pipeline.Propagation.Pass.{Shape}
use context_bridge.Pipeline.Reconcile.{recorded, terminal_state, index_of}

-- The record of the child's state changes its node alone, and there the state alone.
pub record Recorded (i : ℕ) (before : Node) (target : NodeState) (nodes after : List Node)
    : Type 0 where
  pub child : Node
  pub there : get_elem? after i ≡ some child
  pub same_step : child.step ≡ before.step
  pub same_dependencies : child.depends_on ≡ before.depends_on
  pub state_is : child.state ≡ target
  pub others : (j : ℕ) → j ≢ i → get_elem? after j ≡ get_elem? nodes j

pub recorded-Recorded :
    (at i : ℕ) (before : Node) (target : NodeState) (nodes : List Node)
    → get_elem? nodes i ≡ some before
    → Recorded i before target nodes (recorded at i before target nodes)
recorded-Recorded at i before target nodes g = elim (Bool-cases (state_eq before.state target)) [
  | inl same ↦ rw same (record {
    child = before;
    there = g;
    same_step = refl;
    same_dependencies = refl;
    state_is = eq_of_state_eq before.state target same;
    others = λ j _. refl;
  })
  | inr other ↦ rw other (record {
    child = with_state before target at;
    there = get_elem?-set_self nodes i _ (in_range nodes i g);
    same_step = refl;
    same_dependencies = refl;
    state_is = refl;
    others = λ j d. get_elem?-set_ne nodes _ (λ e. d (sym e));
  })
]

pub Recorded-Shape :
    (i : ℕ) (before : Node) (target : NodeState) (nodes after : List Node)
    → get_elem? nodes i ≡ some before
    → Recorded i before target nodes after
    → Shape nodes after
Recorded-Shape i before target nodes after g r j n gj = elim (Bool-cases (j == i)) [
  | inl here ↦
      let ij : j ≡ i = ground (arith, here) in
      let same : r.child ≡ n = cc (r.there) in
      (
        before,
        rw ij g,
        sym (ap (λ y. y.step) same) ∙ r.same_step,
        sym (ap (λ y. y.depends_on) same) ∙ r.same_dependencies,
      )
  | inr away ↦ (n, sym (r.others j (ground (arith, away))) ∙ gj, refl, refl)
]

-- Where one of two lists of one length has an element, the other has one.
pub at_same_length {ℓ} :
    {A : Type ℓ} (xs ys : List A) (i : ℕ) {y : A}
    → length xs ≡ length ys
    → get_elem? ys i ≡ some y
    → (x : A) × (get_elem? xs i ≡ some x)
at_same_length [] [] i h g = cc
at_same_length [] (y ∷ ys) i h g = absurd (omega arith)
at_same_length (x ∷ xs) [] i h g = cc
at_same_length (x ∷ xs) (y ∷ ys) zero h g = (x, refl)
at_same_length (x ∷ xs) (y ∷ ys) (suc i) h g = at_same_length xs ys i (omega arith) g

pub validate_state-graph :
    (digest : Immutable → Text) (run : Run) (b : Binding)
    → run.graph ≡ some b
    → validate_state digest run ≡ ok tt
    → validate_graph digest b run.node_states ≡ ok tt
unfolding validate_state
validate_state-graph digest run b g v = rw g at v

pub Recorded-some :
    (i : ℕ) (before : Node) (target : NodeState) (nodes after : List Node) (j : ℕ) (n : Node)
    → Recorded i before target nodes after
    → get_elem? nodes j ≡ some n
    → (m : Node) × (get_elem? after j ≡ some m)
Recorded-some i before target nodes after j n r g = elim (Bool-cases (j == i)) [
  | inl here ↦ let ij : j ≡ i = ground (arith, here) in (r.child, rw ij r.there)
  | inr away ↦ (n, r.others j (ground (arith, away)) ∙ g)
]

pub terminal-closed : (job : Job) {t : NodeState} → terminal_state job ≡ ok t → is_open t ≡ false
unfolding terminal_state state_eq
terminal-closed job e = ground arith

pub index_of_sound :
    (k : ℕ) (s : Text) (ns : List Node) (i : ℕ)
    → index_of k s ns ≡ some i
    → (j : ℕ) × (n : Node) × (i ≡ k + j) × (get_elem? ns j ≡ some n) × (n.step ≡ s)
unfolding index_of
index_of_sound k s [] i e = cc
index_of_sound k s (n ∷ ns) i e = elim (Bool-cases (text_eq n.step s)) [
  | inl here ↦
      let ki : k ≡ i = ground (arith, rw here at e) in
      (0, n, omega (arith, ki), refl, eq_of_text_eq n.step s here)
  | inr away ↦
      let (j, m, q, g, same) = index_of_sound (suc k) s ns i (rw away at e) in
      (suc j, m, omega (arith, q), g, same)
]
