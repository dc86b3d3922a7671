-- ===== src/Pipeline/Propagation/Settled.antt =====
-- internal/cluster/store.go: what one visit of the pass does to a node, to its neighbours and to
-- `stateByStep`.
use context_bridge.Prelude.{
  ℕ, zero, suc, ◌<◌, true, false, List, [], ◌∷◌, some, if◌then◌else◌, get_elem?, length, ◌≡◌, ◌≢◌,
  refl, sym, inl, inr, arith, Bool-cases, get_elem?-set_self, get_elem?-set_ne, ◌++◌, not, ◌&&◌, ap,
}
use context_bridge.Text.{Text, text_eq_refl, eq_of_text_eq, has}
use context_bridge.Pipeline.Graph.Edges.{lookup}
use context_bridge.Pipeline.NodeState.{NodeState, state_eq, state_eq_refl, eq_of_state_eq}
use context_bridge.Pipeline.Records.{Node}
use context_bridge.Pipeline.Propagation.{
  Sweep, with_state, all_completed, any_blocks, is_open, next_state, visit_node,
}

-- A visit would leave the node as it is.
abbrev pub Settled : List (Text × NodeState) → Node → Type 0
Settled states n = is_open n.state ≡ true → next_state states n.depends_on n.state ≡ n.state

pub lookup-same :
    (t : Text) (s : NodeState) (m : List (Text × NodeState)) → lookup t ((t, s) ∷ m) ≡ some s
unfolding lookup
lookup-same t s m = ground (arith, text_eq_refl t)

pub lookup-other :
    (t u : Text) (s : NodeState) (m : List (Text × NodeState))
    → u ≢ t
    → lookup u ((t, s) ∷ m) ≡ lookup u m
unfolding lookup
lookup-other t u s m h = ground (arith, eq_of_text_eq u t)

all_completed-cons :
    (t : Text) (s : NodeState) (m : List (Text × NodeState)) (ds : List Text)
    → has t ds ≡ false
    → all_completed ((t, s) ∷ m) ds ≡ all_completed m ds
unfolding all_completed has
all_completed-cons t s m [] h = refl
all_completed-cons t s m (d ∷ ds) h =
    let differ : d ≢ t = λ e. absurd (ground (arith, h, e, text_eq_refl t)) in
    rw (lookup-other t d s m differ, all_completed-cons t s m ds (ground arith)) refl

any_blocks-cons :
    (t : Text) (s : NodeState) (m : List (Text × NodeState)) (ds : List Text)
    → has t ds ≡ false
    → any_blocks ((t, s) ∷ m) ds ≡ any_blocks m ds
unfolding any_blocks has
any_blocks-cons t s m [] h = refl
any_blocks-cons t s m (d ∷ ds) h =
    let differ : d ≢ t = λ e. absurd (ground (arith, h, e, text_eq_refl t)) in
    rw (lookup-other t d s m differ, any_blocks-cons t s m ds (ground arith)) refl

-- The state of a step that is no dependency does not matter.
pub next_state-cons :
    (t : Text) (s v : NodeState) (m : List (Text × NodeState)) (ds : List Text)
    → has t ds ≡ false
    → next_state ((t, s) ∷ m) ds v ≡ next_state m ds v
unfolding next_state
next_state-cons t s v m ds h = rw (all_completed-cons t s m ds h, any_blocks-cons t s m ds h) refl

pub next_state_idem :
    (m : List (Text × NodeState)) (ds : List Text) (s : NodeState)
    → next_state m ds (next_state m ds s) ≡ next_state m ds s
unfolding next_state state_eq
next_state_idem m ds s = ground arith

-- The state that a visit gives.
abbrev pub visited : List (Text × NodeState) → Node → NodeState
visited states n = if is_open n.state then next_state states n.depends_on n.state else n.state

pub record Visited (i : ℕ) (n : Node) (w v : Sweep) : Type 0 where
  pub after : Node
  pub there : get_elem? v.nodes i ≡ some after
  pub same_step : after.step ≡ n.step
  pub same_dependencies : after.depends_on ≡ n.depends_on
  pub new_state : after.state ≡ visited w.states n
  pub kept : (is_open n.state ≡ false) → after ≡ n
  pub noted : v.states ≡ (n.step, visited w.states n) ∷ w.states
  pub turned : v.changed ≡ (
      w.changed ++ (if is_open n.state && not (state_eq after.state n.state) then i ∷ [] else []))
  pub others : (j : ℕ) → j ≢ i → get_elem? v.nodes j ≡ get_elem? w.nodes j

pub in_range {ℓ} :
    {A : Type ℓ} (xs : List A) (i : ℕ) {x : A} → get_elem? xs i ≡ some x → i < length xs
in_range [] i h = cc
in_range (x ∷ xs) zero h = omega arith
in_range (x ∷ xs) (suc i) h = omega (arith, in_range xs i h)

append-nil : (xs : List ℕ) → (xs ++ []) ≡ xs
append-nil [] = refl
append-nil (x ∷ xs) = ap (λ r. x ∷ r) (append-nil xs)

pub visit_node-Visited :
    (at i : ℕ) (n : Node) (w : Sweep)
    → get_elem? w.nodes i ≡ some n
    → Visited i n w (visit_node at i n w)
unfolding visit_node
visit_node-Visited at i n w h = elim (Bool-cases (is_open n.state)) [
  | inr closed ↦ rw closed (record {
    after = n;
    there = h;
    same_step = refl;
    same_dependencies = refl;
    new_state = rw closed refl;
    kept = λ _. refl;
    noted = rw closed refl;
    turned = rw closed (sym (append-nil w.changed));
    others = λ j _. refl;
  })
  | inl open' ↦ elim (Bool-cases (state_eq (next_state w.states n.depends_on n.state) n.state)) [
    | inl same ↦
        let eq = eq_of_state_eq (next_state w.states n.depends_on n.state) n.state same in
        rw (open', same)
          (record {
            after = n;
            there = h;
            same_step = refl;
            same_dependencies = refl;
            new_state = rw open' (sym eq);
            kept = λ _. refl;
            noted = rw (open', eq) refl;
            turned = rw (open', state_eq_refl n.state) (sym (append-nil w.changed));
            others = λ j _. refl;
          })
    | inr moved ↦
        rw (open', moved)
          (record {
            after = with_state n (next_state w.states n.depends_on n.state) at;
            there = get_elem?-set_self w.nodes i _ (in_range w.nodes i h);
            same_step = refl;
            same_dependencies = refl;
            new_state = rw open' refl;
            kept = λ closed. cc;
            noted = rw open' refl;
            turned = rw (open', moved) refl;
            others = λ j d. get_elem?-set_ne w.nodes _ (λ e. d (sym e));
          })
  ]
]
