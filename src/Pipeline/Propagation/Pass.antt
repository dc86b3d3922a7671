-- ===== src/Pipeline/Propagation/Pass.antt =====
-- internal/cluster/store.go: the whole pass of ReconcileDAGChildTerminal, over an order in which no
-- step stands before its dependencies.
use context_bridge.Prelude.{
  ℕ, true, false, List, [], ◌∷◌, some, get_elem?, ◌==◌, ◌≡◌, ◌≢◌, refl, sym, ap, ◌∙◌, inl, inr,
  arith, Bool-cases, Option-cases,
}
use context_bridge.Text.{Text, text_eq, text_eq_refl, eq_of_text_eq, has}
use context_bridge.Pipeline.Graph.Edges.{lookup}
use context_bridge.Pipeline.NodeState.{NodeState}
use context_bridge.Pipeline.Records.{Node}
use context_bridge.Pipeline.Propagation.{Sweep, is_open, next_state, visit_node, propagate}
use context_bridge.Pipeline.Propagation.Settled.{
  Settled, lookup-same, lookup-other, next_state-cons, next_state_idem, visited, Visited,
  visit_node-Visited,
}

-- `m` is `n` at a later time.
pub record Grown (n m : Node) : Type 0 where
  pub same_step : m.step ≡ n.step
  pub same_dependencies : m.depends_on ≡ n.depends_on
  pub kept : (is_open n.state ≡ false) → m ≡ n

-- The nodes have the steps and dependencies of `base`.
abbrev pub Shape : List Node → List Node → Type 0
Shape base nodes =
    (i : ℕ) (n : Node)
    → get_elem? nodes i ≡ some n
    → (b : Node) × (get_elem? base i ≡ some b) × (n.step ≡ b.step) × (n.depends_on ≡ b.depends_on)

-- `stateByStep` holds the state of every node.
abbrev pub Mirrors : List Node → List (Text × NodeState) → Type 0
Mirrors nodes states =
    (i : ℕ) (n : Node) → get_elem? nodes i ≡ some n → lookup n.step states ≡ some n.state

abbrev pub Clear : List Text → List Text → Type 0
Clear deps order = (d : Text) → has d deps ≡ true → has d order ≡ false

-- Each step stands once, and behind its dependencies.
abbrev pub Behind : List Node → List Text → Type 0
Behind base [] = Unit
Behind base (s ∷ ss) =
    ((i : ℕ) (n : Node)
      → get_elem? base i ≡ some n
      → n.step ≡ s
      → Clear n.depends_on (s ∷ ss) × (has s ss ≡ false))
    × Behind base ss

pub has-here : (s : Text) (ss : List Text) → has s (s ∷ ss) ≡ true
unfolding has
has-here s ss = ground (arith, text_eq_refl s)

pub has-there : (t s : Text) (ss : List Text) → has t (s ∷ ss) ≡ false → has t ss ≡ false
unfolding has
has-there t s ss h = ground arith

not_self : (s : Text) (ss deps : List Text) → Clear deps (s ∷ ss) → has s deps ≡ false
not_self s ss deps clear = elim (Bool-cases (has s deps)) [
  | inl d ↦ absurd (cc (clear s d, has-here s ss))
  | inr none_such ↦ none_such
]

module _ (at : ℕ) (base : List Node) (indices : List (Text × ℕ))
    (distinct : (i j : ℕ) (n m : Node)
      → get_elem? base i ≡ some n
      → get_elem? base j ≡ some m
      → n.step ≡ m.step
      → i ≡ j)
    (indexed : (s : Text) (i : ℕ) (n : Node)
      → lookup s indices ≡ some i
      → get_elem? base i ≡ some n
      → n.step ≡ s) where
  -- The node that the pass visits first.
  pub record First (s : Text) (ss : List Text) (w r : Sweep) : Type 0 where
    pub index : ℕ
    pub node : Node
    pub found : lookup s indices ≡ some index
    pub there : get_elem? w.nodes index ≡ some node
    pub named : node.step ≡ s
    pub visit : Visited index node w (visit_node at index node w)
    pub rest : propagate at indices ss (visit_node at index node w) ≡ some r

  pub first :
      (s : Text) (ss : List Text) (w : Sweep) {r : Sweep}
      → Shape base w.nodes
      → propagate at indices (s ∷ ss) w ≡ some r
      → First s ss w r
  unfolding propagate
  first s ss w sh e = elim (Option-cases (lookup s indices)) [
    | inl no_index ↦ absurd (cc (rw (no_index, propagate) at e))
    | inr (i, l) ↦ elim (Option-cases (get_elem? w.nodes i)) [
      | inl no_node ↦ absurd (cc (rw (l, no_node, propagate) at e))
      | inr (n, g) ↦
          let (b, at_base, same, _) = sh i n g in
          record {
            index = i;
            node = n;
            found = l;
            there = g;
            named = same ∙ indexed s i b l at_base;
            visit = visit_node-Visited at i n w g;
            rest = rw (l, g, propagate) at e;
          }
    ]
  ]

  pub one_place :
      (nodes : List Node) (i j : ℕ) (n m : Node)
      → Shape base nodes
      → get_elem? nodes i ≡ some n
      → get_elem? nodes j ≡ some m
      → n.step ≡ m.step
      → i ≡ j
  one_place nodes i j n m sh gi gj same =
      let (b, gb, sb, _) = sh i n gi in
      let (c, gc, sc, _) = sh j m gj in distinct i j b c gb gc (sym sb ∙ same ∙ sc)

  Grown-at :
      {i : ℕ} {n : Node} {w v : Sweep} (j : ℕ) (m : Node)
      → get_elem? w.nodes i ≡ some n
      → Visited i n w v
      → get_elem? w.nodes j ≡ some m
      → (k : Node) × (get_elem? v.nodes j ≡ some k) × Grown m k
  Grown-at {i} {n} j m g x gj = elim (Bool-cases (j == i)) [
    | inl same ↦
        let ij : j ≡ i = ground (arith, same) in
        let here : n ≡ m = cc in
        (
          x.after,
          rw ij x.there,
          record {
            same_step = x.same_step ∙ ap (λ y. y.step) here;
            same_dependencies = x.same_dependencies ∙ ap (λ y. y.depends_on) here;
            kept = λ c. x.kept (ap (λ y. is_open y.state) here ∙ c) ∙ here;
          },
        )
    | inr other ↦ (
      m,
      x.others j (ground (arith, other)) ∙ gj,
      record { same_step = refl; same_dependencies = refl; kept = λ _. refl },
    )
  ]

  pub Shape-visit :
      {i : ℕ} {n : Node} {w v : Sweep}
      → get_elem? w.nodes i ≡ some n
      → Visited i n w v
      → Shape base w.nodes
      → Shape base v.nodes
  Shape-visit {i} {n} g x sh j k gj = elim (Bool-cases (j == i)) [
    | inl same ↦
        let ij : j ≡ i = ground (arith, same) in
        let here : x.after ≡ k = cc (x.there) in
        let (b, gb, s, d) = sh i n g in
        (
          b,
          rw ij gb,
          sym (ap (λ y. y.step) here) ∙ x.same_step ∙ s,
          sym (ap (λ y. y.depends_on) here) ∙ x.same_dependencies ∙ d,
        )
    | inr other ↦ sh j k (sym (x.others j (ground (arith, other))) ∙ gj)
  ]

  Mirrors-visit :
      {i : ℕ} {n : Node} {w v : Sweep}
      → get_elem? w.nodes i ≡ some n
      → Visited i n w v
      → Shape base w.nodes
      → Mirrors w.nodes w.states
      → Mirrors v.nodes v.states
  Mirrors-visit {i} {n} {w} g x sh mi j k gj = elim (Bool-cases (j == i)) [
    | inl same ↦
        let ij : j ≡ i = ground (arith, same) in
        let here : x.after ≡ k = cc (x.there) in
        rw (← here, x.same_step, x.noted, x.new_state) (lookup-same n.step _ w.states)
    | inr other ↦
        let differ : j ≢ i = ground (arith, other) in
        let old = sym (x.others j differ) ∙ gj in
        rw x.noted (
          lookup-other n.step k.step _ w.states (λ e. differ (one_place w.nodes j i k n sh old g e))
          ∙ mi j k old)
  ]

  -- A settled node that is not visited, nor a dependency of it, stays as it is and settled.
  stays-Settled :
      (order : List Text) (w : Sweep) {r : Sweep} (i : ℕ) (n : Node)
      → Shape base w.nodes
      → propagate at indices order w ≡ some r
      → get_elem? w.nodes i ≡ some n
      → Settled w.states n
      → has n.step order ≡ false
      → Clear n.depends_on order
      → (get_elem? r.nodes i ≡ some n) × Settled r.states n
  stays-Settled [] w {r} i n sh e g st away clear =
      let same : w ≡ r = unfold propagate in cc in rw (← same) (g, st)
  stays-Settled (s ∷ ss) w i n sh e g st away clear =
      let f = first s ss w sh e in
      let x = f.visit in
      let apart : i ≢ f.index = λ q.
        let here : n ≡ f.node = cc (f.there) in
        let named : n.step ≡ s = ap (λ y. y.step) here ∙ f.named in absurd (cc (has-here s ss)) in
      let no_dependency : has f.node.step n.depends_on ≡ false =
        elim (Bool-cases (has f.node.step n.depends_on)) [
          | inl d ↦ absurd (cc (clear f.node.step d, f.named, has-here s ss))
          | inr none_such ↦ none_such
        ] in
      stays-Settled ss (visit_node at f.index f.node w) i n (Shape-visit f.there x sh) f.rest
        (x.others i apart ∙ g)
        (rw x.noted
          (λ o. next_state-cons f.node.step _ n.state w.states n.depends_on no_dependency ∙ st o))
        (has-there n.step s ss away) (λ d h. has-there d s ss (clear d h))

  Settled-after :
      {i : ℕ} {n : Node} {w v : Sweep} (x : Visited i n w v)
      → has n.step n.depends_on ≡ false
      → Settled v.states x.after
  Settled-after {n} {w} x no_self = rw (x.noted, x.same_dependencies, x.new_state) at_once
    where
      at_once :
          is_open (visited w.states n) ≡ true
          → next_state ((n.step, visited w.states n) ∷ w.states) n.depends_on (visited w.states n)
            ≡ visited w.states n
      at_once o = elim (Bool-cases (is_open n.state)) [
        | inr closed ↦ absurd (cc o)
        | inl open' ↦ rw open' (
            next_state-cons n.step _ _ w.states n.depends_on no_self
            ∙ next_state_idem w.states n.depends_on n.state)
      ]

  Grown-trans : (n m k : Node) → Grown n m → Grown m k → Grown n k
  Grown-trans n m k f g = record {
    same_step = g.same_step ∙ f.same_step;
    same_dependencies = g.same_dependencies ∙ f.same_dependencies;
    kept = λ c. g.kept (ap (λ y. is_open y.state) (f.kept c) ∙ c) ∙ f.kept c;
  }

  Grown-refl : (n : Node) → Grown n n
  Grown-refl n = record { same_step = refl; same_dependencies = refl; kept = λ _. refl }

  -- Every node of the order is settled in the end, and one that was closed has not changed.
  pub settles :
      (order : List Text) (w : Sweep) {r : Sweep} (i : ℕ) (n : Node)
      → Shape base w.nodes
      → Behind base order
      → propagate at indices order w ≡ some r
      → get_elem? w.nodes i ≡ some n
      → has n.step order ≡ true
      → (m : Node) × (get_elem? r.nodes i ≡ some m) × Grown n m × Settled r.states m
  settles [] w i n sh be e g h = absurd (unfold has in cc)
  settles (s ∷ ss) w {r} i n sh be e g h =
      let f = first s ss w sh e in
      let (k, gk, grown) = Grown-at i n f.there f.visit g in
      let sh' = Shape-visit f.there f.visit sh in
      elim (Bool-cases (text_eq n.step s)) [
        | inr other ↦
            let (m, gm, grown', st) =
              settles ss (visit_node at f.index f.node w) i k sh' be.1 f.rest gk
                (rw grown.same_step (unfold has in ground arith)) in
            (m, gm, Grown-trans n k m grown grown', st)
        | inl same ↦
            let named = eq_of_text_eq n.step s same in
            let ij = one_place w.nodes i f.index n f.node sh g f.there (named ∙ sym f.named) in
            let here : k ≡ f.visit.after = cc (f.visit.there) in
            let (b, gb, sb, db) = sh i n g in
            let (clear, once) = be.0 i b gb (sym sb ∙ named) in
            let no_self : has f.node.step f.node.depends_on ≡ false =
              let node : n ≡ f.node = cc (ij, f.there) in
              rw (f.named, ← node, db) (not_self s ss b.depends_on clear) in
            let (gm, st) =
              stays-Settled ss (visit_node at f.index f.node w) i k sh' f.rest gk
                (rw here (Settled-after f.visit no_self)) (rw (grown.same_step, named) once)
                (rw (grown.same_dependencies, db) (λ d q. has-there d s ss (clear d q))) in
            (k, gm, grown, st)
      ]

  pub Mirrors-pass :
      (order : List Text) (w : Sweep) {r : Sweep}
      → Shape base w.nodes
      → Mirrors w.nodes w.states
      → propagate at indices order w ≡ some r
      → Mirrors r.nodes r.states
  Mirrors-pass [] w {r} sh mi e = let same : w ≡ r = unfold propagate in cc in rw (← same) mi
  Mirrors-pass (s ∷ ss) w sh mi e =
      let f = first s ss w sh e in
      Mirrors-pass ss (visit_node at f.index f.node w) (Shape-visit f.there f.visit sh)
        (Mirrors-visit f.there f.visit sh mi) f.rest
