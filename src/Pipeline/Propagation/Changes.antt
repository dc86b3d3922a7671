-- ===== src/Pipeline/Propagation/Changes.antt =====
-- internal/cluster/store.go: which nodes the pass of ReconcileDAGChildTerminal changes.
use context_bridge.Prelude.{
  ℕ, zero, suc, Bool, true, false, not, ◌&&◌, List, [], ◌∷◌, ◌++◌, Option, none, some,
  if◌then◌else◌, get_elem?, ◌==◌, ◌≡◌, ◌≢◌, refl, sym, ap, ◌∙◌, inl, inr, arith, Bool-cases,
}
use context_bridge.Text.{Text, text_eq, text_eq_refl, eq_of_text_eq, has}
use context_bridge.Pipeline.Graph.Edges.{lookup}
use context_bridge.Pipeline.NodeState.{state_eq}
use context_bridge.Pipeline.Records.{Node}
use context_bridge.Pipeline.Propagation.{Sweep, is_open, visit_node, propagate}
use context_bridge.Pipeline.Propagation.Settled.{Visited}
use context_bridge.Pipeline.Propagation.Pass.{
  Shape, Behind, first, one_place, Shape-visit, has-here, has-there,
}
use context_bridge.Store.Events.{Event}

-- The node of a step.
unfoldable pub node_named : Text → List Node → Option Node
node_named t [] = none
node_named t (n ∷ ns) = let rest = node_named t ns in if text_eq t n.step then some n else rest

abbrev pub Distinct : List Node → Type 0
Distinct ns =
    (i j : ℕ) (n m : Node)
    → get_elem? ns i ≡ some n
    → get_elem? ns j ≡ some m
    → n.step ≡ m.step
    → i ≡ j

abbrev pred : ℕ → ℕ
pred zero = zero
pred (suc n) = n

-- A node stands under its step, where no two nodes share one.
node_named-at :
    (ns : List Node) (i : ℕ) (n : Node)
    → Distinct ns
    → get_elem? ns i ≡ some n
    → node_named n.step ns ≡ some n
unfolding node_named
node_named-at [] i n d g = cc
node_named-at (x ∷ xs) zero n d g = let here : x ≡ n = cc in rw (here, text_eq_refl n.step) refl
node_named-at (x ∷ xs) (suc i) n d g = elim (Bool-cases (text_eq n.step x.step)) [
  | inl same ↦ absurd (cc (d (suc i) zero n x g refl (eq_of_text_eq n.step x.step same)))
  | inr other ↦
      rw other (node_named-at xs i n (λ j k a b ga gb s. ap pred (d (suc j) (suc k) a b ga gb s)) g)
]

module _ (tell : Node → Event) where
  abbrev told_at : Option Node → List Event
  told_at none = []
  told_at (some m) = tell m ∷ []

  -- The events of the nodes at these indices.
  unfoldable pub events_at : List Node → List ℕ → List Event
  events_at ns [] = []
  events_at ns (i ∷ is) = told_at (get_elem? ns i) ++ events_at ns is

  -- The event of a node that was waiting or ready, and changed its state.
  abbrev pub told : Node → Node → List Event
  told n m = if is_open n.state && not (state_eq m.state n.state) then tell m ∷ [] else []

  abbrev pub told_of : Option Node → Option Node → List Event
  told_of none m = []
  told_of (some n) none = []
  told_of (some n) (some m) = told n m

  -- The events of all changes from the old nodes to the new ones, in the order of the steps.
  unfoldable pub change_events : List Node → List Node → List Text → List Event
  unfolding node_named
  change_events old new [] = []
  change_events old new (s ∷ ss) =
      told_of (node_named s old) (node_named s new) ++ change_events old new ss

  append_assoc : (xs ys zs : List Event) → ((xs ++ ys) ++ zs) ≡ (xs ++ (ys ++ zs))
  append_assoc [] ys zs = refl
  append_assoc (x ∷ xs) ys zs = ap (λ r. x ∷ r) (append_assoc xs ys zs)

  append-none : (xs : List Event) → (xs ++ []) ≡ xs
  append-none [] = refl
  append-none (x ∷ xs) = ap (λ r. x ∷ r) (append-none xs)

  events_at-if :
      (c : Bool) (ns : List Node) (i : ℕ) (m : Node)
      → get_elem? ns i ≡ some m
      → events_at ns (if c then i ∷ [] else []) ≡ (if c then tell m ∷ [] else [])
  unfolding events_at
  events_at-if true ns i m g = rw g refl
  events_at-if false ns i m g = refl

  events_at-append :
      (ns : List Node) (is js : List ℕ)
      → events_at ns (is ++ js) ≡ (events_at ns is ++ events_at ns js)
  unfolding events_at
  events_at-append ns [] js = refl
  events_at-append ns (i ∷ is) js =
      ap (λ r. told_at (get_elem? ns i) ++ r) (events_at-append ns is js)
      ∙ sym (append_assoc (told_at (get_elem? ns i)) (events_at ns is) (events_at ns js))

  -- What two old nodes tell of a step.
  abbrev pub Alike : Text → Option Node → Option Node → Type 0
  Alike t none none = Unit
  Alike t none (some m) = true ≡ false
  Alike t (some n) none = true ≡ false
  Alike t (some n) (some m) =
      (n.step ≡ m.step) × (text_eq t n.step ≡ true → (k : Node) → told n k ≡ told m k)

  pub Alike-refl : (t : Text) (o : Option Node) → Alike t o o
  Alike-refl t none = tt
  Alike-refl t (some n) = (refl, λ h k. refl)

  told_of-some :
      (n m : Node) (o : Option Node)
      → ((k : Node) → told n k ≡ told m k)
      → told_of (some n) o ≡ told_of (some m) o
  told_of-some n m none h = refl
  told_of-some n m (some k) h = h k

  told-Alike :
      (t : Text) (xs ys : List Node) (o : Option Node)
      → ((j : ℕ) → Alike t (get_elem? xs j) (get_elem? ys j))
      → told_of (node_named t xs) o ≡ told_of (node_named t ys) o
  unfolding node_named
  told-Alike t [] [] o h = refl
  told-Alike t [] (y ∷ ys) o h = absurd (cc (h zero))
  told-Alike t (x ∷ xs) [] o h = absurd (cc (h zero))
  told-Alike t (x ∷ xs) (y ∷ ys) o h =
      let (same, alike) = h zero in
      elim (Bool-cases (text_eq t x.step)) [
        | inl here ↦
            let there = ap (text_eq t) (sym same) ∙ here in
            rw (here, there) (told_of-some x y o (alike here))
        | inr other ↦
            let there = ap (text_eq t) (sym same) ∙ other in
            rw (other, there) (told-Alike t xs ys o (λ j. h (suc j)))
      ]

  pub change_events-Alike :
      (xs ys new : List Node) (order : List Text)
      → ((t : Text) → has t order ≡ true → (j : ℕ) → Alike t (get_elem? xs j) (get_elem? ys j))
      → change_events xs new order ≡ change_events ys new order
  unfolding change_events
  change_events-Alike xs ys new [] h = refl
  change_events-Alike xs ys new (s ∷ ss) h =
      ap (λ r. r ++ change_events xs new ss)
        (told-Alike s xs ys (node_named s new) (h s (has-here s ss)))
      ∙ ap (λ r. told_of (node_named s ys) (node_named s new) ++ r)
          (change_events-Alike xs ys new ss (λ t i. h t (unfold has in ground (arith, i))))

  module _ (at : ℕ) (base : List Node) (indices : List (Text × ℕ)) (distinct : Distinct base)
      (indexed : (s : Text) (i : ℕ) (n : Node)
        → lookup s indices ≡ some i
        → get_elem? base i ≡ some n
        → n.step ≡ s) where
    now-Distinct : (ns : List Node) → Shape base ns → Distinct ns
    now-Distinct ns sh i j n m gi gj same =
        one_place at base indices distinct indexed ns i j n m sh gi gj same

    -- A node that is not visited any more stays as it is.
    unvisited :
        (order : List Text) (w : Sweep) {r : Sweep} (i : ℕ) (n : Node)
        → Shape base w.nodes
        → propagate at indices order w ≡ some r
        → get_elem? w.nodes i ≡ some n
        → has n.step order ≡ false
        → get_elem? r.nodes i ≡ some n
    unvisited [] w {r} i n sh e g away = let same : w ≡ r = unfold propagate in cc in rw (← same) g
    unvisited (s ∷ ss) w i n sh e g away =
        let f = first at base indices distinct indexed s ss w sh e in
        let apart : i ≢ f.index = λ q.
          let here : n ≡ f.node = cc (q, g, f.there) in
          let named : n.step ≡ s = ap (λ y. y.step) here ∙ f.named in
          absurd (cc (ap (λ x. has x (s ∷ ss)) named, has-here s ss, away)) in
        unvisited ss (visit_node at f.index f.node w) i n
          (Shape-visit at base indices distinct indexed f.there f.visit sh) f.rest
          (f.visit.others i apart ∙ g) (has-there n.step s ss away)

    Shape-pass :
        (order : List Text) (w : Sweep) {r : Sweep}
        → Shape base w.nodes
        → propagate at indices order w ≡ some r
        → Shape base r.nodes
    Shape-pass [] w {r} sh e = let same : w ≡ r = unfold propagate in cc in rw (← same) sh
    Shape-pass (s ∷ ss) w sh e =
        let f = first at base indices distinct indexed s ss w sh e in
        Shape-pass ss (visit_node at f.index f.node w)
          (Shape-visit at base indices distinct indexed f.there f.visit sh) f.rest

    -- A visit changes nothing that is told of the other steps.
    visit-Alike :
        (t : Text) (i : ℕ) (n : Node) (w v : Sweep)
        → get_elem? w.nodes i ≡ some n
        → Visited i n w v
        → text_eq t n.step ≡ false
        → (j : ℕ) → Alike t (get_elem? v.nodes j) (get_elem? w.nodes j)
    visit-Alike t i n w v g x other j = elim (Bool-cases (j == i)) [
      | inr away ↦ rw (x.others j (ground (arith, away))) (Alike-refl t (get_elem? w.nodes j))
      | inl here ↦
          let ij : j ≡ i = ground (arith, here) in
          rw (ij, x.there, g) (x.same_step, λ h. absurd (cc (ap (text_eq t) x.same_step, h, other)))
    ]

    apart : (t u : Text) (ss : List Text) → has t ss ≡ true → has u ss ≡ false → text_eq t u ≡ false
    apart t u ss h k = elim (Bool-cases (text_eq t u)) [
      | inr other ↦ other
      | inl same ↦ absurd (cc (ap (λ x. has x ss) (eq_of_text_eq t u same), h, k))
    ]

    -- The changes of the pass are those between its nodes and the nodes in the end.
    pub changes :
        (order : List Text) (w : Sweep) {r : Sweep}
        → Shape base w.nodes
        → Behind base order
        → propagate at indices order w ≡ some r
        → events_at r.nodes r.changed
          ≡ (events_at r.nodes w.changed ++ change_events w.nodes r.nodes order)
    unfolding change_events
    changes [] w {r} sh be e =
        let same : w ≡ r = unfold propagate in cc in
        ap (λ q. events_at r.nodes q.changed) (sym same)
        ∙ sym (append-none (events_at r.nodes w.changed))
    changes (s ∷ ss) w {r} sh be e =
        let f = first at base indices distinct indexed s ss w sh e in
        let x = f.visit in
        let v = visit_node at f.index f.node w in
        let sv = Shape-visit at base indices distinct indexed f.there x sh in
        let (b, gb, sb, _) = sh f.index f.node f.there in
        let once : has s ss ≡ false = (be.0 f.index b gb (sym sb ∙ f.named)).1 in
        let away : has x.after.step ss ≡ false =
          ap (λ t. has t ss) (x.same_step ∙ f.named) ∙ once in
        let in_end = unvisited ss v f.index x.after sv f.rest x.there away in
        let c = is_open f.node.state && not (state_eq x.after.state f.node.state) in
        let old : node_named s w.nodes ≡ some f.node =
          ap (λ t. node_named t w.nodes) (sym f.named)
          ∙ node_named-at w.nodes f.index f.node (now-Distinct w.nodes sh) f.there in
        let new : node_named s r.nodes ≡ some x.after =
          ap (λ t. node_named t r.nodes) (sym (x.same_step ∙ f.named))
          ∙ node_named-at r.nodes f.index x.after (now-Distinct r.nodes (Shape-pass ss v sv f.rest))
              in_end in
        let others = change_events-Alike v.nodes w.nodes r.nodes ss (λ t h.
          visit-Alike t f.index f.node w v f.there x
            (apart t f.node.step ss h (ap (λ u. has u ss) f.named ∙ once))) in
        changes ss v sv be.1 f.rest
        ∙ ap (λ is. events_at r.nodes is ++ change_events v.nodes r.nodes ss) x.turned
        ∙ ap (λ es. es ++ change_events v.nodes r.nodes ss)
            (events_at-append r.nodes w.changed (if c then f.index ∷ [] else []))
        ∙ append_assoc (events_at r.nodes w.changed) _ _
        ∙ ap (λ es. events_at r.nodes w.changed ++ (es ++ change_events v.nodes r.nodes ss))
            (events_at-if c r.nodes f.index x.after in_end
              ∙ sym
                  (ap (λ o. told_of o (node_named s r.nodes)) old ∙ ap (told_of (some f.node)) new))
        ∙ ap
            (λ es.
              events_at r.nodes w.changed
              ++ (told_of (node_named s w.nodes) (node_named s r.nodes) ++ es))
            others
