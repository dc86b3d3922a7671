-- ===== src/Pipeline/Propagation/Closure.antt =====
-- internal/cluster/store.go: the pass over the bound order of an accepted checkpoint leaves nothing
-- to derive.
use context_bridge.Prelude.{
  ℕ, suc, true, false, List, [], ◌∷◌, some, get_elem?, length, In, ok, ◌≡◌, refl, sym, subst, ap,
  ◌∙◌, inl, inr, arith, Bool-cases, Option-cases,
}
use context_bridge.Text.{Text, text_eq, text_eq_refl, eq_of_text_eq, has}
use context_bridge.Text.Sets.{Once, has_all}
use context_bridge.Pipeline.Graph.Edges.{lookup, is_some}
use context_bridge.Pipeline.Records.{Node}
use context_bridge.Pipeline.Checkpoint.{check_order, position_of}
use context_bridge.Pipeline.Checkpoint.Upstream.{Accepted, node_at, behind_at, position_lt}
use context_bridge.Pipeline.Propagation.{Sweep, propagated, indices_by_step}
use context_bridge.Pipeline.Propagation.Pass.{Grown, Shape, Behind, settles, Mirrors-pass}
use context_bridge.Pipeline.Propagation.Order.{
  In-get_elem?, distinct_steps, index_sound, states_mirror, ordered, order_place, order_later,
  not_again,
}
use context_bridge.Pipeline.Propagation.Quiet.{Quiet, Settled-Quiet}
use context_bridge.Pipeline.Propagation.Changes.{events_at, change_events, changes}
use context_bridge.Store.Events.{Event}

module _ {order : List Text} (base : List Node) (a : Accepted order base) where
  behind :
      (i : ℕ) (ss : List Text) (position : List (Text × ℕ))
      → check_order a.by_name i ss position ≡ ok a.position
      → Behind base ss
  behind i [] position e = tt
  behind i (s ∷ ss) position e = (
    λ j n g named. (
      λ d h. clear d s i n position e (In-get_elem? base j n g) named h,
      not_again a.by_name i s ss position e,
    ),
    behind (suc i) ss ((s, i) ∷ position) (ordered a.by_name i s ss position e).rest,
  )
    where
      clear :
          (d s : Text) (i : ℕ) (n : Node) (position : List (Text × ℕ))
          → check_order a.by_name i (s ∷ ss) position ≡ ok a.position
          → In n base
          → n.step ≡ s
          → has d n.depends_on ≡ true
          → has d (s ∷ ss) ≡ false
      clear d s i n position e h named dep = elim (Bool-cases (has d (s ∷ ss))) [
        | inr away ↦ away
        | inl later ↦
            let before =
              position_lt base a a.position n.step n.depends_on d
                (behind_at base a a.position base n a.ordered h) dep in
            let here = order_place a.by_name i s ss position e in
            let same = ap (position_of a.position) named in
            absurd (
              omega
                (arith, before, here, same, order_later a.by_name i (s ∷ ss) position d e later))
      ]

  once :
      (i : ℕ) (ss : List Text) (position : List (Text × ℕ))
      → check_order a.by_name i ss position ≡ ok a.position
      → Once ss
  once i [] position e = tt
  once i (s ∷ ss) position e = (
    not_again a.by_name i s ss position e,
    once (suc i) ss ((s, i) ∷ position) (ordered a.by_name i s ss position e).rest,
  )

  known_step :
      (i : ℕ) (ss : List Text) (position : List (Text × ℕ)) (t : Text)
      → check_order a.by_name i ss position ≡ ok a.position
      → has t ss ≡ true
      → is_some (lookup t a.by_name) ≡ true
  unfolding has
  known_step i [] position t e h = cc
  known_step i (s ∷ ss) position t e h =
      let o = ordered a.by_name i s ss position e in
      elim (Bool-cases (text_eq t s)) [
        | inl same ↦ rw (eq_of_text_eq t s same) o.is_known
        | inr other ↦ known_step (suc i) ss ((s, i) ∷ position) t o.rest (ground (arith, h, other))
      ]

  steps_of : List Node → List Text
  steps_of [] = []
  steps_of (n ∷ ns) = n.step ∷ steps_of ns

  has-steps_of : (ns : List Node) (n : Node) → In n ns → has n.step (steps_of ns) ≡ true
  unfolding steps_of has
  has-steps_of [] n h = absurd h
  has-steps_of (m ∷ ms) n (inl here) = rw here (ground (arith, text_eq_refl m.step))
  has-steps_of (m ∷ ms) n (inr there) = ground (arith, has-steps_of ms n there)

  length-steps_of : (ns : List Node) → length (steps_of ns) ≡ length ns
  unfolding steps_of
  length-steps_of [] = refl
  length-steps_of (n ∷ ns) = ap suc (length-steps_of ns)

  -- The order names every node.
  covers : (n : Node) → In n base → has n.step order ≡ true
  covers n h =
      has_all order (steps_of base) (once 0 order [] a.placed)
        (λ t i. step_known t (known_step 0 order [] t a.placed i))
        (omega (arith, a.counted, length-steps_of base)) n.step (has-steps_of base n h)
    where
      step_known : (t : Text) → is_some (lookup t a.by_name) ≡ true → has t (steps_of base) ≡ true
      step_known t k = elim (Option-cases (lookup t a.by_name)) [
        | inl l ↦ absurd (cc (rw l at k))
        | inr (m, l) ↦
            let (h, q) = node_at base a t m l in
            subst (λ u. has u (steps_of base) ≡ true) q (has-steps_of base m h)
      ]

  distinct :
      (i j : ℕ) (n m : Node)
      → get_elem? base i ≡ some n
      → get_elem? base j ≡ some m
      → n.step ≡ m.step
      → i ≡ j
  distinct i j n m gi gj same = distinct_steps base [] [] i j n m a.named gi gj same

  module _ (nodes : List Node) (sh : Shape base nodes) where
    distinct_now :
        (i j : ℕ) (n m : Node)
        → get_elem? nodes i ≡ some n
        → get_elem? nodes j ≡ some m
        → n.step ≡ m.step
        → i ≡ j
    distinct_now i j n m gi gj same =
        let (b, gb, sb, _) = sh i n gi in
        let (c, gc, sc, _) = sh j m gj in distinct i j b c gb gc (sym sb ∙ same ∙ sc)

    indexed :
        (s : Text) (i : ℕ) (n : Node)
        → lookup s (indices_by_step 0 nodes []) ≡ some i
        → get_elem? base i ≡ some n
        → n.step ≡ s
    indexed s i n l g = elim (index_sound 0 nodes [] s i l) [
      | inl no_index ↦ absurd (unfold lookup in cc)
      | inr (j, k, gk, q, r) ↦
          let (b, gb, same, _) = sh j k gk in
          let ij : i ≡ j = omega (arith, r) in
          let here : n ≡ b = cc (ij, g, gb) in ap (λ y. y.step) here ∙ sym same ∙ q
    ]

    -- The pass over nodes with the steps and dependencies of an accepted checkpoint.
    pub propagated-Quiet :
        (at i : ℕ) (n : Node) {r : Sweep}
        → propagated at order nodes ≡ some r
        → get_elem? nodes i ≡ some n
        → (m : Node) × (get_elem? r.nodes i ≡ some m) × Grown n m × Quiet r.nodes m
    propagated-Quiet at i n {r} e g =
        let (b, gb, same, _) = sh i n g in
        let (m, gm, grown, st) =
          settles at base (indices_by_step 0 nodes []) distinct indexed order _ i n sh
            (behind 0 order [] a.placed) e g (rw same (covers b (In-get_elem? base i b gb))) in
        let mi =
          Mirrors-pass at base (indices_by_step 0 nodes []) distinct indexed order _ sh
            (states_mirror nodes [] distinct_now) e in
        (m, gm, grown, Settled-Quiet r.nodes r.states m mi st)

    -- The events of the changes that the pass makes to these nodes.
    pub change_events-propagated :
        (at : ℕ) (tell : Node → Event) {r : Sweep}
        → propagated at order nodes ≡ some r
        → events_at tell r.nodes r.changed ≡ change_events tell nodes r.nodes order
    unfolding events_at
    change_events-propagated at tell e =
        changes tell at base (indices_by_step 0 nodes []) distinct indexed order _ sh
          (behind 0 order [] a.placed) e
