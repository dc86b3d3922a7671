-- ===== src/Pipeline/Propagation/Order.antt =====
-- internal/cluster/pipeline_graph_state.go and store.go: why the bound order of an accepted
-- checkpoint reaches every node once, behind its dependencies.
use context_bridge.Prelude.{
  ℕ, zero, suc, ◌+◌, ◌≤◌, true, false, not, List, [], ◌∷◌, some, get_elem?, In, ok, >>-eq-ok, ◌≡◌,
  ◌≢◌, refl, sym, ap, ◌∙◌, ◌⊎◌, inl, inr, arith, Bool-cases,
}
use context_bridge.Text.{Text, text_eq, text_eq_refl, eq_of_text_eq, has}
use context_bridge.Pipeline.Graph.Edges.{lookup, is_some}
use context_bridge.Pipeline.NodeState.{NodeState}
use context_bridge.Pipeline.Records.{Node}
use context_bridge.Pipeline.Checkpoint.{check_nodes, check_order, position_of, with_job}
use context_bridge.Pipeline.Checkpoint.Nodes.{check_nodes-eq-ok, check_node-new}
use context_bridge.Pipeline.Ready.{states_by_step}
use context_bridge.Pipeline.Propagation.{indices_by_step}
use context_bridge.Pipeline.Propagation.Settled.{lookup-same, lookup-other}
use context_bridge.Pipeline.Propagation.Pass.{Mirrors}

pub In-get_elem? : {A : Type 0} (xs : List A) (i : ℕ) (x : A) → get_elem? xs i ≡ some x → In x xs
In-get_elem? [] i x h = cc
In-get_elem? (y ∷ ys) zero x h = inl (cc)
In-get_elem? (y ∷ ys) (suc i) x h = inr (In-get_elem? ys i x h)

pub place_of : {A : Type 0} (xs : List A) (x : A) → In x xs → (i : ℕ) × (get_elem? xs i ≡ some x)
place_of [] x h = absurd h
place_of (y ∷ ys) x (inl here) = (0, ap some (sym here))
place_of (y ∷ ys) x (inr there) = let (i, g) = place_of ys x there in (suc i, g)

fresh :
    (ns : List Node) (by_name : List (Text × Node)) (jobs : List (Text × Text))
    {r : List (Text × Node)} (j : ℕ) (m : Node)
    → check_nodes ns by_name jobs ≡ ok r
    → get_elem? ns j ≡ some m
    → is_some (lookup m.step by_name) ≡ false
unfolding lookup
fresh [] by_name jobs j m e g = cc
fresh (n ∷ ns) by_name jobs zero m e g =
    let here : n ≡ m = cc in
    rw (← here) (check_node-new n by_name jobs (check_nodes-eq-ok n ns by_name jobs e).0)
fresh (n ∷ ns) by_name jobs (suc j) m e g = ground (
  arith,
  fresh ns ((n.step, n) ∷ by_name) (with_job n jobs) j m (check_nodes-eq-ok n ns by_name jobs e).1
      g,
)

pub distinct_steps :
    (ns : List Node) (by_name : List (Text × Node)) (jobs : List (Text × Text))
    {r : List (Text × Node)} (i j : ℕ) (n m : Node)
    → check_nodes ns by_name jobs ≡ ok r
    → get_elem? ns i ≡ some n
    → get_elem? ns j ≡ some m
    → n.step ≡ m.step
    → i ≡ j
distinct_steps [] by_name jobs i j n m e gi gj same = cc
distinct_steps (k ∷ ks) by_name jobs zero zero n m e gi gj same = refl
distinct_steps (k ∷ ks) by_name jobs zero (suc j) n m e gi gj same =
    let f =
      fresh ks ((k.step, k) ∷ by_name) (with_job k jobs) j m
        (check_nodes-eq-ok k ks by_name jobs e).1 gj in
    let here : k ≡ n = cc in
    absurd (unfold lookup in ground (arith, ap (λ y. y.step) here ∙ same, text_eq_refl m.step, f))
distinct_steps (k ∷ ks) by_name jobs (suc i) zero n m e gi gj same =
    let f =
      fresh ks ((k.step, k) ∷ by_name) (with_job k jobs) i n
        (check_nodes-eq-ok k ks by_name jobs e).1 gi in
    let here : k ≡ m = cc in
    absurd
      (unfold lookup in ground (arith, ap (λ y. y.step) here ∙ sym same, text_eq_refl n.step, f))
distinct_steps (k ∷ ks) by_name jobs (suc i) (suc j) n m e gi gj same = ap suc (
    distinct_steps ks ((k.step, k) ∷ by_name) (with_job k jobs) i j n m
      (check_nodes-eq-ok k ks by_name jobs e).1 gi gj same)

pub index_sound :
    (k : ℕ) (ns : List Node) (m : List (Text × ℕ)) (s : Text) (i : ℕ)
    → lookup s (indices_by_step k ns m) ≡ some i
    → (lookup s m ≡ some i)
      ⊎ ((j : ℕ) × (n : Node) × (get_elem? ns j ≡ some n) × (n.step ≡ s) × (i ≡ k + j))
unfolding indices_by_step
index_sound k [] m s i e = inl e
index_sound k (n ∷ ns) m s i e = elim (index_sound (suc k) ns ((n.step, k) ∷ m) s i e) [
  | inr (j, x, g, q, r) ↦ inr (suc j, x, g, q, omega (arith, r))
  | inl old ↦ elim (Bool-cases (text_eq s n.step)) [
    | inl same ↦
        let here : k ≡ i = unfold lookup in ground (arith, rw (same, lookup) at old) in
        inr (0, n, refl, sym (eq_of_text_eq s n.step same), omega (arith, here))
    | inr other ↦ inl (unfold lookup in rw (other, lookup) at old)
  ]
]

state_kept :
    (ns : List Node) (m : List (Text × NodeState)) (t : Text)
    → ((j : ℕ) (n : Node) → get_elem? ns j ≡ some n → t ≢ n.step)
    → lookup t (states_by_step ns m) ≡ lookup t m
unfolding states_by_step
state_kept [] m t away = refl
state_kept (n ∷ ns) m t away =
    state_kept ns ((n.step, n.state) ∷ m) t (λ j k g. away (suc j) k g)
    ∙ lookup-other n.step t n.state m (away 0 n refl)

pub states_mirror :
    (ns : List Node) (m : List (Text × NodeState))
    → ((i j : ℕ) (n k : Node)
        → get_elem? ns i ≡ some n
        → get_elem? ns j ≡ some k
        → n.step ≡ k.step
        → i ≡ j)
    → Mirrors ns (states_by_step ns m)
unfolding states_by_step
states_mirror [] m distinct i n g = cc
states_mirror (k ∷ ks) m distinct zero n g =
    let here : k ≡ n = cc in
    state_kept ks ((k.step, k.state) ∷ m) n.step
      (λ j x gx same. absurd (omega (arith, distinct 0 (suc j) n x g gx same)))
    ∙ rw (← here) (lookup-same k.step k.state m)
states_mirror (k ∷ ks) m distinct (suc i) n g =
    states_mirror ks ((k.step, k.state) ∷ m)
      (λ i j a b ga gb same. omega (arith, distinct (suc i) (suc j) a b ga gb same)) i n g

pub record Ordered (by_name : List (Text × Node)) (i : ℕ) (s : Text) (ss : List Text)
    (position final : List (Text × ℕ)) : Type 0 where
  pub is_known : is_some (lookup s by_name) ≡ true
  pub is_new : is_some (lookup s position) ≡ false
  pub rest : check_order by_name (suc i) ss ((s, i) ∷ position) ≡ ok final

pub ordered :
    (by_name : List (Text × Node)) (i : ℕ) (s : Text) (ss : List Text) (position : List (Text × ℕ))
    {final : List (Text × ℕ)}
    → check_order by_name i (s ∷ ss) position ≡ ok final
    → Ordered by_name i s ss position final
unfolding check_order
ordered by_name i s ss position {final} e =
    let e1 = >>-eq-ok (not (is_some (lookup s by_name))) _ _ e in
    let e2 = >>-eq-ok (is_some (lookup s position)) _ _ e1.1 in
    record { is_known = ground (arith, e1.0); is_new = e2.0; rest = e2.1 }

order_kept :
    (by_name : List (Text × Node)) (i : ℕ) (order : List Text) (position : List (Text × ℕ))
    {final : List (Text × ℕ)} (t : Text) (v : ℕ)
    → check_order by_name i order position ≡ ok final
    → lookup t position ≡ some v
    → lookup t final ≡ some v
order_kept by_name i [] position {final} t v e l =
    let same : position ≡ final = unfold check_order in cc in rw (← same) l
order_kept by_name i (s ∷ ss) position t v e l =
    let o = ordered by_name i s ss position e in
    order_kept by_name (suc i) ss ((s, i) ∷ position) t v o.rest
      (unfold lookup in ground (arith, l, o.is_new, eq_of_text_eq t s))

order_new :
    (by_name : List (Text × Node)) (i : ℕ) (order : List Text) (position : List (Text × ℕ))
    {final : List (Text × ℕ)} (t : Text)
    → check_order by_name i order position ≡ ok final
    → has t order ≡ true
    → is_some (lookup t position) ≡ false
unfolding has lookup
order_new by_name i [] position t e h = absurd cc
order_new by_name i (s ∷ ss) position t e h =
    let o = ordered by_name i s ss position e in
    elim (Bool-cases (text_eq t s)) [
      | inl same ↦ rw (eq_of_text_eq t s same) o.is_new
      | inr other ↦
          let later =
            order_new by_name (suc i) ss ((s, i) ∷ position) t o.rest (ground (arith, h, other)) in
          rw other at later
    ]

pub order_place :
    (by_name : List (Text × Node)) (i : ℕ) (s : Text) (ss : List Text) (position : List (Text × ℕ))
    {final : List (Text × ℕ)}
    → check_order by_name i (s ∷ ss) position ≡ ok final
    → position_of final s ≡ i
order_place by_name i s ss position e =
    let o = ordered by_name i s ss position e in
    let at_i =
      order_kept by_name (suc i) ss ((s, i) ∷ position) s i o.rest
        (unfold lookup in ground (arith, text_eq_refl s)) in
    rw at_i refl

pub order_later :
    (by_name : List (Text × Node)) (i : ℕ) (order : List Text) (position : List (Text × ℕ))
    {final : List (Text × ℕ)} (t : Text)
    → check_order by_name i order position ≡ ok final
    → has t order ≡ true
    → i ≤ position_of final t
order_later by_name i [] position t e h = absurd (unfold has in cc)
order_later by_name i (s ∷ ss) position t e h = elim (Bool-cases (text_eq t s)) [
  | inl same ↦ rw (eq_of_text_eq t s same) (omega (arith, order_place by_name i s ss position e))
  | inr other ↦ omega (
    arith,
    order_later by_name (suc i) ss ((s, i) ∷ position) t (ordered by_name i s ss position e).rest
        (unfold has in ground (arith, h, other)),
  )
]

pub not_again :
    (by_name : List (Text × Node)) (i : ℕ) (s : Text) (ss : List Text) (position : List (Text × ℕ))
    {final : List (Text × ℕ)}
    → check_order by_name i (s ∷ ss) position ≡ ok final
    → has s ss ≡ false
not_again by_name i s ss position e = elim (Bool-cases (has s ss)) [
  | inr once ↦ once
  | inl again ↦
      let new =
        order_new by_name (suc i) ss ((s, i) ∷ position) s (ordered by_name i s ss position e).rest
          again in
      absurd (unfold lookup in ground (arith, new, text_eq_refl s))
]
