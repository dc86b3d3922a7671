-- ===== src/Pipeline/Checkpoint/Upstream.antt =====
-- What an accepted checkpoint of internal/cluster/pipeline_graph_state.go says about everything
-- that stands upstream of a node.
use context_bridge.Prelude.{
  ℕ, zero, suc, ◌<◌, Bool, true, not, ◌||◌, List, [], ◌∷◌, some, length, ok, ◌≡◌, refl, ap, ◌∙◌,
  arith, >>=-eq-ok, >>-eq-ok, inl, inr, ◌⊎◌, In, Option-cases, Bool-cases,
}
use context_bridge.Text.{Text, has, text_eq, eq_of_text_eq}
use context_bridge.Pipeline.Graph.Edges.{lookup}
use context_bridge.Pipeline.NodeState.{
  NodeState, completed, failed, cancelled, ambiguous, blocked_by_dependency, state_eq,
  requires_completed, blocks_descendants,
}
use context_bridge.Pipeline.Records.{Binding, Node}
use context_bridge.Prelude.{◌==◌, reject_if-eq-ok}
use context_bridge.Prelude.Int.{pos, ltb_ℤ}
use context_bridge.Pipeline.Graph.{mode_dag, maximum_parallelism}
use context_bridge.Pipeline.Checkpoint.Identifiers.{valid_sha256}
use context_bridge.Pipeline.Checkpoint.{
  contract_v1, Immutable, Tally, check_binding, check_nodes, check_links, check_order, topological,
  behind_all, position_of, validate_graph, equals_ℕ,
}
use context_bridge.Pipeline.Checkpoint.Nodes.{
  Linked, is_completed, nodes_complete, nodes_sound, links_result, state_of_every, state_of_some,
}

-- `m` is a direct or an indirect dependency of `n`.
pub data Upstream (nodes : List Node) : Node → Node → Type 0 where
  direct :
      {n m : Node} → In n nodes → In m nodes → has m.step n.depends_on ≡ true → Upstream nodes n m
  further : {n m k : Node} → Upstream nodes n m → Upstream nodes m k → Upstream nodes n k

pub record Accepted (order : List Text) (nodes : List Node) : Type 0 where
  pub by_name : List (Text × Node)
  pub position : List (Text × ℕ)
  pub tally : Tally
  pub named : check_nodes nodes [] [] ≡ ok by_name
  pub linked : check_links by_name nodes (record { edges = 0; outgoing = [] }) ≡ ok tally
  pub placed : check_order by_name 0 order [] ≡ ok position
  pub counted : length order ≡ length nodes
  pub ordered : topological position nodes ≡ true

counted_steps : (b : Binding) (n : ℕ) → check_binding b n ≡ ok tt → length b.order ≡ n
counted_steps b n e =
    let e1 =
      >>-eq-ok (not (text_eq b.contract_version contract_v1) || not (text_eq b.mode mode_dag)) _ _
        e in
    let e2 =
      >>-eq-ok (not (valid_sha256 b.config_sha256) || not (valid_sha256 b.graph_sha256)) _ _ e1.1 in
    let e3 =
      >>-eq-ok (ltb_ℤ b.max_parallel (pos 1) || ltb_ℤ (pos maximum_parallelism) b.max_parallel) _ _
        e2.1 in
    let e4 =
      reject_if-eq-ok
        (ltb_ℤ b.step_count (pos 1) || not (equals_ℕ b.step_count n) || not (length b.order == n)) _
        e3.1 in
    ground (arith, e4)

pub validate_graph-Accepted :
    (digest : Immutable → Text) (b : Binding) (nodes : List Node)
    → validate_graph digest b nodes ≡ ok tt
    → Accepted b.order nodes
unfolding validate_graph
validate_graph-Accepted digest b nodes e =
    let (_, bound, e1) = >>=-eq-ok (check_binding b (length nodes)) _ e in
    let (by_name, named, e2) = >>=-eq-ok (check_nodes nodes [] []) _ e1 in
    let (tally, linked, e3) =
      >>=-eq-ok (check_links by_name nodes (record { edges = 0; outgoing = [] })) _ e2 in
    let e4 = >>-eq-ok (not (equals_ℕ b.edge_count tally.edges)) _ _ e3 in
    let (position, placed, e5) = >>=-eq-ok (check_order by_name 0 b.order []) _ e4.1 in
    let e6 = >>-eq-ok (not (topological position nodes)) _ _ e5 in
    record {
      by_name = by_name;
      position = position;
      tally = tally;
      named = named;
      linked = linked;
      placed = placed;
      counted = counted_steps b (length nodes) bound;
      ordered = ground (arith, e6.0);
    }

-- A failure of its own, as opposed to one that was passed on.
abbrev pub is_root : NodeState → Bool
is_root s = state_eq s failed || (state_eq s cancelled || state_eq s ambiguous)

module _ {order : List Text} (nodes : List Node) (a : Accepted order nodes) where
  pub found : (m : Node) → In m nodes → lookup m.step a.by_name ≡ some m
  found m h = nodes_complete nodes [] [] m a.named h

  pub node_at : (d : Text) (m : Node) → lookup d a.by_name ≡ some m → In m nodes × (m.step ≡ d)
  node_at d m l = elim (nodes_sound nodes [] [] d m a.named l) [
    | inl none_found ↦ unfold lookup in cc
    | inr r ↦ r
  ]

  pub Linked-at : (n : Node) → In n nodes → Linked a.by_name n
  Linked-at n h = links_result a.by_name nodes _ n a.linked h

  completed_direct :
      (n m : Node)
      → In n nodes
      → In m nodes
      → has m.step n.depends_on ≡ true
      → requires_completed n.state ≡ true
      → m.state ≡ completed
  completed_direct n m hn hm d r = eq_completed m.state (
      rw (found m hm) at
        (state_of_every is_completed a.by_name n.depends_on m.step ((Linked-at n hn).0 r) d))
    where
      eq_completed : (s : NodeState) → state_eq s completed ≡ true → s ≡ completed
      eq_completed s h = unfold state_eq in ground arith

  -- Everything upstream of a node that became ready or ran is completed.
  pub Upstream-completed :
      {n m : Node} → Upstream nodes n m → requires_completed n.state ≡ true → m.state ≡ completed
  Upstream-completed (direct {n} {m} hn hm d) r = completed_direct n m hn hm d r
  Upstream-completed (further u v) r =
      Upstream-completed v
        (ap requires_completed (Upstream-completed u r) ∙ unfold requires_completed in refl)

  pub behind_at :
      (position : List (Text × ℕ)) (ns : List Node) (n : Node)
      → topological position ns ≡ true
      → In n ns
      → behind_all position n.step n.depends_on ≡ true
  unfolding topological
  behind_at position [] n e h = absurd h
  behind_at position (k ∷ ks) n e (inl here) = rw here (ground arith)
  behind_at position (k ∷ ks) n e (inr there) = behind_at position ks n (ground arith) there

  pub position_lt :
      (position : List (Text × ℕ)) (s : Text) (ds : List Text) (d : Text)
      → behind_all position s ds ≡ true
      → has d ds ≡ true
      → position_of position d < position_of position s
  unfolding behind_all has
  position_lt position s [] d e h = cc
  position_lt position s (x ∷ xs) d e h = elim (Bool-cases (text_eq d x)) [
    | inl y ↦ rw (eq_of_text_eq d x y) (ground arith)
    | inr n ↦ position_lt position s xs d (ground arith) (rw n at h)
  ]

  abbrev place : Node → ℕ
  place n = position_of a.position n.step

  Upstream-place : {n m : Node} → Upstream nodes n m → place m < place n
  Upstream-place (direct {n} {m} hn hm d) =
      position_lt a.position n.step n.depends_on m.step (behind_at a.position nodes n a.ordered hn)
        d
  Upstream-place (further u v) = omega (arith, Upstream-place u, Upstream-place v)

  -- No node is upstream of itself.
  pub Upstream-irreflexive : (n : Node) → ¬ Upstream nodes n n
  Upstream-irreflexive n u = absurd (omega (arith, Upstream-place u))

  blocking_cases :
      (s : NodeState)
      → blocks_descendants s ≡ true
      → (is_root s ≡ true) ⊎ (state_eq s blocked_by_dependency ≡ true)
  unfolding blocks_descendants state_eq
  blocking_cases s h = ground arith

  -- The node that blocks a blocked node.
  blocker :
      (n : Node)
      → In n nodes
      → state_eq n.state blocked_by_dependency ≡ true
      → (m : Node) × In m nodes × Upstream nodes n m × (blocks_descendants m.state ≡ true)
  blocker n h b =
      let (d, declared, s) =
        state_of_some blocks_descendants a.by_name n.depends_on ((Linked-at n h).1 b) in
      elim (Option-cases (lookup d a.by_name)) [
        | inl l ↦ absurd (cc (rw l at s))
        | inr (m, l) ↦
            let (hm, same) = node_at d m l in (m, hm, direct h hm (rw same declared), rw l at s)
      ]

  cause :
      (b : ℕ) (n : Node)
      → place n < b
      → In n nodes
      → state_eq n.state blocked_by_dependency ≡ true
      → (m : Node) × Upstream nodes n m × (is_root m.state ≡ true)
  cause zero n lt h s = elim lt [ ]
  cause (suc b) n lt h s =
      let (m, hm, u, blocks) = blocker n h s in
      elim (blocking_cases m.state blocks) [
        | inl root ↦ (m, u, root)
        | inr blocked ↦
            let (k, v, root) = cause b m (omega (arith, Upstream-place u)) hm blocked in
            (k, further u v, root)
      ]

  -- Behind every blocked node stands one that failed, was cancelled, or is ambiguous.
  pub blocked_cause :
      (n : Node)
      → In n nodes
      → state_eq n.state blocked_by_dependency ≡ true
      → (m : Node) × Upstream nodes n m × (is_root m.state ≡ true)
  blocked_cause n h s = cause (suc (place n)) n (omega arith) h s
