-- ===== src/Pipeline/Checkpoint/Nodes.antt =====
-- internal/cluster/pipeline_graph_state.go: what the two loops over the nodes establish.
use context_bridge.Prelude.{
  suc, ◌+◌, Bool, true, false, not, ◌&&◌, ◌||◌, List, [], ◌∷◌, Option, none, some, ltb, ok, ◌≡◌,
  refl, sym, subst, ap, ◌∙◌, arith, >>=-eq-ok, >>-eq-ok, Bool-cases, Option-cases, inl, inr, ◌⊎◌,
  In,
}
use context_bridge.Text.{Text, text_eq, text_eq_refl, eq_of_text_eq, has, trim_space}
use context_bridge.Pipeline.Graph.Template.{is_empty}
use context_bridge.Pipeline.Graph.Edges.{lookup, is_some, maximum_fan, maximum_edges}
use context_bridge.Pipeline.NodeState.{
  NodeState, completed, blocked_by_dependency, state_eq, requires_completed, blocks_descendants,
}
use context_bridge.Pipeline.Records.{Node}
use context_bridge.Pipeline.Checkpoint.{
  Found, Tally, check_node, check_nodes, check_dependency, check_dependencies, check_links,
  nothing_found, with_job, value_of,
}

pub check_nodes-eq-ok :
    (n : Node) (ns : List Node) (by_name : List (Text × Node)) (jobs : List (Text × Text))
    {r : List (Text × Node)}
    → check_nodes (n ∷ ns) by_name jobs ≡ ok r
    → (check_node n by_name jobs ≡ ok tt)
      × (check_nodes ns ((n.step, n) ∷ by_name) (with_job n jobs) ≡ ok r)
unfolding check_nodes
check_nodes-eq-ok n ns by_name jobs e =
    let (u, first, rest) = >>=-eq-ok (check_node n by_name jobs) _ e in (first, rest)

pub check_node-new :
    (n : Node) (by_name : List (Text × Node)) (jobs : List (Text × Text))
    → check_node n by_name jobs ≡ ok tt
    → is_some (lookup n.step by_name) ≡ false
unfolding check_node
check_node-new n by_name jobs e =
    let e1 = >>-eq-ok (is_empty (trim_space n.step)) _ _ e in
    (>>-eq-ok (is_some (lookup n.step by_name)) _ _ e1.1).0

node_kept :
    (ns : List Node) (by_name : List (Text × Node)) (jobs : List (Text × Text))
    {r : List (Text × Node)} (t : Text) (m : Node)
    → check_nodes ns by_name jobs ≡ ok r
    → lookup t by_name ≡ some m
    → lookup t r ≡ some m
node_kept [] by_name jobs {r} t m e l =
    let same : by_name ≡ r = unfold check_nodes in cc in rw (← same) l
node_kept (n ∷ ns) by_name jobs t m e l =
    let (first, rest) = check_nodes-eq-ok n ns by_name jobs e in
    let new = check_node-new n by_name jobs first in
    node_kept ns ((n.step, n) ∷ by_name) (with_job n jobs) t m rest
      (unfold lookup in ground (arith, eq_of_text_eq t n.step))

-- Every node is found under its name,
pub nodes_complete :
    (ns : List Node) (by_name : List (Text × Node)) (jobs : List (Text × Text))
    {r : List (Text × Node)} (m : Node)
    → check_nodes ns by_name jobs ≡ ok r
    → In m ns
    → lookup m.step r ≡ some m
nodes_complete [] by_name jobs m e h = absurd h
nodes_complete (n ∷ ns) by_name jobs m e (inl here) =
    let (first, rest) = check_nodes-eq-ok n ns by_name jobs e in
    node_kept ns ((n.step, n) ∷ by_name) (with_job n jobs) m.step m rest
      (rw here (unfold lookup in ground (arith, text_eq_refl n.step)))
nodes_complete (n ∷ ns) by_name jobs m e (inr there) =
    nodes_complete ns ((n.step, n) ∷ by_name) (with_job n jobs) m
      (check_nodes-eq-ok n ns by_name jobs e).1 there

-- and what is found is a node of that name.
pub nodes_sound :
    (ns : List Node) (by_name : List (Text × Node)) (jobs : List (Text × Text))
    {r : List (Text × Node)} (t : Text) (m : Node)
    → check_nodes ns by_name jobs ≡ ok r
    → lookup t r ≡ some m
    → (lookup t by_name ≡ some m) ⊎ (In m ns × (m.step ≡ t))
nodes_sound [] by_name jobs {r} t m e l =
    let same : by_name ≡ r = unfold check_nodes in cc in inl (rw same l)
nodes_sound (n ∷ ns) by_name jobs t m e l =
    elim (nodes_sound ns ((n.step, n) ∷ by_name) (with_job n jobs) t m
      (check_nodes-eq-ok n ns by_name jobs e).1 l) [
        | inr (there, q) ↦ inr (inr there, q)
        | inl old ↦ elim (Bool-cases (text_eq t n.step)) [
          | inl y ↦
              let here : n ≡ m = unfold lookup in ground (arith, rw (y, lookup) at old) in
              inr (inl (sym here), ap (λ x. x.step) (sym here) ∙ sym (eq_of_text_eq t n.step y))
          | inr no_match ↦ inl (unfold lookup in rw (no_match, lookup) at old)
        ]
      ]

-- The state of a dependency, as the checks read it.
abbrev pub state_is : (NodeState → Bool) → Option Node → Bool
state_is p none = false
state_is p (some m) = p m.state

unfoldable pub every_state : (NodeState → Bool) → List (Text × Node) → List Text → Bool
every_state p by_name [] = true
every_state p by_name (d ∷ ds) = state_is p (lookup d by_name) && every_state p by_name ds

unfoldable pub some_state : (NodeState → Bool) → List (Text × Node) → List Text → Bool
some_state p by_name [] = false
some_state p by_name (d ∷ ds) = state_is p (lookup d by_name) || some_state p by_name ds

abbrev pub is_completed : NodeState → Bool
is_completed s = state_eq s completed

dependency_result :
    (by_name : List (Text × Node)) (n : Node) (d : Text) (f : Found) {g : Found}
    → check_dependency by_name n d f ≡ ok g
    → (g.all_completed ≡ (f.all_completed && state_is is_completed (lookup d by_name)))
      × (g.has_blocking ≡ (f.has_blocking || state_is blocks_descendants (lookup d by_name)))
      × (is_some (lookup d by_name) ≡ true)
unfolding check_dependency
dependency_result by_name n d f e =
    let e1 = >>-eq-ok (text_eq d n.step) _ _ e in
    elim (Option-cases (lookup d by_name)) [
      | inl l ↦ absurd (cc (rw l at e1.1))
      | inr (m, l) ↦
          let e2 = >>-eq-ok (has d f.seen) _ _ (rw l at e1.1) in
          let out = suc (value_of (lookup d f.tally.outgoing)) in
          let e3 =
            >>-eq-ok (ltb maximum_fan out || ltb maximum_edges (f.tally.edges + 1)) _ _ e2.1 in
          rw l (ground (arith, e3.1))
    ]

dependencies_result :
    (by_name : List (Text × Node)) (n : Node) (ds : List Text) (f : Found) {g : Found}
    → check_dependencies by_name n ds f ≡ ok g
    → (g.all_completed ≡ (f.all_completed && every_state is_completed by_name ds))
      × (g.has_blocking ≡ (f.has_blocking || some_state blocks_descendants by_name ds))
unfolding every_state some_state
dependencies_result by_name n [] f {g} e =
    let same : f ≡ g = unfold check_dependencies in cc in rw (← same) (ground arith)
dependencies_result by_name n (d ∷ ds) f {g} e =
    let (h, first, rest) =
      >>=-eq-ok (check_dependency by_name n d f) (λ g. check_dependencies by_name n ds g) {c = g}
        (unfold check_dependencies in e) in
    let r = dependency_result by_name n d f first in
    let s = dependencies_result by_name n ds h rest in ground (arith, r, s)

-- What an accepted node's own dependencies show.
abbrev pub Linked : List (Text × Node) → Node → Type 0
Linked by_name n =
    (requires_completed n.state ≡ true → every_state is_completed by_name n.depends_on ≡ true)
    × (state_eq n.state blocked_by_dependency ≡ true
        → some_state blocks_descendants by_name n.depends_on ≡ true)

links-eq-ok :
    (by_name : List (Text × Node)) (k : Node) (ks : List Node) (t : Tally) {u : Tally}
    → check_links by_name (k ∷ ks) t ≡ ok u
    → (v : Tally) × Linked by_name k × (check_links by_name ks v ≡ ok u)
unfolding check_links
links-eq-ok by_name k ks t e =
    let (f, found, e1) =
      >>=-eq-ok (check_dependencies by_name k k.depends_on (nothing_found t)) _ e in
    let e2 = >>-eq-ok (requires_completed k.state && not f.all_completed) _ _ e1 in
    let e3 = >>-eq-ok (state_eq k.state blocked_by_dependency && not f.has_blocking) _ _ e2.1 in
    let r = dependencies_result by_name k k.depends_on (nothing_found t) found in
    (f.tally, (λ q. ground (arith, q, r, e2.0), λ q. ground (arith, q, r, e3.0)), e3.1)

pub links_result :
    (by_name : List (Text × Node)) (ns : List Node) (t : Tally) {u : Tally} (n : Node)
    → check_links by_name ns t ≡ ok u
    → In n ns
    → Linked by_name n
links_result by_name [] t n e h = absurd h
links_result by_name (k ∷ ks) t n e (inl here) =
    subst (Linked by_name) (sym here) (links-eq-ok by_name k ks t e).1
links_result by_name (k ∷ ks) t n e (inr there) =
    let (v, _, rest) = links-eq-ok by_name k ks t e in links_result by_name ks v n rest there

pub state_of_every :
    (p : NodeState → Bool) (by_name : List (Text × Node)) (ds : List Text) (d : Text)
    → every_state p by_name ds ≡ true
    → has d ds ≡ true
    → state_is p (lookup d by_name) ≡ true
unfolding every_state has
state_of_every p by_name [] d e h = cc
state_of_every p by_name (x ∷ xs) d e h = elim (Bool-cases (text_eq d x)) [
  | inl y ↦ rw (eq_of_text_eq d x y) (ground arith)
  | inr n ↦ state_of_every p by_name xs d (ground arith) (rw n at h)
]

pub state_of_some :
    (p : NodeState → Bool) (by_name : List (Text × Node)) (ds : List Text)
    → some_state p by_name ds ≡ true
    → (d : Text) × (has d ds ≡ true) × (state_is p (lookup d by_name) ≡ true)
unfolding some_state has
state_of_some p by_name [] e = cc
state_of_some p by_name (x ∷ xs) e = elim (Bool-cases (state_is p (lookup x by_name))) [
  | inl y ↦ (x, rw (text_eq_refl x) refl, y)
  | inr n ↦ let (d, h, q) = state_of_some p by_name xs (rw n at e) in (d, ground arith, q)
]
