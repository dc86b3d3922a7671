-- ===== src/Pipeline/Transition/Saves.antt =====
-- What stays and what moves over the checkpoints that a run saves (internal/cluster/
-- pipeline_graph_state.go and SavePipelineRun in store.go).
use context_bridge.Prelude.{
  ℕ, zero, suc, ◌≤◌, ◌<◌, true, false, not, ◌&&◌, ◌||◌, List, [], ◌∷◌, Option, none, some, ltb,
  ◌==◌, length, get_elem?, ok, ◌≡◌, ◌≢◌, refl, sym, subst, ◌∙◌, arith, >>=-eq-ok, >>-eq-ok,
  reject_if-eq-ok, inl, ◌⊎◌,
}
use context_bridge.Prelude.Int.{eq_of_int_eq}
use context_bridge.Text.{Text, text_eq, eq_of_text_eq}
use context_bridge.Pipeline.Graph.Template.{is_empty}
use context_bridge.Pipeline.NodeState.{
  NodeState, not_ready, ready, queued, running, allowed, eq_of_state_eq,
}
use context_bridge.Pipeline.Records.{Binding, Node, Run}
use context_bridge.Pipeline.Transition.{
  texts_eq, binding_eq, check_move, check_moves, check_graph_kept, validate_transition,
}

-- How far a node has come.
abbrev pub rank : NodeState → ℕ
rank not_ready = 0
rank ready = 1
rank queued = 2
rank running = 3
rank _ = 4

-- The node stays where it is or moves on; nothing is above a terminal state.
abbrev pub Advances : NodeState → NodeState → Type 0
Advances s t = (t ≡ s) ⊎ (rank s < rank t)

allowed-Advances : (s t : NodeState) → allowed s t ≡ true → Advances s t
unfolding allowed
allowed-Advances s t h = ground (arith, eq_of_state_eq s t)

Advances-trans : (s t u : NodeState) → Advances s t → Advances t u → Advances s u
Advances-trans s t u h k = ground arith

eq_of_texts_eq : (ss ts : List Text) → texts_eq ss ts ≡ true → ss ≡ ts
unfolding texts_eq
eq_of_texts_eq [] [] h = refl
eq_of_texts_eq [] (t ∷ ts) h = cc
eq_of_texts_eq (s ∷ ss) [] h = cc
eq_of_texts_eq (s ∷ ss) (t ∷ ts) h = ground (arith, eq_of_text_eq s t, eq_of_texts_eq ss ts)

-- What a later checkpoint of a node keeps.
pub record Follows (n m : Node) : Type 0 where
  pub same_step : m.step ≡ n.step
  pub same_dependencies : m.depends_on ≡ n.depends_on
  pub same_job : n.job_id ≢ [] → m.job_id ≡ n.job_id
  pub not_earlier : n.updated_at ≤ m.updated_at
  pub advances : Advances n.state m.state

check_move-Follows : (n m : Node) → check_move n m ≡ ok tt → Follows n m
unfolding check_move
check_move-Follows n m e =
    let e1 =
      >>-eq-ok (not (text_eq n.step m.step) || not (texts_eq n.depends_on m.depends_on)) _ _ e in
    let e2 = >>-eq-ok (not (is_empty n.job_id) && not (text_eq n.job_id m.job_id)) _ _ e1.1 in
    let e3 = >>-eq-ok (ltb m.updated_at n.updated_at) _ _ e2.1 in
    let e4 = reject_if-eq-ok (not (allowed n.state m.state)) _ e3.1 in
    record {
      same_step = ground (arith, e1.0, eq_of_text_eq n.step m.step);
      same_dependencies = ground (arith, e1.0, eq_of_texts_eq n.depends_on m.depends_on);
      same_job = λ h. job n.job_id h e2.0;
      not_earlier = ground (arith, e3.0);
      advances = allowed-Advances n.state m.state (ground (arith, e4));
    }
  where
    job :
        (j : Text) → j ≢ [] → (not (is_empty j) && not (text_eq j m.job_id)) ≡ false → m.job_id ≡ j
    job [] h e = absurd (h refl)
    job (c ∷ cs) h e = sym (eq_of_text_eq (c ∷ cs) m.job_id (ground (arith, e)))

Follows-refl : (n : Node) → Follows n n
Follows-refl n = record {
  same_step = refl;
  same_dependencies = refl;
  same_job = λ _. refl;
  not_earlier = omega arith;
  advances = inl refl;
}

Follows-trans : (n m k : Node) → Follows n m → Follows m k → Follows n k
Follows-trans n m k f g = record {
  same_step = g.same_step ∙ f.same_step;
  same_dependencies = g.same_dependencies ∙ f.same_dependencies;
  same_job = λ h. g.same_job (λ e. h (sym (f.same_job h) ∙ e)) ∙ f.same_job h;
  not_earlier = omega (arith, f.not_earlier, g.not_earlier);
  advances = Advances-trans n.state m.state k.state f.advances g.advances;
}

check_moves_at :
    (bs as' : List Node) (i : ℕ) (n : Node)
    → length bs ≡ length as'
    → check_moves bs as' ≡ ok tt
    → get_elem? bs i ≡ some n
    → (m : Node) × (get_elem? as' i ≡ some m) × Follows n m
unfolding check_moves
check_moves_at [] as' i n h e g = cc
check_moves_at (b ∷ bs) [] i n h e g = absurd (omega arith)
check_moves_at (b ∷ bs) (a ∷ as') zero n h e g =
    let (u, first, rest) = >>=-eq-ok (check_move b a) _ e in
    (a, refl, subst (λ x. Follows x a) (ground arith) (check_move-Follows b a first))
check_moves_at (b ∷ bs) (a ∷ as') (suc i) n h e g =
    let (u, first, rest) = >>=-eq-ok (check_move b a) _ e in
    check_moves_at bs as' i n (omega arith) rest g

eq_of_binding_eq : (a b : Binding) → binding_eq a b ≡ true → a ≡ b
eq_of_binding_eq a b h = ground (
  arith,
  eq_of_text_eq a.contract_version b.contract_version,
  eq_of_text_eq a.mode b.mode,
  eq_of_text_eq a.config_sha256 b.config_sha256,
  eq_of_text_eq a.graph_sha256 b.graph_sha256,
  eq_of_int_eq a.max_parallel b.max_parallel,
  eq_of_int_eq a.step_count b.step_count,
  eq_of_int_eq a.edge_count b.edge_count,
  eq_of_texts_eq a.order b.order,
)

pub graph_kept :
    (g h : Option Binding) (before after : List Node) (b : Binding)
    → g ≡ some b
    → check_graph_kept g h before after ≡ ok tt
    → (h ≡ some b) × (length before ≡ length after) × (check_moves before after ≡ ok tt)
unfolding check_graph_kept
graph_kept none h before after b e k = cc
graph_kept (some a) none before after b e k = cc
graph_kept (some a) (some c) before after b e k =
    let k1 = >>-eq-ok (not (binding_eq a c) || not (length before == length after)) _ _ k in
    (ground (arith, e, k1.0, eq_of_binding_eq a c), ground (arith, k1.0), k1.1)

-- A run and a checkpoint of it that was saved later, through any number of accepted saves.
pub data Saves (r : Run) : Run → Type 0 where
  start : Saves r r
  save : {s t : Run} → Saves r s → validate_transition s t ≡ ok tt → Saves r t

-- However often a DAG run is saved, its graph binding stays, and every node keeps its place, its
-- step, its dependencies and, once it has one, its child job, while its time never falls and its
-- state only advances: it never returns to an earlier state, and never leaves a terminal one.
pub Saves-Follows :
    {r t : Run} (b : Binding) (i : ℕ) (n : Node)
    → Saves r t
    → r.graph ≡ some b
    → get_elem? r.node_states i ≡ some n
    → (t.graph ≡ some b) × ((m : Node) × (get_elem? t.node_states i ≡ some m) × Follows n m)
Saves-Follows b i n start g h = (g, (n, h, Follows-refl n))
Saves-Follows b i n (save {s} {t} r e) g h =
    let (kept, (m, at_i, f)) = Saves-Follows b i n r g h in
    let (k, l, moved) =
      graph_kept s.graph t.graph s.node_states t.node_states b kept
        (unfold validate_transition in e) in
    let (m', at_i', f') = check_moves_at s.node_states t.node_states i m l moved at_i in
    (k, (m', at_i', Follows-trans n m m' f f'))
