-- ===== src/Pipeline/Ready.antt =====
-- internal/cluster/pipeline_dag_ready_set.go: the nodes that a run may admit next.
pub mod Snapshot
use context_bridge.Prelude.{
  ℕ, zero, suc, ◌+◌, ◌-◌, ◌≤◌, ◌<◌, Bool, true, false, not, ◌&&◌, ◌||◌, List, [], ◌∷◌, ◌++◌, Option,
  none, some, leb, ltb, ◌==◌, if◌then◌else◌, length, take, Result, ok, err, ◌>>=◌, ◌>>◌, reject_if,
  ◌≡◌, ◌≢◌, refl, sym, subst, ap, ◌∙◌, arith, >>=-eq-ok, >>-eq-ok, inl, inr, ◌⊎◌, Bool-cases,
  filter, In, Option-cases,
}
use context_bridge.Prelude.Int.{ℤ, pos, negsuc, pos_part}
use context_bridge.Text.{Text, codes, text_eq, eq_of_text_eq}
use context_bridge.Pipeline.Graph.Edges.{lookup}
use context_bridge.Pipeline.NodeState.{NodeState, ready, state_eq, is_active, eq_of_state_eq}
use context_bridge.Pipeline.Records.{Binding, Node, Run}
use context_bridge.Pipeline.Checkpoint.{Immutable, CheckpointError, validate_state, validate_graph}

pub data ReadyError : Type 0 where
  inactive_run : ReadyError
  bad_checkpoint : CheckpointError → ReadyError

unfoldable pub count_active : List Node → ℕ
count_active [] = 0
count_active (n ∷ ns) = (if is_active n.state then 1 else 0) + count_active ns

-- `stateByStep`; a later node of the same step would overwrite an earlier one.
unfoldable pub states_by_step : List Node → List (Text × NodeState) → List (Text × NodeState)
states_by_step [] m = m
states_by_step (n ∷ ns) m = states_by_step ns ((n.step, n.state) ∷ m)

-- A missing key reads as the empty string, which is not "ready".
abbrev pub is_ready : List (Text × NodeState) → Text → Bool
is_ready states step = elim (lookup step states) [ none ↦ false | some s ↦ state_eq s ready ]

-- The loop over the order. It breaks when `available` steps are collected; `left` of them are not.
unfoldable pub collect : List (Text × NodeState) → ℕ → List Text → List Text
collect states left [] = []
collect states left (s ∷ ss) = elim (is_ready states s) [
  | false ↦ collect states left ss
  | true ↦ elim (left == 1) [ true ↦ s ∷ [] | false ↦ s ∷ collect states (left - 1) ss ]
]

-- max_parallel - active, where that is positive.
abbrev pub available : ℤ → ℕ → ℕ
available p active = pos_part p - active

abbrev pub ready_steps : Binding → List Node → List Text
ready_steps b nodes =
    let slots = available b.max_parallel (count_active nodes) in
    if slots == 0 then [] else collect (states_by_step nodes []) slots b.order

abbrev pub lift : Result CheckpointError (Unit {0}) → Result ReadyError (Unit {0})
lift (ok u) = ok u
lift (err e) = err (bad_checkpoint e)

-- dagReadySet.
unfoldable pub ready_set : (Immutable → Text) → Run → Result ReadyError (List Text)
ready_set digest run = elim run.graph [
  | none ↦ err inactive_run
  | some b ↦ do
    reject_if (not (text_eq run.status (codes "running"))) inactive_run
    lift (validate_state digest run)
    ok (ready_steps b run.node_states)
]

-- The loop returns the ready steps of the order, as many as there are slots, from the front.
collect-take :
    (states : List (Text × NodeState)) (k : ℕ) (order : List Text)
    → collect states (suc k) order ≡ take (suc k) (filter (is_ready states) order)
unfolding collect
collect-take states k [] = refl
collect-take states zero (s ∷ ss) = ground (arith, collect-take states zero ss)
collect-take states (suc k) (s ∷ ss) =
    let fewer : suc (suc k) - 1 ≡ suc k = omega arith in
    ground (
      arith,
      ap (λ j. collect states j ss) fewer,
      collect-take states k ss,
      collect-take states (suc k) ss,
    )

-- The bounded snapshot, without the loop: the first ready steps of the order, one for each slot.
abbrev pub first_ready : Binding → List Node → List Text
first_ready b nodes =
    take (available b.max_parallel (count_active nodes))
      (filter (is_ready (states_by_step nodes [])) b.order)

ready_steps-first : (b : Binding) (nodes : List Node) → ready_steps b nodes ≡ first_ready b nodes
ready_steps-first b nodes = go (available b.max_parallel (count_active nodes))
  where
    go :
        (slots : ℕ)
        → (if slots == 0 then [] else collect (states_by_step nodes []) slots b.order)
          ≡ take slots (filter (is_ready (states_by_step nodes [])) b.order)
    go zero = refl
    go (suc k) = ground (arith, collect-take (states_by_step nodes []) k b.order)

lift-eq-ok : (r : Result CheckpointError (Unit {0})) {u : Unit {0}} → lift r ≡ ok u → r ≡ ok tt
lift-eq-ok (ok u) e = refl
lift-eq-ok (err x) e = cc

pub ready_set-eq-ok :
    (digest : Immutable → Text) (run : Run) (b : Binding) {steps : List Text}
    → run.graph ≡ some b
    → ready_set digest run ≡ ok steps
    → (text_eq run.status (codes "running") ≡ true)
      × (validate_graph digest b run.node_states ≡ ok tt)
      × (steps ≡ first_ready b run.node_states)
unfolding ready_set validate_state
ready_set-eq-ok digest run b g e =
    let e1 = >>-eq-ok (not (text_eq run.status (codes "running"))) _ _ (rw (g, ready_set) at e) in
    let (u, valid, e2) = >>=-eq-ok (lift (validate_state digest run)) _ e1.1 in
    (
      ground (arith, e1.0),
      valid_graph (lift-eq-ok (validate_state digest run) valid),
      cc (ready_steps-first b run.node_states),
    )
  where
    valid_graph :
        validate_state digest run ≡ ok tt → validate_graph digest b run.node_states ≡ ok tt
    valid_graph v = rw (g, validate_state) at v
