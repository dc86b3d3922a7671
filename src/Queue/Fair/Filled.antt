-- ===== src/Queue/Fair/Filled.antt =====
-- internal/cluster/store.go: the fair window stops only at its limit or at the end of the queue.
use context_bridge.Prelude.{
  ℕ, zero, suc, ◌+◌, ◌-◌, ◌≤◌, ◌<◌, Bool, true, ◌||◌, List, [], ◌∷◌, leb, ◌==◌, length,
  length-append, ◌≡◌, refl, ap, ◌∙◌, inl, inr, arith, Bool-cases,
}
use Prim.Native.Nat.{min}
use context_bridge.Prelude.Int.{ℤ}
use context_bridge.Text.{Text}
use context_bridge.Pipeline.Graph.Template.{is_empty}
use context_bridge.Queue.Fair.{
  Job, Group, by_owner, rotated, round, rounds, tier_jobs, by_priority, sorted, tiers, fair_window,
}
use context_bridge.Queue.Fair.Taken.{
  tally, grouped, jobs-cases, grouped-round, grouped-rotated, grouped-by_owner, grouped-by_priority,
  grouped-sorted,
}

abbrev any_job : Job → Bool
any_job j = true

pub tally-length : (js : List Job) → tally any_job js ≡ length js
unfolding tally
tally-length [] = refl
tally-length (j ∷ js) = omega (arith, tally-length js)

round-left :
    (gs : List (Group Text)) (left : ℕ)
    → 0 < left
    → length (round gs left).taken + (round gs left).left ≡ left
unfolding round
round-left [] left h = omega arith
round-left (g ∷ gs) left h = elim (jobs-cases g.jobs) [
  | inl e ↦ rw (e, round) (omega (arith, round-left gs left h))
  | inr (j, js, e) ↦ elim (Bool-cases (leb left 1)) [
    | inl last ↦ rw (e, last, round) (ground (arith, last, h))
    | inr more ↦ rw (e, more, round) (ground (arith, more, round-left gs (left - 1)))
  ]
]

round-taken :
    (gs : List (Group Text)) (left : ℕ) → 0 < grouped any_job gs → 0 < length (round gs left).taken
unfolding round grouped tally
round-taken [] left h = absurd (omega arith)
round-taken (g ∷ gs) left h = elim (jobs-cases g.jobs) [
  | inl e ↦ rw (e, round) (round-taken gs left (omega (arith, h, ap (tally any_job) e)))
  | inr (j, js, e) ↦ elim (Bool-cases (leb left 1)) [
    | inl last ↦ rw (e, last, round) (omega arith)
    | inr more ↦ rw (e, more, round) (omega arith)
  ]
]

length-rounds :
    (fuel : ℕ) (gs : List (Group Text)) (remaining left : ℕ)
    → remaining ≡ grouped any_job gs
    → remaining ≤ fuel
    → length (rounds fuel gs remaining left) ≡ min remaining left
unfolding rounds
length-rounds zero gs remaining left e f = ground (arith, f)
length-rounds (suc fuel) gs remaining left e f = elim (Bool-cases (remaining == 0 || left == 0)) [
  | inl done ↦ rw (done, rounds) (ground (arith, done))
  | inr going ↦
      let r = round gs left in
      let some_left : 0 < left = ground (arith, going) in
      let some_job : 0 < remaining = ground (arith, going) in
      let took = round-taken gs left (omega (arith, e, some_job)) in
      let split = round-left gs left some_left in
      let whole = grouped-round any_job gs left in
      let count = tally-length r.taken in
      let rest =
        length-rounds fuel r.groups (remaining - length r.taken) r.left
          (omega (arith, e, whole, count)) (omega (arith, f, took)) in
      let parts =
        length-append r.taken (rounds fuel r.groups (remaining - length r.taken) r.left) in
      rw (going, rounds) (ground (arith, parts, rest, split, whole, count, e))
]

pub length-tier_jobs :
    (tier : List Job) (left : ℕ) (after : Text)
    → length (tier_jobs tier left after) ≡ min (length tier) left
unfolding tier_jobs grouped
length-tier_jobs tier left after =
    length-rounds (length tier) (rotated after (by_owner tier [])) (length tier) left
      (omega (
        arith,
        grouped-rotated any_job after (by_owner tier []),
        grouped-by_owner any_job tier [],
        tally-length tier,
      ))
      (omega arith)

length-tiers :
    (after : ℤ → Text) (gs : List (Group ℤ)) (left : ℕ)
    → length (tiers after gs left) ≡ min (grouped any_job gs) left
unfolding tiers grouped
length-tiers after [] left = ground arith
length-tiers after (g ∷ gs) left =
    let taken = tier_jobs g.jobs left (after g.key) in
    let here = length-tier_jobs g.jobs left (after g.key) in
    let count = tally-length g.jobs in
    elim (Bool-cases (length taken == left)) [
      | inl full ↦ rw (full, tiers) (ground (arith, full, here, count))
      | inr more ↦
          let parts = length-append taken (tiers after gs (left - length taken)) in
          let rest = length-tiers after gs (left - length taken) in
          rw (more, tiers) (ground (arith, more, here, count, parts, rest))
    ]

-- The window holds as many jobs as the limit and the queue allow: it is never shorter than both.
pub length-fair_window :
    (window : List Job) (limit : ℕ) (after : ℤ → Text)
    → length (fair_window window limit after) ≡ min (length window) limit
unfolding fair_window grouped
length-fair_window window limit after = elim (Bool-cases (is_empty window || limit == 0)) [
  | inl nothing ↦ rw (nothing, fair_window) (none_taken window limit nothing)
  | inr something ↦
      rw (something, fair_window)
        (length-tiers after (sorted (by_priority window [])) limit
          ∙ ap (λ n. min n limit)
              (grouped-sorted any_job (by_priority window [])
                ∙ (omega (arith, grouped-by_priority any_job window [], tally-length window))))
]
  where
    none_taken : (js : List Job) (l : ℕ) → (is_empty js || l == 0) ≡ true → 0 ≡ min (length js) l
    none_taken [] l h = ground arith
    none_taken (j ∷ js) l h = ground (arith, h)
