-- ===== src/Queue/Fair/Taken.antt =====
-- internal/cluster/store.go: the fair window takes as many jobs as the limit lets it, each from the
-- queue.
use context_bridge.Prelude.{
  ℕ, zero, suc, ◌+◌, ◌-◌, ◌≤◌, Bool, ◌||◌, List, [], ◌∷◌, ◌++◌, if◌then◌else◌, leb, ◌==◌, length,
  ◌⊎◌, ◌≡◌, refl, ap, inl, inr, arith, Bool-cases,
}
use context_bridge.Prelude.Int.{ℤ, ltb_ℤ, int_eq}
use context_bridge.Text.{Text, text_eq}
use context_bridge.Pipeline.Graph.Template.{is_empty}
use context_bridge.Queue.Fair.{
  Job, Group, file_owner, by_owner, rotate, rotated, round, rounds, tier_jobs, file_priority,
  by_priority, insert, sorted, tiers, fair_window,
}

-- How many jobs of a list, and of a list of groups, pass a test.
unfoldable pub tally : (Job → Bool) → List Job → ℕ
tally p [] = 0
tally p (j ∷ js) = (if p j then 1 else 0) + tally p js

pub jobs-cases : (js : List Job) → (js ≡ []) ⊎ ((j : Job) × (rest : List Job) × (js ≡ j ∷ rest))
jobs-cases [] = inl refl
jobs-cases (j ∷ rest) = inr (j, rest, refl)

module _ (p : Job → Bool) where
  unfoldable pub grouped {ℓ} : {K : Type ℓ} → List (Group K) → ℕ
  grouped [] = 0
  grouped (g ∷ gs) = tally p g.jobs + grouped gs

  pub tally-append : (xs ys : List Job) → tally p (xs ++ ys) ≡ tally p xs + tally p ys
  unfolding tally
  tally-append [] ys = omega arith
  tally-append (x ∷ xs) ys = omega (arith, tally-append xs ys)

  grouped-append {ℓ} :
      {K : Type ℓ} (gs hs : List (Group K)) → grouped (gs ++ hs) ≡ grouped gs + grouped hs
  unfolding grouped
  grouped-append [] hs = omega arith
  grouped-append (g ∷ gs) hs = omega (arith, grouped-append gs hs)

  grouped-file_owner :
      (j : Job) (gs : List (Group Text)) → grouped (file_owner j gs) ≡ grouped gs + tally p (j ∷ [])
  unfolding grouped file_owner
  grouped-file_owner j [] = omega arith
  grouped-file_owner j (g ∷ gs) = elim (Bool-cases (text_eq g.key j.owner_subject)) [
    | inl same ↦ rw same (omega (arith, tally-append g.jobs (j ∷ [])))
    | inr other ↦ rw other (omega (arith, grouped-file_owner j gs))
  ]

  pub grouped-by_owner :
      (js : List Job) (gs : List (Group Text)) → grouped (by_owner js gs) ≡ grouped gs + tally p js
  unfolding by_owner tally
  grouped-by_owner [] gs = omega arith
  grouped-by_owner (j ∷ js) gs =
      omega (arith, grouped-by_owner js (file_owner j gs), grouped-file_owner j gs)

  grouped-rotate :
      (after : Text) (seen gs : List (Group Text))
      → grouped (rotate after seen gs) ≡ grouped seen + grouped gs
  unfolding grouped rotate
  grouped-rotate after seen [] = omega arith
  grouped-rotate after seen (g ∷ gs) = elim (Bool-cases (text_eq g.key after)) [
    | inl found ↦
        rw found (omega (arith, grouped-append gs (seen ++ (g ∷ [])), grouped-append seen (g ∷ [])))
    | inr other ↦
        rw other
          (omega (arith, grouped-rotate after (seen ++ (g ∷ [])) gs, grouped-append seen (g ∷ [])))
  ]

  pub grouped-round :
      (gs : List (Group Text)) (left : ℕ)
      → tally p (round gs left).taken + grouped (round gs left).groups ≡ grouped gs
  unfolding round grouped tally
  grouped-round [] left = omega arith
  grouped-round (g ∷ gs) left = elim (jobs-cases g.jobs) [
    | inl e ↦ rw (e, round) (omega (arith, grouped-round gs left, ap (tally p) e))
    | inr (j, js, e) ↦ elim (Bool-cases (leb left 1)) [
      | inl last ↦ rw (e, last, round) (omega arith)
      | inr more ↦ rw (e, more, round) (omega (arith, grouped-round gs (left - 1)))
    ]
  ]

  -- What is taken is there.
  tally-rounds :
      (fuel : ℕ) (gs : List (Group Text)) (remaining left : ℕ)
      → tally p (rounds fuel gs remaining left) ≤ grouped gs
  unfolding rounds tally
  tally-rounds zero gs remaining left = omega arith
  tally-rounds (suc fuel) gs remaining left = elim (Bool-cases (remaining == 0 || left == 0)) [
    | inl done ↦ rw (done, rounds) (omega arith)
    | inr going ↦
        let r = round gs left in
        rw (going, rounds)
          (omega (
            arith,
            tally-append r.taken (rounds fuel r.groups (remaining - length r.taken) r.left),
            grouped-round gs left,
            tally-rounds fuel r.groups (remaining - length r.taken) r.left,
          ))
  ]

  pub grouped-rotated :
      (after : Text) (gs : List (Group Text)) → grouped (rotated after gs) ≡ grouped gs
  grouped-rotated after gs = elim (Bool-cases (is_empty after || leb (length gs) 1)) [
    | inl kept ↦ rw kept refl
    | inr turned ↦ rw turned (unfold grouped in omega (arith, grouped-rotate after [] gs))
  ]

  pub tally-tier_jobs :
      (tier : List Job) (left : ℕ) (after : Text)
      → tally p (tier_jobs tier left after) ≤ tally p tier
  unfolding tier_jobs grouped
  tally-tier_jobs tier left after = omega (
    arith,
    tally-rounds (length tier) (rotated after (by_owner tier [])) (length tier) left,
    grouped-rotated after (by_owner tier []),
    grouped-by_owner tier [],
  )

  grouped-file_priority :
      (j : Job) (gs : List (Group ℤ)) → grouped (file_priority j gs) ≡ grouped gs + tally p (j ∷ [])
  unfolding grouped file_priority
  grouped-file_priority j [] = omega arith
  grouped-file_priority j (g ∷ gs) = elim (Bool-cases (int_eq g.key j.priority)) [
    | inl same ↦ rw same (omega (arith, tally-append g.jobs (j ∷ [])))
    | inr other ↦ rw other (omega (arith, grouped-file_priority j gs))
  ]

  pub grouped-by_priority :
      (js : List Job) (gs : List (Group ℤ)) → grouped (by_priority js gs) ≡ grouped gs + tally p js
  unfolding by_priority tally
  grouped-by_priority [] gs = omega arith
  grouped-by_priority (j ∷ js) gs =
      omega (arith, grouped-by_priority js (file_priority j gs), grouped-file_priority j gs)

  grouped-insert :
      (g : Group ℤ) (gs : List (Group ℤ)) → grouped (insert g gs) ≡ tally p g.jobs + grouped gs
  unfolding grouped insert
  grouped-insert g [] = omega arith
  grouped-insert g (h ∷ hs) = elim (Bool-cases (ltb_ℤ g.key h.key)) [
    | inl below ↦ rw below (omega (arith, grouped-insert g hs))
    | inr above ↦ rw above (omega arith)
  ]

  pub grouped-sorted : (gs : List (Group ℤ)) → grouped (sorted gs) ≡ grouped gs
  unfolding grouped sorted
  grouped-sorted [] = refl
  grouped-sorted (g ∷ gs) = omega (arith, grouped-insert g (sorted gs), grouped-sorted gs)

  pub tally-tiers :
      (after : ℤ → Text) (gs : List (Group ℤ)) (left : ℕ)
      → tally p (tiers after gs left) ≤ grouped gs
  unfolding tiers grouped tally
  tally-tiers after [] left = omega arith
  tally-tiers after (g ∷ gs) left =
      let taken = tier_jobs g.jobs left (after g.key) in
      let here = tally-tier_jobs g.jobs left (after g.key) in
      elim (Bool-cases (length taken == left)) [
        | inl full ↦ rw (full, tiers) (omega (arith, here))
        | inr more ↦
            rw (more, tiers)
              (omega (
                arith,
                here,
                tally-append taken (tiers after gs (left - length taken)),
                tally-tiers after gs (left - length taken),
              ))
      ]

  -- The window invents no job and offers none twice: whatever the test, at most as many of its jobs
  -- pass as of the queue's.
  pub tally-fair_window :
      (window : List Job) (limit : ℕ) (after : ℤ → Text)
      → tally p (fair_window window limit after) ≤ tally p window
  unfolding fair_window grouped
  tally-fair_window window limit after = elim (Bool-cases (is_empty window || limit == 0)) [
    | inl nothing ↦ rw (nothing, fair_window) (unfold tally in omega arith)
    | inr something ↦
        rw (something, fair_window)
          (omega (
            arith,
            tally-tiers after (sorted (by_priority window [])) limit,
            grouped-sorted (by_priority window []),
            grouped-by_priority window [],
          ))
  ]
