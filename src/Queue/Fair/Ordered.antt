-- ===== src/Queue/Fair/Ordered.antt =====
-- internal/cluster/store.go: the fair window stands in the order of the priorities.
use context_bridge.Prelude.{
  ℕ, ◌-◌, Bool, true, false, not, ◌||◌, List, [], ◌∷◌, ◌++◌, ◌==◌, length, ◌≡◌, refl, ap, subst,
  inl, inr, arith, Bool-cases,
}
use Prim.Native.Nat.{min}
use context_bridge.Prelude.Int.{ℤ, ltb_ℤ, int_eq, int_eq_refl, eq_of_int_eq}
use context_bridge.Text.{Text}
use context_bridge.Pipeline.Graph.Template.{is_empty}
use context_bridge.Queue.Fair.{Job, Group, tier_jobs, by_priority, sorted, tiers, fair_window}
use context_bridge.Queue.Fair.Taken.{tally, grouped, tally-tier_jobs, tally-tiers}
use context_bridge.Queue.Fair.Priority.{
  Uniform, AtMost, Descends, Uniform-by_priority, sorted-Descends, sorted-Uniform, at_least,
  tally-fair_window-at_least,
}

-- No job of the list has a priority above k.
abbrev pub NoneAbove : ℤ → List Job → Type 0
NoneAbove k [] = Unit
NoneAbove k (j ∷ js) = (ltb_ℤ k j.priority ≡ false) × NoneAbove k js

-- No job stands before one of a higher priority.
abbrev pub Ordered : List Job → Type 0
Ordered [] = Unit
Ordered (j ∷ js) = NoneAbove j.priority js × Ordered js

above : ℤ → Job → Bool
above k j = ltb_ℤ k j.priority

other_than : ℤ → Job → Bool
other_than k j = not (int_eq j.priority k)

NoneAbove-tally : (k : ℤ) (js : List Job) → tally (above k) js ≡ 0 → NoneAbove k js
unfolding tally above
NoneAbove-tally k [] h = tt
NoneAbove-tally k (j ∷ js) h = (ground (arith, h), NoneAbove-tally k js (ground (arith, h)))

ltb_ℤ_irrefl : (a : ℤ) → ltb_ℤ a a ≡ false
ltb_ℤ_irrefl a = ground arith

NoneAbove-append :
    (k : ℤ) (xs ys : List Job)
    → tally (other_than k) xs ≡ 0
    → NoneAbove k ys
    → NoneAbove k (xs ++ ys)
unfolding tally other_than
NoneAbove-append k [] ys h n = n
NoneAbove-append k (x ∷ xs) ys h n =
    let same : int_eq x.priority k ≡ true = ground (arith, h) in
    (
      rw (eq_of_int_eq x.priority k same) (ltb_ℤ_irrefl k),
      NoneAbove-append k xs ys (ground (arith, h)) n,
    )

-- Jobs of one priority, before jobs that have none above it.
Ordered-append :
    (k : ℤ) (xs ys : List Job)
    → tally (other_than k) xs ≡ 0
    → NoneAbove k ys
    → Ordered ys
    → Ordered (xs ++ ys)
unfolding tally other_than
Ordered-append k [] ys h n o = o
Ordered-append k (x ∷ xs) ys h n o =
    let same : int_eq x.priority k ≡ true = ground (arith, h) in
    let rest : tally (other_than k) xs ≡ 0 = ground (arith, h) in
    (
      rw (eq_of_int_eq x.priority k same) (NoneAbove-append k xs ys rest n),
      Ordered-append k xs ys rest n o,
    )

grouped-above : (k : ℤ) (gs : List (Group ℤ)) → AtMost k gs → Uniform gs → grouped (above k) gs ≡ 0
unfolding grouped above
grouped-above k [] a u = omega arith
grouped-above k (g ∷ gs) a u = omega (arith, u.0 (λ p. ltb_ℤ k p) a.0, grouped-above k gs a.1 u.1)

append-[] : (xs : List Job) → (xs ++ []) ≡ xs
append-[] [] = refl
append-[] (x ∷ xs) = ap (λ r. x ∷ r) (append-[] xs)

tiers-Ordered :
    (after : ℤ → Text) (gs : List (Group ℤ)) (left : ℕ)
    → Descends gs
    → Uniform gs
    → Ordered (tiers after gs left)
unfolding tiers
tiers-Ordered after [] left d u = tt
tiers-Ordered after (g ∷ gs) left d u =
    let taken = tier_jobs g.jobs left (after g.key) in
    let alike : tally (other_than g.key) taken ≡ 0 =
      unfold other_than in
      omega (
        arith,
        u.0 (λ p. not (int_eq p g.key)) (ground (arith, int_eq_refl g.key)),
        tally-tier_jobs (other_than g.key) g.jobs left (after g.key),
      ) in
    elim (Bool-cases (length taken == left)) [
      | inl full ↦
          rw (full, tiers)
            (subst Ordered (append-[] taken) (Ordered-append g.key taken [] alike tt tt))
      | inr more ↦
          let rest = tiers after gs (left - length taken) in
          let lower : tally (above g.key) rest ≡ 0 = omega (
            arith,
            tally-tiers (above g.key) after gs (left - length taken),
            grouped-above g.key gs d.0 u.1,
          ) in
          rw (more, tiers)
            (Ordered-append g.key taken rest alike (NoneAbove-tally g.key rest lower)
              (tiers-Ordered after gs (left - length taken) d.1 u.1))
    ]

-- The window stands in the order of the priorities, the highest first, and holds, for every priority,
-- as many jobs of at least that priority as the queue has, or as the limit allows: no job stands
-- before one of a higher priority, nor takes its place.
pub fair_window-Ordered :
    (window : List Job) (limit : ℕ) (after : ℤ → Text)
    → Ordered (fair_window window limit after)
      × ((k : ℤ)
          → tally (at_least k) (fair_window window limit after)
            ≡ min (tally (at_least k) window) limit)
unfolding fair_window
fair_window-Ordered window limit after = (
  elim (Bool-cases (is_empty window || limit == 0)) [
    | inl nothing ↦ rw (nothing, fair_window) tt
    | inr something ↦
        let gs = by_priority window [] in
        rw (something, fair_window)
          (tiers-Ordered after (sorted gs) limit (sorted-Descends gs)
            (sorted-Uniform gs (Uniform-by_priority window [] tt)))
  ],
  λ k. tally-fair_window-at_least k window limit after,
)
