-- ===== src/Queue/Fair/Priority.antt =====
-- internal/cluster/store.go: no job of the fair window stands in for one of a higher priority.
use context_bridge.Prelude.{
  ℕ, ◌+◌, ◌-◌, Bool, true, false, not, ◌||◌, List, [], ◌∷◌, ◌==◌, length, ◌≡◌, refl, sym, ap, ◌∙◌,
  inl, inr, arith, Bool-cases,
}
use Prim.Native.Nat.{min}
use context_bridge.Prelude.Int.{ℤ, ltb_ℤ, int_eq, eq_of_int_eq}
use context_bridge.Text.{Text}
use context_bridge.Pipeline.Graph.Template.{is_empty}
use context_bridge.Queue.Fair.{
  Job, Group, tier_jobs, file_priority, by_priority, insert, sorted, tiers, fair_window,
}
use context_bridge.Queue.Fair.Taken.{
  tally, grouped, tally-append, tally-tier_jobs, tally-tiers, grouped-by_priority, grouped-sorted,
}
use context_bridge.Queue.Fair.Filled.{length-tier_jobs}

ltb_ℤ_trans : (a b c : ℤ) → ltb_ℤ a b ≡ false → ltb_ℤ b c ≡ false → ltb_ℤ a c ≡ false
ltb_ℤ_trans a b c h k = ground arith

ltb_ℤ_asym : (a b : ℤ) → ltb_ℤ a b ≡ true → ltb_ℤ b a ≡ false
ltb_ℤ_asym a b h = ground arith

-- The jobs of a group have its priority.
abbrev pub Uniform : List (Group ℤ) → Type 0
Uniform [] = Unit
Uniform (g ∷ gs) =
    ((q : ℤ → Bool) → q g.key ≡ false → tally (λ j. q j.priority) g.jobs ≡ 0) × Uniform gs

Uniform-file_priority : (j : Job) (gs : List (Group ℤ)) → Uniform gs → Uniform (file_priority j gs)
unfolding file_priority tally
Uniform-file_priority j [] u = ((λ q h. ground (arith, h)), tt)
Uniform-file_priority j (g ∷ gs) u = elim (Bool-cases (int_eq g.key j.priority)) [
  | inr other ↦ rw other (u.0, Uniform-file_priority j gs u.1)
  | inl same ↦ rw same (
    λ q h.
        let at_j : q j.priority ≡ false = ap q (sym (eq_of_int_eq g.key j.priority same)) ∙ h in
        ground (arith, tally-append (λ x. q x.priority) g.jobs (j ∷ []), u.0 q h, at_j),
    u.1,
  )
]

pub Uniform-by_priority :
    (js : List Job) (gs : List (Group ℤ)) → Uniform gs → Uniform (by_priority js gs)
unfolding by_priority
Uniform-by_priority [] gs u = u
Uniform-by_priority (j ∷ js) gs u =
    Uniform-by_priority js (file_priority j gs) (Uniform-file_priority j gs u)

-- The groups stand in the order of their priorities, the highest first.
abbrev pub AtMost : ℤ → List (Group ℤ) → Type 0
AtMost k [] = Unit
AtMost k (g ∷ gs) = (ltb_ℤ k g.key ≡ false) × AtMost k gs

abbrev pub Descends : List (Group ℤ) → Type 0
Descends [] = Unit
Descends (g ∷ gs) = AtMost g.key gs × Descends gs

AtMost-trans : (k m : ℤ) (gs : List (Group ℤ)) → ltb_ℤ k m ≡ false → AtMost m gs → AtMost k gs
AtMost-trans k m [] h a = tt
AtMost-trans k m (g ∷ gs) h a = (ltb_ℤ_trans k m g.key h a.0, AtMost-trans k m gs h a.1)

AtMost-insert :
    (k : ℤ) (g : Group ℤ) (gs : List (Group ℤ))
    → ltb_ℤ k g.key ≡ false
    → AtMost k gs
    → AtMost k (insert g gs)
unfolding insert
AtMost-insert k g [] h a = (h, tt)
AtMost-insert k g (x ∷ xs) h a = elim (Bool-cases (ltb_ℤ g.key x.key)) [
  | inl below ↦ rw below (a.0, AtMost-insert k g xs h a.1)
  | inr above ↦ rw above (h, a)
]

Descends-insert : (g : Group ℤ) (gs : List (Group ℤ)) → Descends gs → Descends (insert g gs)
unfolding insert
Descends-insert g [] d = (tt, tt)
Descends-insert g (x ∷ xs) d = elim (Bool-cases (ltb_ℤ g.key x.key)) [
  | inl below ↦
      rw below
        (AtMost-insert x.key g xs (ltb_ℤ_asym g.key x.key below) d.0, Descends-insert g xs d.1)
  | inr above ↦ rw above ((above, AtMost-trans g.key x.key xs above d.0), d)
]

Uniform-insert :
    (g : Group ℤ) (gs : List (Group ℤ))
    → ((q : ℤ → Bool) → q g.key ≡ false → tally (λ j. q j.priority) g.jobs ≡ 0)
    → Uniform gs
    → Uniform (insert g gs)
unfolding insert
Uniform-insert g [] h u = (h, tt)
Uniform-insert g (x ∷ xs) h u = elim (Bool-cases (ltb_ℤ g.key x.key)) [
  | inl below ↦ rw below (u.0, Uniform-insert g xs h u.1)
  | inr above ↦ rw above (h, u)
]

pub sorted-Descends : (gs : List (Group ℤ)) → Descends (sorted gs)
unfolding sorted
sorted-Descends [] = tt
sorted-Descends (g ∷ gs) = Descends-insert g (sorted gs) (sorted-Descends gs)

pub sorted-Uniform : (gs : List (Group ℤ)) → Uniform gs → Uniform (sorted gs)
unfolding sorted
sorted-Uniform [] u = tt
sorted-Uniform (g ∷ gs) u = Uniform-insert g (sorted gs) u.0 (sorted-Uniform gs u.1)

-- Jobs of at least this priority.
abbrev pub at_least : ℤ → Job → Bool
at_least k j = not (ltb_ℤ j.priority k)

abbrev below : ℤ → Job → Bool
below k j = ltb_ℤ j.priority k

tally-both : (k : ℤ) (js : List Job) → tally (at_least k) js + tally (below k) js ≡ length js
unfolding tally
tally-both k [] = omega arith
tally-both k (j ∷ js) = ground (arith, tally-both k js)

-- Below k, no group has a job of at least k.
grouped-below :
    (k m : ℤ) (gs : List (Group ℤ))
    → ltb_ℤ m k ≡ true
    → AtMost m gs
    → Uniform gs
    → grouped (at_least k) gs ≡ 0
unfolding grouped
grouped-below k m [] h a u = refl
grouped-below k m (g ∷ gs) h a u =
    let lower : not (ltb_ℤ g.key k) ≡ false = ground (arith, h, a.0) in
    omega (arith, u.0 (λ p. not (ltb_ℤ p k)) lower, grouped-below k m gs h a.1 u.1)

tally-tiers-at_least :
    (k : ℤ) (after : ℤ → Text) (gs : List (Group ℤ)) (left : ℕ)
    → Descends gs
    → Uniform gs
    → tally (at_least k) (tiers after gs left) ≡ min (grouped (at_least k) gs) left
unfolding tiers grouped tally
tally-tiers-at_least k after [] left d u = ground arith
tally-tiers-at_least k after (g ∷ gs) left d u = elim (Bool-cases (ltb_ℤ g.key k)) [
  | inl low ↦
      let none_here = u.0 (λ p. not (ltb_ℤ p k)) (ground (arith, low)) in
      let none_later = grouped-below k g.key gs low d.0 u.1 in
      ground (arith, none_here, none_later, tally-tiers (at_least k) after (g ∷ gs) left)
  | inr high ↦
      let taken = tier_jobs g.jobs left (after g.key) in
      let here = length-tier_jobs g.jobs left (after g.key) in
      let low_jobs = u.0 (λ p. ltb_ℤ p k) high in
      let all_jobs = tally-both k g.jobs in
      let low_taken = tally-tier_jobs (below k) g.jobs left (after g.key) in
      let all_taken = tally-both k taken in
      elim (Bool-cases (length taken == left)) [
        | inl full ↦
            rw (full, tiers) (ground (arith, full, here, low_jobs, all_jobs, low_taken, all_taken))
        | inr more ↦
            let parts = tally-append (at_least k) taken (tiers after gs (left - length taken)) in
            let rest = tally-tiers-at_least k after gs (left - length taken) d.1 u.1 in
            rw (more, tiers)
              (ground (arith, more, here, low_jobs, all_jobs, low_taken, all_taken, parts, rest))
      ]
]

pub tally-fair_window-at_least :
    (k : ℤ) (window : List Job) (limit : ℕ) (after : ℤ → Text)
    → tally (at_least k) (fair_window window limit after) ≡ min (tally (at_least k) window) limit
unfolding fair_window grouped tally
tally-fair_window-at_least k window limit after =
    elim (Bool-cases (is_empty window || limit == 0)) [
      | inl nothing ↦ rw (nothing, fair_window) (none_taken window limit nothing)
      | inr something ↦
          let gs = by_priority window [] in
          rw (something, fair_window)
            (tally-tiers-at_least k after (sorted gs) limit (sorted-Descends gs)
                (sorted-Uniform gs (Uniform-by_priority window [] tt))
              ∙ ap (λ n. min n limit)
                  (grouped-sorted (at_least k) gs
                    ∙ omega (arith, grouped-by_priority (at_least k) window [])))
    ]
  where
    none_taken :
        (js : List Job) (l : ℕ)
        → (is_empty js || l == 0) ≡ true
        → tally (at_least k) [] ≡ min (tally (at_least k) js) l
    none_taken [] l h = ground arith
    none_taken (j ∷ js) l h = ground (arith, h)
