-- ===== src/Pipeline/Graph/Rounds/Outcome.antt =====
-- How the planner's loop (internal/cluster/pipeline_graph.go) ends.
use context_bridge.Prelude.{
  ℕ, zero, suc, ◌+◌, ◌-◌, ◌≤◌, ◌<◌, false, not, List, [], ◌∷◌, ◌++◌, map, ltb, length, get_or, ◌≡◌,
  ◌≢◌, refl, sym, ap, ◌∙◌, arith, Bool-cases, inl, inr, ◌⊎◌, count, total_pos, length-append,
  length-map, count-select, ok, err,
}
use context_bridge.Pipeline.Graph.Template.{cycle, unfinished}
use context_bridge.Pipeline.Graph.Rounds.{Progress, is_ready, round, plan_rounds}
use context_bridge.Pipeline.Graph.Rounds.Layers.{concat}
use context_bridge.Pipeline.Graph.Rounds.Invariant.{pending, ready, Inv, round-Inv}

List-cases : (xs : List ℕ) → (xs ≡ []) ⊎ ((x : ℕ) × (ys : List ℕ) × (xs ≡ x ∷ ys))
List-cases [] = inl refl
List-cases (x ∷ xs) = inr (x, xs, refl)

module _ {ℓ} {A : Type ℓ} (name : ℕ → A) (n : ℕ) (children : List (List ℕ)) where
  -- What the loop does next: it is done, it gives up, or it makes a round.
  loop_cases :
      (fuel : ℕ) (s : Progress A)
      → ((n ≤ length s.order) × (plan_rounds name n children (suc fuel) s ≡ ok s))
        ⊎ ((length s.order < n)
            × (ready name n children s ≡ [])
            × (plan_rounds name n children (suc fuel) s ≡ err cycle))
        ⊎ ((length s.order < n)
            × (0 < length (ready name n children s))
            × (plan_rounds name n children (suc fuel) s
                ≡ plan_rounds name n children fuel
                    (round name children (ready name n children s) s)))
  unfolding plan_rounds
  loop_cases fuel s = elim (Bool-cases (ltb (length s.order) n)) [
    | inr e ↦ inl (ground arith, rw (e, plan_rounds))
    | inl e ↦ elim (List-cases (ready name n children s)) [
      | inl r ↦ inr (inl (ground arith, r, rw (e, plan_rounds) (rw (r, plan_rounds))))
      | inr (x, ys, r) ↦
          inr (inr (ground arith, rw r (omega arith), rw (e, plan_rounds) (rw (r, plan_rounds))))
    ]
  ]

  length-round :
      (s : Progress A)
      → length (round name children (ready name n children s) s).order
        ≡ length s.order + length (ready name n children s)
  unfolding round
  length-round s =
      length-append s.order (map name (ready name n children s))
      ∙ ap (λ k. length s.order + k) (length-map (ready name n children s) name)

  -- With a round of fuel for each step that is not yet in the order, the loop ends by itself.
  pub plan_rounds-finishes :
      (fuel : ℕ) (s : Progress A)
      → n - length s.order < fuel
      → plan_rounds name n children fuel s ≢ err unfinished
  plan_rounds-finishes zero s h = elim h [ ]
  plan_rounds-finishes (suc fuel) s h = elim (loop_cases fuel s) [
    | inl (le, r) ↦ λ e. cc
    | inr (inl (lt, none_ready, r)) ↦ λ e. cc
    | inr (inr (lt, more, r)) ↦ rw r (
        plan_rounds-finishes fuel (round name children (ready name n children s) s)
          (omega (arith, length-round s)))
  ]

  module _ (source : (d i : ℕ) → 0 < count i (get_or children d []) → d < n) where
    -- A plan that is found holds every step, and each behind its dependencies.
    pub plan_rounds-Inv :
        (fuel : ℕ) (s : Progress A) (done : List (List ℕ)) {t : Progress A}
        → Inv name n children s done
        → plan_rounds name n children fuel s ≡ ok t
        → (all : List (List ℕ)) × Inv name n children t all × (n ≤ length t.order)
    plan_rounds-Inv zero s done v e = unfold plan_rounds in cc
    plan_rounds-Inv (suc fuel) s done v e = elim (loop_cases fuel s) [
      | inl (le, r) ↦ unfold plan_rounds in (done, ground arith, ground arith)
      | inr (inl (lt, none_ready, r)) ↦ cc
      | inr (inr (lt, more, r)) ↦
          plan_rounds-Inv fuel (round name children (ready name n children s) s)
            (done ++ ready name n children s ∷ []) (round-Inv name n children source s done v)
            (sym r ∙ e)
    ]

    -- The loop gives up only where every pending step waits for a pending step.
    abbrev pub IsStuck : Progress A → Type 0
    IsStuck s =
        (0 < length (pending s.processed n))
        × ((i : ℕ)
            → 0 < count i (pending s.processed n)
            → (d : ℕ) × (0 < count d (pending s.processed n))
              × (0 < count i (get_or children d [])))

    stuck :
        (s : Progress A) (done : List (List ℕ))
        → Inv name n children s done
        → length s.order < n
        → ready name n children s ≡ []
        → IsStuck s
    unfolding is_ready count
    stuck s done v lt r = (
      omega (arith, v.counted, length-map (concat done) name, ap length v.order_done),
      λ i h.
          let lt : i < n =
            ground (arith, count-select (λ x. not (get_or s.processed x false)) i 0 n) in
          let (d, c, e) =
            total_pos (λ j. count i (get_or children j [])) (pending s.processed n)
              (ground (
                arith,
                v.waiting i lt,
                count-select (λ x. not (get_or s.processed x false)) i 0 n,
                count-select (is_ready s.processed s.remaining) i 0 n,
                ap (count i) r,
              )) in
          (d, c, e),
    )

    pub plan_rounds-cycle :
        (fuel : ℕ) (s : Progress A) (done : List (List ℕ))
        → Inv name n children s done
        → plan_rounds name n children fuel s ≡ err cycle
        → (t : Progress A) × IsStuck t
    plan_rounds-cycle zero s done v e = unfold plan_rounds in cc
    plan_rounds-cycle (suc fuel) s done v e = elim (loop_cases fuel s) [
      | inl (le, r) ↦ cc
      | inr (inl (lt, none_ready, r)) ↦ (s, stuck s done v lt none_ready)
      | inr (inr (lt, more, r)) ↦
          plan_rounds-cycle fuel (round name children (ready name n children s) s)
            (done ++ ready name n children s ∷ []) (round-Inv name n children source s done v)
            (sym r ∙ e)
    ]
