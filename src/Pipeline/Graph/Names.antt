-- ===== src/Pipeline/Graph/Names.antt =====
-- The name index of internal/cluster/pipeline_graph.go (`indexByName`).
use context_bridge.Prelude.{
  ℕ, zero, suc, ◌+◌, ◌<◌, Bool, false, List, [], ◌∷◌, some, ◌==◌, length, ok, ◌≡◌, refl, sym, ap,
  ◌∙◌, arith, >>-eq-ok, map, ◌⊎◌, inl, inr, Bool-cases, Option-cases,
}
use context_bridge.Text.{Text, text_eq, text_eq_refl, eq_of_text_eq, has, trim_space}
use context_bridge.Pipeline.Graph.Template.{Step, is_empty}
use context_bridge.Pipeline.Graph.Edges.{lookup, is_some}
use context_bridge.Pipeline.Graph.Edges.Linked.{resolves, step_deps}
use context_bridge.Pipeline.Graph.{index_names, step_name, iterates}

index_names-eq-ok :
    (i : ℕ) (s : Step) (ss : List Step) (names : List (Text × ℕ)) {r : List (Text × ℕ)}
    → index_names i (s ∷ ss) names ≡ ok r
    → (is_some (lookup (trim_space s.name) names) ≡ false)
      × (iterates s ≡ false)
      × (index_names (suc i) ss ((trim_space s.name, i) ∷ names) ≡ ok r)
unfolding index_names
index_names-eq-ok i s ss names e =
    let e1 = >>-eq-ok (is_empty (trim_space s.name)) _ _ e in
    let e2 = >>-eq-ok (is_some (lookup (trim_space s.name) names)) _ _ e1.1 in
    let e3 = >>-eq-ok (iterates s) _ _ e2.1 in (e2.0, e3.0, e3.1)

-- An entry is never replaced.
names_kept :
    (i : ℕ) (ss : List Step) (names : List (Text × ℕ)) {r : List (Text × ℕ)} (t : Text) (d : ℕ)
    → index_names i ss names ≡ ok r
    → lookup t names ≡ some d
    → lookup t r ≡ some d
names_kept i [] names {r} t d e l = let same : names ≡ r = unfold index_names in cc in rw (← same) l
names_kept i (s ∷ ss) names t d e l =
    let (new, _, rest) = index_names-eq-ok i s ss names e in
    names_kept (suc i) ss ((trim_space s.name, i) ∷ names) t d rest
      (unfold lookup in ground (arith, eq_of_text_eq t (trim_space s.name)))

-- Every step is found under its trimmed name.
pub names_complete :
    (i : ℕ) (ss : List Step) (names : List (Text × ℕ)) {r : List (Text × ℕ)} (k : ℕ)
    → index_names i ss names ≡ ok r
    → k < length ss
    → lookup (trim_space (step_name ss k)) r ≡ some (i + k)
unfolding step_name
names_complete i [] names k e h = absurd (omega arith)
names_complete i (s ∷ ss) names zero e h =
    let (_, _, rest) = index_names-eq-ok i s ss names e in
    names_kept (suc i) ss ((trim_space s.name, i) ∷ names) (trim_space s.name) (i + 0) rest
      (unfold lookup in ground (arith, text_eq_refl (trim_space s.name)))
names_complete i (s ∷ ss) names (suc k) e h =
    let (_, _, rest) = index_names-eq-ok i s ss names e in
    names_complete (suc i) ss ((trim_space s.name, i) ∷ names) k rest (omega arith)
    ∙ ap some (omega arith)

-- And nothing else is found.
pub names_sound :
    (i : ℕ) (ss : List Step) (names : List (Text × ℕ)) {r : List (Text × ℕ)} (t : Text) (d : ℕ)
    → index_names i ss names ≡ ok r
    → lookup t r ≡ some d
    → (lookup t names ≡ some d)
      ⊎ ((k : ℕ) × (d ≡ i + k) × (k < length ss) × (trim_space (step_name ss k) ≡ t))
names_sound i [] names {r} t d e l =
    let same : names ≡ r = unfold index_names in cc in inl (rw same l)
names_sound i (s ∷ ss) names t d e l =
    let (_, _, rest) = index_names-eq-ok i s ss names e in
    elim (names_sound (suc i) ss ((trim_space s.name, i) ∷ names) t d rest l) [
      | inr (k, p, q, r) ↦ inr (suc k, omega arith, omega arith, unfold step_name in r)
      | inl old ↦ elim (Bool-cases (text_eq t (trim_space s.name))) [
        | inl y ↦ inr (
          0,
          unfold lookup in ground (arith, rw (y, lookup) at old),
          omega arith,
          unfold step_name in sym (eq_of_text_eq t (trim_space s.name) y),
        )
        | inr n ↦ inl (unfold lookup in rw (n, lookup) at old)
      ]
    ]

-- Step `i` declares step `d` among its dependencies, by names compared without outer spaces.
unfoldable pub requires : List Step → ℕ → ℕ → Bool
unfolding step_deps
requires steps i d = has (trim_space (step_name steps d)) (map trim_space (step_deps steps i))

resolves-has :
    (names : List (Text × ℕ)) (raws : List Text) (t : Text) (d : ℕ)
    → lookup t names ≡ some d
    → ((u : Text) → lookup u names ≡ some d → u ≡ t)
    → resolves names raws d ≡ has t (map trim_space raws)
unfolding resolves has
resolves-has names [] t d l only = refl
resolves-has names (raw ∷ raws) t d l only = elim (Bool-cases (text_eq t (trim_space raw))) [
  | inl y ↦ let same = eq_of_text_eq t (trim_space raw) y in rw (y, ← same, l) (ground arith)
  | inr n ↦ elim (Option-cases (lookup (trim_space raw) names)) [
    | inl m ↦ rw (n, m) (resolves-has names raws t d l only)
    | inr (e, m) ↦ elim (Bool-cases (e == d)) [
      | inl q ↦
          let u = only (trim_space raw) (m ∙ ap some (ground arith)) in
          cc (text_eq_refl t, rw u at n)
      | inr q ↦ rw (n, m, q) (resolves-has names raws t d l only)
    ]
  ]
]

-- An indexed step's dependencies resolve to the steps that it requires.
pub resolves-requires :
    (steps : List Step) (names : List (Text × ℕ)) (i d : ℕ)
    → index_names 0 steps [] ≡ ok names
    → d < length steps
    → resolves names (step_deps steps i) d ≡ requires steps i d
unfolding requires
resolves-requires steps names i d e h =
    resolves-has names (step_deps steps i) (trim_space (step_name steps d)) d
      (names_complete 0 steps [] d e h ∙ ap some (omega arith))
      (λ u l. only u (names_sound 0 steps [] u d e l))
  where
    only :
        (u : Text)
        → (lookup u [] ≡ some d)
          ⊎ ((k : ℕ) × (d ≡ 0 + k) × (k < length steps) × (trim_space (step_name steps k) ≡ u))
        → u ≡ trim_space (step_name steps d)
    only u (inl l) = unfold lookup in cc
    only u (inr (k, p, _, q)) =
        let k' : k ≡ d = omega arith in sym q ∙ ap (λ x. trim_space (step_name steps x)) k'

pub in_range :
    (steps : List Step) (names : List (Text × ℕ)) (t : Text) (d : ℕ)
    → index_names 0 steps [] ≡ ok names
    → lookup t names ≡ some d
    → d < length steps
in_range steps names t d e l = elim (names_sound 0 steps [] t d e l) [
  | inl l ↦ unfold lookup in cc
  | inr (k, p, q, _) ↦ omega arith
]
