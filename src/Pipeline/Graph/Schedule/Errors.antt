-- ===== src/Pipeline/Graph/Schedule/Errors.antt =====
-- Where the refusals of internal/cluster/pipeline_graph.go come from: only the rounds report a
-- cycle, and no loop runs out of rounds.
use context_bridge.Prelude.{
  ℕ, zero, suc, ◌+◌, ◌≤◌, Bool, true, false, List, [], ◌∷◌, ◌++◌, none, some, length, Result, ok,
  err, ◌>>=◌, ◌>>◌, reject_if, ◌≡◌, refl, arith, ltb, Bool-cases, inl, inr, ◌⊎◌, Option-cases,
}
use context_bridge.Text.{Text, codes, text_eq, has, trim_space, cut, cut_prefix}
use context_bridge.Pipeline.Graph.Template.{
  Step, PlanError, cycle, unfinished, check_key, check_keys, validate_template, output_of,
}
use context_bridge.Pipeline.Graph.Edges.{Links, maximum_fan, link, link_all, link_steps}
use context_bridge.Pipeline.Graph.{index_names, plan_linear}

abbrev pub from_rounds : PlanError → Bool
from_rounds cycle = true
from_rounds unfinished = true
from_rounds e = false

-- The errors of a call that makes no rounds.
abbrev pub Direct {ℓ} : {A : Type ℓ} → Result PlanError A → Type 0
Direct (ok a) = Unit
Direct (err e) = from_rounds e ≡ false

pub Result-cases {ℓ} :
    {A : Type ℓ} (r : Result PlanError A) → ((a : A) × (r ≡ ok a)) ⊎ ((e : PlanError) × (r ≡ err e))
Result-cases (ok a) = inl (a, refl)
Result-cases (err e) = inr (e, refl)

length-cut_prefix : (p s r : Text) → cut_prefix p s ≡ some r → length p + length r ≤ length s
unfolding cut_prefix
length-cut_prefix [] s r e = ground arith
length-cut_prefix (c ∷ p) [] r e = cc
length-cut_prefix (c ∷ p) (d ∷ s) r e = ground (arith, length-cut_prefix p s r)

cut_step :
    (sep : Text) (c : ℕ) (s l r l' r' : Text)
    → cut_prefix sep (c ∷ s) ≡ none
    → cut sep s ≡ some (l', r')
    → cut sep (c ∷ s) ≡ some (l, r)
    → length r ≡ length r'
unfolding cut
cut_step sep c s l r l' r' n m e = ground (arith, rw (n, m, cut) at e)

-- What follows a separator is shorter than the text by the separator's length at least.
length-cut : (sep s l r : Text) → cut sep s ≡ some (l, r) → length sep + length r ≤ length s
length-cut sep [] l r e = elim (Option-cases (cut_prefix sep [])) [
  | inl n ↦ unfold cut in cc (rw (n, cut) at e)
  | inr (q, y) ↦ unfold cut in ground (arith, length-cut_prefix sep [] q, rw (y, cut) at e)
]
length-cut sep (c ∷ s) l r e = elim (Option-cases (cut_prefix sep (c ∷ s))) [
  | inr (q, y) ↦ unfold cut in ground (arith, length-cut_prefix sep (c ∷ s) q, rw (y, cut) at e)
  | inl n ↦ elim (Option-cases (cut sep s)) [
    | inl m ↦ unfold cut in cc (rw (n, m, cut) at e)
    | inr ((l', r'), m) ↦ omega (arith, length-cut sep s l' r' m, cut_step sep c s l r l' r' n m e)
  ]
]

check_key-Direct :
    (step : Text) (dependencies : List Text) (key : Text) → Direct (check_key step dependencies key)
unfolding check_key
check_key-Direct step dependencies key = elim (Bool-cases (text_eq key (codes "input"))) [
  | inl y ↦ rw y tt
  | inr n ↦ elim (Bool-cases (text_eq key (codes "previous"))) [
    | inl y ↦ rw (n, y) refl
    | inr m ↦ elim (Option-cases (output_of key)) [
      | inl o ↦ rw (n, m, o) refl
      | inr (d, o) ↦
          rw (n, m, o)
            (elim (Bool-cases (has d dependencies)) [ inl q ↦ rw q tt | inr q ↦ rw q refl ])
    ]
  ]
]

-- A round of fuel for each character of the template is enough.
check_keys-Direct :
    (fuel : ℕ) (step : Text) (dependencies : List Text) (template : Text)
    → length template ≤ fuel
    → Direct (check_keys fuel step dependencies template)
unfolding check_keys
check_keys-Direct zero step dependencies [] h = tt
check_keys-Direct zero step dependencies (c ∷ cs) h = absurd (omega arith)
check_keys-Direct (suc fuel) step dependencies template h =
    elim (Option-cases (cut (codes "${") template)) [
      | inl n ↦ rw (n, Direct) tt
      | inr ((l, behind), m) ↦ elim (Option-cases (cut (codes "}") behind)) [
        | inl n ↦ rw (m, n, Direct) refl
        | inr ((key, rest), k) ↦
            rw (m, k, Direct)
              (checked (check_key step dependencies key) (check_keys fuel step dependencies rest)
                (check_key-Direct step dependencies key)
                (check_keys-Direct fuel step dependencies rest (
                  omega (
                    arith,
                    length-cut (codes "${") template l behind m,
                    length-cut (codes "}") behind key rest k,
                  ))))
      ]
    ]
  where
    checked :
        (m k : Result PlanError (Unit {0}))
        → Direct m
        → Direct k
        → Direct (elim m [ ok _ ↦ k | err e ↦ err e ])
    checked (ok u) k h d = d
    checked (err e) k h d = h

validate_template-Direct :
    (s : Step) (dependencies : List Text) → Direct (validate_template s dependencies)
unfolding validate_template
validate_template-Direct s dependencies = ground (
  arith,
  check_keys-Direct (length (trim_space s.input)) s.name dependencies (trim_space s.input)
      (omega arith),
)

pub index_names-Direct :
    (i : ℕ) (ss : List Step) (names : List (Text × ℕ)) → Direct (index_names i ss names)
unfolding index_names
index_names-Direct i [] names = tt
index_names-Direct i (s ∷ ss) names =
    ground (arith, index_names-Direct (suc i) ss ((trim_space s.name, i) ∷ names))

link-Direct :
    (names : List (Text × ℕ)) (index : ℕ) (step : Step) (raw : Text) (links : Links)
    (seen : List Text)
    → Direct (link names index step raw links seen)
unfolding link
link-Direct names index step raw links seen = ground arith

link_all-Direct :
    (names : List (Text × ℕ)) (index : ℕ) (step : Step) (raws : List Text) (links : Links)
    (seen : List Text)
    → Direct (link_all names index step raws links seen)
unfolding link_all
link_all-Direct names index step [] links seen = tt
link_all-Direct names index step (raw ∷ raws) links seen =
    elim (Result-cases (link names index step raw links seen)) [
      | inl (q, e) ↦ rw (e, Direct) (link_all-Direct names index step raws q.0 q.1)
      | inr (q, e) ↦
          rw (e, Direct) (rw (e, Direct) at (link-Direct names index step raw links seen))
    ]

pub link_steps-Direct :
    (names : List (Text × ℕ)) (index : ℕ) (ss : List Step) (links : Links)
    → Direct (link_steps names index ss links)
unfolding link_steps
link_steps-Direct names index [] links = tt
link_steps-Direct names index (s ∷ ss) links =
    elim (Bool-cases (ltb maximum_fan (length s.depends_on))) [
      | inl b ↦ rw (b, Direct) refl
      | inr b ↦ elim (Result-cases (link_all names index s s.depends_on links [])) [
        | inr (e, q) ↦
            rw (b, q, Direct)
              (rw (q, Direct) at (link_all-Direct names index s s.depends_on links []))
        | inl (r, q) ↦ elim (Result-cases (validate_template s r.1)) [
          | inr (e, v) ↦ rw (b, q, v, Direct) (rw (v, Direct) at (validate_template-Direct s r.1))
          | inl (u, v) ↦ rw (b, q, v, Direct) (link_steps-Direct names (suc index) ss r.0)
        ]
      ]
    ]

pub plan_linear-Direct :
    (ss : List Step) (order : List Text) (layers : List (List Text))
    → Direct (plan_linear ss order layers)
unfolding plan_linear
plan_linear-Direct [] order layers = tt
plan_linear-Direct (s ∷ ss) order layers =
    ground (arith, plan_linear-Direct ss (order ++ s.name ∷ []) (layers ++ (s.name ∷ []) ∷ []))

pub >>=-eq-err {ℓ κ} :
    {A : Type ℓ} {B : Type κ} (m : Result PlanError A) (f : A → Result PlanError B) (e : PlanError)
    → from_rounds e ≡ true
    → Direct m
    → (m >>= f) ≡ err e
    → (a : A) × (m ≡ ok a) × (f a ≡ err e)
>>=-eq-err (ok a) f e r d h = (a, refl, h)
>>=-eq-err (err x) f e r d h = absurd (ground arith)

pub guard-eq-err {ℓ} :
    {B : Type ℓ} (c : Bool) (x : PlanError) (k : Result PlanError B) (e : PlanError)
    → from_rounds e ≡ true
    → from_rounds x ≡ false
    → (reject_if c x >> k) ≡ err e
    → (c ≡ false) × (k ≡ err e)
guard-eq-err true x k e r d h = absurd (ground arith)
guard-eq-err false x k e r d h = (refl, h)
