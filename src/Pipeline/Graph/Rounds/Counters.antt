-- ===== src/Pipeline/Graph/Rounds/Counters.antt =====
-- What the counters and marks of internal/cluster/pipeline_graph.go hold after a round.
use context_bridge.Prelude.{
  ℕ, zero, suc, ◌-◌, ◌<◌, Bool, true, false, ◌&&◌, ◌||◌, List, [], ◌∷◌, ltb, ◌==◌, if◌then◌else◌,
  length, set, get_or, ◌≡◌, refl, arith, count, total, length-set,
}
use context_bridge.Pipeline.Graph.Rounds.{mark, decrement, release}

-- How many dependencies of step `i` are among the steps `js`.
abbrev pub waits : List (List ℕ) → List ℕ → ℕ → ℕ
waits children js i = total (λ j. count i (get_or children j [])) js

pub get_or-set {ℓ} :
    {A : Type ℓ} (xs : List A) (i : ℕ) (v : A) (j : ℕ) (d : A)
    → get_or (set xs i v) j d ≡ (if i == j && ltb i (length xs) then v else get_or xs j d)
get_or-set [] i v j d = ground arith
get_or-set (x ∷ xs) zero v zero d = ground arith
get_or-set (x ∷ xs) zero v (suc j) d = ground arith
get_or-set (x ∷ xs) (suc i) v zero d = ground arith
get_or-set (x ∷ xs) (suc i) v (suc j) d = ground (arith, get_or-set xs i v j d)

pub length-mark : (ps : List Bool) (is : List ℕ) → length (mark ps is) ≡ length ps
unfolding mark
length-mark ps [] = refl
length-mark ps (i ∷ is) = omega (arith, length-mark (set ps i true) is, length-set ps i true)

pub get_or-mark :
    (ps : List Bool) (is : List ℕ) (j : ℕ)
    → j < length ps
    → get_or (mark ps is) j false ≡ (get_or ps j false || ltb 0 (count j is))
unfolding mark count
get_or-mark ps [] j h = ground arith
get_or-mark ps (i ∷ is) j h =
    ground
      (arith, get_or-mark (set ps i true) is j, length-set ps i true, get_or-set ps i true j false)

get_or_out : (rs : List ℕ) (i : ℕ) → (ltb i (length rs) ≡ false) → get_or rs i 0 ≡ 0
get_or_out [] i h = refl
get_or_out (r ∷ rs) zero h = ground arith
get_or_out (r ∷ rs) (suc i) h = get_or_out rs i (ground arith)

get_or-decrement :
    (rs cs : List ℕ) (i : ℕ) → get_or (decrement rs cs) i 0 ≡ get_or rs i 0 - count i cs
unfolding decrement count
get_or-decrement rs [] i = omega arith
get_or-decrement rs (c ∷ cs) i = ground (
  arith,
  get_or-decrement (set rs c (get_or rs c 0 - 1)) cs i,
  get_or-set rs c (get_or rs c 0 - 1) i 0,
  get_or_out rs c,
)

-- A counter falls by the number of the step's dependencies that a round processes.
pub get_or-release :
    (children : List (List ℕ)) (rs is : List ℕ) (i : ℕ)
    → get_or (release children rs is) i 0 ≡ get_or rs i 0 - waits children is i
unfolding release total
get_or-release children rs [] i = omega arith
get_or-release children rs (j ∷ is) i = omega (
  arith,
  get_or-release children (decrement rs (get_or children j [])) is i,
  get_or-decrement rs (get_or children j []) i,
)
