-- ===== src/Prelude/Indices.antt =====
-- Loops over an index range, `for index := range xs { if p(index) { … } }`, and sums over the
-- indices that such a loop collects.
use Prim.Native.Nat.{ℕ, zero, suc, ◌+◌, ◌≤◌, ◌<◌}
use mathlib.Core.Path.{◌≡◌, refl}
use mathlib.Core.Logic.{inl, inr}
use mathlib.Core.Bool.{Bool, true, false, ◌&&◌, not}
use mathlib.Core.List.{List, [], ◌∷◌, ◌++◌}
use native.Mathlib.Omega.{arith}
use context_bridge.Prelude.Tests.{ltb, leb, ◌==◌, if◌then◌else◌, Bool-cases}
use context_bridge.Prelude.Lists.{length}

-- The indices from `i` on, `k` of them, that satisfy `p`, in ascending order.
unfoldable pub select : (ℕ → Bool) → ℕ → ℕ → List ℕ
select p i zero = []
select p i (suc k) = elim (p i) [ true ↦ i ∷ select p (suc i) k | false ↦ select p (suc i) k ]

-- How often a value occurs.
unfoldable pub count : ℕ → List ℕ → ℕ
count x [] = 0
count x (y ∷ ys) = (if x == y then 1 else 0) + count x ys

-- The sum of a weight over a list.
unfoldable pub total : (ℕ → ℕ) → List ℕ → ℕ
total w [] = 0
total w (x ∷ xs) = w x + total w xs

pub count-append : (x : ℕ) (xs ys : List ℕ) → count x (xs ++ ys) ≡ count x xs + count x ys
unfolding count
count-append x [] ys = omega arith
count-append x (y ∷ xs) ys = omega (arith, count-append x xs ys)

pub count-select :
    (p : ℕ → Bool) (x i k : ℕ)
    → count x (select p i k) ≡ (if leb i x && ltb x (i + k) && p x then 1 else 0)
unfolding count select
count-select p x i zero = ground arith
count-select p x i (suc k) = elim (Bool-cases (p i)) [
  | inl e ↦ ground (arith, count-select p x (suc i) k)
  | inr e ↦ ground (arith, count-select p x (suc i) k)
]

pub total-select_split :
    (w : ℕ → ℕ) (p q : ℕ → Bool) (i k : ℕ)
    → total w (select p i k)
      ≡ total w (select (λ x. p x && q x) i k) + total w (select (λ x. p x && not (q x)) i k)
unfolding total select
total-select_split w p q i zero = omega arith
total-select_split w p q i (suc k) = ground (arith, total-select_split w p q (suc i) k)

pub length-total : (xs : List ℕ) → length xs ≡ total (λ _. 1) xs
unfolding total
length-total [] = refl
length-total (x ∷ xs) = omega (arith, length-total xs)

pub select-eq :
    (p q : ℕ → Bool) (i k : ℕ)
    → ((x : ℕ) → i ≤ x → x < i + k → p x ≡ q x)
    → select p i k ≡ select q i k
unfolding select
select-eq p q i zero h = refl
select-eq p q i (suc k) h = ground (
  arith,
  h i (omega arith) (omega arith),
  select-eq p q (suc i) k (λ x a b. h x (omega arith) (omega arith)),
)

-- One summand is at most the sum.
pub le-total : (w : ℕ → ℕ) (x : ℕ) (xs : List ℕ) → 0 < count x xs → w x ≤ total w xs
unfolding count total
le-total w x [] h = absurd (omega arith)
le-total w x (y ∷ ys) h = ground (arith, le-total w x ys)

-- A positive sum has a positive summand.
pub total_pos : (w : ℕ → ℕ) (xs : List ℕ) → 0 < total w xs → (x : ℕ) × (0 < count x xs) × (0 < w x)
unfolding count total
total_pos w [] h = absurd (omega arith)
total_pos w (y ∷ ys) h = elim (Bool-cases (ltb 0 (w y))) [
  | inl e ↦ (y, ground arith, ground arith)
  | inr e ↦ let (x, c, v) = total_pos w ys (ground arith) in (x, ground arith, v)
]

pub count_pos_of_length : (xs : List ℕ) → 0 < length xs → (x : ℕ) × (0 < count x xs)
unfolding count
count_pos_of_length [] h = absurd (omega arith)
count_pos_of_length (x ∷ xs) h = (x, ground arith)

pub count-le-length : (x : ℕ) (xs : List ℕ) → count x xs ≤ length xs
unfolding count
count-le-length x [] = omega arith
count-le-length x (y ∷ ys) = ground (arith, count-le-length x ys)
