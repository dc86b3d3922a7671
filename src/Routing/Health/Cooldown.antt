-- ===== src/Routing/Health/Cooldown.antt =====
-- internal/cluster/routing_health.go: how long a failing route stays closed.
use context_bridge.Prelude.{
  ℕ, zero, suc, ◌+◌, ◌-◌, ◌*◌, ◌^◌, ◌≤◌, ltb, leb, if◌then◌else◌, ◌≡◌, refl, sym, ap, ◌∙◌, arith,
  inl, inr, Bool-cases, Bool, not, ◌&&◌, ◌==◌,
}
use Prim.Native.Nat.{min}
use native.Mathlib.Nat.{mul_assoc, pow-succ'}
use context_bridge.Text.{Text}
use context_bridge.Routing.Health.{
  Health, failure_threshold, initial_cooldown, maximum_cooldown, maximum_uint32, doubled,
  cooldown_for, next_count, apply_failure,
}

-- The exponential back-off, in closed form, in nanoseconds.
abbrev pub back_off : ℕ → ℕ
back_off failures = min 900000000000 (30000000000 * 2 ^ (failures - 3))

capped : ℕ → ℕ
capped c = if ltb maximum_cooldown c then maximum_cooldown else c

one_le_pow : (k : ℕ) → 1 ≤ 2 ^ k
one_le_pow zero = omega arith
one_le_pow (suc k) = omega (arith, one_le_pow k)

le_mul : (c q : ℕ) → 1 ≤ q → c ≤ c * q
le_mul c zero h = absurd (omega arith)
le_mul c (suc r) h = omega arith

double_first : (c k : ℕ) → c * 2 * 2 ^ k ≡ c * 2 ^ suc k
double_first c k = mul_assoc c 2 (2 ^ k) ∙ ap (λ x. c * x) (sym (pow-succ' 2 k))

doubled-min : (shift c : ℕ) → capped (doubled shift c) ≡ min maximum_cooldown (c * 2 ^ shift)
unfolding doubled capped
doubled-min zero c = ground arith
doubled-min (suc shift) c = elim (Bool-cases (ltb c maximum_cooldown)) [
  | inl below ↦
      rw below (doubled-min shift (c * 2) ∙ ap (min maximum_cooldown) (double_first c shift))
  | inr reached ↦
      let at_least = le_mul c (2 ^ suc shift) (one_le_pow (suc shift)) in
      rw reached (ground (arith, reached, at_least))
]

cooldown_for-back_off : (failures : ℕ) → cooldown_for failures ≡ back_off failures
unfolding cooldown_for capped
cooldown_for-back_off failures = doubled-min (failures - failure_threshold) initial_cooldown

-- The last failure lies within the ten minutes before now.
abbrev pub recent : ℕ → Health → Bool
recent now h =
    not (h.last_failure_at == 0)
    && (leb h.last_failure_at now && leb (now - h.last_failure_at) 600000000000)

-- The failures in a row, with one more: 32 bits, without wrapping.
abbrev pub in_a_row : ℕ → Health → ℕ
in_a_row now h = min 4294967295 (suc (if recent now h then h.consecutive_failures else 0))

next_count-in_a_row :
    (now : ℕ) (h : Health)
    → h.consecutive_failures ≤ maximum_uint32
    → next_count now h ≡ in_a_row now h
unfolding next_count
next_count-in_a_row now h fits = ground (arith, fits)

-- A failure is counted: the record then holds one failure in a row more than before, or one if the
-- last failure is none, is later, or is more than ten minutes old, and no more than 32 bits hold, with the
-- failure's code and time. Once that count is three, the route is closed for 30 seconds, doubled with
-- each further failure, and for 15 minutes at most; below three it stays open or closed as it was.
pub apply_failure-back_off :
    (code : Text) (now : ℕ) (h : Health)
    → h.consecutive_failures ≤ maximum_uint32
    → let after = apply_failure code now h in
      (after.consecutive_failures ≡ in_a_row now h)
      × (after.last_failure_code ≡ code)
      × (after.last_failure_at ≡ now)
      × (after.circuit_open_until ≡ (
          if leb 3 (in_a_row now h) then now + back_off (in_a_row now h) else h.circuit_open_until))
unfolding apply_failure
apply_failure-back_off code now h fits =
    let counted = next_count-in_a_row now h fits in
    (
      counted,
      refl,
      refl,
      ap (λ n. if leb failure_threshold n then now + cooldown_for n else h.circuit_open_until)
            counted
          ∙ ap (λ c. if leb 3 (in_a_row now h) then now + c else h.circuit_open_until)
              (cooldown_for-back_off (in_a_row now h)),
    )
