-- ===== src/Jobs/Failures/Stable.antt =====
-- internal/cluster/failure_codes.go: what a worker reports becomes one of the reviewed classes.
use context_bridge.Prelude.{Bool, true, false, List, [], ◌∷◌, ◌≡◌, refl, Bool-cases, inl, inr}
use context_bridge.Text.{Text, text_eq, has}
use context_bridge.Pipeline.Graph.Template.{is_empty}
use context_bridge.Jobs.Failures.{
  stable_codes, worker_execution, first_case, cases_of, code_from_text, normalized_code,
}

AllStable : List (Bool × Text) → Type 0
AllStable [] = Unit
AllStable (c ∷ cs) = (has c.1 stable_codes ≡ true) × AllStable cs

first_case-stable :
    (cases : List (Bool × Text)) (otherwise : Text)
    → AllStable cases
    → has otherwise stable_codes ≡ true
    → has (first_case cases otherwise) stable_codes ≡ true
unfolding AllStable
first_case-stable [] otherwise s h = h
first_case-stable ((true, code) ∷ cases) otherwise (here, s) h = here
first_case-stable ((false, code) ∷ cases) otherwise (here, s) h =
    first_case-stable cases otherwise s h

cases_of-AllStable : (value : Text) → AllStable (cases_of value)
unfolding AllStable cases_of has text_eq
cases_of-AllStable value =
    (refl, (refl, (refl, (refl, (refl, (refl, (refl, (refl, (refl, (refl, tt))))))))))

worker_execution-stable : has worker_execution stable_codes ≡ true
unfolding has text_eq
worker_execution-stable = refl

-- A failed execution's class is one of the reviewed ones, whatever class and message the worker
-- reports, as long as there is a message.
pub normalized_code-stable :
    (reported message : Text)
    → is_empty message ≡ false
    → has (normalized_code reported message) stable_codes ≡ true
unfolding normalized_code code_from_text
normalized_code-stable reported message some_message =
    elim (Bool-cases (has reported stable_codes)) [
      | inl stable ↦ rw (some_message, stable) stable
      | inr other ↦
          rw (some_message, other)
            (first_case-stable _ worker_execution (cases_of-AllStable _) worker_execution-stable)
    ]
