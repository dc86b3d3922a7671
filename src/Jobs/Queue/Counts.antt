-- ===== src/Jobs/Queue/Counts.antt =====
-- internal/cluster/store.go: the entries of the durable queue, counted, and what the removal of an
-- entry does to the counts.
use context_bridge.Prelude.{
  ℕ, ◌+◌, Bool, true, false, List, [], ◌∷◌, Option, none, some, if◌then◌else◌, length, ◌≡◌, ◌≤◌,
  refl, ap, ◌∙◌, arith, Bool-cases, inl, inr,
}
use context_bridge.Prelude.Int.{ℤ, int_eq, eq_of_int_eq, int_eq_refl}
use context_bridge.Text.{Text, text_eq, text_eq_refl, eq_of_text_eq}
use context_bridge.Jobs.Queue.{Key, Entry, key_eq, entry_at, without_entry}

abbrev pub one_if : Bool → ℕ
one_if true = 1
one_if false = 0

-- The number of an owner's entries.
unfoldable pub owner_entries : Text → List (Key × Entry) → ℕ
owner_entries o [] = 0
owner_entries o ((k, e) ∷ es) = one_if (text_eq o e.owner_subject) + owner_entries o es

-- Each key once.
abbrev pub Distinct : List (Key × Entry) → Type 0
Distinct [] = Unit
Distinct ((k, e) ∷ es) = (entry_at k es ≡ none) × Distinct es

pub key_eq_refl : (k : Key) → key_eq k k ≡ true
unfolding key_eq
key_eq_refl k = ground (arith, int_eq_refl k.priority, text_eq_refl k.job_id)

made : ℤ → ℕ → Text → Key
made p c j = record { priority = p; created_at = c; job_id = j }

pub eq_of_key_eq : (k l : Key) → key_eq k l ≡ true → k ≡ l
unfolding key_eq made
eq_of_key_eq k l h =
    let p : int_eq k.priority l.priority ≡ true = ground arith in
    let c : k.created_at ≡ l.created_at = ground arith in
    let j : text_eq k.job_id l.job_id ≡ true = ground arith in
    ap (λ x. made x k.created_at k.job_id) (eq_of_int_eq k.priority l.priority p)
    ∙ ap (λ x. made l.priority x k.job_id) c
    ∙ ap (made l.priority l.created_at) (eq_of_text_eq k.job_id l.job_id j)

pub entry_at-without_entry :
    (k l : Key) (es : List (Key × Entry))
    → entry_at k (without_entry l es) ≡ (if key_eq k l then none else entry_at k es)
unfolding entry_at without_entry
entry_at-without_entry k l [] = ground arith
entry_at-without_entry k l ((m, e) ∷ es) = ground (
  arith,
  entry_at-without_entry k l es,
  eq_of_key_eq l m,
  eq_of_key_eq k l,
  eq_of_key_eq k m,
  key_eq_refl l,
)

pub without_entry-absent :
    (k : Key) (es : List (Key × Entry)) → entry_at k es ≡ none → without_entry k es ≡ es
unfolding entry_at without_entry
without_entry-absent k [] h = refl
without_entry-absent k ((m, e) ∷ es) h = elim (Bool-cases (key_eq k m)) [
  | inl same ↦ let h = rw (same, entry_at) at h in cc
  | inr other ↦
      rw other (ap (λ es. (m, e) ∷ es) (without_entry-absent k es (rw (other, entry_at) at h)))
]

pub without_entry-Distinct :
    (k : Key) (es : List (Key × Entry)) → Distinct es → Distinct (without_entry k es)
unfolding without_entry
without_entry-Distinct k [] d = tt
without_entry-Distinct k ((m, e) ∷ es) (fresh, d) = elim (Bool-cases (key_eq k m)) [
  | inl same ↦ rw same (without_entry-Distinct k es d)
  | inr other ↦
      let still : entry_at m (without_entry k es) ≡ none =
        ground (arith, entry_at-without_entry m k es, fresh) in
      rw other (still, without_entry-Distinct k es d)
]

owner_of : Option Entry → Text
owner_of none = []
owner_of (some e) = e.owner_subject

-- The entry at a key, taken out.
pub owner_entries-without_entry :
    (o : Text) (k : Key) (e : Entry) (es : List (Key × Entry))
    → Distinct es
    → entry_at k es ≡ some e
    → owner_entries o es ≡ one_if (text_eq o e.owner_subject) + owner_entries o (without_entry k es)
unfolding owner_entries entry_at without_entry owner_of
owner_entries-without_entry o k e [] d h = cc
owner_entries-without_entry o k e ((m, f) ∷ es) (fresh, d) h = elim (Bool-cases (key_eq k m)) [
  | inl same ↦
      let h = ap owner_of (rw (same, entry_at) at h) in
      let at_m = eq_of_key_eq k m same in
      let gone = without_entry-absent k es (ap (λ x. entry_at x es) at_m ∙ fresh) in
      rw (same, gone) (ap (λ x. one_if (text_eq o x) + owner_entries o es) h)
  | inr other ↦
      let rest = owner_entries-without_entry o k e es d (rw (other, entry_at) at h) in
      rw other (omega (arith, rest))
]

pub length-without_entry :
    (k : Key) (e : Entry) (es : List (Key × Entry))
    → Distinct es
    → entry_at k es ≡ some e
    → length es ≡ 1 + length (without_entry k es)
unfolding entry_at without_entry
length-without_entry k e [] d h = cc
length-without_entry k e ((m, f) ∷ es) (fresh, d) h = elim (Bool-cases (key_eq k m)) [
  | inl same ↦
      let at_m = eq_of_key_eq k m same in
      let gone = without_entry-absent k es (ap (λ x. entry_at x es) at_m ∙ fresh) in
      rw (same, gone) (omega arith)
  | inr other ↦
      let rest = length-without_entry k e es d (rw (other, entry_at) at h) in
      rw other (omega (arith, rest))
]

pub owner_entries-le-length : (o : Text) (es : List (Key × Entry)) → owner_entries o es ≤ length es
unfolding owner_entries
owner_entries-le-length o [] = omega arith
owner_entries-le-length o ((k, e) ∷ es) = ground (arith, owner_entries-le-length o es)
