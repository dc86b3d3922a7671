-- ===== src/Text/Sets.antt =====
-- Lists of texts without repetition, as the sets that Go maps keep.
use context_bridge.Prelude.{
  suc, ◌≤◌, true, false, List, [], ◌∷◌, length, if◌then◌else◌, ◌≡◌, subst, arith, inl, inr,
  Bool-cases,
}
use context_bridge.Text.Equality.{Text, text_eq, text_eq_refl, eq_of_text_eq, has}

abbrev pub Once : List Text → Type 0
Once [] = Unit
Once (x ∷ xs) = (has x xs ≡ false) × Once xs

remove : Text → List Text → List Text
remove t [] = []
remove t (x ∷ xs) = if text_eq t x then xs else x ∷ remove t xs

length-remove :
    (t : Text) (xs : List Text) → has t xs ≡ true → length xs ≡ suc (length (remove t xs))
unfolding remove has
length-remove t [] h = cc
length-remove t (x ∷ xs) h = ground (arith, length-remove t xs)

has-remove :
    (t u : Text) (xs : List Text)
    → has u xs ≡ true
    → text_eq u t ≡ false
    → has u (remove t xs) ≡ true
unfolding remove has
has-remove t u [] h other = cc
has-remove t u (x ∷ xs) h other =
    ground (arith, has-remove t u xs, eq_of_text_eq t x, eq_of_text_eq u x, text_eq_refl u)

-- A list without repetition that holds only members of another, and as many, holds them all.
pub has_all :
    (xs ys : List Text)
    → Once xs
    → ((t : Text) → has t xs ≡ true → has t ys ≡ true)
    → length ys ≤ length xs
    → (t : Text) → has t ys ≡ true
    → has t xs ≡ true
unfolding has
has_all [] [] o sub le t h = cc
has_all [] (y ∷ ys) o sub le t h = absurd (omega arith)
has_all (x ∷ xs) ys o sub le t h = elim (Bool-cases (text_eq t x)) [
  | inl same ↦ ground (arith, same)
  | inr other ↦
      let there = sub x (ground (arith, text_eq_refl x)) in
      let size = length-remove x ys there in
      rw other (
        has_all xs (remove x ys) o.1
          (λ u hu. has-remove x u ys (sub u (ground (arith, hu))) (apart u hu))
          (omega (arith, size)) t (has-remove x t ys h other))
]
  where
    apart : (u : Text) → has u xs ≡ true → text_eq u x ≡ false
    apart u hu = elim (Bool-cases (text_eq u x)) [
      | inl same ↦ absurd (cc (subst (λ v. has v xs ≡ true) (eq_of_text_eq u x same) hu, o.0))
      | inr other ↦ other
    ]
