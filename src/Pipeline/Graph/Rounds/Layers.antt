-- ===== src/Pipeline/Graph/Rounds/Layers.antt =====
-- The layer in which a step stands: the order that a plan of internal/cluster/pipeline_graph.go
-- promises.
use context_bridge.Prelude.{
  ℕ, suc, ◌<◌, List, [], ◌∷◌, ◌++◌, ltb, if◌then◌else◌, length, ◌≡◌, refl, arith, count,
  count-append, map,
}

abbrev pub concat {ℓ} : {A : Type ℓ} → List (List A) → List A
concat [] = []
concat (l ∷ ls) = l ++ concat ls

-- The index of the first layer that holds `i`, or the number of layers.
unfoldable pub layer_of : ℕ → List (List ℕ) → ℕ
layer_of i [] = 0
layer_of i (l ∷ ls) = if ltb 0 (count i l) then 0 else suc (layer_of i ls)

module _ {ℓ} {A : Type ℓ} where
  pub append_assoc : (xs ys zs : List A) → (xs ++ ys) ++ zs ≡ xs ++ (ys ++ zs)
  append_assoc [] ys zs = refl
  append_assoc (x ∷ xs) ys zs = cc (append_assoc xs ys zs)

  pub append-nil : (xs : List A) → xs ++ [] ≡ xs
  append-nil [] = refl
  append-nil (x ∷ xs) = cc (append-nil xs)

  pub concat-append : (ls : List (List A)) (l : List A) → concat (ls ++ l ∷ []) ≡ concat ls ++ l
  concat-append [] l = append-nil l
  concat-append (k ∷ ls) l = cc (concat-append ls l, append_assoc k (concat ls) l)

  pub map-snoc {κ} :
      {B : Type κ} (f : A → B) (xs ys : List A) → map f (xs ++ ys) ≡ map f xs ++ map f ys
  map-snoc f [] ys = refl
  map-snoc f (x ∷ xs) ys = cc (map-snoc f xs ys)

pub layer_of-le : (i : ℕ) (ls : List (List ℕ)) → 0 < count i (concat ls) → layer_of i ls < length ls
unfolding layer_of count
layer_of-le i [] h = absurd (omega arith)
layer_of-le i (l ∷ ls) h = ground (arith, layer_of-le i ls, count-append i l (concat ls))

pub count_of_layer :
    (i : ℕ) (ls : List (List ℕ)) → layer_of i ls < length ls → 0 < count i (concat ls)
unfolding layer_of
count_of_layer i [] h = absurd (omega arith)
count_of_layer i (l ∷ ls) h = ground (arith, count_of_layer i ls, count-append i l (concat ls))

pub layer_of-append_old :
    (i : ℕ) (ls : List (List ℕ)) (l : List ℕ)
    → 0 < count i (concat ls)
    → layer_of i (ls ++ l ∷ []) ≡ layer_of i ls
unfolding layer_of count
layer_of-append_old i [] l h = absurd (omega arith)
layer_of-append_old i (k ∷ ls) l h =
    ground (arith, layer_of-append_old i ls l, count-append i k (concat ls))

pub layer_of-append_new :
    (i : ℕ) (ls : List (List ℕ)) (l : List ℕ)
    → count i (concat ls) ≡ 0
    → 0 < count i l
    → layer_of i (ls ++ l ∷ []) ≡ length ls
unfolding layer_of count
layer_of-append_new i [] l h p = ground arith
layer_of-append_new i (k ∷ ls) l h p =
    ground (arith, layer_of-append_new i ls l, count-append i k (concat ls))
