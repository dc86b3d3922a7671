-- ===== src/Text.antt =====
-- Go strings as lists of Unicode code points, with the functions of package `strings` that the
-- sources use on them. Every string that reaches the modelled code has passed a JSON or YAML
-- decoder, which yields valid UTF-8, so code points and bytes carry the same information.
mod Equality
mod Lower
pub mod Sets
unfoldable pub use Equality.*
unfoldable pub use Lower.*
use Prim.Native.Char.{code}
use Prim.Native.String
use Prim.Native.String.{String}
use mathlib.Core.List.{reverse}
use context_bridge.Prelude.{
  ℕ, zero, suc, ◌+◌, ◌-◌, ◌<◌, Bool, true, false, ◌&&◌, ◌||◌, List, [], ◌∷◌, ◌++◌, map, Option,
  none, some, ltb, leb, ◌==◌, if◌then◌else◌, length, ◌≡◌, refl,
}

-- A literal's code points.
abbrev pub codes : String → List ℕ
codes String.[] = []
codes (String.◌∷◌ c s) = code c ∷ codes s

-- unicode.IsSpace.
abbrev pub is_space : ℕ → Bool
is_space c =
    (leb 9 c && leb c 13)
    || c == 32
    || c == 0x85
    || c == 0xA0
    || c == 0x1680
    || (leb 0x2000 c && leb c 0x200A)
    || c == 0x2028
    || c == 0x2029
    || c == 0x202F
    || c == 0x205F
    || c == 0x3000

unfoldable pub trim_left : List ℕ → List ℕ
trim_left [] = []
trim_left (c ∷ cs) = elim (is_space c) [ true ↦ trim_left cs | false ↦ c ∷ cs ]

-- strings.TrimSpace.
unfoldable pub trim_space : List ℕ → List ℕ
unfolding trim_left
trim_space s = reverse (trim_left (reverse (trim_left s)))

-- strings.CutPrefix: the rest behind a prefix.
unfoldable pub cut_prefix : List ℕ → List ℕ → Option (List ℕ)
cut_prefix [] s = some s
cut_prefix (p ∷ ps) [] = none
cut_prefix (p ∷ ps) (c ∷ cs) = elim (p == c) [ true ↦ cut_prefix ps cs | false ↦ none ]

unfoldable pub cut_suffix : List ℕ → List ℕ → Option (List ℕ)
unfolding cut_prefix
cut_suffix p s = elim (cut_prefix (reverse p) (reverse s)) [
  | none ↦ none
  | some r ↦ some (reverse r)
]

-- strings.Index and the slices on both sides of the match: what precedes `sep`, and what follows.
unfoldable pub cut : List ℕ → List ℕ → Option (List ℕ × List ℕ)
unfolding cut_prefix
cut sep [] = elim (cut_prefix sep []) [ none ↦ none | some r ↦ some ([], r) ]
cut sep (c ∷ cs) = elim (cut_prefix sep (c ∷ cs)) [
  | some r ↦ some ([], r)
  | none ↦ elim (cut sep cs) [ none ↦ none | some (l, r) ↦ some (c ∷ l, r) ]
]

trim_example : trim_space (codes "  a b ") ≡ codes "a b"
unfolding trim_space
trim_example = refl

cut_example : cut (codes "${") (codes "x${y}") ≡ some (codes "x", codes "y}")
unfolding cut
cut_example = refl
