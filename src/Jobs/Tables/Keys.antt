-- ===== src/Jobs/Tables/Keys.antt =====
-- internal/cluster/store.go: the bucket of jobs has each job once, under its ID.
use context_bridge.Prelude.{
  false, List, [], ◌∷◌, Option, none, some, if◌then◌else◌, ◌≡◌, refl, sym, ap, ◌∙◌, Bool-cases, inl,
  inr,
}
use context_bridge.Text.{Text, text_eq, eq_of_text_eq, text_eq_sym}
use context_bridge.Pipeline.Graph.Edges.{lookup}
use context_bridge.Jobs.Records.{Job}
use context_bridge.Jobs.Tables.{save}
use context_bridge.Jobs.Tables.Saved.{lookup-save}

-- Each key once, and the key of each job its ID.
abbrev pub Keyed : List (Text × Job) → Type 0
Keyed [] = Unit
Keyed ((k, j) ∷ m) = (lookup k m ≡ none) × (j.id ≡ k) × Keyed m

some_or : Job → Option Job → Job
some_or u none = u
some_or u (some j) = j

pub Keyed-named :
    (i : Text) (j : Job) (m : List (Text × Job)) → Keyed m → lookup i m ≡ some j → j.id ≡ i
unfolding lookup some_or
Keyed-named i j [] keyed e = cc
Keyed-named i j ((k, u) ∷ m) (fresh, named, keyed) e = elim (Bool-cases (text_eq i k)) [
  | inl same ↦
      let e = rw (same, lookup) at e in
      ap (λ o. (some_or u o).id) (sym e) ∙ named ∙ sym (eq_of_text_eq i k same)
  | inr other ↦ Keyed-named i j m keyed (rw (other, lookup) at e)
]

save-fresh :
    (i k : Text) (j : Job) (m : List (Text × Job))
    → text_eq i k ≡ false
    → lookup i m ≡ none
    → lookup i (save k j m) ≡ none
save-fresh i k j m other fresh =
    lookup-save i k j m ∙ ap (λ b. if b then some j else lookup i m) other ∙ fresh

pub save-Keyed :
    (k : Text) (j : Job) (m : List (Text × Job)) → Keyed m → j.id ≡ k → Keyed (save k j m)
unfolding save lookup
save-Keyed k j [] keyed named = (refl, named, tt)
save-Keyed k j ((l, u) ∷ m) (fresh, u_named, keyed) named = elim (Bool-cases (text_eq k l)) [
  | inl same ↦ rw (same, save) (ap (λ x. lookup x m) (eq_of_text_eq k l same) ∙ fresh, named, keyed)
  | inr other ↦
      rw (other, save)
        (save-fresh l k j m (text_eq_sym l k ∙ other) fresh, u_named, save-Keyed k j m keyed named)
]
