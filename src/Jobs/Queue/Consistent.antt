-- ===== src/Jobs/Queue/Consistent.antt =====
-- internal/cluster/store.go: the entries of the durable queue and its index by job agree, also after
-- an entry was put or taken out.
use context_bridge.Prelude.{
  some-injective, Bool, true, false, List, ◌∷◌, Option, none, some, if◌then◌else◌, ◌≡◌, refl, sym,
  ap, ◌∙◌, Bool-cases, Option-cases, inl, inr, ◌⊎◌,
}
use context_bridge.Text.{Text, text_eq, text_eq_refl, eq_of_text_eq}
use context_bridge.Pipeline.Graph.Edges.{lookup}
use context_bridge.Jobs.Queue.{Key, Entry, key_eq, entry_at, without_entry, without_index}
use context_bridge.Jobs.Queue.Entries.{lookup-without_index}
use context_bridge.Jobs.Queue.Counts.{
  Distinct, key_eq_refl, eq_of_key_eq, entry_at-without_entry, without_entry-Distinct,
}

-- The entry that the index names for a job is there, and is the job's.
pub record Located (id : Text) (k : Key) (es : List (Key × Entry)) : Type 0 where
  pub entry : Entry
  pub at_key : entry_at k es ≡ some entry
  pub of_job : entry.job_id ≡ id

-- Each key once; an entry stands under a key of its job, which the index names, and no other.
pub record Consistent (es : List (Key × Entry)) (ix : List (Text × Key)) : Type 0 where
  pub distinct : Distinct es
  pub keyed : (k : Key) (e : Entry) → entry_at k es ≡ some e → k.job_id ≡ e.job_id
  pub indexed : (k : Key) (e : Entry) → entry_at k es ≡ some e → lookup e.job_id ix ≡ some k
  pub located : (id : Text) (k : Key) → lookup id ix ≡ some k → Located id k es

not_both {ℓ κ} : {A : Type ℓ} {B : Type κ} {o : Option A} {a : A} → o ≡ none → o ≡ some a → B
not_both n s = absurd (let e = sym n ∙ s in cc)

-- What a lookup found although something was taken out, and after something was added.
pub remained {ℓ} :
    {A : Type ℓ} (b : Bool) (o : Option A) (a : A)
    → (if b then none else o) ≡ some a
    → (b ≡ false) × (o ≡ some a)
remained true o a h = cc
remained false o a h = (refl, h)

pub added {ℓ} :
    {A : Type ℓ} (b : Bool) (x : A) (o : Option A) (a : A)
    → (if b then some x else o) ≡ some a
    → ((b ≡ true) × (x ≡ a)) ⊎ ((b ≡ false) × (o ≡ some a))
added true x o a h = inl (refl, some-injective h)
added false x o a h = inr (refl, h)

job_of : Entry → Text
job_of e = e.job_id

same_key_job :
    (es : List (Key × Entry)) (i id : Text) (l k : Key)
    → Located i l es
    → Located id k es
    → key_eq l k ≡ true
    → i ≡ id
unfolding job_of
same_key_job es i id l k f g same =
    let at_k = ap (λ x. entry_at x es) (eq_of_key_eq l k same) in
    sym f.of_job ∙ ap job_of (some-injective (sym f.at_key ∙ at_k ∙ g.at_key)) ∙ g.of_job

other_job :
    (es : List (Key × Entry)) (i id : Text) (l k : Key)
    → Located i l es
    → Located id k es
    → text_eq i id ≡ false
    → key_eq l k ≡ false
other_job es i id l k f g off = elim (Bool-cases (key_eq l k)) [
  | inr other ↦ other
  | inl same ↦
      let at_id = ap (text_eq i) (sym (same_key_job es i id l k f g same)) in
      let refl_i = text_eq_refl i in cc
]

pub taken_out-Consistent :
    (es : List (Key × Entry)) (ix : List (Text × Key)) (id : Text) (k : Key)
    → Consistent es ix
    → lookup id ix ≡ some k
    → Consistent (without_entry k es) (without_index id ix)
taken_out-Consistent es ix id k c h =
    let here = c.located id k h in
    let left : (l : Key) (e : Entry)
        → entry_at l (without_entry k es) ≡ some e
        → (key_eq l k ≡ false) × (entry_at l es ≡ some e) =
      λ l e at.
        remained (key_eq l k) (entry_at l es) e (sym (entry_at-without_entry l k es) ∙ at) in
    record {
      distinct = without_entry-Distinct k es c.distinct;
      keyed = λ l e at. c.keyed l e (left l e at).1;
      indexed = λ l e at.
          let (off, found) = left l e at in
          lookup-without_index e.job_id id ix ∙ elim (Bool-cases (text_eq e.job_id id)) [
            | inr other ↦ rw other (c.indexed l e found)
            | inl same ↦
                let at_id = ap (λ x. lookup x ix) (eq_of_text_eq e.job_id id same) in
                let l_k = some-injective (sym (c.indexed l e found) ∙ at_id ∙ h) in
                let on = ap (λ x. key_eq x k) l_k ∙ key_eq_refl k in cc
          ];
      located = λ i l at.
          let (off, found) =
            remained (text_eq i id) (lookup i ix) l (sym (lookup-without_index i id ix) ∙ at) in
          let there = c.located i l found in
          record {
            entry = there.entry;
            at_key =
                entry_at-without_entry l k es
                ∙ rw (other_job es i id l k there here off) there.at_key;
            of_job = there.of_job;
          };
    }

-- A job without an entry: its index is as it was.
pub absent-Consistent :
    (es : List (Key × Entry)) (ix : List (Text × Key)) (id : Text)
    → Consistent es ix
    → lookup id ix ≡ none
    → Consistent es (without_index id ix)
absent-Consistent es ix id c h =
    let same : (i : Text) → lookup i (without_index id ix) ≡ lookup i ix = λ i.
      lookup-without_index i id ix ∙ elim (Bool-cases (text_eq i id)) [
        | inr other ↦ rw other refl
        | inl at_id ↦ rw (at_id, eq_of_text_eq i id at_id) (sym h)
      ] in
    record {
      distinct = c.distinct;
      keyed = c.keyed;
      indexed = λ k e at. same e.job_id ∙ c.indexed k e at;
      located = λ i k at. c.located i k (sym (same i) ∙ at);
    }

-- A job without an entry has none under a key of its own.
pub absent-fresh :
    (es : List (Key × Entry)) (ix : List (Text × Key)) (k : Key)
    → Consistent es ix
    → lookup k.job_id ix ≡ none
    → entry_at k es ≡ none
absent-fresh es ix k c h = elim (Option-cases (entry_at k es)) [
  | inl fresh ↦ fresh
  | inr (e, at) ↦ not_both h (ap (λ x. lookup x ix) (c.keyed k e at) ∙ c.indexed k e at)
]

pub put-Consistent :
    (es : List (Key × Entry)) (ix : List (Text × Key)) (k : Key) (e : Entry)
    → Consistent es ix
    → k.job_id ≡ e.job_id
    → lookup e.job_id ix ≡ none
    → Consistent ((k, e) ∷ es) ((e.job_id, k) ∷ ix)
unfolding entry_at lookup
put-Consistent es ix k e c named h =
    let fresh = absent-fresh es ix k c (ap (λ x. lookup x ix) named ∙ h) in
    record {
      distinct = (fresh, c.distinct);
      keyed = λ l f at. elim (added (key_eq l k) e (entry_at l es) f at) [
        | inl (same, at_e) ↦
            ap (λ x. x.job_id) (eq_of_key_eq l k same) ∙ named ∙ ap (λ x. x.job_id) at_e
        | inr (other, at) ↦ c.keyed l f at
      ];
      indexed = λ l f at. elim (added (key_eq l k) e (entry_at l es) f at) [
        | inl (same, at_e) ↦
            let on = ap (λ x. text_eq x.job_id e.job_id) (sym at_e) ∙ text_eq_refl e.job_id in
            rw on (ap some (sym (eq_of_key_eq l k same)))
        | inr (other, at) ↦ elim (Bool-cases (text_eq f.job_id e.job_id)) [
          | inr apart ↦ rw apart (c.indexed l f at)
          | inl same ↦
              let at_e = ap (λ x. lookup x ix) (eq_of_text_eq f.job_id e.job_id same) in
              not_both h (sym at_e ∙ c.indexed l f at)
        ]
      ];
      located = λ i l at. elim (added (text_eq i e.job_id) k (lookup i ix) l at) [
        | inl (same, at_k) ↦
            let on = ap (λ x. key_eq x k) (sym at_k) ∙ key_eq_refl k in
            record { entry = e; at_key = rw on refl; of_job = sym (eq_of_text_eq i e.job_id same) }
        | inr (other, at) ↦
            let there = c.located i l at in
            elim (Bool-cases (key_eq l k)) [
              | inr apart ↦ record {
                entry = there.entry;
                at_key = rw apart there.at_key;
                of_job = there.of_job;
              }
              | inl same ↦
                  let at_k = ap (λ x. entry_at x es) (eq_of_key_eq l k same) in
                  not_both fresh (sym at_k ∙ there.at_key)
            ]
      ];
    }
