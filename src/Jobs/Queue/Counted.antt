-- ===== src/Jobs/Queue/Counted.antt =====
-- internal/cluster/store.go: the durable queue stays consistent under putQueueEntry and
-- deleteQueueEntry.
use context_bridge.Prelude.{
  ℕ, ◌+◌, not, List, ◌∷◌, Option, none, some, ltb, ◌==◌, if◌then◌else◌, length, ok, >>=-eq-ok,
  >>-eq-ok, ok-injective, ◌≡◌, ◌≤◌, refl, sym, ap, subst, ◌∙◌, arith, Bool-cases, Option-cases, inl,
  inr,
}
use context_bridge.Text.{Text, text_eq, text_eq_refl, eq_of_text_eq}
use context_bridge.Pipeline.Graph.Edges.{lookup}
use context_bridge.Jobs.Queue.{
  Key, Entry, Queue, key_eq, entry_at, without_entry, without_index, incremented, decremented,
  owned, add_owned, drop_owned, moved_owner, requeue, enqueue, put_entry, remove_entry,
  delete_entry, read_entry, valid_entry, maximum_count,
}
use context_bridge.Jobs.Queue.Entries.{lookup-without_index}
use context_bridge.Jobs.Queue.Consistent.{
  Consistent, taken_out-Consistent, absent-Consistent, absent-fresh, put-Consistent,
}
use context_bridge.Jobs.Queue.Counts.{
  one_if, owner_entries, eq_of_key_eq, without_entry-absent, owner_entries-without_entry,
  length-without_entry,
}

-- The entries, the index and the counters agree.
pub record Counted (q : Queue) : Type 0 where
  pub consistent : Consistent q.entries q.index
  pub total : q.total ≡ length q.entries
  pub owners : (o : Text) → owned o q.owners ≡ owner_entries o q.entries
  pub bounded : q.total ≤ maximum_count

pub incremented_lem : (c n : ℕ) → incremented c ≡ ok n → (n ≡ c + 1) × (n ≤ maximum_count)
unfolding incremented
incremented_lem c n h =
    let (_, h) = >>-eq-ok (ltb maximum_count c) _ _ h in
    let (small, h) = >>-eq-ok (ltb maximum_count (c + 1)) _ _ h in
    let h = ok-injective h in (sym h, ground arith)

pub decremented_lem : (c n : ℕ) → decremented c ≡ ok n → c ≡ n + 1
unfolding decremented
decremented_lem c n h =
    let (_, h) = >>-eq-ok (ltb maximum_count c) _ _ h in
    let (small, h) = >>-eq-ok (c == 0) _ _ h in let h = ok-injective h in ground arith

-- A counter of an owner, set.
owned-set :
    (o x : Text) (n : ℕ) (counts : List (Text × ℕ))
    → owned o ((x, n) ∷ counts) ≡ (if text_eq o x then n else owned o counts)
unfolding owned lookup
owned-set o x n counts = ground arith

one_owned :
    (o x : Text) (n : ℕ) (counts : List (Text × ℕ))
    → n ≡ owned x counts + 1
    → owned o ((x, n) ∷ counts) ≡ one_if (text_eq o x) + owned o counts
one_owned o x n counts h = owned-set o x n counts ∙ elim (Bool-cases (text_eq o x)) [
  | inl same ↦ rw (same, eq_of_text_eq o x same) (omega (arith, h))
  | inr other ↦ rw other (omega arith)
]

one_less :
    (o x : Text) (n : ℕ) (counts : List (Text × ℕ))
    → owned x counts ≡ n + 1
    → owned o counts ≡ one_if (text_eq o x) + owned o ((x, n) ∷ counts)
one_less o x n counts h = elim (Bool-cases (text_eq o x)) [
  | inl same ↦
      let set : owned o ((x, n) ∷ counts) ≡ n = owned-set o x n counts ∙ rw same refl in
      let at_x : owned o counts ≡ n + 1 = ap (λ y. owned y counts) (eq_of_text_eq o x same) ∙ h in
      rw same (omega (arith, set, at_x))
  | inr other ↦
      let set : owned o ((x, n) ∷ counts) ≡ owned o counts =
        owned-set o x n counts ∙ rw other refl in
      rw other (omega (arith, set))
]

add_owned_lem :
    (o x : Text) (counts counts' : List (Text × ℕ))
    → add_owned x counts ≡ ok counts'
    → owned o counts' ≡ one_if (text_eq o x) + owned o counts
unfolding add_owned
add_owned_lem o x counts counts' h =
    let (n, up, h) = >>=-eq-ok (incremented (owned x counts)) _ h in
    let (next, _) = incremented_lem (owned x counts) n up in
    ap (owned o) (sym (ok-injective h)) ∙ one_owned o x n counts next

pub drop_owned_lem :
    (o x : Text) (counts counts' : List (Text × ℕ))
    → drop_owned x counts ≡ ok counts'
    → owned o counts ≡ one_if (text_eq o x) + owned o counts'
unfolding drop_owned
drop_owned_lem o x counts counts' h =
    let (n, down, h) = >>=-eq-ok (decremented (owned x counts)) _ h in
    one_less o x n counts (decremented_lem (owned x counts) n down)
    ∙ ap (λ c. one_if (text_eq o x) + owned o c) (ok-injective h)

moved_owner_lem :
    (o x y : Text) (counts counts' : List (Text × ℕ))
    → moved_owner x y counts ≡ ok counts'
    → one_if (text_eq o x) + owned o counts' ≡ one_if (text_eq o y) + owned o counts
moved_owner_lem o x y counts counts' h = elim (Bool-cases (text_eq x y)) [
  | inl same ↦ let h = ok-injective (rw same at h) in rw (eq_of_text_eq x y same, sym h) refl
  | inr other ↦
      let (c, dropped, h) = >>=-eq-ok (drop_owned x counts) _ (rw other at h) in
      let d = drop_owned_lem o x counts c dropped in
      let a = add_owned_lem o y c counts' h in omega (arith, d, a)
]

-- The entries after a new one was put under a key of its job.
unused_key :
    (es : List (Key × Entry)) (ix : List (Text × Key)) (k : Key) (e : Entry)
    → Consistent es ix
    → k.job_id ≡ e.job_id
    → lookup e.job_id ix ≡ none
    → without_entry k es ≡ es
unused_key es ix k e c named h =
    without_entry-absent k es (absent-fresh es ix k c (ap (λ x. lookup x ix) named ∙ h))

unindexed : (id : Text) (ix : List (Text × Key)) → lookup id (without_index id ix) ≡ none
unindexed id ix = lookup-without_index id id ix ∙ rw (text_eq_refl id) refl

enqueue-Counted :
    (k : Key) (e : Entry) (q q' : Queue)
    → Counted q
    → k.job_id ≡ e.job_id
    → lookup e.job_id q.index ≡ none
    → enqueue k e q ≡ ok q'
    → Counted q'
unfolding enqueue owner_entries
enqueue-Counted k e q q' c named new h =
    let (total, up, h) = >>=-eq-ok (incremented q.total) _ h in
    let (owners, added, h) = >>=-eq-ok (add_owned e.owner_subject q.owners) _ h in
    let (next, small) = incremented_lem q.total total up in
    let unused = unused_key q.entries q.index k e c.consistent named new in
    let absent = absent-Consistent q.entries q.index e.job_id c.consistent new in
    let gone = unindexed e.job_id q.index in
    subst Counted (ok-injective h) (record {
      consistent =
          subst (λ es. Consistent ((k, e) ∷ es) ((e.job_id, k) ∷ without_index e.job_id q.index))
            (sym unused) (put-Consistent q.entries _ k e absent named gone);
      total = rw unused (omega (arith, next, c.total));
      owners = λ o.
          let a = add_owned_lem o e.owner_subject q.owners owners added in
          let b = c.owners o in rw unused (omega (arith, a, b));
      bounded = small;
    })

pub read_entry-eq-ok : (o : Option Entry) (e : Entry) → read_entry o ≡ ok e → o ≡ some e
read_entry-eq-ok none e h = cc
read_entry-eq-ok (some f) e h = elim (Bool-cases (valid_entry f)) [
  | inl valid ↦ ap some (ok-injective (rw valid at h))
  | inr bad ↦ let h = rw bad at h in cc
]

remove_entry-Counted :
    (id : Text) (k : Key) (q q' : Queue)
    → Counted q
    → lookup id q.index ≡ some k
    → remove_entry id k q ≡ ok q'
    → Counted q'
unfolding remove_entry
remove_entry-Counted id k q q' c here h =
    let (e, at, h) = >>=-eq-ok (read_entry (entry_at k q.entries)) _ h in
    let (_, h) = >>-eq-ok (not (text_eq e.job_id id)) _ _ h in
    let (total, down, h) = >>=-eq-ok (decremented q.total) _ h in
    let (owners, dropped, h) = >>=-eq-ok (drop_owned e.owner_subject q.owners) _ h in
    let at = read_entry-eq-ok (entry_at k q.entries) e at in
    let fewer = decremented_lem q.total total down in
    let shorter = length-without_entry k e q.entries c.consistent.distinct at in
    subst Counted (ok-injective h) (record {
      consistent = taken_out-Consistent q.entries q.index id k c.consistent here;
      total = omega (arith, fewer, shorter, c.total);
      owners = λ o.
          let a = drop_owned_lem o e.owner_subject q.owners owners dropped in
          let b = owner_entries-without_entry o k e q.entries c.consistent.distinct at in
          let d = c.owners o in omega (arith, a, b, d);
      bounded = let b = c.bounded in omega (arith, fewer, b);
    })

-- The entries of the other jobs, when the entry of a job moves from one key to another.
others_kept :
    (es : List (Key × Entry)) (ix : List (Text × Key)) (k before : Key) (e : Entry)
    → Consistent es ix
    → k.job_id ≡ e.job_id
    → lookup e.job_id ix ≡ some before
    → without_entry k (if key_eq before k then es else without_entry before es)
      ≡ without_entry before es
others_kept es ix k before e c named old = elim (Bool-cases (key_eq before k)) [
  | inl same ↦ rw same (ap (λ x. without_entry x es) (sym (eq_of_key_eq before k same)))
  | inr other ↦
      let out = taken_out-Consistent es ix e.job_id before c old in
      rw other (unused_key (without_entry before es) _ k e out named (unindexed e.job_id ix))
]

requeue-Counted :
    (k : Key) (e : Entry) (before : Key) (q q' : Queue)
    → Counted q
    → k.job_id ≡ e.job_id
    → lookup e.job_id q.index ≡ some before
    → requeue k e before q ≡ ok q'
    → Counted q'
unfolding requeue owner_entries
requeue-Counted k e before q q' c named old h =
    let (f, at, h) = >>=-eq-ok (read_entry (entry_at before q.entries)) _ h in
    let (owners, moved, h) = >>=-eq-ok (moved_owner f.owner_subject e.owner_subject q.owners) _ h in
    let at = read_entry-eq-ok (entry_at before q.entries) f at in
    let kept = others_kept q.entries q.index k before e c.consistent named old in
    let out = taken_out-Consistent q.entries q.index e.job_id before c.consistent old in
    let shorter = length-without_entry before f q.entries c.consistent.distinct at in
    subst Counted (ok-injective h) (record {
      consistent =
          subst (λ es. Consistent ((k, e) ∷ es) ((e.job_id, k) ∷ without_index e.job_id q.index))
            (sym kept) (put-Consistent _ _ k e out named (unindexed e.job_id q.index));
      total = rw kept (omega (arith, shorter, c.total));
      owners = λ o.
          let a = moved_owner_lem o f.owner_subject e.owner_subject q.owners owners moved in
          let b = owner_entries-without_entry o before f q.entries c.consistent.distinct at in
          let d = c.owners o in rw kept (omega (arith, a, b, d));
      bounded = c.bounded;
    })

pub put_entry-Counted :
    (k : Key) (e : Entry) (q q' : Queue)
    → Counted q
    → k.job_id ≡ e.job_id
    → put_entry k e q ≡ ok q'
    → Counted q'
unfolding put_entry
put_entry-Counted k e q q' c named h = elim (Option-cases (lookup e.job_id q.index)) [
  | inl new ↦ enqueue-Counted k e q q' c named new (rw (new, put_entry) at h)
  | inr (before, old) ↦ requeue-Counted k e before q q' c named old (rw (old, put_entry) at h)
]

pub delete_entry-Counted :
    (id : Text) (q q' : Queue) → Counted q → delete_entry id q ≡ ok q' → Counted q'
unfolding delete_entry
delete_entry-Counted id q q' c h = elim (Option-cases (lookup id q.index)) [
  | inl new ↦ subst Counted (ok-injective (rw (new, delete_entry) at h)) c
  | inr (k, old) ↦ remove_entry-Counted id k q q' c old (rw (old, delete_entry) at h)
]
