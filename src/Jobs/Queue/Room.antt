-- ===== src/Jobs/Queue/Room.antt =====
-- internal/cluster/store.go: an operation of the durable queue succeeds where its counters allow it.
use context_bridge.Prelude.{
  ℕ, ◌+◌, ◌-◌, Bool, true, false, List, ◌∷◌, some, Result, ok, err, ◌≡◌, ◌≤◌, ◌<◌, refl, ap, ◌∙◌,
  arith, Bool-cases, inl, inr,
}
use context_bridge.Text.{Text, text_eq, text_eq_refl}
use context_bridge.Pipeline.Graph.Edges.{lookup}
use context_bridge.Jobs.Queue.{
  Key, Entry, Queue, QueueError, entry_at, incremented, decremented, owned, add_owned, drop_owned,
  moved_owner, requeue, enqueue, remove_entry, maximum_count, without_entry,
}
use context_bridge.Jobs.Queue.Counts.{
  one_if, owner_entries, owner_entries-without_entry, length-without_entry, owner_entries-le-length,
}
use context_bridge.Jobs.Queue.Consistent.{added}
use context_bridge.Jobs.Queue.Counted
use context_bridge.Jobs.Queue.Sound.{Sound}

unfoldable pub done : Result QueueError Queue → Bool
done (ok q) = true
done (err e) = false

pub done-ok : (r : Result QueueError Queue) → done r ≡ true → (q : Queue) × (r ≡ ok q)
unfolding done
done-ok (ok q) h = (q, refl)
done-ok (err e) h = cc

incremented-ok : (c : ℕ) → c < maximum_count → incremented c ≡ ok (c + 1)
unfolding incremented
incremented-ok c h = ground arith

decremented-ok : (c : ℕ) → 0 < c → c ≤ maximum_count → decremented c ≡ ok (c - 1)
unfolding decremented
decremented-ok c pos h = ground arith

add_owned-ok :
    (x : Text) (counts : List (Text × ℕ))
    → owned x counts < maximum_count
    → (cs : List (Text × ℕ)) × (add_owned x counts ≡ ok cs)
unfolding add_owned
add_owned-ok x counts h =
    let up = incremented-ok (owned x counts) h in ((x, owned x counts + 1) ∷ counts, rw up refl)

drop_owned-ok :
    (x : Text) (counts : List (Text × ℕ))
    → 0 < owned x counts
    → owned x counts ≤ maximum_count
    → (cs : List (Text × ℕ)) × (drop_owned x counts ≡ ok cs)
unfolding drop_owned
drop_owned-ok x counts pos h =
    let down = decremented-ok (owned x counts) pos h in
    ((x, owned x counts - 1) ∷ counts, rw down refl)

-- The counters while the queue has an entry.
record Present (e : Entry) (q : Queue) : Type 0 where
  more : 0 < q.total
  bounded : q.total ≤ maximum_count
  owned_more : 0 < owned e.owner_subject q.owners
  owned_bounded : owned e.owner_subject q.owners ≤ maximum_count

present :
    (k : Key) (e : Entry) (q : Queue)
    → Counted.Counted q
    → entry_at k q.entries ≡ some e
    → Present e q
present k e q c at =
    let x = e.owner_subject in
    let shorter = length-without_entry k e q.entries c.consistent.distinct at in
    let mine : owner_entries x q.entries ≡ 1 + owner_entries x (without_entry k q.entries) =
      owner_entries-without_entry x k e q.entries c.consistent.distinct at
      ∙ ap (λ b. one_if b + owner_entries x (without_entry k q.entries)) (text_eq_refl x) in
    let few = owner_entries-le-length x q.entries in
    let count = c.owners x in
    let total = c.total in
    let small = c.bounded in
    record {
      more = omega (arith, shorter, total);
      bounded = small;
      owned_more = omega (arith, mine, count);
      owned_bounded = omega (arith, few, count, total, small);
    }

pub remove_entry-ok :
    (id : Text) (k : Key) (q : Queue)
    → Counted.Counted q
    → lookup id q.index ≡ some k
    → Sound q.entries
    → done (remove_entry id k q) ≡ true
unfolding remove_entry done Sound
remove_entry-ok id k q c here sound =
    let there = c.consistent.located id k here in
    let valid = sound k there.entry there.at_key in
    let p = present k there.entry q c there.at_key in
    let named : text_eq there.entry.job_id id ≡ true =
      ap (λ x. text_eq x id) there.of_job ∙ text_eq_refl id in
    let down = decremented-ok q.total p.more p.bounded in
    let (owners, dropped) =
      drop_owned-ok there.entry.owner_subject q.owners p.owned_more p.owned_bounded in
    rw (there.at_key, valid, named, down, dropped) refl

pub enqueue-ok :
    (k : Key) (e : Entry) (q : Queue)
    → Counted.Counted q
    → q.total < maximum_count
    → done (enqueue k e q) ≡ true
unfolding enqueue done
enqueue-ok k e q c h =
    let few = owner_entries-le-length e.owner_subject q.entries in
    let count = c.owners e.owner_subject in
    let total = c.total in
    let up = incremented-ok q.total h in
    let (owners, added) =
      add_owned-ok e.owner_subject q.owners (omega (arith, few, count, total, h)) in
    rw (up, added) refl

-- The entry of another owner leaves room for one more of this owner.
moved_owner-ok :
    (k : Key) (e : Entry) (y : Text) (q : Queue)
    → Counted.Counted q
    → entry_at k q.entries ≡ some e
    → (cs : List (Text × ℕ)) × (moved_owner e.owner_subject y q.owners ≡ ok cs)
moved_owner-ok k e y q c at = elim (Bool-cases (text_eq e.owner_subject y)) [
  | inl same ↦ (q.owners, rw same refl)
  | inr other ↦
      let p = present k e q c at in
      let (owners, dropped) = drop_owned-ok e.owner_subject q.owners p.owned_more p.owned_bounded in
      let drop = Counted.drop_owned_lem y e.owner_subject q.owners owners dropped in
      let mine = owner_entries-without_entry y k e q.entries c.consistent.distinct at in
      let few = owner_entries-le-length y (without_entry k q.entries) in
      let shorter = length-without_entry k e q.entries c.consistent.distinct at in
      let count = c.owners y in
      let total = c.total in
      let small = c.bounded in
      let (after, added) =
        add_owned-ok y owners (omega (arith, drop, mine, few, shorter, count, total, small)) in
      (after, rw (other, dropped) added)
]

pub requeue-ok :
    (k : Key) (e : Entry) (before : Key) (q : Queue)
    → Counted.Counted q
    → lookup e.job_id q.index ≡ some before
    → Sound q.entries
    → done (requeue k e before q) ≡ true
unfolding requeue done Sound
requeue-ok k e before q c old sound =
    let there = c.consistent.located e.job_id before old in
    let valid = sound before there.entry there.at_key in
    let (owners, moved) = moved_owner-ok before there.entry e.owner_subject q c there.at_key in
    rw (there.at_key, valid, moved) refl
