-- ===== src/Jobs/Queue/History.antt =====
-- internal/cluster/store.go: the durable queue over a sequence of putQueueEntry and deleteQueueEntry.
use context_bridge.Prelude.{
  Bool, true, List, [], ◌∷◌, ltb, ◌||◌, Result, ok, err, ◌≡◌, refl, ap, ◌∙◌, arith, Option-cases,
  inl, inr,
}
use context_bridge.Text.{Text}
use context_bridge.Pipeline.Graph.Edges.{lookup}
use context_bridge.Jobs.Records.{Job}
use context_bridge.Jobs.Tables.{key_of, entry_of}
use context_bridge.Jobs.Queue.{
  Queue, QueueError, requeue, enqueue, put_entry, remove_entry, delete_entry, maximum_count,
  is_queued, valid_entry,
}
use context_bridge.Jobs.Queue.Counted
use context_bridge.Jobs.Queue.Sound.{Sound, put_entry-Sound, delete_entry-Sound}
use context_bridge.Jobs.Queue.Room.{done, done-ok, remove_entry-ok, enqueue-ok, requeue-ok}

pub data Operation : Type 0 where
  puts : Job → Operation
  deletes : Text → Operation

unfoldable pub operate : Operation → Queue → Result QueueError Queue
unfolding put_entry delete_entry
operate (puts j) q = put_entry (key_of j) (entry_of j) q
operate (deletes id) q = delete_entry id q

-- A transaction that fails is rolled back.
abbrev pub kept_or : Queue → Result QueueError Queue → Queue
kept_or q (ok q') = q'
kept_or q (err e) = q

unfoldable pub history : List Operation → Queue → Queue
unfolding operate
history [] q = q
history (o ∷ os) q = history os (kept_or q (operate o q))

-- There is room for the operation.
unfoldable pub has_room : Operation → Queue → Bool
unfolding is_queued
has_room (puts j) q = ltb q.total maximum_count || is_queued j.id q
has_room (deletes id) q = true

operate-Counted :
    (o : Operation) (q q' : Queue) → Counted.Counted q → operate o q ≡ ok q' → Counted.Counted q'
unfolding operate
operate-Counted (puts j) q q' c h = Counted.put_entry-Counted (key_of j) (entry_of j) q q' c refl h
operate-Counted (deletes id) q q' c h = Counted.delete_entry-Counted id q q' c h

kept-Counted :
    (o : Operation) (q : Queue) (r : Result QueueError Queue)
    → Counted.Counted q
    → operate o q ≡ r
    → Counted.Counted (kept_or q r)
kept-Counted o q (ok q') c h = operate-Counted o q q' c h
kept-Counted o q (err e) c h = c

-- From a queue whose entries, index by job and counters agree, every sequence of enqueued and removed
-- jobs, of which the operations that fail change nothing, leads to a queue where they agree: each key
-- stands once, each entry under a key of its job, the index names exactly the keys of the entries,
-- the counter of all jobs is the number of the entries and at most the maximum, and the counter of
-- each owner is the number of the owner's entries.
pub history-Counted :
    (os : List Operation) (q : Queue) → Counted.Counted q → Counted.Counted (history os q)
unfolding history
history-Counted [] q c = c
history-Counted (o ∷ os) q c =
    history-Counted os (kept_or q (operate o q)) (kept-Counted o q (operate o q) c refl)

-- The jobs that are put have a valid ID and a priority from -100 to 100.
abbrev pub AllValid : List Operation → Type 0
AllValid [] = Unit
AllValid (puts j ∷ os) = (valid_entry (entry_of j) ≡ true) × AllValid os
AllValid (deletes id ∷ os) = AllValid os

kept-Sound :
    (o : Operation) (q : Queue) (r : Result QueueError Queue)
    → AllValid (o ∷ [])
    → Sound q.entries
    → operate o q ≡ r
    → Sound (kept_or q r).entries
unfolding operate
kept-Sound o q (err e) valid sound h = sound
kept-Sound (puts j) q (ok q') (valid, _) sound h =
    put_entry-Sound (key_of j) (entry_of j) q q' sound valid h
kept-Sound (deletes id) q (ok q') valid sound h = delete_entry-Sound id q q' sound h

history-Sound :
    (os : List Operation) (q : Queue) → AllValid os → Sound q.entries → Sound (history os q).entries
unfolding history
history-Sound [] q valid sound = sound
history-Sound (puts j ∷ os) q (valid, rest) sound =
    history-Sound os _ rest (kept-Sound (puts j) q _ (valid, tt) sound refl)
history-Sound (deletes id ∷ os) q rest sound =
    history-Sound os _ rest (kept-Sound (deletes id) q _ tt sound refl)

operate-ok :
    (o : Operation) (q : Queue)
    → Counted.Counted q
    → Sound q.entries
    → has_room o q ≡ true
    → done (operate o q) ≡ true
unfolding operate put_entry delete_entry has_room is_queued done
operate-ok (puts j) q c sound room = elim (Option-cases (lookup j.id q.index)) [
  | inl new ↦
      let step : put_entry (key_of j) (entry_of j) q ≡ enqueue (key_of j) (entry_of j) q =
        rw (put_entry, new) refl in
      ap done step ∙ enqueue-ok (key_of j) (entry_of j) q c (ground (arith, room, new))
  | inr (k, old) ↦
      let step : put_entry (key_of j) (entry_of j) q ≡ requeue (key_of j) (entry_of j) k q =
        rw (put_entry, old) refl in
      ap done step ∙ requeue-ok (key_of j) (entry_of j) k q c old sound
]
operate-ok (deletes id) q c sound room = elim (Option-cases (lookup id q.index)) [
  | inl new ↦ let step : delete_entry id q ≡ ok q = rw (delete_entry, new) refl in ap done step
  | inr (k, old) ↦
      let step : delete_entry id q ≡ remove_entry id k q = rw (delete_entry, old) refl in
      ap done step ∙ remove_entry-ok id k q c old sound
]

-- From a queue whose entries, index by job and counters agree and whose entries have a valid job ID
-- and a priority from -100 to 100, after every sequence of operations of which those that enqueue a
-- job are given one with such an ID and priority, the removal of a job succeeds, and so does putting
-- one that is queued already or for which the counter of all jobs is below its maximum.
pub history-ok :
    (os : List Operation) (o : Operation) (q : Queue)
    → Counted.Counted q
    → Sound q.entries
    → AllValid os
    → has_room o (history os q) ≡ true
    → (q' : Queue) × (operate o (history os q) ≡ ok q')
history-ok os o q c sound valid room =
    done-ok (operate o (history os q))
      (operate-ok o (history os q) (history-Counted os q c) (history-Sound os q valid sound) room)
