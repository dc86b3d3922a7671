-- ===== src/Jobs/Queue/Entries.antt =====
-- internal/cluster/store.go: what putQueueEntry and deleteQueueEntry do to the index of jobs.
use context_bridge.Prelude.{
  true, false, not, List, [], ◌∷◌, none, if◌then◌else◌, ok, >>=-eq-ok, >>-eq-ok, ok-injective, ◌≡◌,
  sym, ap, ◌∙◌, arith, Option-cases, inl, inr,
}
use context_bridge.Text.{Text, text_eq, text_eq_refl, eq_of_text_eq}
use context_bridge.Pipeline.Graph.Edges.{lookup}
use context_bridge.Jobs.Queue.{
  Key, Entry, Queue, without_index, put_entry, requeue, enqueue, delete_entry, remove_entry,
  is_queued, moved_owner, incremented, add_owned, read_entry, entry_at, decremented, drop_owned,
}

pub lookup-without_index :
    (i id : Text) (ks : List (Text × Key))
    → lookup i (without_index id ks) ≡ (if text_eq i id then none else lookup i ks)
unfolding lookup without_index
lookup-without_index i id [] = ground arith
lookup-without_index i id ((j, k) ∷ ks) = ground (
  arith,
  lookup-without_index i id ks,
  eq_of_text_eq id j,
  eq_of_text_eq i id,
  eq_of_text_eq i j,
  text_eq_refl id,
)

-- The index after a job was put.
pub put_entry-index :
    (key : Key) (e : Entry) (q q' : Queue)
    → put_entry key e q ≡ ok q'
    → q'.index ≡ ((e.job_id, key) ∷ without_index e.job_id q.index)
unfolding put_entry requeue enqueue
put_entry-index key e q q' h = elim (Option-cases (lookup e.job_id q.index)) [
  | inl new ↦
      let h = rw (new, put_entry) at h in
      let (total, _, h) = >>=-eq-ok (incremented q.total) _ h in
      let (owners, _, h) = >>=-eq-ok (add_owned e.owner_subject q.owners) _ h in
      sym (ap (λ x. x.index) (ok-injective h))
  | inr (k, old) ↦
      let h = rw (old, put_entry) at h in
      let (previous, _, h) = >>=-eq-ok (read_entry (entry_at k q.entries)) _ h in
      let (owners, _, h) =
        >>=-eq-ok (moved_owner previous.owner_subject e.owner_subject q.owners) _ h in
      sym (ap (λ x. x.index) (ok-injective h))
]

pub delete_entry-index :
    (i id : Text) (q q' : Queue)
    → delete_entry id q ≡ ok q'
    → lookup i q'.index ≡ (if text_eq i id then none else lookup i q.index)
unfolding delete_entry remove_entry
delete_entry-index i id q q' h = elim (Option-cases (lookup id q.index)) [
  | inl new ↦
      let h = rw (new, delete_entry) at h in
      let same = ok-injective h in ground (arith, same, new, eq_of_text_eq i id)
  | inr (k, old) ↦
      let h = rw (old, delete_entry) at h in
      let (e, _, h) = >>=-eq-ok (read_entry (entry_at k q.entries)) _ h in
      let (_, h) = >>-eq-ok (not (text_eq e.job_id id)) _ _ h in
      let (total, _, h) = >>=-eq-ok (decremented q.total) _ h in
      let (owners, _, h) = >>=-eq-ok (drop_owned e.owner_subject q.owners) _ h in
      ap (λ x. lookup i x.index) (sym (ok-injective h)) ∙ lookup-without_index i id q.index
]

pub is_queued-put_entry :
    (i : Text) (key : Key) (e : Entry) (q q' : Queue)
    → put_entry key e q ≡ ok q'
    → is_queued i q' ≡ (if text_eq i e.job_id then true else is_queued i q)
unfolding is_queued lookup
is_queued-put_entry i key e q q' h =
    rw (put_entry-index key e q q' h) (ground (arith, lookup-without_index i e.job_id q.index))

pub is_queued-delete_entry :
    (i id : Text) (q q' : Queue)
    → delete_entry id q ≡ ok q'
    → is_queued i q' ≡ (if text_eq i id then false else is_queued i q)
unfolding is_queued
is_queued-delete_entry i id q q' h = rw (delete_entry-index i id q q' h) (ground arith)
