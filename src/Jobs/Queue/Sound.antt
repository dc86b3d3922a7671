-- ===== src/Jobs/Queue/Sound.antt =====
-- internal/cluster/store.go: the entries of the durable queue pass the check of queueEntryFromValue.
use context_bridge.Prelude.{
  subst, ok-injective, >>=-eq-ok, >>-eq-ok, Bool, true, false, List, ◌∷◌, some, ok, ◌≡◌, ap, ◌∙◌,
  Option-cases, inl, inr, if◌then◌else◌, not, sym,
}
use context_bridge.Text.{Text, text_eq}
use context_bridge.Pipeline.Graph.Edges.{lookup}
use context_bridge.Jobs.Queue.{
  Key, Entry, Queue, entry_at, incremented, decremented, add_owned, drop_owned, moved_owner,
  requeue, enqueue, put_entry, remove_entry, delete_entry, without_entry, valid_entry, key_eq,
  read_entry,
}
use context_bridge.Jobs.Queue.Counts.{entry_at-without_entry}
use context_bridge.Jobs.Queue.Consistent.{remained, added}

-- Every entry passes the check with which it is read.
unfoldable pub Sound : List (Key × Entry) → Type 0
Sound es = (k : Key) (e : Entry) → entry_at k es ≡ some e → valid_entry e ≡ true

Sound-without_entry : (k : Key) (es : List (Key × Entry)) → Sound es → Sound (without_entry k es)
unfolding Sound
Sound-without_entry k es sound l e at =
    let (_, at) =
      remained (key_eq l k) (entry_at l es) e (sym (entry_at-without_entry l k es) ∙ at) in
    sound l e at

Sound-with :
    (k : Key) (e : Entry) (es : List (Key × Entry))
    → Sound es
    → valid_entry e ≡ true
    → Sound ((k, e) ∷ without_entry k es)
unfolding Sound entry_at
Sound-with k e es sound valid l f at =
    elim (added (key_eq l k) e (entry_at l (without_entry k es)) f at) [
      | inl (_, same) ↦ ap valid_entry (sym same) ∙ valid
      | inr (_, at) ↦ Sound-without_entry k es sound l f at
    ]

Sound-unless :
    (b : Bool) (k : Key) (es : List (Key × Entry))
    → Sound es
    → Sound (if b then es else without_entry k es)
Sound-unless true k es sound = sound
Sound-unless false k es sound = Sound-without_entry k es sound

pub put_entry-Sound :
    (k : Key) (e : Entry) (q q' : Queue)
    → Sound q.entries
    → valid_entry e ≡ true
    → put_entry k e q ≡ ok q'
    → Sound q'.entries
unfolding put_entry enqueue requeue
put_entry-Sound k e q q' sound valid h = elim (Option-cases (lookup e.job_id q.index)) [
  | inl new ↦
      let h = rw (new, put_entry) at h in
      let (total, _, h) = >>=-eq-ok (incremented q.total) _ h in
      let (owners, _, h) = >>=-eq-ok (add_owned e.owner_subject q.owners) _ h in
      subst (λ x. Sound x.entries) (ok-injective h) (Sound-with k e q.entries sound valid)
  | inr (before, old) ↦
      let h = rw (old, put_entry) at h in
      let (f, _, h) = >>=-eq-ok (read_entry (entry_at before q.entries)) _ h in
      let (owners, _, h) = >>=-eq-ok (moved_owner f.owner_subject e.owner_subject q.owners) _ h in
      subst (λ x. Sound x.entries) (ok-injective h)
        (Sound-with k e _ (Sound-unless (key_eq before k) before q.entries sound) valid)
]

pub delete_entry-Sound :
    (id : Text) (q q' : Queue) → Sound q.entries → delete_entry id q ≡ ok q' → Sound q'.entries
unfolding delete_entry remove_entry
delete_entry-Sound id q q' sound h = elim (Option-cases (lookup id q.index)) [
  | inl new ↦ subst (λ x. Sound x.entries) (ok-injective (rw (new, delete_entry) at h)) sound
  | inr (k, old) ↦
      let h = rw (old, delete_entry) at h in
      let (e, _, h) = >>=-eq-ok (read_entry (entry_at k q.entries)) _ h in
      let (_, h) = >>-eq-ok (not (text_eq e.job_id id)) _ _ h in
      let (total, _, h) = >>=-eq-ok (decremented q.total) _ h in
      let (owners, _, h) = >>=-eq-ok (drop_owned e.owner_subject q.owners) _ h in
      subst (λ x. Sound x.entries) (ok-injective h) (Sound-without_entry k q.entries sound)
]
