-- ===== src/Jobs/Queue.antt =====
-- internal/cluster/store.go: the durable queue of jobs, its index by job and its counters. The key of
-- an entry, queueKey, is its three parts, which its text holds in a fixed width and in this order.
-- An entry is decoded; the format of old entries, a bare job ID, is left out.
pub mod Entries
pub mod Counts
pub mod Consistent
pub mod Counted
pub mod Sound
pub mod Room
pub mod History
mod Tests
use context_bridge.Prelude.{
  ℕ, zero, suc, ◌+◌, ◌-◌, Bool, true, false, not, ◌&&◌, ◌||◌, List, [], ◌∷◌, Option, none, some,
  ltb, leb, ◌==◌, if◌then◌else◌, Result, ok, err, ◌>>=◌, ◌>>◌, reject_if,
}
use context_bridge.Prelude.Int.{ℤ, pos, negsuc, int_eq, ltb_ℤ}
use context_bridge.Text.{Text, text_eq}
use context_bridge.Pipeline.Graph.Edges.{lookup, is_some}
use context_bridge.Pipeline.Checkpoint.Identifiers.{valid_job_id}

pub record Key : Type 0 where
  pub priority : ℤ
  pub created_at : ℕ
  pub job_id : Text

unfoldable pub key_eq : Key → Key → Bool
key_eq k l =
    int_eq k.priority l.priority && (k.created_at == l.created_at && text_eq k.job_id l.job_id)

-- queueEntry, with the fields that the queue itself reads.
pub record Entry : Type 0 where
  pub job_id : Text
  pub owner_subject : Text
  pub priority : ℤ

pub data QueueError : Type 0 where
  missing_entry bad_entry wrong_entry counter_range : QueueError

-- The buckets of entries, of keys by job, and of counters; `total` is the counter of all jobs.
pub record Queue : Type 0 where
  pub entries : List (Key × Entry)
  pub index : List (Text × Key)
  pub total : ℕ
  pub owners : List (Text × ℕ)

unfoldable pub entry_at : Key → List (Key × Entry) → Option Entry
entry_at k [] = none
entry_at k ((l, e) ∷ es) = if key_eq k l then some e else entry_at k es

unfoldable pub without_entry : Key → List (Key × Entry) → List (Key × Entry)
without_entry k [] = []
without_entry k ((l, e) ∷ es) =
    let rest = without_entry k es in if key_eq k l then rest else (l, e) ∷ rest

unfoldable pub without_index : Text → List (Text × Key) → List (Text × Key)
without_index id [] = []
without_index id ((j, k) ∷ ks) =
    let rest = without_index id ks in if text_eq id j then rest else (j, k) ∷ rest

abbrev pub maximum_count : ℕ
maximum_count = 1000000

-- adjustQueueCounter: the counter after +1 or -1. A counter that is not stored is 0.
unfoldable pub incremented : ℕ → Result QueueError ℕ
incremented count = do
  reject_if (ltb maximum_count count) counter_range
  reject_if (ltb maximum_count (count + 1)) counter_range
  ok (count + 1)

unfoldable pub decremented : ℕ → Result QueueError ℕ
decremented count = do
  reject_if (ltb maximum_count count) counter_range
  reject_if (count == 0) counter_range
  ok (count - 1)

-- queueCounter of an owner.
unfoldable pub owned : Text → List (Text × ℕ) → ℕ
owned owner counts = elim (lookup owner counts) [ none ↦ 0 | some n ↦ n ]

unfoldable pub add_owned : Text → List (Text × ℕ) → Result QueueError (List (Text × ℕ))
unfolding owned incremented
add_owned owner counts = do n ← incremented (owned owner counts); ok ((owner, n) ∷ counts)

unfoldable pub drop_owned : Text → List (Text × ℕ) → Result QueueError (List (Text × ℕ))
unfolding owned decremented
drop_owned owner counts = do n ← decremented (owned owner counts); ok ((owner, n) ∷ counts)

-- The check at the end of queueEntryFromValue.
unfoldable pub valid_entry : Entry → Bool
unfolding valid_job_id
valid_entry e =
    valid_job_id e.job_id
    && (not (ltb_ℤ e.priority (negsuc 99)) && not (ltb_ℤ (pos 100) e.priority))

-- queueEntryFromValue of the value at a key.
abbrev pub read_entry : Option Entry → Result QueueError Entry
read_entry none = err missing_entry
read_entry (some e) = if valid_entry e then ok e else err bad_entry

-- putQueueEntry for a job that is queued: the entry moves to its new key and its new owner.
abbrev pub moved_owner : Text → Text → List (Text × ℕ) → Result QueueError (List (Text × ℕ))
moved_owner before after counts =
    if text_eq before after
    then ok counts
    else drop_owned before counts >>= λ counts. add_owned after counts

unfoldable pub requeue : Key → Entry → Key → Queue → Result QueueError Queue
unfolding entry_at without_entry without_index add_owned drop_owned valid_entry
requeue key e previous_key q = do
  previous ← read_entry (entry_at previous_key q.entries)
  owners ← moved_owner previous.owner_subject e.owner_subject q.owners
  ok (record {
    entries =
        (key, e)
        ∷ without_entry key
            (if key_eq previous_key key then q.entries else without_entry previous_key q.entries);
    index = (e.job_id, key) ∷ without_index e.job_id q.index;
    total = q.total;
    owners = owners;
  })

unfoldable pub enqueue : Key → Entry → Queue → Result QueueError Queue
unfolding without_entry without_index incremented add_owned
enqueue key e q = do
  total ← incremented q.total
  owners ← add_owned e.owner_subject q.owners
  ok (record {
    entries = (key, e) ∷ without_entry key q.entries;
    index = (e.job_id, key) ∷ without_index e.job_id q.index;
    total = total;
    owners = owners;
  })

-- putQueueEntry.
unfoldable pub put_entry : Key → Entry → Queue → Result QueueError Queue
unfolding requeue enqueue lookup
put_entry key e q = elim (lookup e.job_id q.index) [
  | some previous_key ↦ requeue key e previous_key q
  | none ↦ enqueue key e q
]

unfoldable pub remove_entry : Text → Key → Queue → Result QueueError Queue
unfolding entry_at without_entry without_index decremented drop_owned valid_entry
remove_entry job_id key q = do
  e ← read_entry (entry_at key q.entries)
  reject_if (not (text_eq e.job_id job_id)) wrong_entry
  total ← decremented q.total
  owners ← drop_owned e.owner_subject q.owners
  ok (record {
    entries = without_entry key q.entries;
    index = without_index job_id q.index;
    total = total;
    owners = owners;
  })

-- deleteQueueEntry. A job that is not queued is no error.
unfoldable pub delete_entry : Text → Queue → Result QueueError Queue
unfolding remove_entry lookup
delete_entry job_id q = elim (lookup job_id q.index) [
  | none ↦ ok q
  | some key ↦ remove_entry job_id key q
]

-- Whether a job is queued.
unfoldable pub is_queued : Text → Queue → Bool
unfolding lookup
is_queued job_id q = is_some (lookup job_id q.index)
