-- ===== src/Store/Events.antt =====
-- internal/cluster/store.go: the execution event log of a run, appendExecutionEventTx. A bucket of
-- numbered events is a list of pairs; the key of an event is its sequence number.
pub mod Retention
use context_bridge.Prelude.{
  ℕ, ◌+◌, ◌-◌, Bool, true, false, not, List, [], ◌∷◌, Option, none, some, ltb, ◌==◌, if◌then◌else◌,
  Result, ok, err, ◌>>=◌, ◌>>◌, reject_if, filter,
}
use context_bridge.Text.{Text, codes}

pub data EventKind : Type 0 where
  step_ready step_blocked : EventKind

-- JobEvent, with the fields that a pipeline checkpoint event sets.
pub record Event : Type 0 where
  pub run_id : Text
  pub kind : EventKind
  pub time : ℕ
  pub step_id : Text
  pub sequence : ℕ

pub record Log : Type 0 where
  pub sequence : ℕ
  pub events : List (ℕ × Event)

-- The bucket before its first event: no sequence is stored, which reads as 0.
abbrev pub empty_log : Log
empty_log = record { sequence = 0; events = [] }

abbrev pub maximum_retained : ℕ
maximum_retained = 256

-- ^uint64(0).
abbrev pub maximum_uint64 : ℕ
maximum_uint64 = 18446744073709551615

pub data EventError : Type 0 where
  sequence_exhausted : EventError

unfoldable pub delete : ℕ → List (ℕ × Event) → List (ℕ × Event)
delete k [] = []
delete k (e ∷ es) = if k == e.0 then delete k es else e ∷ delete k es

abbrev pub numbered : ℕ → ℕ → Event → Event
numbered now sequence e = record {
  run_id = e.run_id;
  kind = e.kind;
  time = if e.time == 0 then now else e.time;
  step_id = e.step_id;
  sequence = sequence;
}

abbrev pub kept : ℕ → List (ℕ × Event) → List (ℕ × Event)
kept sequence events =
    if ltb maximum_retained sequence then delete (sequence - maximum_retained) events else events

-- appendExecutionEventTx, without its test hook. `now` is the clock.
unfoldable pub append_event : ℕ → Event → Log → Result EventError Log
append_event now e log = do
  reject_if (log.sequence == maximum_uint64) sequence_exhausted
  let sequence = log.sequence + 1
  ok (record {
    sequence = sequence;
    events = kept sequence ((sequence, numbered now sequence e) ∷ delete sequence log.events);
  })

unfoldable pub append_events : ℕ → List Event → Log → Result EventError Log
append_events now [] log = ok log
append_events now (e ∷ es) log = append_event now e log >>= λ l. append_events now es l
