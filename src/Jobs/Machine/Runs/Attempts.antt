-- ===== src/Jobs/Machine/Runs/Attempts.antt =====
-- internal/cluster/store.go: how often a job is tried.
use context_bridge.Prelude.{
  ◌+◌, ◌≤◌, ◌<◌, Bool, true, false, List, [], ◌∷◌, Option, none, some, ltb, ◌≡◌, refl, sym, ap, ◌∙◌,
  arith, subst, Bool-cases, inl, inr, ltb→lt, lt→ltb, if◌then◌else◌,
}
use context_bridge.Prelude.Int.{ℤ, pos, negsuc, ltb_ℤ, pos_part, neg_part}
use context_bridge.Text.{Text}
use context_bridge.Pipeline.Graph.Edges.{lookup}
use context_bridge.Jobs.Records.{
  Job, Status, queued, assigned, running, failed, cancelled, status_eq, terminal, at_worker,
  increment,
}
use context_bridge.Jobs.Tables.{World, Digests}
use context_bridge.Jobs.Complete.Results.{Codecs}
use context_bridge.Jobs.Machine.{
  Moves, assigns, starts, reports, retries, ends, cancels, expires, Step, Fresh, Agrees, Advanced,
  stays, steps, appears,
}
use context_bridge.Jobs.Machine.Reports.{status_of_eq}
use context_bridge.Jobs.Machine.Runs.{Call, run}
use context_bridge.Jobs.Machine.Runs.Calls.{committed-Advances}

-- A job that waits has an attempt left.
abbrev pub has_room : Job → Bool
has_room j =
    if status_eq j.status queued then ltb (pos_part j.attempt) (pos_part j.max_attempts) else true

-- The attempts of a job are counted from 0 to its maximum, and one that waits has one left.
pub record Within (j : Job) : Type 0 where
  pub counted : neg_part j.attempt ≡ 0
  pub bounded : pos_part j.attempt ≤ pos_part j.max_attempts
  pub small : pos_part j.max_attempts ≤ 10
  pub room : has_room j ≡ true

pub Within-left :
    (j : Job) → Within j → j.status ≡ queued → pos_part j.attempt < pos_part j.max_attempts
unfolding status_eq
Within-left j w waiting =
    let room : ltb (pos_part j.attempt) (pos_part j.max_attempts) ≡ true =
      sym (
        ap
          (λ s.
            if status_eq s queued then ltb (pos_part j.attempt) (pos_part j.max_attempts) else true)
          waiting)
      ∙ w.room in
    ltb→lt (pos_part j.attempt) (pos_part j.max_attempts) room

has_room_lem :
    (j : Job)
    → (j.status ≡ queued → pos_part j.attempt < pos_part j.max_attempts)
    → has_room j ≡ true
has_room_lem j left = elim (Bool-cases (status_eq j.status queued)) [
  | inl waiting ↦
      ap (λ b. if b then ltb (pos_part j.attempt) (pos_part j.max_attempts) else true) waiting
      ∙ lt→ltb _ _ (left (status_of_eq j.status queued waiting))
  | inr other ↦
      ap (λ b. if b then ltb (pos_part j.attempt) (pos_part j.max_attempts) else true) other
]

pub increment-counted :
    (a : ℤ)
    → neg_part a ≡ 0
    → pos_part a < 10
    → (neg_part (increment a) ≡ 0) × (pos_part (increment a) ≡ pos_part a + 1)
unfolding increment
increment-counted (pos n) h small = (ground (arith, small), ground (arith, small))
increment-counted (negsuc n) h small = absurd (ground (arith, h))

same_attempt :
    (j k : Job)
    → Within j
    → k.attempt ≡ j.attempt
    → k.max_attempts ≡ j.max_attempts
    → (k.status ≡ queued → pos_part j.attempt < pos_part j.max_attempts)
    → Within k
same_attempt j k w attempt maximum left = record {
  counted = ap neg_part attempt ∙ w.counted;
  bounded =
      subst (λ a. pos_part a ≤ pos_part k.max_attempts) (sym attempt)
        (subst (λ m. pos_part j.attempt ≤ pos_part m) (sym maximum) w.bounded);
  small = subst (λ m. pos_part m ≤ 10) (sym maximum) w.small;
  room = has_room_lem k (λ q.
      subst (λ a. pos_part a < pos_part k.max_attempts) (sym attempt)
        (subst (λ m. pos_part j.attempt < pos_part m) (sym maximum) (left q)));
}

-- A status that is not queued.
elsewhere :
    {A : Type 0} (k : Job) (s : Status)
    → k.status ≡ s
    → status_eq s queued ≡ false
    → k.status ≡ queued
    → A
unfolding status_eq
elsewhere k s now_is other q =
    absurd (cc (sym other ∙ ap (λ t. status_eq t queued) (sym now_is ∙ q)))

worker_elsewhere : (s : Status) → at_worker s ≡ true → status_eq s queued ≡ false
unfolding status_eq
worker_elsewhere s h = ground arith

final_elsewhere : (s : Status) → terminal s ≡ true → status_eq s queued ≡ false
unfolding terminal status_eq
final_elsewhere s h = ground arith

room_left : (a m : ℤ) → neg_part a ≡ 0 → ltb_ℤ a m ≡ true → pos_part a < pos_part m
room_left (pos n) (pos m) h room = ground (arith, room)
room_left (pos n) (negsuc m) h room = absurd (ground (arith, room))
room_left (negsuc n) m h room = absurd (ground (arith, h))

another :
    (j k : Job)
    → Within j
    → j.status ≡ queued
    → k.status ≡ assigned
    → k.attempt ≡ increment j.attempt
    → k.max_attempts ≡ j.max_attempts
    → Within k
unfolding status_eq
another j k w was now_is attempt maximum =
    let room = Within-left j w was in
    let (counted, more) = increment-counted j.attempt w.counted (omega (arith, room, w.small)) in
    let one_more : pos_part k.attempt ≡ pos_part j.attempt + 1 = ap pos_part attempt ∙ more in
    let same_max = ap pos_part maximum in
    record {
      counted = ap neg_part attempt ∙ counted;
      bounded = omega (arith, one_more, same_max, room);
      small = omega (arith, same_max, w.small);
      room = has_room_lem k (elsewhere k assigned now_is refl);
    }

moves-Within : (j k : Job) → Moves j k → k.max_attempts ≡ j.max_attempts → Within j → Within k
unfolding status_eq
moves-Within j k (assigns was now_is attempt) maximum w = another j k w was now_is attempt maximum
moves-Within j k (starts was now_is attempt) maximum w =
    same_attempt j k w attempt maximum (elsewhere k running now_is refl)
moves-Within j k (reports busy same attempt) maximum w =
    same_attempt j k w attempt maximum (elsewhere k j.status same (worker_elsewhere j.status busy))
moves-Within j k (retries was now_is attempt room) maximum w =
    same_attempt j k w attempt maximum (λ q. room_left j.attempt j.max_attempts w.counted room)
moves-Within j k (ends busy final attempt) maximum w =
    same_attempt j k w attempt maximum (elsewhere k k.status refl (final_elsewhere k.status final))
moves-Within j k (cancels still_open now_is attempt) maximum w =
    same_attempt j k w attempt maximum (elsewhere k cancelled now_is refl)
moves-Within j k (expires was now_is attempt) maximum w =
    same_attempt j k w attempt maximum (elsewhere k failed now_is refl)

Step-Within : (j k : Job) → Step j k → Within j → Within k
Step-Within j k s w = moves-Within j k s.moves s.maximum w

Fresh-Within : (j : Job) → Fresh j → Within j
Fresh-Within j f = record {
  counted = ap neg_part f.untried;
  bounded = omega (arith, ap pos_part f.untried);
  small = f.small;
  room = has_room_lem j (λ q. omega (arith, ap pos_part f.untried, f.allowed));
}

abbrev pub WithinAt : Option Job → Type 0
WithinAt none = Unit
WithinAt (some j) = Within j

abbrev pub AllWithin : World → Type 0
AllWithin w = (i : Text) → WithinAt (lookup i w.jobs)

pub Advanced-Within : (o p : Option Job) → Advanced o p → WithinAt o → WithinAt p
Advanced-Within o p (stays q) w = w
Advanced-Within o p (steps i j s) w = Step-Within i j s w
Advanced-Within o p (appears j fresh) w = Fresh-Within j fresh

-- Where no job has used more attempts than it is allowed, none does after any run of calls: attempts
-- count from 0 to the job's maximum, which is 10 at most, and a job that waits has one left.
pub run-Within :
    (digests : Digests) (codecs : Codecs) (cs : List Call) (w : World)
    → Agrees w
    → AllWithin w
    → AllWithin (run digests codecs cs w)
unfolding run
run-Within digests codecs [] w a all = all
run-Within digests codecs (c ∷ cs) w a all =
    let v = committed-Advances digests codecs c w a in
    run-Within digests codecs cs _ v.agrees (λ i. Advanced-Within _ _ (v.each i) (all i))
