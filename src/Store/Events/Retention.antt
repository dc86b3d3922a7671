-- ===== src/Store/Events/Retention.antt =====
-- Which events the log of internal/cluster/store.go retains.
use context_bridge.Prelude.{
  ℕ, zero, suc, ◌+◌, ◌-◌, ◌≤◌, ◌<◌, List, [], ◌∷◌, length, ltb, ◌==◌, ◌⊎◌, ok, ◌≡◌, ◌≢◌, subst,
  refl, sym, ap, ◌∙◌, arith, >>=-eq-ok, >>-eq-ok, Bool-cases, inl, inr, take, if◌then◌else◌,
  ok-injective,
}
use context_bridge.Store.Events.{
  Event, Log, empty_log, maximum_retained, maximum_uint64, delete, numbered, kept, append_event,
  append_events,
}

-- n, n - 1, ..., from the newest down, k of them.
unfoldable pub latest : ℕ → ℕ → List ℕ
latest n zero = []
latest n (suc k) = n ∷ latest (n - 1) k

abbrev pub keys : List (ℕ × Event) → List ℕ
keys [] = []
keys (e ∷ es) = e.0 ∷ keys es

-- The keys are the newest numbers, without a gap.
pub record Retains (log : Log) : Type 0 where
  pub all_or_full :
      (length log.events ≡ log.sequence)
      ⊎ ((length log.events ≡ maximum_retained) × (maximum_retained ≤ log.sequence))
  pub bounded : length log.events ≤ maximum_retained
  pub newest : keys log.events ≡ latest log.sequence (length log.events)
  pub fits : log.sequence ≤ maximum_uint64

-- The entry of an event with a number, at a time: without a time of its own it has that of the clock.
abbrev pub entry : ℕ → ℕ → Event → ℕ × Event
entry now n e = (
  n,
  record {
    run_id = e.run_id;
    kind = e.kind;
    time = if e.time == 0 then now else e.time;
    step_id = e.step_id;
    sequence = n;
  },
)

-- The entries of further events in front of those of a log, the newest first, when n are numbered.
unfoldable pub newest_first : ℕ → ℕ → List Event → List (ℕ × Event) → List (ℕ × Event)
newest_first now n [] older = older
newest_first now n (e ∷ es) older = newest_first now (n + 1) es (entry now (n + 1) e ∷ older)

take_shorter : {A : Type 0} (n : ℕ) (xs : List A) → take n (take (suc n) xs) ≡ take n xs
take_shorter zero xs = refl
take_shorter (suc n) [] = refl
take_shorter (suc n) (x ∷ xs) = ap (λ r. x ∷ r) (take_shorter n xs)

take_twice : {A : Type 0} (n : ℕ) (xs : List A) → take n (take n xs) ≡ take n xs
take_twice zero xs = refl
take_twice (suc n) [] = refl
take_twice (suc n) (x ∷ xs) = ap (λ r. x ∷ r) (take_twice n xs)

take_front :
    {A : Type 0} (n : ℕ) (x : A) (xs ys : List A)
    → take n xs ≡ take n ys
    → take n (x ∷ xs) ≡ take n (x ∷ ys)
take_front zero x xs ys h = refl
take_front (suc n) x xs ys h =
    ap (λ r. x ∷ r) (sym (take_shorter n xs) ∙ ap (take n) h ∙ take_shorter n ys)

take_all : {A : Type 0} (n : ℕ) (xs : List A) → length xs ≤ n → take n xs ≡ xs
take_all zero [] h = refl
take_all zero (x ∷ xs) h = absurd (omega arith)
take_all (suc n) [] h = refl
take_all (suc n) (x ∷ xs) h = ap (λ r. x ∷ r) (take_all n xs (omega arith))

take-newest_first :
    (k now n : ℕ) (es : List Event) (older other : List (ℕ × Event))
    → take k older ≡ take k other
    → take k (newest_first now n es older) ≡ take k (newest_first now n es other)
unfolding newest_first
take-newest_first k now n [] older other h = h
take-newest_first k now n (e ∷ es) older other h =
    take-newest_first k now (n + 1) es _ _ (take_front k (entry now (n + 1) e) older other h)

delete_above :
    (k : ℕ) (es : List (ℕ × Event)) (n : ℕ)
    → keys es ≡ latest n (length es)
    → n < k
    → delete k es ≡ es
unfolding delete latest
delete_above k [] n h lt = refl
delete_above k (e ∷ es) n h lt =
    let first : e.0 ≡ n = cc in
    let rest : keys es ≡ latest (n - 1) (length es) = cc in
    ground (arith, first, delete_above k es (n - 1) rest (omega arith))

delete_last :
    (k : ℕ) (es : List (ℕ × Event)) (n c : ℕ)
    → keys es ≡ latest n (length es)
    → length es ≡ suc c
    → k + c ≡ n
    → (keys (delete k es) ≡ latest n c) × (length (delete k es) ≡ c) × (delete k es ≡ take c es)
unfolding delete latest
delete_last k [] n c h l e = absurd (omega arith)
delete_last k (x ∷ []) n c h l e =
    let first : x.0 ≡ n = cc in
    let none_left : c ≡ 0 = omega arith in ground (arith, first, none_left)
delete_last k (x ∷ y ∷ es) n zero h l e = absurd (omega arith)
delete_last k (x ∷ y ∷ es) n (suc c) h l e =
    let first : x.0 ≡ n = cc in
    let rest : keys (y ∷ es) ≡ latest (n - 1) (length (y ∷ es)) = cc in
    let (ks, len, ts) = delete_last k (y ∷ es) (n - 1) c rest (omega arith) (omega arith) in
    ground (arith, first, ks, len, ts)

-- A full log loses its oldest event, and a shorter one none.
kept-Retains :
    (s : ℕ) (es : List (ℕ × Event)) (x : Event)
    → Retains (record { sequence = s; events = es })
    → s ≢ maximum_uint64
    → Retains (record { sequence = s + 1; events = kept (s + 1) ((s + 1, x) ∷ es) })
unfolding latest
kept-Retains s es x r other = elim (Bool-cases (ltb maximum_retained (s + 1))) [
  | inl full ↦
      let count : length es ≡ maximum_retained = ground (arith, r.all_or_full, r.bounded, full) in
      let (ks, len, _) =
        delete_last (s + 1 - maximum_retained) ((s + 1, x) ∷ es) (s + 1) maximum_retained
          (ground (arith, r.newest)) (omega (arith, count)) (ground (arith, full)) in
      rw full (record {
        all_or_full = inr (len, ground (arith, full));
        bounded = omega (arith, len);
        newest = ks ∙ ap (latest (s + 1)) (sym len);
        fits = ground (arith, r.fits);
      })
  | inr short ↦
      let count : length es ≡ s = ground (arith, r.all_or_full, r.bounded, short) in
      rw short (record {
        all_or_full = inl (omega (arith, count));
        bounded = ground (arith, count, short);
        newest = ground (arith, r.newest);
        fits = ground (arith, r.fits);
      })
]

kept-take :
    (s : ℕ) (es : List (ℕ × Event)) (x : Event)
    → Retains (record { sequence = s; events = es })
    → kept (s + 1) ((s + 1, x) ∷ es) ≡ take maximum_retained ((s + 1, x) ∷ es)
unfolding latest
kept-take s es x r = elim (Bool-cases (ltb maximum_retained (s + 1))) [
  | inl full ↦
      let count : length es ≡ maximum_retained = ground (arith, r.all_or_full, r.bounded, full) in
      let (_, _, ts) =
        delete_last (s + 1 - maximum_retained) ((s + 1, x) ∷ es) (s + 1) maximum_retained
          (ground (arith, r.newest)) (omega (arith, count)) (ground (arith, full)) in
      rw full ts
  | inr short ↦
      let count : length es ≡ s = ground (arith, r.all_or_full, r.bounded, short) in
      rw short (sym (take_all maximum_retained ((s + 1, x) ∷ es) (ground (arith, count, short))))
]

append_event-take :
    (now : ℕ) (e : Event) (log : Log) {after : Log}
    → Retains log
    → append_event now e log ≡ ok after
    → (after.sequence ≡ log.sequence + 1)
      × (after.events ≡ take maximum_retained (entry now (log.sequence + 1) e ∷ log.events))
unfolding append_event
append_event-take now e log {after} r h =
    let next = log.sequence + 1 in
    let (_, h) = >>-eq-ok (log.sequence == maximum_uint64) _ _ h in
    let same = delete_above next log.events log.sequence r.newest (omega arith) in
    let at = ok-injective h in
    (
      ap (λ l. l.sequence) (sym at),
      ap (λ l. l.events) (sym at)
          ∙ ap (λ es. kept next (entry now next e ∷ es)) same
          ∙ kept-take log.sequence log.events (entry now next e).1 r,
    )

pub append_event-Retains :
    (now : ℕ) (e : Event) (log : Log) {after : Log}
    → Retains log
    → append_event now e log ≡ ok after
    → Retains after
unfolding append_event
append_event-Retains now e log {after} r h =
    let next = log.sequence + 1 in
    let h1 = >>-eq-ok (log.sequence == maximum_uint64) _ _ h in
    let same = delete_above next log.events log.sequence r.newest (omega arith) in
    let new = kept-Retains log.sequence log.events (numbered now next e) r (ground (arith, h1.0)) in
    subst Retains (ground (arith, h1.1, same)) new

Retains-empty : Retains empty_log
unfolding latest
Retains-empty = record {
  all_or_full = inl refl;
  bounded = omega arith;
  newest = refl;
  fits = omega arith;
}

pub Retains-append_events :
    (now : ℕ) (es : List Event) (log : Log) {after : Log}
    → Retains log
    → append_events now es log ≡ ok after
    → Retains after
unfolding append_events
Retains-append_events now [] log r h = ground (arith, r)
Retains-append_events now (e ∷ es) log r h =
    let (l, first, rest) = >>=-eq-ok (append_event now e log) _ h in
    Retains-append_events now es l (append_event-Retains now e log r first) rest

-- The log after further events: the 256 newest of all, each as it was recorded.
pub append_events-take :
    (now : ℕ) (es : List Event) (log : Log) {after : Log}
    → Retains log
    → append_events now es log ≡ ok after
    → after.events ≡ take maximum_retained (newest_first now log.sequence es log.events)
unfolding append_events newest_first
append_events-take now [] log r h =
    ap (λ l. l.events) (sym (ok-injective h)) ∙ sym (take_all maximum_retained log.events r.bounded)
append_events-take now (e ∷ es) log {after} r h =
    let (l, first, rest) = >>=-eq-ok (append_event now e log) _ h in
    let (next, held) = append_event-take now e log r first in
    let later = append_events-take now es l (append_event-Retains now e log r first) rest in
    later
    ∙ ap (λ n. take maximum_retained (newest_first now n es l.events)) next
    ∙ take-newest_first maximum_retained now (log.sequence + 1) es _ _ (
        ap (take maximum_retained) held
        ∙ take_twice maximum_retained (entry now (log.sequence + 1) e ∷ log.events))

append_events-sequence :
    (now : ℕ) (es : List Event) (log : Log) {after : Log}
    → append_events now es log ≡ ok after
    → after.sequence ≡ log.sequence + length es
unfolding append_events append_event
append_events-sequence now [] log h = ground arith
append_events-sequence now (e ∷ es) log h =
    let (l, first, rest) = >>=-eq-ok (append_event now e log) _ h in
    let first1 = >>-eq-ok (log.sequence == maximum_uint64) _ _ first in
    let step : l.sequence ≡ log.sequence + 1 = ground (arith, first1.1) in
    omega (arith, append_events-sequence now es l rest, step)

append_events-total :
    (now : ℕ) (es : List Event) (log : Log)
    → log.sequence + length es ≤ maximum_uint64
    → (after : Log) × (append_events now es log ≡ ok after)
unfolding append_events append_event
append_events-total now [] log h = (log, refl)
append_events-total now (e ∷ es) log h =
    let (after, done) =
      append_events-total now es
        (record {
          sequence = log.sequence + 1;
          events = kept (log.sequence + 1) (
              (log.sequence + 1, numbered now (log.sequence + 1) e)
              ∷ delete (log.sequence + 1) log.events);
        })
        (omega (arith, h)) in
    (after, ground (arith, done, h))

-- Any events, as many as a 64-bit sequence counts, are appended to an empty log: the sequence is
-- then their number, and the log holds the 256 newest of them, all of them while there are at most
-- 256, the newest first. Each stands under its number, without a gap, as it was given, with that
-- number as its sequence, and with the clock's time where it had none.
pub append_events-Retains :
    (now : ℕ) (es : List Event)
    → length es ≤ maximum_uint64
    → (after : Log) × (append_events now es empty_log ≡ ok after)
      × Retains after
      × (after.sequence ≡ length es)
      × (after.events ≡ take 256 (newest_first now 0 es []))
append_events-Retains now es h =
    let (after, done) = append_events-total now es empty_log (omega (arith, h)) in
    (
      after,
      done,
      Retains-append_events now es empty_log Retains-empty done,
      omega (arith, append_events-sequence now es empty_log done),
      append_events-take now es empty_log Retains-empty done,
    )
