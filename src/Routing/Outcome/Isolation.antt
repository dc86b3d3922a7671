-- ===== src/Routing/Outcome/Isolation.antt =====
-- internal/cluster/routing_health.go: the outcomes of one owner and the records of another.
use context_bridge.Prelude.{
  ℕ, Bool, true, false, not, ◌&&◌, List, [], ◌∷◌, map, none, some, leb, length, In, ◌≡◌, ◌≢◌, refl,
  sym, subst, ap, ◌∙◌, inl, inr, arith, Bool-cases, Option-cases,
}
use context_bridge.Text.{text_eq, eq_of_text_eq}
use context_bridge.Pipeline.Graph.Template.{is_empty}
use context_bridge.Routing.Health.{
  Health, maximum_records, maximum_records_per_owner, track_failure,
}
use context_bridge.Routing.Outcome.{
  Outcome, resolve, resolves, cleared, own_record, holds_own, apply_first, scope_count, idle_of,
  oldest, remove_at, owner_room, victim, total_room, remember, learn, record_outcome,
}
use context_bridge.Routing.Outcome.Eviction.{oldest_sound, remove_at-Without, not_empty}
use context_bridge.Routing.Outcome.Probes.{In-map, In-filter, In-append_one}

-- The outcome is of one owner, the record of another.
abbrev pub OfAnother : Outcome → Health → Type 0
OfAnother o x = (o.scope ≢ []) × (x.owner_scope ≢ []) × (x.owner_scope ≢ o.scope)

other_scope : (o : Outcome) (x : Health) → OfAnother o x → text_eq x.owner_scope o.scope ≡ false
other_scope o x (_, _, d) = elim (Bool-cases (text_eq x.owner_scope o.scope)) [
  | inl same ↦ absurd (d (eq_of_text_eq x.owner_scope o.scope same))
  | inr other ↦ other
]

resolve-another : (o : Outcome) (x : Health) → OfAnother o x → resolve o x ≡ x
unfolding resolve
resolve-another o x a =
    let no_match : resolves o x ≡ false =
      ground (arith, other_scope o x a, not_empty x.owner_scope a.1) in
    rw no_match refl

apply_first-In :
    (o : Outcome) (x : Health) (hs : List Health)
    → In x hs
    → own_record o x ≡ false
    → In x (apply_first o hs)
unfolding apply_first
apply_first-In o x [] h d = absurd h
apply_first-In o x (z ∷ zs) (inl here) d =
    let other : own_record o z ≡ false = ap (own_record o) (sym here) ∙ d in
    rw (other, apply_first) (inl here)
apply_first-In o x (z ∷ zs) (inr there) d = elim (Bool-cases (own_record o z)) [
  | inl own ↦ rw (own, apply_first) (inr there)
  | inr other ↦ rw (other, apply_first) (inr (apply_first-In o x zs there d))
]

-- What an owner's scan picks is a record of its own.
oldest-spares :
    (o : Outcome) (x : Health) (hs : List Health) (k : ℕ)
    → oldest (idle_of o.scope) 0 hs none ≡ some k
    → In x hs
    → OfAnother o x
    → In x (remove_at k hs)
oldest-spares o x hs k found h a =
    let (y, g, idle) = oldest_sound (idle_of o.scope) hs k found in
    elim ((remove_at-Without k hs y g).kept x h) [
      | inl gone ↦
          let own : text_eq x.owner_scope o.scope ≡ true = rw gone (ground (arith, idle)) in
          absurd (cc (own, other_scope o x a))
      | inr stays ↦ stays
    ]

owner_room-spares :
    (o : Outcome) (x : Health) (hs : List Health) {rest : List Health}
    → owner_room o hs ≡ some rest
    → In x hs
    → OfAnother o x
    → In x rest
unfolding owner_room
owner_room-spares o x hs {rest} e h a =
    elim (Bool-cases
      (not (is_empty o.scope) && leb maximum_records_per_owner (scope_count o.scope hs))) [
        | inr free ↦ let same : hs ≡ rest = cc (rw (free, owner_room) at e) in subst (In x) same h
        | inl full ↦ elim (Option-cases (oldest (idle_of o.scope) 0 hs none)) [
          | inl no_idle ↦ absurd (cc (rw (full, no_idle, owner_room) at e))
          | inr (k, found) ↦
              let same : remove_at k hs ≡ rest = cc (rw (full, found, owner_room) at e) in
              subst (In x) same (oldest-spares o x hs k found h a)
        ]
      ]

total_room-spares :
    (o : Outcome) (x : Health) (hs : List Health) {rest : List Health}
    → total_room o hs ≡ some rest
    → In x hs
    → OfAnother o x
    → In x rest
unfolding total_room victim
total_room-spares o x hs {rest} e h a = elim (Bool-cases (leb maximum_records (length hs))) [
  | inr free ↦ let same : hs ≡ rest = cc (rw (free, total_room) at e) in subst (In x) same h
  | inl full ↦ elim (Option-cases (victim o hs)) [
    | inl none_idle ↦ absurd (cc (rw (full, none_idle, total_room) at e))
    | inr (k, found) ↦
        let same : remove_at k hs ≡ rest = cc (rw (full, found, total_room) at e) in
        subst (In x) same (oldest-spares o x hs k (rw (not_empty o.scope a.0, victim) at found) h a)
  ]
]

remember-spares :
    (o : Outcome) (x : Health) (hs : List Health) → In x hs → OfAnother o x → In x (remember o hs)
unfolding remember
remember-spares o x hs h a = elim (Option-cases (owner_room o hs)) [
  | inl none_kept ↦ rw (none_kept, remember) h
  | inr (kept, e) ↦
      let stays = owner_room-spares o x hs e h a in
      elim (Option-cases (total_room o kept)) [
        | inl no_room ↦ rw (e, no_room, remember) stays
        | inr (room, f) ↦
            rw (e, f, remember) (In-append_one x _ room (total_room-spares o x kept f stays a))
      ]
]

learn-spares :
    (o : Outcome) (success : Bool) (x : Health) (hs : List Health)
    → In x hs
    → OfAnother o x
    → In x (learn o success hs)
unfolding learn
learn-spares o true x hs h a =
    In-filter (λ z. not (cleared o z)) x hs h
      (ground (arith, other_scope o x a, not_empty x.owner_scope a.1))
learn-spares o false x hs h a = elim (Bool-cases (not (track_failure o.code))) [
  | inl untracked ↦ rw (untracked, learn) h
  | inr tracked ↦ elim (Bool-cases (holds_own o hs)) [
    | inl known ↦
        rw (tracked, known, learn) (apply_first-In o x hs h (ground (arith, other_scope o x a)))
    | inr new ↦ rw (tracked, new, learn) (remember-spares o x hs h a)
  ]
]

-- An outcome of one owner leaves every record of another owner in place and unchanged: it resolves no
-- probe of it, adds no failure to it, and does not evict it.
pub record_outcome-OfAnother :
    (o : Outcome) (x : Health) (hs : List Health)
    → In x hs
    → OfAnother o x
    → In x (record_outcome o hs)
unfolding record_outcome
record_outcome-OfAnother o x hs h a =
    learn-spares o o.success x (map (resolve o) hs)
      (subst (λ z. In z (map (resolve o) hs)) (resolve-another o x a) (In-map (resolve o) x hs h)) a
