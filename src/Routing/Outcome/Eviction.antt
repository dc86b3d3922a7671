-- ===== src/Routing/Outcome/Eviction.antt =====
-- internal/cluster/routing_health.go: which record makes room for a new one.
use context_bridge.Prelude.{
  ℕ, zero, suc, ◌+◌, ◌≤◌, ◌<◌, Bool, true, false, not, ◌&&◌, List, [], ◌∷◌, Option, none, some, ltb,
  leb, length, get_elem?, In, ◌≡◌, ◌≢◌, refl, sym, subst, ap, ◌∙◌, ◌⊎◌, inl, inr, arith, Bool-cases,
  Option-cases,
}
use context_bridge.Text.{Text, text_eq_refl, eq_of_text_eq}
use context_bridge.Pipeline.Graph.Template.{is_empty}
use context_bridge.Routing.Health.{Health, maximum_records, maximum_records_per_owner}
use context_bridge.Routing.Outcome.{
  Outcome, scope_count, idle_of, idle_owned, oldest, remove_at, owner_room, victim, total_room,
}

-- The index of a record of the kind that the scan looks for, or of the best one before.
abbrev Chosen : (Health → Bool) → ℕ → List Health → Option (ℕ × ℕ) → ℕ → Type 0
Chosen p i hs best k =
    ((b : ℕ × ℕ) × (best ≡ some b) × (k ≡ b.0))
    ⊎ ((j : ℕ) × (h : Health) × (k ≡ i + j) × (get_elem? hs j ≡ some h) × (p h ≡ true))

Chosen-later :
    (p : Health → Bool) (i : ℕ) (x : Health) (hs : List Health) (best : Option (ℕ × ℕ)) (k : ℕ)
    → Chosen p (suc i) hs best k
    → Chosen p i (x ∷ hs) best k
Chosen-later p i x hs best k (inl old) = inl old
Chosen-later p i x hs best k (inr (j, h, q, g, r)) = inr (suc j, h, omega (arith, q), g, r)

Chosen-here :
    (p : Health → Bool) (i t : ℕ) (x : Health) (hs : List Health) (best : Option (ℕ × ℕ)) (k : ℕ)
    → p x ≡ true
    → Chosen p (suc i) hs (some (i, t)) k
    → Chosen p i (x ∷ hs) best k
Chosen-here p i t x hs best k hit (inr (j, h, q, g, r)) = inr (suc j, h, omega (arith, q), g, r)
Chosen-here p i t x hs best k hit (inl (b, e, q)) =
    let first : i ≡ b.0 = cc in inr (0, x, omega (arith, q, first), refl, hit)

oldest-Chosen :
    (p : Health → Bool) (i : ℕ) (hs : List Health) (best : Option (ℕ × ℕ)) (k : ℕ)
    → oldest p i hs best ≡ some k
    → Chosen p i hs best k
unfolding oldest
oldest-Chosen p i [] none k e = cc
oldest-Chosen p i [] (some b) k e = let same : b.0 ≡ k = cc in inl (b, refl, sym same)
oldest-Chosen p i (h ∷ hs) none k e = elim (Bool-cases (p h)) [
  | inr skipped ↦
      Chosen-later p i h hs none k (oldest-Chosen p (suc i) hs none k (rw (skipped, oldest) at e))
  | inl hit ↦
      Chosen-here p i h.last_failure_at h hs none k hit
        (oldest-Chosen p (suc i) hs (some (i, h.last_failure_at)) k (rw (hit, oldest) at e))
]
oldest-Chosen p i (h ∷ hs) (some b) k e = elim (Bool-cases (p h)) [
  | inr skipped ↦
      Chosen-later p i h hs (some b) k
        (oldest-Chosen p (suc i) hs (some b) k (rw (skipped, oldest) at e))
  | inl hit ↦ elim (Bool-cases (ltb h.last_failure_at b.1)) [
    | inl older ↦
        Chosen-here p i h.last_failure_at h hs (some b) k hit (
          oldest-Chosen p (suc i) hs (some (i, h.last_failure_at)) k (rw (hit, older, oldest) at e))
    | inr newer ↦
        Chosen-later p i h hs (some b) k
          (oldest-Chosen p (suc i) hs (some b) k (rw (hit, newer, oldest) at e))
  ]
]

-- The scan finds a record of the kind that it looks for.
pub oldest_sound :
    (p : Health → Bool) (hs : List Health) (k : ℕ)
    → oldest p 0 hs none ≡ some k
    → (h : Health) × (get_elem? hs k ≡ some h) × (p h ≡ true)
oldest_sound p hs k e = elim (oldest-Chosen p 0 hs none k e) [
  | inl (b, q, _) ↦ cc
  | inr (j, h, q, g, r) ↦ let same : k ≡ j = omega (arith, q) in (h, rw same g, r)
]

abbrev one_if : Bool → ℕ
one_if true = 1
one_if false = 0

-- A record of no active probe is gone, and all else is kept.
pub record Without (removed : Health) (hs rest : List Health) : Type 0 where
  pub size : length hs ≡ suc (length rest)
  pub share : (s : Text) → scope_count s rest ≤ scope_count s hs
  pub own_share : scope_count removed.owner_scope hs ≡ suc (scope_count removed.owner_scope rest)
  pub kept : (x : Health) → In x hs → (x ≡ removed) ⊎ In x rest

pub remove_at-Without :
    (k : ℕ) (hs : List Health) (h : Health)
    → get_elem? hs k ≡ some h
    → Without h hs (remove_at k hs)
unfolding remove_at scope_count
remove_at-Without k [] h g = cc
remove_at-Without zero (x ∷ hs) h g =
    let same : x ≡ h = cc in
    rw (← same) (record {
      size = refl;
      share = λ s. omega arith;
      own_share = ground (arith, text_eq_refl x.owner_scope);
      kept = λ y q. q;
    })
remove_at-Without (suc k) (x ∷ hs) h g =
    let w = remove_at-Without k hs h g in
    record {
      size = omega (arith, w.size);
      share = λ s. omega (arith, w.share s);
      own_share = omega (arith, w.own_share);
      kept = λ y q. kept_behind y q w.kept;
    }
  where
    kept_behind :
        (y : Health)
        → In y (x ∷ hs)
        → ((z : Health) → In z hs → (z ≡ h) ⊎ In z (remove_at k hs))
        → (y ≡ h) ⊎ ((y ≡ x) ⊎ In y (remove_at k hs))
    kept_behind y (inl here) rest = inr (inl here)
    kept_behind y (inr there) rest = elim (rest y there) [
      | inl gone ↦ inl gone
      | inr stays ↦ inr (inr stays)
    ]

-- What is left after room is made.
pub record Room (hs rest : List Health) : Type 0 where
  pub size : length rest ≤ length hs
  pub share : (s : Text) → scope_count s rest ≤ scope_count s hs
  pub protects : (x : Health) → In x hs → x.probe_job_id ≢ [] → In x rest

Room-refl : (hs : List Health) → Room hs hs
Room-refl hs = record { size = omega arith; share = λ s. omega arith; protects = λ x h d. h }

Room-trans : (hs mid rest : List Health) → Room hs mid → Room mid rest → Room hs rest
Room-trans hs mid rest f g = record {
  size = omega (arith, f.size, g.size);
  share = λ s. omega (arith, f.share s, g.share s);
  protects = λ x h d. g.protects x (f.protects x h d) d;
}

idle_empty : (t : Text) → is_empty t ≡ true → t ≡ []
idle_empty [] h = refl
idle_empty (c ∷ cs) h = cc

Without-Room :
    (h : Health) (hs rest : List Health)
    → Without h hs rest
    → is_empty h.probe_job_id ≡ true
    → Room hs rest
Without-Room h hs rest w idle = record {
  size = omega (arith, w.size);
  share = w.share;
  protects = λ x there active. elim (w.kept x there) [
    | inl gone ↦ absurd (active (ap (λ y. y.probe_job_id) gone ∙ idle_empty h.probe_job_id idle))
    | inr stays ↦ stays
  ];
}

pub not_empty : (t : Text) → t ≢ [] → is_empty t ≡ false
not_empty [] h = absurd (h refl)
not_empty (c ∷ cs) h = refl

pub owner_room-Room :
    (o : Outcome) (hs : List Health) {rest : List Health}
    → owner_room o hs ≡ some rest
    → Room hs rest
      × (o.scope ≢ []
          → scope_count o.scope hs ≤ maximum_records_per_owner
          → scope_count o.scope rest < maximum_records_per_owner)
unfolding owner_room
owner_room-Room o hs {rest} e =
    elim (Bool-cases
      (not (is_empty o.scope) && leb maximum_records_per_owner (scope_count o.scope hs))) [
        | inr free ↦
            let same : hs ≡ rest = cc (rw (free, owner_room) at e) in
            rw (← same)
              (Room-refl hs, λ named small. ground (arith, free, small, not_empty o.scope named))
        | inl full ↦ elim (Option-cases (oldest (idle_of o.scope) 0 hs none)) [
          | inl no_idle ↦ absurd (cc (rw (full, no_idle, owner_room) at e))
          | inr (k, found) ↦
              let (h, g, idle) = oldest_sound (idle_of o.scope) hs k found in
              let w = remove_at-Without k hs h g in
              let same : remove_at k hs ≡ rest = cc (rw (full, found, owner_room) at e) in
              let own : h.owner_scope ≡ o.scope =
                eq_of_text_eq h.owner_scope o.scope (ground (arith, idle)) in
              let counted : scope_count o.scope hs ≡ suc (scope_count o.scope (remove_at k hs)) =
                subst (λ t. scope_count t hs ≡ suc (scope_count t (remove_at k hs))) own
                  w.own_share in
              rw (← same) (
                Without-Room h hs (remove_at k hs) w (ground (arith, idle)),
                λ named small. omega (arith, small, counted),
              )
        ]
      ]

victim_idle :
    (o : Outcome) (hs : List Health) (k : ℕ)
    → victim o hs ≡ some k
    → (h : Health) × (get_elem? hs k ≡ some h) × (is_empty h.probe_job_id ≡ true)
unfolding victim
victim_idle o hs k e = elim (Bool-cases (is_empty o.scope)) [
  | inr named ↦
      let (h, g, idle) = oldest_sound (idle_of o.scope) hs k (rw (named, victim) at e) in
      (h, g, ground (arith, idle))
  | inl global ↦ elim (Option-cases (oldest idle_owned 0 hs none)) [
    | inl no_owned ↦
        let (h, g, idle) = oldest_sound (idle_of []) hs k (rw (global, no_owned, victim) at e) in
        (h, g, ground (arith, idle))
    | inr (j, found) ↦
        let (h, g, idle) = oldest_sound idle_owned hs j found in
        let same : j ≡ k = cc (rw (global, found, victim) at e) in
        (h, rw (← same) g, ground (arith, idle))
  ]
]

pub total_room-Room :
    (o : Outcome) (hs : List Health) {rest : List Health}
    → total_room o hs ≡ some rest
    → Room hs rest × (length hs ≤ maximum_records → length rest < maximum_records)
unfolding total_room
total_room-Room o hs {rest} e = elim (Bool-cases (leb maximum_records (length hs))) [
  | inr free ↦
      let same : hs ≡ rest = cc (rw (free, total_room) at e) in
      rw (← same) (Room-refl hs, λ small. ground (arith, free, small))
  | inl full ↦ elim (Option-cases (victim o hs)) [
    | inl none_idle ↦ absurd (cc (rw (full, none_idle, total_room) at e))
    | inr (k, found) ↦
        let (h, g, idle) = victim_idle o hs k found in
        let w = remove_at-Without k hs h g in
        let same : remove_at k hs ≡ rest = cc (rw (full, found, total_room) at e) in
        rw (← same)
          (Without-Room h hs (remove_at k hs) w idle, λ small. omega (arith, small, w.size))
  ]
]
