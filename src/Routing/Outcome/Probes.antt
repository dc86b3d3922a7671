-- ===== src/Routing/Outcome/Probes.antt =====
-- internal/cluster/routing_health.go: a recovery probe of another job outlives any outcome.
use context_bridge.Prelude.{
  Bool, true, false, not, List, [], ◌∷◌, ◌++◌, map, filter, In, ◌≡◌, ◌≢◌, refl, sym, subst, ap, ◌∙◌,
  inl, inr, arith, Bool-cases, Option-cases,
}
use context_bridge.Text.{text_eq, eq_of_text_eq}
use context_bridge.Routing.Health.{Health, apply_failure, track_failure}
use context_bridge.Routing.Outcome.{
  Outcome, resolve, resolves, cleared, own_record, holds_own, apply_first, owner_room, total_room,
  remember, learn, record_outcome,
}
use context_bridge.Routing.Outcome.Eviction.{owner_room-Room, total_room-Room, not_empty}

-- The record of the same route and owner, with the same probe.
pub record Leased (x y : Health) : Type 0 where
  pub same_owner : y.owner_scope ≡ x.owner_scope
  pub same_route : y.route_key ≡ x.route_key
  pub same_probe : y.probe_job_id ≡ x.probe_job_id
  pub same_prober : y.probe_owner_scope ≡ x.probe_owner_scope

Leased-refl : (x : Health) → Leased x x
Leased-refl x = record {
  same_owner = refl;
  same_route = refl;
  same_probe = refl;
  same_prober = refl;
}

-- Another job's probe of the record is active.
abbrev pub ProbedByOther : Outcome → Health → Type 0
ProbedByOther o x = (x.probe_job_id ≢ []) × (x.probe_job_id ≢ o.job_id)

pub other_job :
    (o : Outcome) (x : Health) → ProbedByOther o x → text_eq x.probe_job_id o.job_id ≡ false
other_job o x d = elim (Bool-cases (text_eq x.probe_job_id o.job_id)) [
  | inl same ↦ absurd (d.1 (eq_of_text_eq x.probe_job_id o.job_id same))
  | inr other ↦ other
]

resolve-other : (o : Outcome) (x : Health) → ProbedByOther o x → resolve o x ≡ x
unfolding resolve
resolve-other o x d =
    let no_match : resolves o x ≡ false = ground (arith, other_job o x d) in rw no_match refl

pub In-map : (f : Health → Health) (x : Health) (hs : List Health) → In x hs → In (f x) (map f hs)
In-map f x [] h = absurd h
In-map f x (y ∷ ys) (inl here) = inl (ap f here)
In-map f x (y ∷ ys) (inr there) = inr (In-map f x ys there)

pub In-filter :
    (p : Health → Bool) (x : Health) (hs : List Health) → In x hs → p x ≡ true → In x (filter p hs)
In-filter p x [] h e = absurd h
In-filter p x (y ∷ ys) (inl here) e =
    let at_y : p y ≡ true = ap p (sym here) ∙ e in rw (at_y, filter) (inl here)
In-filter p x (y ∷ ys) (inr there) e = elim (Bool-cases (p y)) [
  | inl t ↦ rw (t, filter) (inr (In-filter p x ys there e))
  | inr f ↦ rw (f, filter) (In-filter p x ys there e)
]

pub In-append_one : (x y : Health) (hs : List Health) → In x hs → In x (hs ++ (y ∷ []))
In-append_one x y [] h = absurd h
In-append_one x y (z ∷ zs) (inl here) = inl here
In-append_one x y (z ∷ zs) (inr there) = inr (In-append_one x y zs there)

apply_failure-Leased : (o : Outcome) (x : Health) → Leased x (apply_failure o.code o.now x)
unfolding apply_failure
apply_failure-Leased o x = record {
  same_owner = refl;
  same_route = refl;
  same_probe = refl;
  same_prober = refl;
}

apply_first-Leased :
    (o : Outcome) (x : Health) (hs : List Health)
    → In x hs
    → (y : Health) × In y (apply_first o hs) × Leased x y
unfolding apply_first
apply_first-Leased o x [] h = absurd h
apply_first-Leased o x (z ∷ zs) (inl here) = elim (Bool-cases (own_record o z)) [
  | inl own ↦
      rw here
        (apply_failure o.code o.now z, rw (own, apply_first) (inl refl), apply_failure-Leased o z)
  | inr other ↦ (x, rw (other, apply_first) (inl here), Leased-refl x)
]
apply_first-Leased o x (z ∷ zs) (inr there) = elim (Bool-cases (own_record o z)) [
  | inl own ↦ (x, rw (own, apply_first) (inr there), Leased-refl x)
  | inr other ↦
      let (y, h, l) = apply_first-Leased o x zs there in (y, rw (other, apply_first) (inr h), l)
]

remember-In :
    (o : Outcome) (x : Health) (hs : List Health)
    → In x hs
    → x.probe_job_id ≢ []
    → In x (remember o hs)
unfolding remember
remember-In o x hs h d = elim (Option-cases (owner_room o hs)) [
  | inl none_kept ↦ rw (none_kept, remember) h
  | inr (kept, e) ↦
      let stays = (owner_room-Room o hs e).0.protects x h d in
      elim (Option-cases (total_room o kept)) [
        | inl no_room ↦ rw (e, no_room, remember) stays
        | inr (room, f) ↦
            rw (e, f, remember)
              (In-append_one x _ room ((total_room-Room o kept f).0.protects x stays d))
      ]
]

learn-Leased :
    (o : Outcome) (success : Bool) (x : Health) (hs : List Health)
    → In x hs
    → ProbedByOther o x
    → (y : Health) × In y (learn o success hs) × Leased x y
unfolding learn
learn-Leased o true x hs h d =
    let stays : not (cleared o x) ≡ true =
      ground (arith, other_job o x d, not_empty x.probe_job_id d.0) in
    (x, In-filter (λ z. not (cleared o z)) x hs h stays, Leased-refl x)
learn-Leased o false x hs h d = elim (Bool-cases (not (track_failure o.code))) [
  | inl untracked ↦ (x, rw (untracked, learn) h, Leased-refl x)
  | inr tracked ↦ elim (Bool-cases (holds_own o hs)) [
    | inl known ↦
        let (y, there, l) = apply_first-Leased o x hs h in (y, rw (tracked, known, learn) there, l)
    | inr new ↦ (x, rw (tracked, new, learn) (remember-In o x hs h d.0), Leased-refl x)
  ]
]

-- While a job probes a record, no outcome of another job drops the record or its probe, neither a
-- success of the route, nor a failure that needs room for a new record.
pub record_outcome-Leased :
    (o : Outcome) (x : Health) (hs : List Health)
    → In x hs
    → ProbedByOther o x
    → (y : Health) × In y (record_outcome o hs) × Leased x y
unfolding record_outcome
record_outcome-Leased o x hs h d =
    learn-Leased o o.success x (map (resolve o) hs)
      (subst (λ z. In z (map (resolve o) hs)) (resolve-other o x d) (In-map (resolve o) x hs h)) d
