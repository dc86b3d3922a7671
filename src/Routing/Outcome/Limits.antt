-- ===== src/Routing/Outcome/Limits.antt =====
-- internal/cluster/routing_health.go: how many records a node keeps, in all and for one owner.
use context_bridge.Prelude.{
  suc, ◌+◌, ◌≤◌, ◌<◌, Bool, true, false, not, ◌&&◌, List, [], ◌∷◌, ◌++◌, map, if◌then◌else◌, length,
  filter, ◌≡◌, ◌≢◌, refl, sym, subst, ap, ◌∙◌, inl, inr, arith, Bool-cases, Option-cases,
}
use context_bridge.Text.{Text, text_eq, eq_of_text_eq}
use context_bridge.Pipeline.Graph.Template.{is_empty}
use context_bridge.Routing.Health.{
  Health, maximum_records, maximum_records_per_owner, apply_failure, track_failure,
}
use context_bridge.Routing.Outcome.{
  Outcome, resolve, resolves, cleared, own_record, holds_own, apply_first, scope_count, owner_room,
  total_room, new_record, remember, learn, record_outcome, failed_probe, global_probe,
}
use context_bridge.Routing.Outcome.Eviction.{Room, owner_room-Room, total_room-Room}

-- The limits of the source: on all records, and on those of each owner; records of no owner hold for
-- the whole node.
pub record Bounded (hs : List Health) : Type 0 where
  pub total : length hs ≤ maximum_records
  pub shares : (s : Text) → s ≢ [] → scope_count s hs ≤ maximum_records_per_owner

abbrev Fewer : List Health → List Health → Type 0
Fewer hs rest = (length rest ≤ length hs) × ((s : Text) → scope_count s rest ≤ scope_count s hs)

Fewer-Bounded : (hs rest : List Health) → Fewer hs rest → Bounded hs → Bounded rest
Fewer-Bounded hs rest f b = record {
  total = omega (arith, f.0, b.total);
  shares = λ s d. omega (arith, f.1 s, b.shares s d);
}

pub resolve-owner_scope : (o : Outcome) (h : Health) → (resolve o h).owner_scope ≡ h.owner_scope
unfolding resolve apply_failure
resolve-owner_scope o h = elim (Bool-cases (not (resolves o h))) [
  | inl other ↦ rw other refl
  | inr mine ↦ elim (Bool-cases (failed_probe o && (global_probe o h && not (is_empty o.scope)))) [
    | inl failed ↦ rw (mine, failed) refl
    | inr ended ↦ rw (mine, ended) refl
  ]
]

resolved-Fewer : (o : Outcome) (hs : List Health) → Fewer hs (map (resolve o) hs)
unfolding scope_count
resolved-Fewer o [] = (omega arith, λ s. omega arith)
resolved-Fewer o (h ∷ hs) =
    let (size, shares) = resolved-Fewer o hs in
    (omega (arith, size), λ s. rw (resolve-owner_scope o h) (omega (arith, shares s)))

filtered-Fewer : (p : Health → Bool) (hs : List Health) → Fewer hs (filter p hs)
unfolding scope_count
filtered-Fewer p [] = (omega arith, λ s. omega arith)
filtered-Fewer p (h ∷ hs) =
    let (size, shares) = filtered-Fewer p hs in
    elim (Bool-cases (p h)) [
      | inl y ↦ rw (y, filter) (omega (arith, size), λ s. omega (arith, shares s))
      | inr n ↦ rw (n, filter) (omega (arith, size), λ s. omega (arith, shares s))
    ]

apply_first-Fewer : (o : Outcome) (hs : List Health) → Fewer hs (apply_first o hs)
unfolding apply_first scope_count apply_failure
apply_first-Fewer o [] = (omega arith, λ s. omega arith)
apply_first-Fewer o (h ∷ hs) =
    let (size, shares) = apply_first-Fewer o hs in
    elim (Bool-cases (own_record o h)) [
      | inl y ↦ rw (y, apply_first) (omega arith, λ s. omega arith)
      | inr n ↦ rw (n, apply_first) (omega (arith, size), λ s. omega (arith, shares s))
    ]

length-append_one : (hs : List Health) (x : Health) → length (hs ++ (x ∷ [])) ≡ suc (length hs)
length-append_one [] x = refl
length-append_one (h ∷ hs) x = ap suc (length-append_one hs x)

scope_count-append_one :
    (s : Text) (hs : List Health) (x : Health)
    → scope_count s (hs ++ (x ∷ [])) ≡ (if text_eq x.owner_scope s then 1 else 0) + scope_count s hs
unfolding scope_count
scope_count-append_one s [] x = refl
scope_count-append_one s (h ∷ hs) x = omega (arith, scope_count-append_one s hs x)

Room-Bounded : (hs rest : List Health) → Room hs rest → Bounded hs → Bounded rest
Room-Bounded hs rest r b = Fewer-Bounded hs rest (r.size, r.share) b

remember-Bounded : (o : Outcome) (hs : List Health) → Bounded hs → Bounded (remember o hs)
unfolding remember apply_failure
remember-Bounded o hs b = elim (Option-cases (owner_room o hs)) [
  | inl none_kept ↦ rw (none_kept, remember) b
  | inr (kept, e) ↦
      let (r, own) = owner_room-Room o hs e in
      let bk = Room-Bounded hs kept r b in
      elim (Option-cases (total_room o kept)) [
        | inl no_room ↦ rw (e, no_room, remember) bk
        | inr (room, f) ↦
            let (r', all) = total_room-Room o kept f in
            let new = apply_failure o.code o.now (new_record o) in
            rw (e, f, remember)
              (record {
                total = omega (arith, length-append_one room new, all bk.total);
                shares = λ s d. elim (Bool-cases (text_eq o.scope s)) [
                  | inr other ↦
                      let count = rw other at (scope_count-append_one s room new) in
                      omega (arith, count, r'.share s, bk.shares s d)
                  | inl same ↦
                      let at_s = eq_of_text_eq o.scope s same in
                      let count = rw same at (scope_count-append_one s room new) in
                      let below : scope_count s kept < maximum_records_per_owner =
                        subst (λ t. scope_count t kept < maximum_records_per_owner) at_s
                          (own (λ q. d (sym at_s ∙ q))
                            (b.shares o.scope (λ q. d (sym at_s ∙ q)))) in
                      omega (arith, count, r'.share s, below)
                ];
              })
      ]
]

learn-Bounded :
    (o : Outcome) (success : Bool) (hs : List Health) → Bounded hs → Bounded (learn o success hs)
unfolding learn
learn-Bounded o true hs b = Fewer-Bounded hs _ (filtered-Fewer (λ h. not (cleared o h)) hs) b
learn-Bounded o false hs b = elim (Bool-cases (not (track_failure o.code))) [
  | inl untracked ↦ rw (untracked, learn) b
  | inr tracked ↦ elim (Bool-cases (holds_own o hs)) [
    | inl known ↦ rw (tracked, known, learn) (Fewer-Bounded hs _ (apply_first-Fewer o hs) b)
    | inr new ↦ rw (tracked, new, learn) (remember-Bounded o hs b)
  ]
]

-- A node that keeps at most 64 records, and at most 8 of one owner, still does so after any outcome.
pub record_outcome-Bounded :
    (o : Outcome) (hs : List Health) → Bounded hs → Bounded (record_outcome o hs)
unfolding record_outcome
record_outcome-Bounded o hs b =
    learn-Bounded o o.success (map (resolve o) hs)
      (Fewer-Bounded hs (map (resolve o) hs) (resolved-Fewer o hs) b)
