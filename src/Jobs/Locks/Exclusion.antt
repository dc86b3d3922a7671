-- ===== src/Jobs/Locks/Exclusion.antt =====
-- internal/cluster/store.go: at most one holder has an adapter session at a time.
use context_bridge.Prelude.{
  ℕ, ◌≤◌, Bool, true, false, not, ◌&&◌, List, [], ◌∷◌, ok, filter, In, ok-injective, ◌≡◌, refl, sym,
  ap, ◌∙◌, arith, Bool-cases, inl, inr, subst, ◌⊎◌,
}
use context_bridge.Text.{Text, text_eq_refl, text_eq_sym}
use context_bridge.Jobs.Records.{Requirements}
use context_bridge.Jobs.Locks.{
  Kind, assignment, job, Scope, any, profile, Base, Lock, base_eq, active, overlaps, same_holder,
  blocks, scan, without_key, lock_of, acquire, eligible, base_of, scope_of, kind_eq,
}

-- Two locks that may not both be held: of one session, in overlapping scopes, by different holders.
abbrev pub clashes : ℕ → Lock → Lock → Bool
clashes now l m =
    base_eq l.base m.base
    && (active now l
        && (active now m && (overlaps l.scope m.scope && not (same_holder l.kind l.holder m))))

unfoldable pub Exclusive : ℕ → List Lock → Type 0
Exclusive now ls = (l m : Lock) → In l ls → In m ls → clashes now l m ≡ false

In-filter : (p : Lock → Bool) (m : Lock) (ls : List Lock) → In m (filter p ls) → In m ls
In-filter p m [] h = absurd h
In-filter p m (l ∷ ls) h = elim (Bool-cases (p l)) [
  | inl t ↦
      let h = rw (t, filter) at h in
      elim h [ inl here ↦ inl here | inr there ↦ inr (In-filter p m ls there) ]
  | inr f ↦ let h = rw (f, filter) at h in inr (In-filter p m ls h)
]

overlaps_sym : (s t : Scope) → overlaps s t ≡ overlaps t s
unfolding overlaps
overlaps_sym any any = refl
overlaps_sym any (profile q) = refl
overlaps_sym (profile p) any = refl
overlaps_sym (profile p) (profile q) = text_eq_sym p q

kind_eq_sym : (k l : Kind) → kind_eq k l ≡ kind_eq l k
unfolding kind_eq
kind_eq_sym assignment assignment = refl
kind_eq_sym assignment job = refl
kind_eq_sym job assignment = refl
kind_eq_sym job job = refl

kind_eq_refl : (k : Kind) → kind_eq k k ≡ true
unfolding kind_eq
kind_eq_refl assignment = refl
kind_eq_refl job = refl

base_eq_sym : (a b : Base) → base_eq a b ≡ base_eq b a
unfolding base_eq
base_eq_sym a b = ground (arith, text_eq_sym a.owner b.owner, text_eq_sym a.session b.session)

clashes_sym : (now : ℕ) (l m : Lock) → clashes now l m ≡ clashes now m l
unfolding base_eq same_holder
clashes_sym now l m = ground (
  arith,
  overlaps_sym l.scope m.scope,
  kind_eq_sym l.kind m.kind,
  text_eq_sym l.holder m.holder,
  text_eq_sym l.base.owner m.base.owner,
  text_eq_sym l.base.session m.base.session,
)

-- A lock that keeps the request out.
abbrev in_the_way : Base → Scope → Kind → Text → ℕ → Lock → Bool
in_the_way base wanted kind holder now m =
    base_eq m.base base && (active now m && blocks wanted kind holder m)

scan_sound :
    (base : Base) (wanted : Scope) (kind : Kind) (holder : Text) (now : ℕ) (m : Lock)
    (ls : List Lock)
    → (scan base wanted kind holder now ls).0 ≡ false
    → In m (scan base wanted kind holder now ls).1
    → In m ls × (in_the_way base wanted kind holder now m ≡ false)
unfolding scan
scan_sound base wanted kind holder now m [] free h = absurd h
scan_sound base wanted kind holder now m (l ∷ ls) free h =
    let step : (scan base wanted kind holder now ls).0 ≡ false
        → In m (scan base wanted kind holder now ls).1
        → In m (l ∷ ls) × (in_the_way base wanted kind holder now m ≡ false) =
      λ f g. let (at, out) = scan_sound base wanted kind holder now m ls f g in (inr at, out) in
    elim (Bool-cases (base_eq l.base base)) [
      | inr other ↦
          let free = rw (other, scan) at free in
          elim (rw (other, scan) at h) [
            | inl here ↦
                (inl here, ap (in_the_way base wanted kind holder now) here ∙ ground (arith, other))
            | inr there ↦ step free there
          ]
      | inl same ↦ elim (Bool-cases (active now l)) [
        | inr expired ↦
            let free = rw (same, expired, scan) at free in
            let h = rw (same, expired, scan) at h in step free h
        | inl held ↦ elim (Bool-cases (blocks wanted kind holder l)) [
          | inl out ↦ let free = rw (same, held, out, scan) at free in absurd (cc free)
          | inr passes ↦
              let free = rw (same, held, passes, scan) at free in
              let h = rw (same, held, passes, scan) at h in
              elim h [
                | inl here ↦ (
                  inl here,
                  ap (in_the_way base wanted kind holder now) here ∙ ground (arith, passes),
                )
                | inr there ↦ step free there
              ]
        ]
      ]
    ]

pub acquire-passed :
    (owner : Text) (r : Requirements) (kind : Kind) (holder : Text) (expires_at now : ℕ)
    → (locks locks' : List Lock)
    → acquire owner r kind holder expires_at now (eligible r) locks ≡ ok locks'
    → eligible r ≡ false
    → locks' ≡ locks
unfolding acquire
acquire-passed owner r kind holder expires_at now locks locks' e passed_over =
    let e = rw (passed_over, acquire) at e in sym (ok-injective e)

-- What a lock's acquisition leaves: the lock, and those of before that are not in its way.
pub acquire_sound :
    (owner : Text) (r : Requirements) (kind : Kind) (holder : Text) (expires_at now : ℕ)
    → (locks locks' : List Lock) (m : Lock)
    → acquire owner r kind holder expires_at now (eligible r) locks ≡ ok locks'
    → eligible r ≡ true
    → In m locks'
    → (m ≡ lock_of owner r kind holder expires_at)
      ⊎ (In m locks × (in_the_way (base_of owner r) (scope_of r) kind holder now m ≡ false))
unfolding acquire without_key
acquire_sound owner r kind holder expires_at now locks locks' m e is_eligible h =
    let e = rw (is_eligible, acquire) at e in
    elim (Bool-cases (scan (base_of owner r) (scope_of r) kind holder now locks).0) [
      | inl busy ↦ let e = rw (busy, acquire) at e in absurd (cc e)
      | inr free ↦
          let e = rw (free, acquire) at e in
          elim (subst (In m) (sym (ok-injective e)) h) [
            | inl here ↦ inl here
            | inr there ↦ inr (
                scan_sound (base_of owner r) (scope_of r) kind holder now m locks free
                  (In-filter _ m _ there))
          ]
    ]

module _ (owner : Text) (r : Requirements) (kind : Kind) (holder : Text) (expires_at now : ℕ) where
  acquired : Lock
  acquired = lock_of owner r kind holder expires_at

  acquired-itself : clashes now acquired acquired ≡ false
  unfolding acquired same_holder
  acquired-itself = ground (arith, text_eq_refl holder, kind_eq_refl kind)

  acquired-others :
      (m : Lock)
      → in_the_way (base_of owner r) (scope_of r) kind holder now m ≡ false
      → clashes now acquired m ≡ false
  unfolding acquired blocks same_holder
  acquired-others m out = ground (
    arith,
    out,
    base_eq_sym (base_of owner r) m.base,
    kind_eq_sym m.kind kind,
    text_eq_sym m.holder holder,
  )

  pub acquire-Exclusive :
      (locks locks' : List Lock)
      → Exclusive now locks
      → acquire owner r kind holder expires_at now (eligible r) locks ≡ ok locks'
      → Exclusive now locks'
  unfolding Exclusive acquired
  acquire-Exclusive locks locks' ex e l m hl hm = elim (Bool-cases (eligible r)) [
    | inr passed_over ↦
        let same = acquire-passed owner r kind holder expires_at now locks locks' e passed_over in
        ex l m (subst (In l) same hl) (subst (In m) same hm)
    | inl is_eligible ↦
        let sound = λ (x : Lock) (hx : In x locks').
          acquire_sound owner r kind holder expires_at now locks locks' x e is_eligible hx in
        elim (sound l hl) [
          | inl l_new ↦ elim (sound m hm) [
            | inl m_new ↦
                ap (λ x. clashes now x m) l_new ∙ ap (clashes now acquired) m_new ∙ acquired-itself
            | inr (_, out) ↦ ap (λ x. clashes now x m) l_new ∙ acquired-others m out
          ]
          | inr (l_at, l_out) ↦ elim (sound m hm) [
            | inl m_new ↦
                ap (clashes now l) m_new ∙ clashes_sym now l acquired ∙ acquired-others l l_out
            | inr (m_at, _) ↦ ex l m l_at m_at
          ]
        ]
  ]

pub filter-Exclusive :
    (p : Lock → Bool) (now : ℕ) (locks : List Lock)
    → Exclusive now locks
    → Exclusive now (filter p locks)
unfolding Exclusive
filter-Exclusive p now locks ex l m hl hm = ex l m (In-filter p l locks hl) (In-filter p m locks hm)

-- Locks expire, so later fewer are active.
pub Exclusive-later :
    (now later : ℕ) (locks : List Lock) → now ≤ later → Exclusive now locks → Exclusive later locks
unfolding Exclusive active
Exclusive-later now later locks passed ex l m hl hm = ground (arith, ex l m hl hm, passed)
