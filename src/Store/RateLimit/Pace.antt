-- ===== src/Store/RateLimit/Pace.antt =====
-- How many jobs of one owner consumeProducerRateLimitTx of internal/cluster/store.go lets through in
-- any hour.
use context_bridge.Prelude.{
  ℕ, ◌+◌, ◌≤◌, ◌<◌, true, not, ◌&&◌, ◌||◌, List, [], ◌∷◌, Option, none, some, ltb, leb, ◌==◌,
  if◌then◌else◌, ok, err, ok-injective, >>=-eq-ok, >>-eq-ok, ◌≡◌, ◌≢◌, refl, sym, subst, ap, ◌∙◌,
  ◌⊎◌, inl, inr, arith, Bool-cases,
}
use context_bridge.Prelude.Int.{ℤ, pos, ltb_ℤ}
use context_bridge.Text.{Text, text_eq_refl, eq_of_text_eq}
use context_bridge.Pipeline.Graph.Template.{is_empty}
use context_bridge.Pipeline.Graph.Edges.{lookup}
use context_bridge.Store.RateLimit.{Window, RateError, window_at, count_job, consume}

-- The admitted times of an owner, the latest first, that fall in [x, x + hour).
unfoldable pub within : ℕ → ℕ → List ℕ → ℕ
within hour x [] = 0
within hour x (t ∷ ts) = (if leb x t && ltb t (x + hour) then 1 else 0) + within hour x ts

-- Calls of the limiter, by any owner and in any order of times, also backwards, and the owner's
-- admissions among them. The clock stands behind Go's zero time.
pub data Calls (hour maximum : ℕ) (owner : Text) : List ℕ → List (Text × Window) → Type 0 where
  none_yet : Calls hour maximum owner [] []
  admitted :
      {ts : List ℕ} {m m' : List (Text × Window)} (now : ℕ)
      → Calls hour maximum owner ts m
      → 0 < now
      → consume hour m owner (pos maximum) now ≡ ok m'
      → Calls hour maximum owner (now ∷ ts) m'
  refused :
      {ts : List ℕ} {m : List (Text × Window)} (now : ℕ) (e : RateError)
      → Calls hour maximum owner ts m
      → consume hour m owner (pos maximum) now ≡ err e
      → Calls hour maximum owner ts m
  another :
      {ts : List ℕ} {m m' : List (Text × Window)} (now : ℕ) (other : Text) (limit : ℤ)
      → Calls hour maximum owner ts m
      → owner ≢ other
      → consume hour m other limit now ≡ ok m'
      → Calls hour maximum owner ts m'

-- The history behind a stored window.
record Paced (hour maximum : ℕ) (ts : List ℕ) (w : Window) : Type 0 where
  started : 0 < w.started_at
  counted : w.count ≤ maximum
  current : (x : ℕ) → w.started_at ≤ x → within hour x ts ≤ w.count
  touched : (x : ℕ) → w.started_at < x + hour → within hour x ts ≤ maximum + w.count
  overlap : (x : ℕ) → within hour x ts ≤ maximum + maximum
  recent : (x : ℕ) → w.started_at + hour ≤ x → within hour x ts ≡ 0

History : ℕ → ℕ → List ℕ → Option Window → Type 0
History hour maximum ts none = ts ≡ []
History hour maximum ts (some w) = Paced hour maximum ts w

opens_window :
    (hour maximum now : ℕ) (ts : List ℕ)
    → 0 < maximum
    → 0 < now
    → ((x : ℕ) → now ≤ x → within hour x ts ≡ 0)
    → ((x : ℕ) → now < x + hour → within hour x ts ≤ maximum)
    → ((x : ℕ) → within hour x ts ≤ maximum + maximum)
    → Paced hour maximum (now ∷ ts) (record { started_at = now; count = 1 })
unfolding within
opens_window hour maximum now ts p q old near all = record {
  started = q;
  counted = omega (arith, p);
  current = λ x h. ground (arith, old x h);
  touched = λ x h. ground (arith, near x h, h);
  overlap = λ x. ground (arith, near x, all x, p);
  recent = λ x h. ground (arith, old x, h);
}

joins_window :
    (hour maximum now : ℕ) (ts : List ℕ) (w : Window)
    → Paced hour maximum ts w
    → w.count < maximum
    → w.started_at ≤ now
    → now < w.started_at + hour
    → Paced hour maximum (now ∷ ts) (record { started_at = w.started_at; count = w.count + 1 })
unfolding within
joins_window hour maximum now ts w p c from until = record {
  started = p.started;
  counted = omega arith;
  current = λ x h. ground (arith, p.current x h);
  touched = λ x h. ground (arith, p.touched x h);
  overlap = λ x. ground (arith, p.touched x, p.overlap x, c, from);
  recent = λ x h. ground (arith, p.recent x h, until, h);
}

record Consumed (hour : ℕ) (m : List (Text × Window)) (owner : Text) (maximum now : ℕ)
    (m' : List (Text × Window)) : Type 0 where
  window : Window
  chosen : window_at hour now (lookup owner m) ≡ ok window
  free : window.count < maximum
  noted : m' ≡ (owner, record { started_at = window.started_at; count = window.count + 1 }) ∷ m

consume-Consumed :
    (hour : ℕ) (m : List (Text × Window)) (owner : Text) (maximum now : ℕ)
    {m' : List (Text × Window)}
    → 0 < maximum
    → consume hour m owner (pos maximum) now ≡ ok m'
    → Consumed hour m owner maximum now m'
unfolding consume count_job
consume-Consumed hour m owner maximum now {m'} p e =
    let limited : ltb_ℤ (pos 0) (pos maximum) ≡ true = ground (arith, p) in
    let e0 : count_job hour m owner (pos maximum) now ≡ ok m' = rw (limited, consume) at e in
    let e1 = >>-eq-ok (is_empty owner) _ _ e0 in
    let (w, chosen, e2) = >>=-eq-ok (window_at hour now (lookup owner m)) _ e1.1 in
    let e3 = >>-eq-ok (not (ltb_ℤ (pos w.count) (pos maximum))) _ _ e2 in
    record {
      window = w;
      chosen = chosen;
      free = ground (arith, e3.0);
      noted = sym (ok-injective e3.1);
    }

-- The window that counts is a new one, for which the old one is over, or the old one, which runs.
data Chosen (hour now : ℕ) : Option Window → Window → Type 0 where
  opened :
      {o : Option Window}
      → ((w : Window) → o ≡ some w → (w.started_at ≡ 0) ⊎ (w.started_at + hour ≤ now))
      → Chosen hour now o (record { started_at = now; count = 0 })
  running :
      {w : Window} → w.started_at ≤ now → now < w.started_at + hour → Chosen hour now (some w) w

window_at-Chosen :
    (hour now : ℕ) (o : Option Window) {v : Window}
    → window_at hour now o ≡ ok v
    → Chosen hour now o v
unfolding window_at
window_at-Chosen hour now none {v} e =
    subst (Chosen hour now none) (ok-injective e) (opened (λ w q. cc))
window_at-Chosen hour now (some w) {v} e =
    elim (Bool-cases (w.started_at == 0 || leb (w.started_at + hour) now)) [
      | inl over ↦
          subst (Chosen hour now (some w)) (ok-injective (rw over at e))
            (opened (λ u q. let same : w ≡ u = cc in subst Over same (ground (arith, over))))
      | inr on ↦ elim (Bool-cases (ltb now w.started_at)) [
        | inl early ↦ absurd (cc (rw (on, early) at e))
        | inr late ↦
            subst (Chosen hour now (some w)) (ok-injective (rw (on, late) at e))
              (running (ground (arith, late)) (ground (arith, on)))
      ]
    ]
  where
    Over : Window → Type 0
    Over u = (u.started_at ≡ 0) ⊎ (u.started_at + hour ≤ now)

admission :
    (hour maximum now : ℕ) (ts : List ℕ) (o : Option Window) (v : Window)
    → 0 < maximum
    → 0 < now
    → History hour maximum ts o
    → Chosen hour now o v
    → v.count < maximum
    → Paced hour maximum (now ∷ ts) (record { started_at = v.started_at; count = v.count + 1 })
unfolding History
admission hour maximum now ts none v p q h (opened over) c = rw h (
    opens_window hour maximum now [] p q (λ x _. unfold within in refl)
      (λ x _. unfold within in omega arith) (λ x. unfold within in omega arith))
admission hour maximum now ts (some w) v p q h (opened over) c =
    let past : w.started_at + hour ≤ now = ground (arith, over w refl, h.started) in
    opens_window hour maximum now ts p q (λ x from. h.recent x (omega (arith, past, from)))
      (λ x near. omega (arith, h.current x (omega (arith, past, near)), h.counted)) h.overlap
admission hour maximum now ts (some w) v p q h (running from until) c =
    joins_window hour maximum now ts w h c from until

lookup-here : (t : Text) (w : Window) (m : List (Text × Window)) → lookup t ((t, w) ∷ m) ≡ some w
unfolding lookup
lookup-here t w m = ground (arith, text_eq_refl t)

lookup-away :
    (t u : Text) (w : Window) (m : List (Text × Window))
    → t ≢ u
    → lookup t ((u, w) ∷ m) ≡ lookup t m
unfolding lookup
lookup-away t u w m h = ground (arith, eq_of_text_eq t u)

-- A call of another owner leaves this owner's window.
other_owner :
    (hour : ℕ) (m : List (Text × Window)) (owner other : Text) (limit : ℤ) (now : ℕ)
    {m' : List (Text × Window)}
    → owner ≢ other
    → consume hour m other limit now ≡ ok m'
    → lookup owner m' ≡ lookup owner m
unfolding consume count_job
other_owner hour m owner other limit now {m'} d e = elim (Bool-cases (ltb_ℤ (pos 0) limit)) [
  | inr unlimited ↦ ap (lookup owner) (sym (ok-injective (rw unlimited at e)))
  | inl limited ↦
      let e1 = >>-eq-ok (is_empty other) _ _ (rw limited at e) in
      let (w, _, e2) = >>=-eq-ok (window_at hour now (lookup other m)) _ e1.1 in
      let e3 = >>-eq-ok (not (ltb_ℤ (pos w.count) limit)) _ _ e2 in
      ap (lookup owner) (sym (ok-injective e3.1)) ∙ lookup-away owner other _ m d
]

Calls-History :
    {hour maximum : ℕ} {owner : Text} {ts : List ℕ} {m : List (Text × Window)}
    → 0 < maximum
    → Calls hour maximum owner ts m
    → History hour maximum ts (lookup owner m)
unfolding History lookup
Calls-History p none_yet = refl
Calls-History {hour} {maximum} {owner} {ts} {m} p (admitted {ts = old} {m = before} now c q e) =
    let x = consume-Consumed hour before owner maximum now p e in
    let a =
      admission hour maximum now old (lookup owner before) x.window p q (Calls-History p c)
        (window_at-Chosen hour now (lookup owner before) x.chosen) x.free in
    subst (History hour maximum (now ∷ old))
      (sym (ap (lookup owner) x.noted ∙ lookup-here owner _ before)) a
Calls-History p (refused now e c r) = Calls-History p c
Calls-History {hour} {maximum} {owner} p (another {ts = old} {m = before} now other limit c d e) =
    subst (History hour maximum old) (sym (other_owner hour before owner other limit now d e))
      (Calls-History p c)

History-within :
    (hour maximum : ℕ) (ts : List ℕ) (o : Option Window)
    → History hour maximum ts o
    → (x : ℕ) → within hour x ts ≤ maximum + maximum
unfolding History within
History-within hour maximum ts none h x = rw h (omega arith)
History-within hour maximum ts (some w) h x = h.overlap x

-- However calls of any owners interleave, and however the clock jumps, any hour holds at most twice
-- the maximum of an owner's admitted jobs, for a maximum that is positive and the same throughout.
pub Calls-within :
    {hour maximum : ℕ} {owner : Text} {ts : List ℕ} {m : List (Text × Window)} (x : ℕ)
    → 0 < maximum
    → Calls hour maximum owner ts m
    → within hour x ts ≤ maximum + maximum
Calls-within {hour} {maximum} {owner} {ts} {m} x p c =
    History-within hour maximum ts (lookup owner m) (Calls-History p c) x
