-- ===== src/Routing/Selection/Severest.antt =====
-- internal/cluster/routing_health.go: the selected record is whole, of this owner or of the node, and
-- none that concerns the owner is more severe.
use context_bridge.Prelude.{
  some-injective, ℕ, Bool, true, false, not, ◌&&◌, ◌||◌, List, [], ◌∷◌, Option, none, some, ◌==◌,
  if◌then◌else◌, In, ◌≡◌, ◌≢◌, refl, sym, subst, ap, ◌∙◌, ◌⊎◌, inl, inr, arith, Bool-cases,
  Option-cases,
}
use context_bridge.Text.{Text}
use context_bridge.Routing.Health.{Health}
use context_bridge.Routing.Selection.{
  health_state, more_severe, concerns, consider, scan, without_owner, health_for,
}

more_severe_trans :
    (h a b : Health) (i j k : ℕ)
    → more_severe h i a j ≡ false
    → more_severe b k a j ≡ true
    → more_severe h i b k ≡ false
unfolding more_severe
more_severe_trans h a b i j k p q = ground arith

more_severe_asym :
    (a b : Health) (j k : ℕ) → more_severe b k a j ≡ true → more_severe a j b k ≡ false
unfolding more_severe
more_severe_asym a b j k q = ground arith

more_severe_irrefl : (a : Health) (j : ℕ) → more_severe a j a j ≡ false
unfolding more_severe
more_severe_irrefl a j = ground arith

module _ (route scope : Text) (now : ℕ) where
  -- The record concerns the owner and says something.
  abbrev pub live : Health → Bool
  live h = concerns route scope h && not (health_state now h == 0)

  abbrev Found : Health × ℕ → Type 0
  Found b = (live b.0 ≡ true) × (b.1 ≡ health_state now b.0)

  consider-dead :
      (h : Health) (best : Option (Health × ℕ))
      → live h ≡ false
      → consider route scope now h best ≡ best
  unfolding consider
  consider-dead h best d =
      let skip : (not (concerns route scope h) || health_state now h == 0) ≡ true =
        ground (arith, d) in
      rw skip refl

  consider-live :
      (h : Health) (best : Option (Health × ℕ))
      → live h ≡ true
      → consider route scope now h best ≡ elim best [
        | none ↦ some (h, health_state now h)
        | some b ↦
            if more_severe h (health_state now h) b.0 b.1
            then some (h, health_state now h)
            else some b
      ]
  unfolding consider
  consider-live h best l =
      let on : (not (concerns route scope h) || health_state now h == 0) ≡ false =
        ground (arith, l) in
      rw on refl

  -- Who was not above the best so far is not above the best in the end.
  dominated :
      (hs : List Health) (c b : Health × ℕ) (x : Health) (i : ℕ)
      → scan route scope now hs (some c) ≡ some b
      → more_severe x i c.0 c.1 ≡ false
      → more_severe x i b.0 b.1 ≡ false
  unfolding scan
  dominated [] c b x i e m = subst (λ y. more_severe x i y.0 y.1 ≡ false) (some-injective e) m
  dominated (h ∷ hs) c b x i e m = elim (Bool-cases (live h)) [
    | inr dead ↦ dominated hs c b x i (rw (consider-dead h (some c) dead) at e) m
    | inl alive ↦ elim (Bool-cases (more_severe h (health_state now h) c.0 c.1)) [
      | inl above ↦
          dominated hs (h, health_state now h) b x i
            (rw (consider-live h (some c) alive, above) at e)
            (more_severe_trans x c.0 h i c.1 (health_state now h) m above)
      | inr below ↦ dominated hs c b x i (rw (consider-live h (some c) alive, below) at e) m
    ]
  ]

  -- Nothing that the scan meets is above what it ends with.
  severest :
      (hs : List Health) (best : Option (Health × ℕ)) (b : Health × ℕ) (x : Health)
      → scan route scope now hs best ≡ some b
      → In x hs
      → live x ≡ true
      → more_severe x (health_state now x) b.0 b.1 ≡ false
  unfolding scan
  severest [] best b x e h l = absurd h
  severest (h ∷ hs) best b x e (inr there) l =
      severest hs (consider route scope now h best) b x e there l
  severest (h ∷ hs) none b x e (inl here) l =
      let alive : live h ≡ true = ap live (sym here) ∙ l in
      dominated hs (h, health_state now h) b x (health_state now x)
        (rw (consider-live h none alive) at e) (rw here (more_severe_irrefl h (health_state now h)))
  severest (h ∷ hs) (some c) b x e (inl here) l =
      let alive : live h ≡ true = ap live (sym here) ∙ l in
      elim (Bool-cases (more_severe h (health_state now h) c.0 c.1)) [
        | inl above ↦
            dominated hs (h, health_state now h) b x (health_state now x)
              (rw (consider-live h (some c) alive, above) at e)
              (rw here (more_severe_irrefl h (health_state now h)))
        | inr below ↦
            dominated hs c b x (health_state now x)
              (rw (consider-live h (some c) alive, below) at e) (rw here below)
      ]

  -- What the scan ends with is a live record that it met, or what it began with.
  selected :
      (hs : List Health) (best : Option (Health × ℕ)) (b : Health × ℕ)
      → scan route scope now hs best ≡ some b
      → (best ≡ some b) ⊎ (In b.0 hs × Found b)
  unfolding scan
  selected [] best b e = inl e
  selected (h ∷ hs) best b e = elim (selected hs (consider route scope now h best) b e) [
    | inr (there, f) ↦ inr (inr there, f)
    | inl old ↦ elim (Bool-cases (live h)) [
      | inr dead ↦ inl (sym (consider-dead h best dead) ∙ old)
      | inl alive ↦ at_once best alive (sym (consider-live h best alive) ∙ old)
    ]
  ]
    where
      now_found :
          live h ≡ true
          → Path (Option (Health × ℕ)) (some (h, health_state now h)) (some b)
          → In b.0 (h ∷ hs) × Found b
      now_found alive e =
          subst (λ y. In y.0 (h ∷ hs) × Found y) (some-injective e) (inl refl, (alive, refl))

      at_once :
          (best : Option (Health × ℕ))
          → live h ≡ true
          → (elim best [
            | none ↦ some (h, health_state now h)
            | some c ↦
                if more_severe h (health_state now h) c.0 c.1
                then some (h, health_state now h)
                else some c
          ])
            ≡ some b
          → (best ≡ some b) ⊎ (In b.0 (h ∷ hs) × Found b)
      at_once none alive q = inr (now_found alive q)
      at_once (some c) alive q = elim (Bool-cases (more_severe h (health_state now h) c.0 c.1)) [
        | inl above ↦ inr (now_found alive (rw above at q))
        | inr below ↦ inl (rw below at q)
      ]

  -- Once a record is selected, one stays selected.
  stays_some : (hs : List Health) (c : Health × ℕ) → scan route scope now hs (some c) ≢ none
  unfolding scan
  stays_some [] c e = cc
  stays_some (h ∷ hs) c e = elim (Bool-cases (live h)) [
    | inr dead ↦ stays_some hs c (rw (consider-dead h (some c) dead) at e)
    | inl alive ↦ elim (Bool-cases (more_severe h (health_state now h) c.0 c.1)) [
      | inl above ↦
          stays_some hs (h, health_state now h) (rw (consider-live h (some c) alive, above) at e)
      | inr below ↦ stays_some hs c (rw (consider-live h (some c) alive, below) at e)
    ]
  ]

  none-live :
      (hs : List Health) (x : Health)
      → scan route scope now hs none ≡ none
      → In x hs
      → live x ≡ false
  unfolding scan
  none-live [] x e h = absurd h
  none-live (h ∷ hs) x e there = elim (Bool-cases (live h)) [
    | inl alive ↦
        absurd (stays_some hs (h, health_state now h) (rw (consider-live h none alive) at e))
    | inr dead ↦ in_rest there dead (none-live hs x (rw (consider-dead h none dead) at e))
  ]
    where
      in_rest : In x (h ∷ hs) → live h ≡ false → (In x hs → live x ≡ false) → live x ≡ false
      in_rest (inl here) dead rest = ap live here ∙ dead
      in_rest (inr there) dead rest = rest there

-- A selected record is one record of the route, of this owner or of the node as a whole, in a state
-- that matters, with its owner hidden; no other record that concerns the owner is more severe.
pub health_for-severest :
    (route scope : Text) (now : ℕ) (hs : List Health) {r : Health}
    → health_for route scope now hs ≡ some r
    → (h : Health) × In h hs
      × (live route scope now h ≡ true)
      × (r ≡ without_owner h)
      × ((x : Health)
          → In x hs
          → live route scope now x ≡ true
          → more_severe x (health_state now x) h (health_state now h) ≡ false)
unfolding health_for
health_for-severest route scope now hs {r} e = elim (Option-cases (scan route scope now hs none)) [
  | inl nothing ↦ absurd (cc (rw (nothing, health_for) at e))
  | inr (b, found) ↦ elim (selected route scope now hs none b found) [
    | inl old ↦ absurd (cc old)
    | inr (there, (alive, state)) ↦ (
      b.0,
      there,
      alive,
      sym (some-injective (rw (found, health_for) at e)),
      λ x h l.
          subst (λ i. more_severe x (health_state now x) b.0 i ≡ false) state
            (severest route scope now hs none b x found h l),
    )
  ]
]

-- No record is selected only when none concerns the owner in a state that matters.
pub health_for-none :
    (route scope : Text) (now : ℕ) (hs : List Health) (x : Health)
    → health_for route scope now hs ≡ none
    → In x hs
    → live route scope now x ≡ false
unfolding health_for
health_for-none route scope now hs x e h = elim (Option-cases (scan route scope now hs none)) [
  | inl nothing ↦ none-live route scope now hs x nothing h
  | inr (b, found) ↦ absurd (cc (rw (found, health_for) at e))
]
