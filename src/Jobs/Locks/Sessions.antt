-- ===== src/Jobs/Locks/Sessions.antt =====
-- internal/cluster/store.go: every state of the locks that acquiring, releasing and collecting reach.
use context_bridge.Prelude.{
  ℕ, ◌≤◌, true, false, List, [], ok, In, ◌≡◌, sym, arith, Bool-cases, inl, inr, refl,
}
use context_bridge.Text.{Text, text_eq, eq_of_text_eq}
use context_bridge.Jobs.Records.{Requirements}
use context_bridge.Jobs.Locks.{
  Kind, Lock, base_eq, active, overlaps, same_holder, without_key, acquire, release, needs_lock,
  eligible, collect_garbage, kind_eq, assignment, job,
}
use context_bridge.Jobs.Locks.Exclusion.{
  Exclusive, clashes, acquire-Exclusive, filter-Exclusive, Exclusive-later,
}

-- The locks at a time, after transactions in their order. An acquisition that fails changes nothing.
pub data Held : ℕ → List Lock → Type 0 where
  nothing : (t : ℕ) → Held t []
  waited : {t u : ℕ} {ls : List Lock} → Held t ls → t ≤ u → Held u ls
  acquired :
      {t : ℕ} {ls ls' : List Lock} (owner : Text) (r : Requirements) (kind : Kind) (holder : Text)
      (expires_at : ℕ)
      → Held t ls
      → acquire owner r kind holder expires_at t (needs_lock r) ls ≡ ok ls'
      → Held t ls'
  released :
      {t : ℕ} {ls : List Lock} (owner : Text) (r : Requirements) (kind : Kind) (holder : Text)
      → Held t ls
      → Held t (release owner r kind holder ls)
  collected : {t : ℕ} {ls : List Lock} → Held t ls → Held t (collect_garbage t ls)

release-Exclusive :
    (owner : Text) (r : Requirements) (kind : Kind) (holder : Text) (now : ℕ) (locks : List Lock)
    → Exclusive now locks
    → Exclusive now (release owner r kind holder locks)
unfolding release without_key
release-Exclusive owner r kind holder now locks ex = elim (Bool-cases (eligible r)) [
  | inl is_eligible ↦ rw (is_eligible, release) (filter-Exclusive _ now locks ex)
  | inr passed_over ↦ rw (passed_over, release) ex
]

Held-Exclusive : (t : ℕ) (ls : List Lock) → Held t ls → Exclusive t ls
unfolding needs_lock collect_garbage Exclusive
Held-Exclusive t ls (nothing u) = λ l m hl hm. absurd hl
Held-Exclusive t ls (waited h later) = Exclusive-later _ _ ls later (Held-Exclusive _ ls h)
Held-Exclusive t ls (acquired owner r kind holder expires_at h e) =
    acquire-Exclusive owner r kind holder expires_at t _ ls (Held-Exclusive t _ h) e
Held-Exclusive t ls (released owner r kind holder h) =
    release-Exclusive owner r kind holder t _ (Held-Exclusive t _ h)
Held-Exclusive t ls (collected h) = filter-Exclusive (active t) t _ (Held-Exclusive t _ h)

same_kind : (k l : Kind) → kind_eq k l ≡ true → k ≡ l
unfolding kind_eq
same_kind assignment assignment h = refl
same_kind assignment job h = cc
same_kind job assignment h = cc
same_kind job job h = refl

-- Whatever jobs and assignments acquire, release and let expire, two active locks on one adapter
-- session in overlapping scopes have the same holder.
pub Held-same_holder :
    (t : ℕ) (ls : List Lock) (l m : Lock)
    → Held t ls
    → In l ls
    → In m ls
    → active t l ≡ true
    → active t m ≡ true
    → base_eq l.base m.base ≡ true
    → overlaps l.scope m.scope ≡ true
    → (l.kind ≡ m.kind) × (l.holder ≡ m.holder)
unfolding Exclusive same_holder
Held-same_holder t ls l m h hl hm l_active m_active same_base overlap =
    let apart : clashes t l m ≡ false = Held-Exclusive t ls h l m hl hm in
    let together : same_holder l.kind l.holder m ≡ true =
      ground (arith, apart, l_active, m_active, same_base, overlap) in
    let kinds : kind_eq m.kind l.kind ≡ true = ground (arith, together) in
    let holders : text_eq m.holder l.holder ≡ true = ground (arith, together) in
    (sym (same_kind m.kind l.kind kinds), sym (eq_of_text_eq m.holder l.holder holders))
