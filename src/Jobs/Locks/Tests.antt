-- ===== src/Jobs/Locks/Tests.antt =====
-- internal/cluster/store.go: locks of one session.
use context_bridge.Prelude.{true, [], ◌∷◌, ok, err, ◌≡◌, refl, inl, inr}
use context_bridge.Text.{
  Text, codes, text_eq, trim_left, trim_space, lower_rune, to_lower, equal_fold, fold_rune,
}
use context_bridge.Jobs.Records.{Requirements}
use context_bridge.Jobs.Labels.{bytes, truncate, clean_label, is_adapter}
use context_bridge.Jobs.Locks.{
  Lock, session_busy, job, lock_of, acquire, base_eq, active, overlaps, needs_lock, eligible, scan,
  blocks, same_holder, kind_eq, scope_eq, same_key, without_key, base_of, scope_of,
  canonical_session,
}
use context_bridge.Jobs.Locks.Sessions.{Held, nothing, acquired, Held-same_holder}
use context_bridge.Jobs.Tests.Stores.{plain}

abbrev for_profile : Text → Requirements
for_profile p = record plain { provider = codes "adapter"; adapter_profile = p }

-- The lock of a job for every profile, and of the same job for one.
abbrev wide : Lock
wide = lock_of (codes "alice") (for_profile []) job (codes "job-1") 0

abbrev narrow : Lock
narrow = lock_of (codes "alice") (for_profile (codes "work")) job (codes "job-1") 0

wide_ok :
    acquire
      (codes "alice")
      (for_profile [])
      job
      (codes "job-1")
      0
      10
      (needs_lock (for_profile []))
      []
    ≡ ok (wide ∷ [])
unfolding equal_fold fold_rune acquire needs_lock eligible is_adapter trim_space trim_left to_lower
    lower_rune text_eq scan without_key
wide_ok = refl

narrow_ok :
    acquire
      (codes "alice")
      (for_profile (codes "work"))
      job
      (codes "job-1")
      0
      10
      (needs_lock (for_profile (codes "work")))
      (wide ∷ [])
    ≡ ok (narrow ∷ wide ∷ [])
unfolding equal_fold fold_rune acquire needs_lock eligible is_adapter trim_space trim_left to_lower
    lower_rune text_eq scan without_key base_eq blocks same_holder kind_eq overlaps scope_eq
    same_key active base_of scope_of clean_label bytes truncate canonical_session
narrow_ok = refl

-- Another job waits.
other_busy :
    acquire
      (codes "alice")
      (for_profile (codes "work"))
      job
      (codes "job-2")
      0
      10
      (needs_lock (for_profile (codes "work")))
      (wide ∷ [])
    ≡ err session_busy
unfolding equal_fold fold_rune acquire needs_lock eligible is_adapter trim_space trim_left to_lower
    lower_rune text_eq scan without_key base_eq blocks same_holder kind_eq overlaps scope_eq
    same_key active base_of scope_of clean_label bytes truncate canonical_session
other_busy = refl

both_held : Held 10 (narrow ∷ wide ∷ [])
both_held =
    acquired (codes "alice") (for_profile (codes "work")) job (codes "job-1") 0
      (acquired (codes "alice") (for_profile []) job (codes "job-1") 0 (nothing 10) wide_ok)
      narrow_ok

narrow-active : active 10 narrow ≡ true
unfolding active
narrow-active = refl

wide-active : active 10 wide ≡ true
unfolding active
wide-active = refl

one_session : base_eq narrow.base wide.base ≡ true
unfolding base_eq base_of clean_label canonical_session trim_space trim_left bytes truncate text_eq
one_session = refl

scopes_meet : overlaps narrow.scope wide.scope ≡ true
unfolding equal_fold fold_rune overlaps scope_of is_adapter trim_space trim_left to_lower lower_rune
    text_eq
scopes_meet = refl

Held-same_holder_example : (narrow.kind ≡ wide.kind) × (narrow.holder ≡ wide.holder)
Held-same_holder_example =
    Held-same_holder 10 (narrow ∷ wide ∷ []) narrow wide both_held (inl refl) (inr (inl refl))
      narrow-active wide-active one_session scopes_meet
