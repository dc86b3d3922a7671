-- ===== src/Jobs/Locks.antt =====
-- internal/cluster/store.go: the locks on an adapter session. The key of a lock, the SHA-256 of its
-- owner and session followed by scope, kind and holder, is the record of these parts.
pub mod Exclusion
pub mod Sessions
mod Tests
use context_bridge.Prelude.{
  ℕ, Bool, true, false, not, ◌&&◌, ◌||◌, List, [], ◌∷◌, ◌++◌, Option, none, some, ltb, ◌==◌,
  if◌then◌else◌, Result, ok, err, reject_if, ◌>>◌, ◌>>=◌, filter,
}
use context_bridge.Text.{Text, codes, text_eq, trim_space, to_lower}
use context_bridge.Pipeline.Graph.Template.{is_empty}
use context_bridge.Jobs.Records.{Requirements}
use context_bridge.Jobs.Labels.{clean_label, is_adapter}

-- adapterSessionLockAssignment and adapterSessionLockJob.
pub data Kind : Type 0 where
  assignment job : Kind

unfoldable pub kind_eq : Kind → Kind → Bool
kind_eq assignment assignment = true
kind_eq job job = true
kind_eq _ _ = false

-- The scope "*", or "profile:" and a profile.
pub data Scope : Type 0 where
  any : Scope
  profile : Text → Scope

unfoldable pub scope_eq : Scope → Scope → Bool
unfolding text_eq
scope_eq any any = true
scope_eq (profile p) (profile q) = text_eq p q
scope_eq _ _ = false

-- What adapterSessionLockBase digests.
pub record Base : Type 0 where
  pub owner : Text
  pub session : Text

unfoldable pub base_eq : Base → Base → Bool
base_eq a b = text_eq a.owner b.owner && text_eq a.session b.session

-- adapterSessionLock under its key. `expires_at` is 0 for a lock that does not expire.
pub record Lock : Type 0 where
  pub base : Base
  pub scope : Scope
  pub kind : Kind
  pub holder : Text
  pub expires_at : ℕ

-- adapterSessionLockEligible.
unfoldable pub eligible : Requirements → Bool
unfolding trim_space is_adapter
eligible r =
    not r.adapter_ephemeral_session
    && (is_adapter (trim_space r.provider) || is_empty (trim_space r.provider))

-- canonicalSessionID.
unfoldable pub canonical_session : Text → Text
canonical_session session =
    if is_empty (trim_space session) then codes "default" else trim_space session

unfoldable pub base_of : Text → Requirements → Base
unfolding canonical_session clean_label
base_of owner r = record { owner = clean_label owner 120; session = canonical_session r.session_id }

-- adapterSessionLockScope.
unfoldable pub scope_of : Requirements → Scope
unfolding is_adapter
scope_of r =
    let named = to_lower (trim_space r.adapter_profile) in
    if is_adapter (trim_space r.provider) && not (is_empty named) then profile named else any

-- adapterSessionLockActive.
unfoldable pub active : ℕ → Lock → Bool
active now l = l.expires_at == 0 || ltb now l.expires_at

unfoldable pub overlaps : Scope → Scope → Bool
unfolding scope_eq
overlaps any t = true
overlaps (profile p) any = true
overlaps (profile p) (profile q) = text_eq p q

unfoldable pub same_holder : Kind → Text → Lock → Bool
same_holder kind holder l = kind_eq l.kind kind && text_eq l.holder holder

-- The lock keeps another holder out: the loop's conditions behind the removal of expired locks.
unfoldable pub blocks : Scope → Kind → Text → Lock → Bool
blocks wanted kind holder l = overlaps wanted l.scope && not (same_holder kind holder l)

-- adapterSessionBusyTx of an eligible request: whether another holds the session, and the locks
-- without the expired ones of the session that the loop met before its end.
unfoldable pub scan : Base → Scope → Kind → Text → ℕ → List Lock → Bool × List Lock
unfolding base_eq active blocks
scan base wanted kind holder now [] = (false, [])
scan base wanted kind holder now (l ∷ ls) =
    let rest = scan base wanted kind holder now ls in
    if not (base_eq l.base base)
    then (rest.0, l ∷ rest.1)
    else if not (active now l)
    then rest
    else if blocks wanted kind holder l
    then (true, l ∷ ls)
    else (rest.0, l ∷ rest.1)

-- Whether a lock stands under the key of another.
unfoldable pub same_key : Lock → Lock → Bool
unfolding base_eq scope_eq same_holder
same_key l m = base_eq l.base m.base && (scope_eq l.scope m.scope && same_holder l.kind l.holder m)

unfoldable pub without_key : Lock → List Lock → List Lock
unfolding same_key
without_key l ls = filter (λ m. not (same_key l m)) ls

abbrev pub lock_of : Text → Requirements → Kind → Text → ℕ → Lock
lock_of owner r kind holder expires_at = record {
  base = base_of owner r;
  scope = scope_of r;
  kind = kind;
  holder = holder;
  expires_at = expires_at;
}

pub data LockError : Type 0 where
  session_busy : LockError

-- acquireAdapterSessionLockTx. The scan looks for others whenever the request is eligible.
unfoldable pub acquire :
    Text → Requirements → Kind → Text → ℕ → ℕ → Bool → List Lock → Result LockError (List Lock)
unfolding scan without_key base_of scope_of eligible
acquire owner r kind holder expires_at now required locks =
    let lock = lock_of owner r kind holder expires_at in
    let seen =
      if eligible r then scan lock.base lock.scope kind holder now locks else (false, locks) in
    if not required
    then ok locks
    else if seen.0
    then err session_busy
    else ok (lock ∷ without_key lock seen.1)

-- adapterSessionNeedsLockTx.
unfoldable pub needs_lock : Requirements → Bool
unfolding eligible
needs_lock r = eligible r

-- releaseAdapterSessionLockTx.
unfoldable pub release : Text → Requirements → Kind → Text → List Lock → List Lock
unfolding without_key eligible base_of scope_of
release owner r kind holder locks =
    if eligible r then without_key (lock_of owner r kind holder 0) locks else locks

-- garbageCollectAdapterSessionLocks: the locks that stay. The code counts the others.
unfoldable pub collect_garbage : ℕ → List Lock → List Lock
unfolding active
collect_garbage now locks = filter (active now) locks
