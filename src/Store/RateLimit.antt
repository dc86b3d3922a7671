-- ===== src/Store/RateLimit.antt =====
-- internal/cluster/store.go: consumeProducerRateLimitTx, the durable hourly job limit of an owner.
-- Times count from Go's zero time, in one unit throughout.
pub mod Pace
use context_bridge.Prelude.{
  ℕ, zero, suc, ◌+◌, ◌≤◌, ◌<◌, Bool, true, false, not, ◌||◌, List, [], ◌∷◌, Option, none, some, ltb,
  leb, ◌==◌, if◌then◌else◌, Result, ok, err, ◌>>=◌, ◌>>◌, reject_if,
}
use context_bridge.Prelude.Int.{ℤ, pos, negsuc, ltb_ℤ}
use context_bridge.Text.{Text, text_eq}
use context_bridge.Pipeline.Graph.Template.{is_empty}
use context_bridge.Pipeline.Graph.Edges.{lookup}

-- producerRateWindow.
pub record Window : Type 0 where
  pub started_at : ℕ
  pub count : ℕ

pub data RateError : Type 0 where
  no_identity rate_capacity : RateError

-- The window that counts at `now`: the stored one, or a new one. `hour` is time.Hour in the unit.
unfoldable pub window_at : ℕ → ℕ → Option Window → Result RateError Window
window_at hour now none = ok (record { started_at = now; count = 0 })
window_at hour now (some w) =
    if w.started_at == 0 || leb (w.started_at + hour) now
    then ok (record { started_at = now; count = 0 })
    else if ltb now w.started_at
    then err rate_capacity
    else ok w

-- The limited path: the window, its count against the maximum, and the new count.
unfoldable pub count_job :
    ℕ → List (Text × Window) → Text → ℤ → ℕ → Result RateError (List (Text × Window))
unfolding window_at
count_job hour windows owner maximum now = do
  reject_if (is_empty owner) no_identity
  w ← window_at hour now (lookup owner windows)
  reject_if (not (ltb_ℤ (pos w.count) maximum)) rate_capacity
  ok ((owner, record { started_at = w.started_at; count = w.count + 1 }) ∷ windows)

-- consumeProducerRateLimitTx. A maximum that is not positive is no limit.
unfoldable pub consume :
    ℕ → List (Text × Window) → Text → ℤ → ℕ → Result RateError (List (Text × Window))
unfolding count_job
consume hour windows owner maximum now =
    if ltb_ℤ (pos 0) maximum then count_job hour windows owner maximum now else ok windows
