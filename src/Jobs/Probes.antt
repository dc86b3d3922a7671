-- ===== src/Jobs/Probes.antt =====
-- internal/cluster/store.go: recovery probes, the single jobs that may try a route in probation.
use context_bridge.Prelude.{
  ℕ, Bool, true, false, not, ◌&&◌, ◌||◌, List, [], ◌∷◌, ◌==◌, if◌then◌else◌, Result, ok, err, ◌>>=◌,
}
use context_bridge.Text.{Text, text_eq}
use context_bridge.Pipeline.Graph.Template.{is_empty}
use context_bridge.Routing.Health.{Health, stale, track_failure, apply_failure}
use context_bridge.Routing.Selection.{health_state}

pub data ProbeError : Type 0 where
  probe_in_flight : ProbeError

-- The record is of the route, of all owners or of this one, and in probation.
unfoldable pub in_probation : Text → Text → ℕ → Health → Bool
unfolding health_state
in_probation route scope now h =
    text_eq h.route_key route
    && ((is_empty h.owner_scope || text_eq h.owner_scope scope) && health_state now h == 2)

-- Another job, which is still stored, probes the record.
abbrev pub probed_by_other : (Text → Bool) → Text → Health → Bool
probed_by_other stored job_id h =
    not (is_empty h.probe_job_id) && (not (text_eq h.probe_job_id job_id) && stored h.probe_job_id)

abbrev pub with_probe : Text → Text → Health → Health
with_probe job_id scope h = record h { probe_job_id = job_id; probe_owner_scope = scope }

abbrev pub and_claimed : Bool → Health → Bool × List Health → Bool × List Health
and_claimed claims h rest = (claims || rest.0, h ∷ rest.1)

-- claimRoutingRecoveryProbeTx of a node that is stored: whether a probe was claimed, and the records.
-- `stored` tells whether a job is in the store.
unfoldable pub claim :
    (Text → Bool) → Text → Text → Text → ℕ → List Health → Result ProbeError (Bool × List Health)
unfolding in_probation
claim stored route scope job_id now [] = ok (false, [])
claim stored route scope job_id now (h ∷ hs) =
    let rest = claim stored route scope job_id now hs in
    if not (in_probation route scope now h)
    then (rest >>= λ r. ok (and_claimed false h r))
    else if probed_by_other stored job_id h
    then err probe_in_flight
    else (rest >>= λ r. ok (and_claimed true (with_probe job_id scope h) r))

-- applyRoutingProbeFailure.
unfoldable pub probe_failure : Text → ℕ → Health → Health
unfolding apply_failure
probe_failure code now h =
    apply_failure code now (if stale now h then record h { last_failure_at = now } else h)

-- The body of the loop of resolveRoutingRecoveryProbeTx.
unfoldable pub resolve_probe : Text → Text → ℕ → Health → Health
unfolding probe_failure track_failure
resolve_probe job_id code now h =
    let free = record h { probe_job_id = []; probe_owner_scope = [] } in
    if not (text_eq h.probe_job_id job_id)
    then h
    else if track_failure code
    then probe_failure code now free
    else free

-- Whether a record is probed by the job.
unfoldable pub probes : Text → List Health → Bool
probes job_id [] = false
probes job_id (h ∷ hs) = text_eq h.probe_job_id job_id || probes job_id hs
