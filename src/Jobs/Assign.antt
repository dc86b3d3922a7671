-- ===== src/Jobs/Assign.antt =====
-- internal/cluster/store.go: assignJobAuthorized, which gives a queued job to a node. `fresh` is the
-- ID that randomID draws for a decision without one.
use context_bridge.Prelude.{
  ℕ, Bool, true, false, not, ◌&&◌, ◌||◌, List, [], ◌∷◌, Option, none, some, ltb, ◌==◌,
  if◌then◌else◌, Result, ok, err, ◌>>=◌, ◌>>◌, reject_if,
}
use context_bridge.Prelude.Int.{ℤ, pos, ltb_ℤ, pos_part, int_eq}
use context_bridge.Text.{Text, codes, text_eq}
use context_bridge.Pipeline.Graph.Template.{is_empty}
use context_bridge.Pipeline.Graph.Edges.{lookup, is_some}
use context_bridge.Pipeline.Checkpoint.Identifiers.{valid_sha256}
use context_bridge.Routing.Health.{Health}
use context_bridge.Routing.Outcome.{chosen_route}
use context_bridge.Jobs.Records.{
  Requirements, Authority, Fence, Candidate, Decision, Job, queued, assigned, status_eq, increment,
  positive,
}
use context_bridge.Jobs.Labels.{is_adapter}
use context_bridge.Jobs.Locks.{LockError, job, acquire, needs_lock}
use context_bridge.Jobs.Probes.{ProbeError, claim}
use context_bridge.Jobs.Tables.{
  JobError, not_queued, parent_terminal, bound_elsewhere, draining, bad_credential, bad_route,
  not_adapter, bad_endpoint, sealed_endpoint, other_endpoint, overflow, other_node, no_candidate,
  not_found, lock_failed, probe_failed, route_selected, worker_assigned, World, Node, Digests,
  found, put_job, put_node, with_health, dequeue_job, job_event,
}

-- adapterAssignment.
pub record Adapter : Type 0 where
  pub endpoint_id : ℤ
  pub principal : Text
  pub session_recovery : Bool

-- What the caller of the transaction passes.
pub record Request : Type 0 where
  pub node_id : Text
  pub credential : Text
  pub adapter : Option Adapter
  pub decision : Option Decision
  pub authority : Option Authority

-- The parent of a child job is not running, or is missing.
unfoldable pub parent_ended : Job → World → Bool
unfolding lookup
parent_ended j w = not (is_empty j.parent_id) && elim (lookup j.parent_id w.runs) [
  | none ↦ true
  | some status ↦ not (text_eq status (codes "running"))
]

-- A sealed job is reserved for another node.
abbrev pub bound_to_other : Text → Job → Bool
bound_to_other node_id j =
    is_some j.sealed_payload
    && (not (is_empty j.assigned_node) && not (text_eq j.assigned_node node_id))

abbrev pub node_draining : Option Node → Bool
node_draining none = false
node_draining (some n) = n.draining

-- validNodeCredentialTx.
unfoldable pub valid_credential : Text → Text → ℕ → World → Bool
unfolding lookup text_eq
valid_credential hash node_id now w =
    not (is_empty hash)
    && (not (is_empty node_id) && elim (lookup hash w.tokens) [
      | none ↦ false
      | some t ↦
          text_eq t.role (codes "node")
          && (text_eq t.subject node_id
              && (not t.revoked && (t.expires_at == 0 || ltb now t.expires_at)))
    ])

abbrev pub credential_fails : Request → ℕ → World → Bool
credential_fails r now w =
    not (is_empty r.credential) && not (valid_credential r.credential r.node_id now w)

-- The decision's route is not a digest, or not the one of its requirements.
abbrev pub route_fails : Digests → Option Decision → Bool
route_fails digests none = false
route_fails digests (some d) =
    not (is_empty d.route_key)
    && (not (valid_sha256 d.route_key) || not (text_eq d.route_key (digests.route d.requirements)))

abbrev pub bool_eq : Bool → Bool → Bool
bool_eq true b = b
bool_eq false b = not b

-- The endpoint of a sealed job would change.
abbrev pub endpoint_changes : Adapter → Requirements → Bool
endpoint_changes a r =
    not (int_eq a.endpoint_id r.adapter_endpoint_id)
    || (not (text_eq a.principal r.adapter_principal)
        || not (bool_eq a.session_recovery r.adapter_session_recovery))

abbrev pub other_endpoint_bound : Adapter → Requirements → Bool
other_endpoint_bound a r =
    positive a.endpoint_id
    && (positive r.adapter_endpoint_id && not (int_eq r.adapter_endpoint_id a.endpoint_id))

-- The requirements after an adapter endpoint was chosen.
unfoldable pub adapt : Option Adapter → Job → Result JobError Requirements
adapt none j = ok j.requirements
adapt (some a) j = do
  reject_if (not (is_adapter j.requirements.provider)) not_adapter
  reject_if (ltb_ℤ a.endpoint_id (pos 0)) bad_endpoint
  reject_if (is_some j.sealed_payload && endpoint_changes a j.requirements) sealed_endpoint
  reject_if (other_endpoint_bound a j.requirements) other_endpoint
  ok (record j.requirements {
    adapter_endpoint_id = a.endpoint_id;
    adapter_principal = a.principal;
    adapter_session_recovery = a.session_recovery;
  })

abbrev pub admitted_route : Option Decision → Text
admitted_route none = []
admitted_route (some d) = d.route_key

abbrev pub lift_probe {ℓ} : {A : Type ℓ} → Result ProbeError A → Result JobError A
lift_probe (ok a) = ok a
lift_probe (err e) = err (probe_failed e)

abbrev pub lift_lock {ℓ} : {A : Type ℓ} → Result LockError A → Result JobError A
lift_lock (ok a) = ok a
lift_lock (err e) = err (lock_failed e)

abbrev pub claimed_on : Node → World → Bool × List Health → World
claimed_on n w r = if r.0 then put_node (with_health r.1 n) w else w

-- The claim of a recovery probe, stored with the node.
unfoldable pub claim_probe :
    Digests → Request → Requirements → Job → ℕ → World → Result JobError World
unfolding claim lookup
claim_probe digests r reqs j now w = elim (lookup r.node_id w.nodes) [
  | none ↦ ok w
  | some n ↦
      if is_empty n.id
      then ok w
      else (lift_probe (
            claim (λ id. is_some (lookup id w.jobs))
              (chosen_route (admitted_route r.decision) (digests.route reqs))
              (digests.owner_scope j.owner_subject) j.id now n.routing_health)
          >>= λ c. ok (claimed_on n w c))
]

unfoldable pub lock_session : Requirements → Job → ℕ → World → Result JobError World
unfolding acquire needs_lock
lock_session reqs j now w = do
  locks ← lift_lock (acquire j.owner_subject reqs job j.id 0 now (needs_lock reqs) w.locks)
  ok (record w { locks = locks })

unfoldable pub offers : Text → List Candidate → Bool
offers node_id [] = false
offers node_id (c ∷ cs) = (text_eq c.node_id node_id && c.eligible) || offers node_id cs

-- The decision that the job keeps.
unfoldable pub decided :
    Text → Request → Requirements → Job → ℕ → Option Decision → Result JobError (Option Decision)
unfolding offers
decided fresh r reqs j now none = ok j.routing_decision
decided fresh r reqs j now (some d) = do
  reject_if (not (is_empty d.selected_node_id) && not (text_eq d.selected_node_id r.node_id))
      other_node
  reject_if (not (offers r.node_id d.candidates)) no_candidate
  ok (
      some (record d {
        id = if is_empty d.id then fresh else d.id;
        job_id = j.id;
        preview = false;
        selected_node_id = r.node_id;
        requirements = reqs;
        created_at = if d.created_at == 0 then now else d.created_at;
      }))

abbrev pub fence_of : Option Authority → ℤ → Option Fence
fence_of none attempt = none
fence_of (some a) attempt =
    some
      (record { cluster_id = a.cluster_id; relay_epoch = a.epoch; generation = pos_part attempt })

abbrev pub assigned_job : Request → Requirements → Option Decision → ℕ → Job → Job
assigned_job r reqs d now j = record j {
  requirements = reqs;
  status = assigned;
  assigned_node = r.node_id;
  attempt = increment j.attempt;
  assignment_fence = fence_of r.authority (increment j.attempt);
  progress = none;
  assigned_at = now;
  updated_at = now;
  routing_decision = d;
}

abbrev pub announced : ℕ → Job → World → World
announced now j w =
    job_event now worker_assigned j
      (if is_some j.routing_decision then job_event now route_selected j w else w)

-- The checks that read only the job and the store.
unfoldable pub assignable : Digests → ℕ → Request → Job → World → Result JobError (Unit {0})
unfolding parent_ended valid_credential lookup
assignable digests now r j w = do
  reject_if (not (status_eq j.status queued)) not_queued
  reject_if (parent_ended j w) parent_terminal
  reject_if (bound_to_other r.node_id j) bound_elsewhere
  reject_if (node_draining (lookup r.node_id w.nodes)) draining
  reject_if (credential_fails r now w) bad_credential
  reject_if (route_fails digests r.decision) bad_route
  ok tt

-- assignJobAuthorized: the store after the transaction, and the job.
unfoldable pub assign : Digests → Text → ℕ → Text → Request → World → Result JobError (World × Job)
unfolding assignable adapt claim_probe lock_session decided lookup
assign digests fresh now id r w = do
  j ← found not_found (lookup id w.jobs)
  assignable digests now r j w
  reqs ← adapt r.adapter j
  probed ← claim_probe digests r reqs j now w
  locked ← lock_session reqs j now probed
  reject_if (not (positive (increment j.attempt))) overflow
  d ← decided fresh r reqs j now r.decision
  let after = assigned_job r reqs d now j
  dequeued ← dequeue_job id (put_job after locked)
  ok (announced now after dequeued, after)
