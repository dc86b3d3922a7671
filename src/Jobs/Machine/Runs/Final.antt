-- ===== src/Jobs/Machine/Runs/Final.antt =====
-- internal/cluster/store.go: a job that has ended stays as it ended.
use context_bridge.Prelude.{
  true, false, List, [], ◌∷◌, Option, none, some, ◌≡◌, refl, sym, ap, ◌∙◌, arith,
}
use context_bridge.Text.{Text}
use context_bridge.Pipeline.Graph.Edges.{lookup}
use context_bridge.Jobs.Records.{Job, Status, queued, assigned, status_eq, terminal, at_worker}
use context_bridge.Jobs.Tables.{World, Digests}
use context_bridge.Jobs.Complete.Results.{Codecs}
use context_bridge.Jobs.Machine.{
  Moves, assigns, starts, reports, retries, ends, cancels, expires, Agrees, Advanced, stays, steps,
  appears,
}
use context_bridge.Jobs.Machine.Runs.{Call, run}
use context_bridge.Jobs.Machine.Runs.Calls.{committed-Advances}

from_status : (j : Job) (s : Status) → j.status ≡ s → terminal s ≡ false → terminal j.status ≡ false
from_status j s at t = ap terminal at ∙ t

worker_not_final : (s : Status) → at_worker s ≡ true → terminal s ≡ false
unfolding terminal status_eq
worker_not_final s h = ground arith

-- No edge of the machine leaves a final status.
Moves-not_final : (j k : Job) → Moves j k → terminal j.status ≡ false
unfolding terminal status_eq
Moves-not_final j k (assigns was now_is attempt) = from_status j queued was refl
Moves-not_final j k (starts was now_is attempt) = from_status j assigned was refl
Moves-not_final j k (reports busy same attempt) = worker_not_final j.status busy
Moves-not_final j k (retries was now_is attempt room) = from_status j assigned was refl
Moves-not_final j k (ends busy final attempt) = worker_not_final j.status busy
Moves-not_final j k (cancels still_open now_is attempt) = still_open
Moves-not_final j k (expires was now_is attempt) = from_status j queued was refl

some_or : Job → Option Job → Job
some_or i none = i
some_or i (some j) = j

Advanced-final :
    (o p : Option Job) (j : Job) → Advanced o p → o ≡ some j → terminal j.status ≡ true → p ≡ some j
unfolding some_or
Advanced-final o p j (stays q) e final = e
Advanced-final o p j (steps i k s) e final =
    let open_i : terminal i.status ≡ false = Moves-not_final i k s.moves in
    let same : i ≡ j = ap (some_or i) e in
    absurd (cc (sym open_i ∙ ap (λ x. terminal x.status) same ∙ final))
Advanced-final o p j (appears k fresh) e final = cc

-- A job that is completed, failed or cancelled keeps its record, with its result, its error and its
-- failure class, whatever calls follow: late reports, further cancellations, lost nodes, restarts.
pub run-final :
    (digests : Digests) (codecs : Codecs) (cs : List Call) (w : World) (i : Text) (j : Job)
    → Agrees w
    → lookup i w.jobs ≡ some j
    → terminal j.status ≡ true
    → lookup i (run digests codecs cs w).jobs ≡ some j
unfolding run
run-final digests codecs [] w i j a at final = at
run-final digests codecs (c ∷ cs) w i j a at final =
    let v = committed-Advances digests codecs c w a in
    run-final digests codecs cs _ i j v.agrees (Advanced-final _ _ j (v.each i) at final) final
