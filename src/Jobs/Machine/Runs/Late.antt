-- ===== src/Jobs/Machine/Runs/Late.antt =====
-- internal/cluster/store.go: reports of an earlier attempt of a job.
use context_bridge.Prelude.{
  ℕ, ◌+◌, ◌≤◌, ◌<◌, Bool, true, false, not, ◌&&◌, ◌||◌, List, [], ◌∷◌, Option, none, some, ltb,
  length, Result, ok, err, ◌>>=◌, ◌>>◌, reject_if, ◌≡◌, refl, sym, ap, ◌∙◌, arith, subst,
}
use context_bridge.Prelude.Int.{ℤ, pos, negsuc, pos_part, int_eq}
use context_bridge.Text.{Text, text_eq}
use context_bridge.Pipeline.Graph.Template.{is_empty}
use context_bridge.Pipeline.Graph.Edges.{lookup}
use context_bridge.Jobs.Records.{Job, Fence, Progress, status_eq, assigned, at_worker}
use context_bridge.Jobs.Tables.{JobError, World, Digests, found, not_found}
use context_bridge.Jobs.Run.{mark_running, update_progress, at_attempt}
use context_bridge.Jobs.Complete.{complete}
use context_bridge.Jobs.Complete.Results.{Codecs}
use context_bridge.Jobs.Complete.Retry.{Report}
use context_bridge.Jobs.Machine.{
  Moves, assigns, starts, reports, retries, ends, cancels, expires, Agrees, Advanced, stays, steps,
  appears,
}
use context_bridge.Jobs.Machine.Runs.{Call, run}
use context_bridge.Jobs.Machine.Runs.Calls.{committed-Advances}
use context_bridge.Jobs.Machine.Runs.Attempts.{
  Within, WithinAt, AllWithin, Advanced-Within, Within-left, increment-counted,
}

-- The call fails.
abbrev pub IsErr {ℓ} : {E : Type 0} {A : Type ℓ} → Result E A → Type 0
IsErr (ok a) = ⊥
IsErr (err e) = Unit

check-IsErr {ℓ} :
    {E : Type 0} {B : Type ℓ} (c : Bool) (e : E) (k : Result E B)
    → IsErr k
    → IsErr (reject_if c e >> k)
check-IsErr true e k h = tt
check-IsErr false e k h = h

rejected-IsErr {ℓ} :
    {E : Type 0} {B : Type ℓ} (c : Bool) (e : E) (k : Result E B)
    → c ≡ true
    → IsErr (reject_if c e >> k)
rejected-IsErr true e k h = tt
rejected-IsErr false e k h = absurd (cc h)

found-IsErr {ℓ} :
    {A : Type 0} {B : Type ℓ} (o : Option A) (a : A) (rest : A → Result JobError B)
    → o ≡ some a
    → IsErr (rest a)
    → IsErr (found not_found o >>= rest)
found-IsErr o a rest at h = subst (λ p. IsErr (found not_found p >>= rest)) (sym at) h

-- The three reports of a worker that name another attempt than the job's fail.
pub record Refused (digests : Digests) (codecs : Codecs) (id : Text) (attempt : ℤ) (w : World)
    : Type 0 where
  pub completing :
      (now : ℕ) (node_id : Text) (fence : Option Fence) (r : Report)
      → IsErr (complete digests codecs now id node_id attempt fence r w)
  pub starting :
      (now : ℕ) (node_id : Text) (fence : Option Fence)
      → IsErr (mark_running now id node_id attempt fence w)
  pub reporting :
      (now : ℕ) (node_id : Text) (fence : Option Fence) (p : Progress)
      → IsErr (update_progress now id node_id attempt fence p w)

refused :
    (digests : Digests) (codecs : Codecs) (id : Text) (attempt : ℤ) (w : World) (k : Job)
    → lookup id w.jobs ≡ some k
    → int_eq k.attempt attempt ≡ false
    → Refused digests codecs id attempt w
unfolding complete mark_running update_progress at_attempt
refused digests codecs id attempt w k at other = record {
  completing = λ now node_id fence r. check-IsErr (ltb 1 (length r.execution)) _ _ (
      found-IsErr (lookup id w.jobs) k _ at (
        check-IsErr (not (at_worker k.status)) _ _ (
          check-IsErr (is_empty node_id || not (text_eq k.assigned_node node_id)) _ _
            (rejected-IsErr (not (at_attempt node_id attempt k)) _ _ (ground (arith, other))))));
  starting = λ now node_id fence. found-IsErr (lookup id w.jobs) k _ at (
      rejected-IsErr (not (status_eq k.status assigned && at_attempt node_id attempt k)) _ _
        (ground (arith, other)));
  reporting = λ now node_id fence p. found-IsErr (lookup id w.jobs) k _ at (
      rejected-IsErr (not (at_worker k.status && at_attempt node_id attempt k)) _ _
        (ground (arith, other)));
}

-- A job is there, and has been tried this often at least.
abbrev pub TriedAtLeast : ℕ → Option Job → Type 0
TriedAtLeast n none = ⊥
TriedAtLeast n (some k) = n ≤ pos_part k.attempt

as_often : (j k : Job) → k.attempt ≡ j.attempt → pos_part j.attempt ≤ pos_part k.attempt
as_often j k same = omega (arith, ap pos_part same)

not_less : (j k : Job) → Moves j k → Within j → pos_part j.attempt ≤ pos_part k.attempt
not_less j k (assigns was now_is attempt) w =
    let (_, more) =
      increment-counted j.attempt w.counted (omega (arith, Within-left j w was, w.small)) in
    omega (arith, ap pos_part attempt ∙ more)
not_less j k (starts was now_is attempt) w = as_often j k attempt
not_less j k (reports busy same attempt) w = as_often j k attempt
not_less j k (retries was now_is attempt room) w = as_often j k attempt
not_less j k (ends busy final attempt) w = as_often j k attempt
not_less j k (cancels still_open now_is attempt) w = as_often j k attempt
not_less j k (expires was now_is attempt) w = as_often j k attempt

Advanced-TriedAtLeast :
    (n : ℕ) (o p : Option Job) → Advanced o p → WithinAt o → TriedAtLeast n o → TriedAtLeast n p
Advanced-TriedAtLeast n o p (stays q) all h = h
Advanced-TriedAtLeast n o p (steps j k s) all h = omega (arith, h, not_less j k s.moves all)
Advanced-TriedAtLeast n o p (appears k fresh) all h = absurd h

run-TriedAtLeast :
    (digests : Digests) (codecs : Codecs) (cs : List Call) (w : World) (i : Text) (n : ℕ)
    → Agrees w
    → AllWithin w
    → TriedAtLeast n (lookup i w.jobs)
    → TriedAtLeast n (lookup i (run digests codecs cs w).jobs)
unfolding run
run-TriedAtLeast digests codecs [] w i n a all h = h
run-TriedAtLeast digests codecs (c ∷ cs) w i n a all h =
    let v = committed-Advances digests codecs c w a in
    run-TriedAtLeast digests codecs cs _ i n v.agrees (λ x. Advanced-Within _ _ (v.each x) (all x))
      (Advanced-TriedAtLeast n _ _ (v.each i) (all i) h)

differs : (n : ℕ) (a : ℤ) → n < pos_part a → int_eq a (pos n) ≡ false
differs n (pos m) h = ground (arith, h)
differs n (negsuc m) h = absurd (ground (arith, h))

late-Refused :
    (digests : Digests) (codecs : Codecs) (id : Text) (n : ℕ) (w : World) (o : Option Job)
    → lookup id w.jobs ≡ o
    → TriedAtLeast (n + 1) o
    → Refused digests codecs id (pos n) w
late-Refused digests codecs id n w none at h = absurd h
late-Refused digests codecs id n w (some k) at h =
    refused digests codecs id (pos n) w k at (differs n k.attempt (omega (arith, h)))

-- Once a job is in a later attempt than n, then after any run of calls the store refuses every
-- report of attempt n on it: its end, its start and its progress, from whichever node.
pub run-Refused :
    (digests : Digests) (codecs : Codecs) (cs : List Call) (w : World) (id : Text) (n : ℕ)
    → Agrees w
    → AllWithin w
    → TriedAtLeast (n + 1) (lookup id w.jobs)
    → Refused digests codecs id (pos n) (run digests codecs cs w)
run-Refused digests codecs cs w id n a all h =
    late-Refused digests codecs id n _ _ refl
      (run-TriedAtLeast digests codecs cs w id (n + 1) a all h)
