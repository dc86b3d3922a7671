-- ===== src/Jobs/Admit/Tests.antt =====
-- internal/cluster/store.go: a submission that is repeated, and one that is refused.
use context_bridge.Prelude.{ℕ, Bool, true, List, [], ◌∷◌, Result, ok, err, ◌≡◌, refl}
use context_bridge.Text.{codes, text_eq, has, trim_left, trim_space}
use context_bridge.Pipeline.Graph.Edges.{lookup}
use context_bridge.Store.RateLimit.{consume, count_job, window_at}
use context_bridge.Jobs.Records.{Job}
use context_bridge.Jobs.Labels.{bytes, truncate, clean_label}
use context_bridge.Jobs.Queue.{
  put_entry, requeue, enqueue, without_entry, without_index, incremented, add_owned, owned,
}
use context_bridge.Jobs.Tables.{
  World, JobError, tenant_forbidden, save, enqueue_job, job_event, step_event, log_event,
  sequence_of,
}
use context_bridge.Jobs.Prepare.{new_job}
use context_bridge.Jobs.Admit.{
  admit_prepared, admit_new, check_limits, check_room, replayed, save_submission, submission_at,
}
use context_bridge.Jobs.Admit.Replay.{admit_prepared-again}
use context_bridge.Jobs.Tests.Stores.{empty_world, request, limits}

abbrev first : Job
first = new_job (codes "job-1") 100 request

abbrev second : Job
second = new_job (codes "job-2") 200 request

abbrev hash : List ℕ
hash = codes "hash"

abbrev result_or :
    World × (Job × Bool) → Result JobError (World × (Job × Bool)) → World × (Job × Bool)
result_or d (ok r) = r
result_or d (err e) = d

abbrev admitted : World × (Job × Bool)
admitted =
    result_or (empty_world, (first, true))
      (admit_prepared limits 100 (codes "key") hash first empty_world)

admitted_ok : admit_prepared limits 100 (codes "key") hash first empty_world ≡ ok admitted
unfolding admit_prepared admit_new check_limits replayed check_room owned save_submission
    submission_at enqueue_job put_entry requeue enqueue without_entry without_index incremented
    add_owned log_event sequence_of job_event step_event consume count_job window_at lookup text_eq
    save has clean_label trim_space trim_left bytes truncate
admitted_ok = refl

owner_clean : clean_label first.owner_subject 120 ≡ first.owner_subject
unfolding clean_label trim_space trim_left bytes truncate
owner_clean = refl

second_allowed : check_limits limits second ≡ ok tt
unfolding check_limits
second_allowed = refl

admit_prepared-again_example :
    admit_prepared limits 200 (codes "key") hash second admitted.0
    ≡ ok (admitted.0, (admitted.1.0, true))
admit_prepared-again_example =
    admit_prepared-again limits limits 100 200 (codes "key") hash first second empty_world admitted
      refl owner_clean refl second_allowed admitted_ok

foreign_tenant :
    admit_prepared (record limits { allowed_tenants = codes "t" ∷ [] }) 100 [] [] first empty_world
    ≡ err tenant_forbidden
unfolding admit_prepared check_limits has text_eq clean_label trim_space trim_left bytes truncate
foreign_tenant = refl
