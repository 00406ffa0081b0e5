-- ===== src/Tests/Jobs.antt =====
-- domain/job.go at fixed inputs.
use nexus_local.Prelude.{ℕ, ◌+◌, [], ◌≡◌, refl, none, some}
use nexus_local.Result.{ok, err, invalid_state_transition}
use nexus_local.Text.{Text, text, trim_space, is_space}
use nexus_local.Clock.{or_now}
use nexus_local.Domain.Ids.{empty_id}
use nexus_local.Domain.Job.{
  Job, JobCreate, JobState, document_ingestion, queued, running, retrying, succeeded, failed,
  can_transition, new_job, transition, fail, failure_message,
}
use nexus_local.Domain.Job.Life.{
  Reach, here, and, moved, IsConsistent, SameJob, life-IsConsistent, final_absorbs, Reach-SameJob,
}
use nexus_local.Domain.Job.Progress.{starts, attempts-starts, open_can_succeed}

abbrev input : JobCreate
input = record {
  id = text "job_123";
  tenant_id = text "tenant_123";
  type = document_ingestion;
  resource_type = text "document";
  resource_id = text "doc_123";
  now = 100;
}

-- The job of `input` in some state.
abbrev job : JobState → ℕ → Text → ℕ → Job
job state attempts message updated = record {
  id = text "job_123";
  tenant_id = text "tenant_123";
  type = document_ingestion;
  resource_type = text "document";
  resource_id = text "doc_123";
  state = state;
  attempts = attempts;
  error_message = message;
  result_json = [];
  created_at = 100;
  updated_at = updated;
}

abbrev fresh : Job
fresh = job queued 0 [] 100

created : new_job 5 input ≡ ok fresh
unfolding new_job empty_id trim_space is_space or_now
created = refl

run : Reach fresh (job running 2 [] 30)
unfolding transition can_transition or_now
run =
    and (and (and here (moved running 10 5 refl)) (moved retrying 20 5 refl))
      (moved running 30 5 refl)

broken :
    fail (job running 1 [] 10) (some (text " disk full ")) 0 7
    ≡ ok (job failed 1 (text "disk full") 7)
unfolding fail transition can_transition failure_message trim_space is_space or_now
broken = refl

life-IsConsistent_example : IsConsistent (job running 2 [] 30)
life-IsConsistent_example = life-IsConsistent 5 input fresh (job running 2 [] 30) created run

final_absorbs_example :
    (transition (job succeeded 1 [] 9) running 10 5 ≡ err invalid_state_transition)
    × (fail (job succeeded 1 [] 9) none 10 5 ≡ err invalid_state_transition)
final_absorbs_example = final_absorbs (job succeeded 1 [] 9) running none 10 5 refl

Reach-SameJob_example : SameJob fresh (job running 2 [] 30)
Reach-SameJob_example = Reach-SameJob run

attempts-starts_example : 2 ≡ starts run + 0
attempts-starts_example = attempts-starts run

open_can_succeed_example : (k : Job) × Reach (job retrying 1 [] 20) k × (k.state ≡ succeeded)
open_can_succeed_example = open_can_succeed (job retrying 1 [] 20) 30 5 refl
