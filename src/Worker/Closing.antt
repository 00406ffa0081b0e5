-- ===== src/Worker/Closing.antt =====
-- The end of ProcessNext, which every worker has: the job that was claimed is closed.
use nexus_local.Prelude.{[], ◌≡◌, refl, none, some}
use nexus_local.Result.{Error, Result, ok, err}
use nexus_local.Text.{Text, text_Eq}
use nexus_local.Clock.{Time, or_now}
use nexus_local.Map
use nexus_local.Domain.Job.{
  Job, running, succeeded, failed, canceled, transition, can_transition, fail, failure_message,
}
use nexus_local.Store.{Store, key_Eq, job_key}
use nexus_local.Store.Jobs.{save_job}
use nexus_local.Worker.{Claimed, processed, withdrawn, close, settle}

-- The state and the message that a job ends with.
abbrev pub IsEnd : {R : Type 0} → (Error → Text) → Result (Claimed R) → Job → Type 0
IsEnd describe (ok (processed r)) job = job.state ≡ succeeded
IsEnd describe (ok (withdrawn r)) job = job.state ≡ canceled
IsEnd describe (err e) job =
    (job.state ≡ failed) × (job.error_message ≡ failure_message (some (describe e)))

abbrev pub result_of : {R : Type 0} → Result (Claimed R) → Result R
result_of (ok (processed r)) = ok r
result_of (ok (withdrawn r)) = ok r
result_of (err e) = err e

-- The store keeps the job under its key, closed; nothing else in it has changed.
pub record IsClosed {R : Type 0} (describe : Error → Text) (job : Job) (c : Result (Claimed R))
    (s : Store) (q : Result R × Store) : Type 0 where
  pub closed : Job
  pub end : IsEnd describe c closed
  pub key : job_key closed ≡ job_key job
  pub attempts : closed.attempts ≡ job.attempts
  pub outcome : q ≡ (result_of c, record s { jobs = Map.put s.jobs (job_key job) closed })

pub settle-IsClosed :
    {R : Type 0} (describe : Error → Text) (now wall : Time) (job : Job) (c : Result (Claimed R))
    (s : Store)
    → job.state ≡ running
    → IsClosed describe job c s (settle describe none now wall job c s)
unfolding settle close transition can_transition save_job fail
settle-IsClosed describe now wall job (ok (processed r)) s h = record {
  closed = record job { error_message = []; state = succeeded; updated_at = or_now wall now };
  end = refl;
  key = refl;
  attempts = refl;
  outcome = rw h refl;
}
settle-IsClosed describe now wall job (ok (withdrawn r)) s h = record {
  closed = record job { state = canceled; updated_at = or_now wall now };
  end = refl;
  key = refl;
  attempts = refl;
  outcome = rw h refl;
}
settle-IsClosed describe now wall job (err e) s h = record {
  closed = record job {
    error_message = failure_message (some (describe e));
    state = failed;
    updated_at = or_now wall now;
  };
  end = (refl, refl);
  key = refl;
  attempts = refl;
  outcome = rw h refl;
}
