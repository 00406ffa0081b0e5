-- ===== src/Domain/Job/Life.antt =====
-- job.go: the life of a job, as a sequence of transitions.
use nexus_local.Prelude.{◌≤◌, [], Bool, true, false, ◌≡◌, ◌≢◌, ◌∙◌, refl, Option, arith}
use nexus_local.Result.{ok, err, invalid_state_transition}
use nexus_local.Text.{Text}
use nexus_local.Clock.{Time}
use nexus_local.Domain.Job.{
  Job, JobCreate, JobState, queued, running, retrying, succeeded, failed, canceled, other_state,
  new_job, transition, fail,
}

-- One call of `Transition` or `Fail` that succeeds.
pub data Step (j k : Job) : Type 0 where
  moved : (target : JobState) (now wall : Time) → transition j target now wall ≡ ok k → Step j k
  broke : (cause : Option Text) (now wall : Time) → fail j cause now wall ≡ ok k → Step j k

pub data Reach (j : Job) : Job → Type 0 where
  here : Reach j j
  and : {k l : Job} → Reach j k → Step k l → Reach j l

-- Work has been attempted in each of these states.
abbrev pub was_attempted : JobState → Bool
was_attempted running = true
was_attempted retrying = true
was_attempted succeeded = true
was_attempted failed = true
was_attempted _ = false

-- No error is shown in these states.
abbrev pub shows_no_error : JobState → Bool
shows_no_error queued = true
shows_no_error running = true
shows_no_error succeeded = true
shows_no_error _ = false

pub record IsConsistent (j : Job) : Type 0 where
  pub attempted : was_attempted j.state ≡ true → 1 ≤ j.attempts
  pub no_error : shows_no_error j.state ≡ true → j.error_message ≡ []
  pub known : (t : Text) → j.state ≢ other_state t

new_job-IsConsistent :
    (wall : Time) (input : JobCreate) (j : Job) → new_job wall input ≡ ok j → IsConsistent j
unfolding new_job
new_job-IsConsistent wall input j h = record {
  attempted = λ e. ground (arith, h);
  no_error = λ e. ground (arith, h);
  known = λ t e. ground (arith, h);
}

transition-IsConsistent :
    (j k : Job) (target : JobState) (now wall : Time)
    → transition j target now wall ≡ ok k
    → IsConsistent j
    → IsConsistent k
unfolding transition
transition-IsConsistent j k target now wall h c = record {
  attempted = λ e. ground (arith, h);
  no_error = λ e. ground (arith, h);
  known = λ t e. ground (arith, h);
}

fail-IsConsistent :
    (j k : Job) (cause : Option Text) (now wall : Time)
    → fail j cause now wall ≡ ok k
    → IsConsistent j
    → IsConsistent k
unfolding fail
fail-IsConsistent j k cause now wall h c = record {
  attempted = λ e. ground (arith, h);
  no_error = λ e. ground (arith, h);
  known = λ t e. ground (arith, h);
}

Step-IsConsistent : {j k : Job} → Step j k → IsConsistent j → IsConsistent k
Step-IsConsistent {j} {k} (moved target now wall e) c =
    transition-IsConsistent j k target now wall e c
Step-IsConsistent {j} {k} (broke cause now wall e) c = fail-IsConsistent j k cause now wall e c

Reach-IsConsistent : {j k : Job} → Reach j k → IsConsistent j → IsConsistent k
Reach-IsConsistent here c = c
Reach-IsConsistent (and r s) c = Step-IsConsistent s (Reach-IsConsistent r c)

-- Whatever calls of Transition and Fail follow NewJob, the job has a declared state, a job that is
-- running, retrying, succeeded or failed has been attempted, and a job that is queued, running or
-- succeeded shows no error message.
pub life-IsConsistent :
    (wall : Time) (input : JobCreate) (j k : Job)
    → new_job wall input ≡ ok j
    → Reach j k
    → IsConsistent k
life-IsConsistent wall input j k e r = Reach-IsConsistent r (new_job-IsConsistent wall input j e)

abbrev pub is_final : JobState → Bool
is_final succeeded = true
is_final failed = true
is_final canceled = true
is_final _ = false

-- A job that succeeded, failed or was canceled is never changed again: every call of Transition and
-- of Fail, to whatever state and with whatever cause, returns ErrInvalidStateTransition.
pub final_absorbs :
    (j : Job) (target : JobState) (cause : Option Text) (now wall : Time)
    → is_final j.state ≡ true
    → (transition j target now wall ≡ err invalid_state_transition)
      × (fail j cause now wall ≡ err invalid_state_transition)
unfolding transition fail
final_absorbs j target cause now wall h = ground arith

-- What a job keeps for life.
pub record SameJob (j k : Job) : Type 0 where
  pub id : k.id ≡ j.id
  pub tenant_id : k.tenant_id ≡ j.tenant_id
  pub type : k.type ≡ j.type
  pub resource_type : k.resource_type ≡ j.resource_type
  pub resource_id : k.resource_id ≡ j.resource_id
  pub created_at : k.created_at ≡ j.created_at

pub transition-SameJob :
    (j k : Job) (target : JobState) (now wall : Time)
    → transition j target now wall ≡ ok k
    → SameJob j k
unfolding transition
transition-SameJob j k target now wall h = ground arith

pub fail-SameJob :
    (j k : Job) (cause : Option Text) (now wall : Time) → fail j cause now wall ≡ ok k → SameJob j k
unfolding fail
fail-SameJob j k cause now wall h = ground arith

SameJob-trans : {j k l : Job} → SameJob j k → SameJob k l → SameJob j l
SameJob-trans p q = record {
  id = q.id ∙ p.id;
  tenant_id = q.tenant_id ∙ p.tenant_id;
  type = q.type ∙ p.type;
  resource_type = q.resource_type ∙ p.resource_type;
  resource_id = q.resource_id ∙ p.resource_id;
  created_at = q.created_at ∙ p.created_at;
}

Step-SameJob : {j k : Job} → Step j k → SameJob j k
Step-SameJob {j} {k} (moved target now wall e) = transition-SameJob j k target now wall e
Step-SameJob {j} {k} (broke cause now wall e) = fail-SameJob j k cause now wall e

-- No sequence of transitions changes a job's id, tenant, type, resource or time of creation.
pub Reach-SameJob : {j k : Job} → Reach j k → SameJob j k
Reach-SameJob here = record {
  id = refl;
  tenant_id = refl;
  type = refl;
  resource_type = refl;
  resource_id = refl;
  created_at = refl;
}
Reach-SameJob (and r s) = SameJob-trans (Reach-SameJob r) (Step-SameJob s)
