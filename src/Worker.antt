-- ===== src/Worker.antt =====
-- internal/worker: what all workers do with a job that they have claimed. A worker's own part returns
-- `processed` with its result, `withdrawn` with the result that comes with ErrDocumentDeleted or
-- ErrSourceArchived, or any other error.
pub mod Indexing
pub mod Closing
pub mod Ingestion
pub mod Preflight
pub mod Scheduler
pub mod Batch
pub mod Policy
pub mod Plans
pub mod Scans
use nexus_local.Prelude.{Option, none, some}
use nexus_local.Result.{Error, Result, ok, err}
use nexus_local.Action.{Action, Context, pure, raise, lift, ◌>>=◌, continue}
use nexus_local.Text.{Text}
use nexus_local.Clock.{Time}
use nexus_local.Domain.Job.{Job, JobState, succeeded, canceled, transition, fail}
use nexus_local.Store.{Store}
use nexus_local.Store.Jobs.{save_job}

pub data Claimed (R : Type 0) : Type 0 where
  processed : R → Claimed R
  withdrawn : R → Claimed R

-- job.Transition, then SaveJob
unfoldable pub close : Context → Time → Time → Job → JobState → Action Store (Unit {0})
close ctx now wall job state = do closed ← lift (transition job state now wall); save_job ctx closed

-- What SaveJob leaves of a job that Fail returned; an error of either is dropped.
abbrev pub save_failed : Context → Result Job → Store → Store
save_failed ctx (ok job) s = (save_job ctx job s).1
save_failed ctx (err e) s = s

-- The end of ProcessNext; `describe` is the text of an error.
unfoldable pub settle :
    {R : Type 0}
    → (Error → Text)
    → Context
    → Time
    → Time
    → Job
    → Result (Claimed R)
    → Action Store R
unfolding close
settle describe ctx now wall job (ok (processed result)) = do
  _ ← close ctx now wall job succeeded
  pure result
settle describe ctx now wall job (ok (withdrawn result)) = do
  _ ← close ctx now wall job canceled
  pure result
settle describe ctx now wall job (err e) =
    λ s. (err e, save_failed ctx (fail job (some (describe e)) now wall) s)
