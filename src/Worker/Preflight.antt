-- ===== src/Worker/Preflight.antt =====
-- source_preflight.go: the job that checks whether the root of a source can be read. What the file
-- system answers is a parameter.
use nexus_local.Prelude.{[], ◌∷◌, Bool, not, ◌||◌, if◌then◌else◌}
use nexus_local.Result.{Error, Result, other_error, reject_if}
use nexus_local.Action.{Action, Context, pure, lift, attempt, ◌>>=◌}
use nexus_local.Text.{Text, text, text_eq, is_empty}
use nexus_local.Clock.{Time}
use nexus_local.Domain.Ids.{JobId, DataSourceId}
use nexus_local.Domain.DataSource.{is_archived}
use nexus_local.Domain.Job.{Job, source_preflight}
use nexus_local.Store.{Store}
use nexus_local.Store.Sources.{get_data_source}
use nexus_local.Store.Jobs.{claim_next_queued_job, type_eq}
use nexus_local.Worker.{Claimed, processed, withdrawn, settle}

-- `read_root` is preflightSourceRoot; `describe` is the text of an error.
pub record SourcePreflightWorker : Type 0 where
  pub read_root : Text → Result (Unit {0})
  pub describe : Error → Text
  pub wall : Time

pub record SourcePreflightResult : Type 0 where
  pub job_id : JobId
  pub source_id : DataSourceId
  pub path : Text

-- The test that processClaimedJob begins with.
unfoldable pub is_unsupported : Job → Bool
is_unsupported job =
    not (type_eq job.type source_preflight)
    || not (text_eq job.resource_type (text "data_source"))
    || is_empty job.resource_id

module _ (worker : SourcePreflightWorker) (ctx : Context) where
  unfoldable pub process_claimed_job : Job → Action Store (Claimed SourcePreflightResult)
  unfolding is_unsupported
  process_claimed_job job = do
    _ ← lift (reject_if (is_unsupported job) other_error)
    source ← get_data_source ctx job.tenant_id job.resource_id
    let result : SourcePreflightResult = record {
      job_id = job.id;
      source_id = source.id;
      path = source.root_path;
    }
    if is_archived source.status
        then pure (withdrawn result)
        else (do _ ← lift (worker.read_root source.root_path); pure (processed result))

  -- The clock is asked at the claim, and again at the end.
  unfoldable pub process_next : Time → Time → Action Store SourcePreflightResult
  unfolding process_claimed_job
  process_next claim_now end_now = do
    job ← claim_next_queued_job ctx claim_now worker.wall (source_preflight ∷ [])
    attempt (process_claimed_job job) (settle worker.describe ctx end_now worker.wall job)
