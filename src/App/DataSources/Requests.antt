-- ===== src/App/DataSources/Requests.antt =====
-- app/data_sources.go: requests for a scan, a path check and an import plan, and the cancellation of a
-- scan. A request that is refused changes nothing.
pub mod Guards
use nexus_local.Prelude.{
  ℕ, List, [], ◌∷◌, Bool, true, false, not, ◌&&◌, ◌||◌, ltb, Option, none, some, is_some,
  if◌then◌else◌,
}
use nexus_local.Result.{Result, ok, err, invalid_state_transition, reject_if}
use nexus_local.Action.{Action, Context, live, pure, lift, ◌>>=◌, continue}
use nexus_local.Text.{Text, text}
use nexus_local.Clock.{Time}
use nexus_local.Domain.Ids.{TenantId, DataSourceId, JobId}
use nexus_local.Domain.Job.{
  Job, JobType, JobState, source_scan, source_preflight, source_plan, canceled, failed, new_job,
  transition,
}
use nexus_local.Domain.DataSource.{DataSource, is_archived, is_scanning, cancel_scan}
use nexus_local.Store.{Store}
use nexus_local.Store.Sources.{get_data_source, save_data_source}
use nexus_local.Store.Jobs.{save_job, list_jobs}
use nexus_local.App.Jobs.{max_job_list_limit}
use nexus_local.App.Documents.{require_ids, is_active_job_state, is_job_on}

-- ScanDataSourceResult, PreflightDataSourceResult and PlanDataSourceResult
pub record SourceJob : Type 0 where
  pub source : DataSource
  pub job : Job

-- job.State == domain.JobStateFailed
abbrev pub is_failed_job : JobState → Bool
is_failed_job failed = true
is_failed_job _ = false

unfoldable pub is_active_data_source_job : Job → DataSourceId → JobType → Bool
is_active_data_source_job job id type =
    is_job_on type (text "data_source") id job && is_active_job_state job.state

-- activeDataSourceJob
unfoldable pub active_data_source_job : List Job → DataSourceId → JobType → Option Job
active_data_source_job [] id type = none
active_data_source_job (job ∷ rest) id type =
    let later = active_data_source_job rest id type in
    if is_active_data_source_job job id type then some job else later

-- A loop that returns an error at the first job that is active.
unfoldable pub has_active : List Job → DataSourceId → JobType → Bool
has_active [] id type = false
has_active (job ∷ rest) id type = is_active_data_source_job job id type || has_active rest id type

-- !found || job.UpdatedAt.After(latest.UpdatedAt)
abbrev pub is_newer : Job → Option Job → Bool
is_newer job none = true
is_newer job (some latest) = ltb latest.updated_at job.updated_at

-- The loop of latestRelevantDataSourceJob
unfoldable pub latest_from : Option Job → List Job → DataSource → JobType → Option Job
latest_from latest [] source type = latest
latest_from latest (job ∷ rest) source type =
    latest_from
      (if not (is_job_on type (text "data_source") source.id job)
        then latest
        else if ltb job.updated_at source.updated_at
        then latest
        else if is_newer job latest
        then some job
        else latest)
      rest source type

unfoldable pub latest_relevant_data_source_job : List Job → DataSource → JobType → Option Job
unfolding latest_from
latest_relevant_data_source_job jobs source type = latest_from none jobs source type

-- The two errors that RequestScan returns for the latest job of a kind.
abbrev pub is_in_the_way : Option Job → Bool
is_in_the_way none = false
is_in_the_way (some job) = is_active_job_state job.state || is_failed_job job.state

-- Whether each kind of request is refused, for the jobs of the tenant.
unfoldable pub scan_is_refused : List Job → DataSource → Bool
scan_is_refused jobs source =
    has_active jobs source.id source_scan
    || is_in_the_way (latest_relevant_data_source_job jobs source source_preflight)
    || is_in_the_way (latest_relevant_data_source_job jobs source source_plan)

unfoldable pub preflight_is_refused : List Job → DataSource → Bool
preflight_is_refused jobs source = has_active jobs source.id source_preflight

unfoldable pub plan_is_refused : List Job → DataSource → Bool
plan_is_refused jobs source =
    has_active jobs source.id source_plan
    || has_active jobs source.id source_scan
    || has_active jobs source.id source_preflight

-- The call of NewJob that the services make for a source.
unfoldable pub new_source_job : Time → JobId → JobType → DataSource → Time → Result Job
new_source_job wall id type source now = new_job wall (record {
  id = id;
  tenant_id = source.tenant_id;
  type = type;
  resource_type = text "data_source";
  resource_id = source.id;
  now = now;
})

-- The end of the three requests: the job is made and saved.
unfoldable pub queue_job :
    Time → Context → JobType → JobId → Time → DataSource → Action Store SourceJob
queue_job wall ctx type job_id now source = do
  job ← lift (new_source_job wall job_id type source now)
  _ ← save_job ctx job
  pure (record { source = source; job = job })

-- RequestScan, RequestPreflight and RequestPlan differ in the kind of the job and the refusals.
unfoldable pub request :
    (List Job → DataSource → Bool)
    → JobType
    → Time
    → Context
    → TenantId
    → DataSourceId
    → JobId
    → Time
    → Action Store SourceJob
request is_refused type wall ctx tenant id job_id now = live ctx do
  _ ← lift (require_ids tenant id)
  source ← get_data_source ctx tenant id
  _ ← lift (reject_if (is_archived source.status) invalid_state_transition)
  jobs ← list_jobs ctx tenant max_job_list_limit
  _ ← lift (reject_if (is_refused jobs source) invalid_state_transition)
  queue_job wall ctx type job_id now source

unfoldable pub request_scan :
    Time → Context → TenantId → DataSourceId → JobId → Time → Action Store SourceJob
unfolding scan_is_refused
request_scan = request scan_is_refused source_scan

unfoldable pub request_preflight :
    Time → Context → TenantId → DataSourceId → JobId → Time → Action Store SourceJob
unfolding preflight_is_refused
request_preflight = request preflight_is_refused source_preflight

unfoldable pub request_plan :
    Time → Context → TenantId → DataSourceId → JobId → Time → Action Store SourceJob
unfolding plan_is_refused
request_plan = request plan_is_refused source_plan

-- `if !ok { return … }`
abbrev pub or_refuse : Option Job → Result Job
or_refuse none = err invalid_state_transition
or_refuse (some job) = ok job

-- The end of CancelScan: a source that is being scanned leaves that state.
unfoldable pub stop_scanning : Time → Context → DataSource → Time → Action Store DataSource
stop_scanning wall ctx source now =
    if is_scanning source.status
    then (do
      stopped ← lift (cancel_scan source now wall)
      _ ← save_data_source ctx stopped
      pure stopped)
    else pure source

-- CancelScan; the clock is asked for the time of the job, and again for that of the source.
unfoldable pub cancel_source_scan :
    Time → Context → TenantId → DataSourceId → Time → Time → Action Store SourceJob
unfolding stop_scanning
cancel_source_scan wall ctx tenant id job_now source_now = live ctx do
  _ ← lift (require_ids tenant id)
  source ← get_data_source ctx tenant id
  jobs ← list_jobs ctx tenant max_job_list_limit
  job ← lift (or_refuse (active_data_source_job jobs source.id source_scan))
  moved ← lift (transition job canceled job_now wall)
  let stopped = record moved { error_message = text "scan canceled by user" }
  _ ← save_job ctx stopped
  changed ← stop_scanning wall ctx source source_now
  pure (record { source = changed; job = stopped })
