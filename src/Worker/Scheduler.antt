-- ===== src/Worker/Scheduler.antt =====
-- source_scheduler.go: a scan is queued for each source whose time has come. The identifiers that the
-- generator returns are a list, one for each source.
use nexus_local.Prelude.{
  ℕ, ◌+◌, List, [], ◌∷◌, Bool, false, not, ◌&&◌, ◌||◌, Option, none, some, ltb, if◌then◌else◌, ℤ,
  pos, is_nonpositive,
}
use nexus_local.Action.{Action, Context, pure, lift, ◌>>=◌}
use nexus_local.Text.{text}
use nexus_local.Clock.{Time}
use nexus_local.Domain.Ids.{JobId, DataSourceId}
use nexus_local.Domain.DataSource.{DataSource, is_archived, is_scanning, schedule_next_scan}
use nexus_local.Domain.Job.{Job, source_scan, new_job}
use nexus_local.Store.{Store}
use nexus_local.Store.Sources.{get_data_source, save_data_source, list_due_data_sources}
use nexus_local.Store.Jobs.{save_job, list_jobs}
use nexus_local.App.Documents.{is_active_job_state, is_job_on}

pub record SourceScheduleResult : Type 0 where
  pub queued_count : ℕ
  pub skipped_active_count : ℕ

-- source.NextScanAt != nil && !source.NextScanAt.After(now)
abbrev pub has_come : Option Time → Time → Bool
has_come none now = false
has_come (some t) now = not (ltb now t)

unfoldable pub data_source_due_for_scan : DataSource → Time → Bool
data_source_due_for_scan source now =
    not (is_nonpositive source.scan_interval_minutes)
    && has_come source.next_scan_at now
    && not (is_archived source.status)
    && not (is_scanning source.status)

unfoldable pub has_active_source_scan_job : List Job → DataSourceId → Bool
has_active_source_scan_job [] id = false
has_active_source_scan_job (job ∷ rest) id =
    (is_job_on source_scan (text "data_source") id job && is_active_job_state job.state)
    || has_active_source_scan_job rest id

module _ (wall : Time) (ctx : Context) (now : Time) where
  -- The end of one round: the job is saved, and the time of the next scan is set.
  unfoldable pub queue_scan :
      JobId → DataSource → SourceScheduleResult → Action Store SourceScheduleResult
  queue_scan id latest result = do
    job ← lift (
        new_job wall (record {
          id = id;
          tenant_id = latest.tenant_id;
          type = source_scan;
          resource_type = text "data_source";
          resource_id = latest.id;
          now = now;
        }))
    _ ← save_job ctx job
    _ ← save_data_source ctx (schedule_next_scan latest now wall)
    pure (record result { queued_count = result.queued_count + 1 })

  unfoldable pub queue_if_idle :
      JobId → DataSource → SourceScheduleResult → Action Store SourceScheduleResult
  unfolding has_active_source_scan_job queue_scan
  queue_if_idle id latest result = do
    jobs ← list_jobs ctx latest.tenant_id (pos 100)
    if has_active_source_scan_job jobs latest.id
        then pure (record result { skipped_active_count = result.skipped_active_count + 1 })
        else queue_scan id latest result

  -- One round of the loop.
  unfoldable pub queue_due_scan :
      JobId → DataSource → SourceScheduleResult → Action Store SourceScheduleResult
  unfolding data_source_due_for_scan queue_if_idle
  queue_due_scan id source result = do
    latest ← get_data_source ctx source.tenant_id source.id
    if data_source_due_for_scan latest now then queue_if_idle id latest result else pure result

  unfoldable pub queue_each :
      List JobId → List DataSource → SourceScheduleResult → Action Store SourceScheduleResult
  unfolding queue_due_scan
  queue_each (id ∷ ids) (source ∷ sources) result = do
    result' ← queue_due_scan id source result
    queue_each ids sources result'
  queue_each _ _ result = pure result

  unfoldable pub queue_due_scans : List JobId → ℤ → Action Store SourceScheduleResult
  unfolding queue_each
  queue_due_scans ids limit = do
    sources ← list_due_data_sources ctx now (if is_nonpositive limit then pos 25 else limit)
    queue_each ids sources (record { queued_count = 0; skipped_active_count = 0 })
