-- ===== src/Worker/Scans.antt =====
-- source_scan.go: what a scan keeps in the repositories around its walk of the files. The walk itself is
-- not modelled.
use nexus_local.Prelude.{
  ℕ, ◌+◌, ℤ, pos, List, [], ◌∷◌, ◌++◌, Bool, true, false, not, ◌||◌, Option, none, some,
  if◌then◌else◌,
}
use nexus_local.Result.{Error, Result, ok, err, not_found, canceled, other_error, reject_if}
use nexus_local.Action.{Action, Context, pure, lift, attempt, ◌>>=◌}
use nexus_local.Text.{Text, text, text_Eq, text_eq, is_empty, has_prefix}
use nexus_local.Clock.{Time}
use nexus_local.Domain.Ids.{TenantId, JobId, DocumentId}
use nexus_local.Domain.DataSource.{
  DataSource, DataSourceScanEntry, DataSourceScanOutcome, imported, skipped, scan_failed,
  scan_deleted, new_data_source_scan_entry, is_archived, is_scanning, fail_scan, cancel_scan,
}
use nexus_local.Domain.Job.{Job, JobState}
use nexus_local.Domain.Job
use nexus_local.Store.{Store}
use nexus_local.Store.Sources.{
  get_data_source, save_data_source, list_data_source_scan_entries, save_data_source_scan_entry,
}
use nexus_local.Store.Jobs.{get_job}
use nexus_local.World.{World, in_store}
use nexus_local.App.Documents.{DocumentService, delete_document}
use nexus_local.Domain.Patterns.{member}

-- The counts of SourceScanResult that a source and its job are given.
pub record ScanCounts : Type 0 where
  pub imported_count : ℕ
  pub skipped_count : ℕ
  pub deleted_count : ℕ
  pub failed_count : ℕ

unfoldable pub is_active_source_file_entry : DataSourceScanEntry → Bool
is_active_source_file_entry e =
    if is_empty e.document_id || is_empty e.content_hash then false else elim e.outcome [
      | imported ↦ true
      | skipped ↦ text_eq e.reason (text "unchanged")
      | _ ↦ false
    ]

-- The loop of activeSourceFileEntries, with the paths that it has seen; the newest entry comes first.
unfoldable pub active_entries : List Text → List DataSourceScanEntry → List DataSourceScanEntry
unfolding is_active_source_file_entry
active_entries paths [] = []
active_entries paths (e ∷ rest) =
    let again = active_entries paths rest in
    let later = active_entries (e.path ∷ paths) rest in
    if member e.path paths
    then again
    else if is_active_source_file_entry e
    then e ∷ later
    else later

unfoldable pub active_source_file_entries :
    Context → DataSource → Action Store (List DataSourceScanEntry)
unfolding active_entries
active_source_file_entries ctx source = do
  entries ← list_data_source_scan_entries ctx source.tenant_id source.id (pos 0)
  pure (active_entries [] entries)

unfoldable pub path_under_skipped_directory : Text → List Text → Bool
path_under_skipped_directory path [] = false
path_under_skipped_directory path (prefix ∷ rest) =
    has_prefix path prefix || path_under_skipped_directory path rest

-- job.State == domain.JobStateCanceled
abbrev pub is_canceled : JobState → Bool
is_canceled Job.canceled = true
is_canceled _ = false

-- `canceled` stands for ErrSourceScanCanceled.
unfoldable pub ensure_source_scan_not_canceled :
    Context → TenantId → JobId → Action Store (Unit {0})
ensure_source_scan_not_canceled ctx tenant id = do
  job ← get_job ctx tenant id
  lift (reject_if (is_canceled job.state) canceled)

module _ (wall : Time) (ctx : Context) where
  unfoldable pub record_scan_entry :
      DataSource
      → JobId
      → Text
      → DataSourceScanOutcome
      → Text
      → Text
      → DocumentId
      → ℤ
      → Text
      → Time
      → Action Store (Unit {0})
  record_scan_entry source job_id path outcome reason message document_id size hash now = do
    entry ← lift (
        new_data_source_scan_entry wall (record {
          tenant_id = source.tenant_id;
          job_id = job_id;
          source_id = source.id;
          path = path;
          outcome = outcome;
          reason = reason;
          message = message;
          document_id = document_id;
          size_bytes = size;
          content_hash = hash;
          created_at = now;
        }))
    save_data_source_scan_entry ctx entry

  unfoldable pub mark_source_failed : DataSource → ScanCounts → Time → Action Store (Unit {0})
  mark_source_failed source counts now = do
    latest ← get_data_source ctx source.tenant_id source.id
    if is_archived latest.status then pure tt else (do
      failed ← lift (
          fail_scan latest (pos counts.imported_count) (pos counts.skipped_count)
            (pos counts.failed_count) now wall)
      save_data_source ctx failed)

  unfoldable pub mark_source_canceled : DataSource → Time → Action Store (Unit {0})
  mark_source_canceled source now = do
    latest ← get_data_source ctx source.tenant_id source.id
    if not (is_scanning latest.status)
        then pure tt
        else (do stopped ← lift (cancel_scan latest now wall); save_data_source ctx stopped)

-- err != nil && !errors.Is(err, store.ErrNotFound)
abbrev pub is_trouble : {A : Type 0} → Result A → Option Error
is_trouble (ok a) = none
is_trouble (err not_found) = none
is_trouble (err e) = some e

-- One file of the last scan is gone: its document is deleted, and the scan says so. `describe` is the
-- text of an error; the clock is asked at the deletion and at the entry.
module _ {O V : Type 0} (service : DocumentService O V) (describe : Error → Text) (ctx : Context)
    (source : DataSource) (job_id : JobId) (delete_now entry_now : DataSourceScanEntry → Time) where
  -- A scan keeps its counts where it returns an error.
  abbrev pub with_error :
      ScanCounts → Option Error → Result (Unit {0}) → Action (World O V) (ScanCounts × Option Error)
  with_error counts e (ok u) = pure (counts, e)
  with_error counts e (err x) = pure (counts, some x)

  abbrev pub record_gone :
      DataSourceScanEntry
      → ScanCounts
      → Option Error
      → Action (World O V) (ScanCounts × Option Error)
  record_gone e counts (some x) =
      attempt
        (in_store (
          record_scan_entry service.wall ctx source job_id e.path scan_failed
            (text "delete_missing_failed") (describe x) e.document_id e.size_bytes e.content_hash
            (entry_now e)))
        (with_error (record counts { failed_count = counts.failed_count + 1 }) (some other_error))
  record_gone e counts none =
      attempt
        (in_store (
          record_scan_entry service.wall ctx source job_id e.path scan_deleted (text "missing")
            (text "source file no longer exists; deleted document " ++ e.document_id) e.document_id
            e.size_bytes e.content_hash (entry_now e)))
        (with_error
          (record counts {
            skipped_count = counts.skipped_count + 1;
            deleted_count = counts.deleted_count + 1;
          })
          none)

  abbrev pub unless_stopped :
      (ScanCounts → Action (World O V) (ScanCounts × Option Error))
      → ScanCounts × Option Error
      → Action (World O V) (ScanCounts × Option Error)
  unless_stopped next (counts, none) = next counts
  unless_stopped next (counts, some e) = pure (counts, some e)

  -- The entries of the last scan, in the order of one iteration.
  unfoldable pub reconcile_deleted_source_files :
      List DataSourceScanEntry
      → List Text
      → List Text
      → ScanCounts
      → Action (World O V) (ScanCounts × Option Error)
  reconcile_deleted_source_files [] seen skipped_prefixes counts = pure (counts, none)
  reconcile_deleted_source_files (e ∷ rest) seen skipped_prefixes counts =
      if member e.path seen || path_under_skipped_directory e.path skipped_prefixes
      then reconcile_deleted_source_files rest seen skipped_prefixes counts
      else (do
        r ←
            attempt (delete_document service ctx source.tenant_id e.document_id (delete_now e))
              (λ r. record_gone e counts (is_trouble r))
        unless_stopped (reconcile_deleted_source_files rest seen skipped_prefixes) r)
