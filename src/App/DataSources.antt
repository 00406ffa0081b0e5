-- ===== src/App/DataSources.antt =====
-- internal/app/data_sources.go: sources, their scans and their documents. The identifiers that the
-- generator returns and the times that the clock returns are arguments; a loop takes the n-th of them
-- in its n-th round.
pub mod Requests
pub mod Sweeps
use nexus_local.Prelude.{
  ℕ, ◌+◌, List, [], ◌∷◌, ◌++◌, Bool, true, false, not, ◌&&◌, ◌||◌, ltb, Option, none, some,
  if◌then◌else◌, ℤ, pos, is_negative, keep, length,
}
use nexus_local.Result.{Result, ok, err, invalid_entity, not_found, reject_if}
use nexus_local.Action.{
  Action, Context, live, pure, raise, lift, ◌>>=◌, continue, attempt, on_result,
}
use nexus_local.Text.{Text, text, text_eq, is_empty, text_Eq}
use nexus_local.Clock.{Time}
use nexus_local.Map
use nexus_local.Map.{Map}
use nexus_local.Domain.Ids.{TenantId, DataSourceId, DocumentId, JobId, empty_id}
use nexus_local.Domain.Document.{Document, is_failed}
use nexus_local.Domain.Job.{Job}
use nexus_local.Domain.DataSource.{
  DataSource, DataSourceCreate, DataSourceScanEntry, DataSourceScanOutcome, imported, skipped,
  scan_failed, scan_deleted, valid_outcome, is_archived, new_data_source,
}
use nexus_local.Domain.DataSource
use nexus_local.Domain.Patterns.{member}
use nexus_local.Store.{Store}
use nexus_local.Store.Sources.{
  ScanEntryPage, save_data_source, get_data_source, list_data_sources,
  list_data_source_scan_entries, list_data_source_scan_entry_page, is_any,
}
use nexus_local.Store.Documents.{get_document}
use nexus_local.Store.Jobs.{list_jobs}
use nexus_local.App.Jobs.{max_job_list_limit, normalize_limit}
use nexus_local.App.Documents.{require_ids, is_related}

pub record DataSourceDetailInput : Type 0 where
  pub tenant_id : TenantId
  pub data_source_id : DataSourceId
  pub scan_entry_limit : ℤ
  pub scan_entry_offset : ℤ
  pub scan_entry_outcome : DataSourceScanOutcome

pub record DataSourceScanSummary : Type 0 where
  pub total : ℕ
  pub imported : ℕ
  pub skipped : ℕ
  pub failed : ℕ
  pub deleted : ℕ
  pub latest_job_id : JobId
  pub latest_at : Time
  pub reasons : Map Text ℕ

pub record DataSourceDetailResult : Type 0 where
  pub source : DataSource
  pub jobs : List Job
  pub scan_summary : DataSourceScanSummary
  pub scan_page : ScanEntryPage
  pub failed_documents : ℕ

pub record ExportDataSourceScanEntriesResult : Type 0 where
  pub source : DataSource
  pub entries : List DataSourceScanEntry
  pub total : ℕ
  pub truncated : Bool

unfoldable pub normalize_scan_entry_limit : ℤ → ℤ
normalize_scan_entry_limit = normalize_limit 100 500

-- The argument has the fields of CreateDataSourceInput, the new identifier and the time.
unfoldable pub create : Time → Context → DataSourceCreate → Action Store DataSource
create wall ctx input =
    live ctx
      do source ← lift (new_data_source wall input); _ ← save_data_source ctx source; pure source

-- The argument has the fields of UpdateDataSourceInput and the time.
unfoldable pub update : Time → Context → DataSourceCreate → Action Store DataSource
update wall ctx input = live ctx do
  source ← get_data_source ctx input.tenant_id input.id
  changed ← lift (DataSource.update source input wall)
  _ ← save_data_source ctx changed
  pure changed

-- summary.Reasons[reason]++
unfoldable pub count_reason : Text → Map Text ℕ → Map Text ℕ
count_reason reason reasons =
    if is_empty reason
    then reasons
    else Map.put reasons reason (elim (Map.get reasons reason) [ none ↦ 1 | some n ↦ n + 1 ])

abbrev pub count_outcome : DataSourceScanOutcome → DataSourceScanSummary → DataSourceScanSummary
count_outcome imported s = record s { imported = s.imported + 1 }
count_outcome skipped s = record s { skipped = s.skipped + 1 }
count_outcome scan_failed s = record s { failed = s.failed + 1 }
count_outcome scan_deleted s = record s { deleted = s.deleted + 1 }
count_outcome _ s = s

-- One round of the loop of summarizeDataSourceScanEntries, for an entry of the latest job.
unfoldable pub count_entry : DataSourceScanEntry → DataSourceScanSummary → DataSourceScanSummary
unfolding count_reason
count_entry e s =
    let counted = count_outcome e.outcome s in
    record counted {
      total = s.total + 1;
      latest_at = if ltb s.latest_at e.created_at then e.created_at else s.latest_at;
      reasons = count_reason e.reason s.reasons;
    }

unfoldable pub count_entries :
    List DataSourceScanEntry → DataSourceScanSummary → DataSourceScanSummary
unfolding count_entry
count_entries [] s = s
count_entries (e ∷ rest) s =
    count_entries rest (if not (text_eq e.job_id s.latest_job_id) then s else count_entry e s)

abbrev pub no_summary : DataSourceScanSummary
no_summary = record {
  total = 0;
  imported = 0;
  skipped = 0;
  failed = 0;
  deleted = 0;
  latest_job_id = [];
  latest_at = 0;
  reasons = Map.empty;
}

unfoldable pub summarize_data_source_scan_entries : List DataSourceScanEntry → DataSourceScanSummary
unfolding count_entries
summarize_data_source_scan_entries [] = no_summary
summarize_data_source_scan_entries (e ∷ rest) =
    count_entries (e ∷ rest)
      (record no_summary { latest_job_id = e.job_id; latest_at = e.created_at })

unfoldable pub is_active_source_document_entry : DataSourceScanEntry → Bool
is_active_source_document_entry e = if is_empty e.document_id then false else elim e.outcome [
  | imported ↦ true
  | skipped ↦ text_eq e.reason (text "unchanged")
  | _ ↦ false
]

-- The loop of activeDocumentIDsForSource, with the paths and the documents that it has seen.
unfoldable pub active_ids : List Text → List DocumentId → List DataSourceScanEntry → List DocumentId
unfolding is_active_source_document_entry
active_ids paths documents [] = []
active_ids paths documents (e ∷ rest) =
    let again = active_ids paths documents rest in
    let passed = active_ids (e.path ∷ paths) documents rest in
    let taken = e.document_id ∷ active_ids (e.path ∷ paths) (e.document_id ∷ documents) rest in
    if member e.path paths
    then again
    else if not (is_active_source_document_entry e) || member e.document_id documents
    then passed
    else taken

unfoldable pub active_document_ids_for_source :
    Context → DataSource → Action Store (List DocumentId)
active_document_ids_for_source ctx source = do
  entries ← list_data_source_scan_entries ctx source.tenant_id source.id (pos 0)
  pure (active_ids [] [] entries)

-- What a loop over documents does with the result of GetDocument: it goes on with `skip` where the
-- document is not found.
abbrev pub if_found : {S A B : Type 0} → Action S B → (A → Action S B) → Result A → Action S B
if_found skip f (ok a) = f a
if_found skip f (err not_found) = skip
if_found skip f (err e) = raise e

-- The loop of failedDocumentCountForSource
unfoldable pub count_failed : Context → TenantId → List DocumentId → ℕ → Action Store ℕ
count_failed ctx tenant [] n = pure n
count_failed ctx tenant (id ∷ rest) n = attempt (get_document ctx tenant id) (
    if_found (count_failed ctx tenant rest n)
      λ document. count_failed ctx tenant rest (if is_failed document.status then n + 1 else n))

unfoldable pub failed_document_count_for_source : Context → DataSource → Action Store ℕ
failed_document_count_for_source ctx source = do
  ids ← active_document_ids_for_source ctx source
  count_failed ctx source.tenant_id ids 0

-- `if input.ScanEntryOutcome != "" && !input.ScanEntryOutcome.Valid()`
abbrev pub is_bad_outcome : DataSourceScanOutcome → Bool
is_bad_outcome outcome = not (is_any outcome) && not (valid_outcome outcome)

unfoldable pub get : Context → DataSourceDetailInput → Action Store DataSourceDetailResult
get ctx input = live ctx do
  _ ← lift (require_ids input.tenant_id input.data_source_id)
  source ← get_data_source ctx input.tenant_id input.data_source_id
  jobs ← list_jobs ctx input.tenant_id max_job_list_limit
  _ ← lift (reject_if (is_bad_outcome input.scan_entry_outcome) invalid_entity)
  page ← list_data_source_scan_entry_page ctx input.tenant_id source.id (record {
    outcome = input.scan_entry_outcome;
    limit = normalize_scan_entry_limit input.scan_entry_limit;
    offset = if is_negative input.scan_entry_offset then pos 0 else input.scan_entry_offset;
  })
  entries ← list_data_source_scan_entries ctx input.tenant_id source.id (pos 0)
  failed_documents ← failed_document_count_for_source ctx source
  pure (record {
    source = source;
    jobs = keep (is_related (text "data_source") source.id) jobs;
    scan_summary = summarize_data_source_scan_entries entries;
    scan_page = page;
    failed_documents = failed_documents;
  })

unfoldable pub filter_active_data_sources : List DataSource → List DataSource
filter_active_data_sources = keep (λ d. not (is_archived d.status))

unfoldable pub list : Context → TenantId → Bool → Action Store (List DataSource)
list ctx tenant include_archived = live ctx do
  _ ← lift (reject_if (empty_id tenant) invalid_entity)
  sources ← list_data_sources ctx tenant
  pure (if not include_archived then filter_active_data_sources sources else sources)

unfoldable pub export_scan_entries :
    Context
    → TenantId
    → DataSourceId
    → DataSourceScanOutcome
    → Action Store ExportDataSourceScanEntriesResult
export_scan_entries ctx tenant id outcome = live ctx do
  _ ← lift (require_ids tenant id)
  _ ← lift (reject_if (is_bad_outcome outcome) invalid_entity)
  source ← get_data_source ctx tenant id
  page ←
      list_data_source_scan_entry_page ctx tenant source.id
        (record { outcome = outcome; limit = pos 10000; offset = pos 0 })
  pure (record {
    source = source;
    entries = page.entries;
    total = page.total;
    truncated = ltb (length page.entries) page.total;
  })
