-- ===== src/App/DataSources/Sweeps.antt =====
-- app/data_sources.go: what is done to all documents of a source: archiving the source with them,
-- indexing them again, and trying the failed ones again.
use nexus_local.Prelude.{ℕ, ◌+◌, List, [], ◌∷◌, ◌++◌, Bool, not, ◌||◌, if◌then◌else◌, length}
use nexus_local.Result.{invalid_state_transition, reject_if}
use nexus_local.Action.{Action, Context, live, pure, lift, ◌>>=◌, attempt}
use nexus_local.Clock.{Time}
use nexus_local.Domain.Ids.{TenantId, DataSourceId, DocumentId, JobId}
use nexus_local.Domain.Document.{Document, is_deleted, is_failed}
use nexus_local.Domain.Job.{Job, source_scan}
use nexus_local.Domain.DataSource.{DataSource, archived, is_archived, transition}
use nexus_local.World.{World, in_store}
use nexus_local.Store.{Store}
use nexus_local.Store.Sources.{get_data_source, save_data_source}
use nexus_local.Store.Documents.{get_document}
use nexus_local.Store.Jobs.{save_job, list_jobs}
use nexus_local.App.Jobs.{max_job_list_limit}
use nexus_local.App.Documents.{
  DocumentService, require_ids, has_active_document_ingestion_job, new_ingestion_job,
  delete_document,
}
use nexus_local.App.DataSources.{active_document_ids_for_source, if_found}
use nexus_local.App.DataSources.Requests.{has_active}

pub record DataSourceResult : Type 0 where
  pub source : DataSource
  pub deleted_document_count : ℕ

-- ReindexDataSourceResult and RetryFailedDataSourceDocumentsResult
pub record QueuedDocuments : Type 0 where
  pub source : DataSource
  pub jobs : List Job
  pub skipped_document_count : ℕ

module _ {O V : Type 0} (service : DocumentService O V) where
  -- The loop of Archive over the documents; the n-th deletion takes place at `clock n`.
  unfoldable pub delete_documents :
      Context → TenantId → (ℕ → Time) → List DocumentId → ℕ → Action (World O V) ℕ
  delete_documents ctx tenant clock [] n = pure n
  delete_documents ctx tenant clock (id ∷ rest) n =
      attempt (in_store (get_document ctx tenant id)) (
        if_found (delete_documents ctx tenant clock rest n) λ document.
          if is_deleted document.status then delete_documents ctx tenant clock rest n else (do
            _ ← delete_document service ctx tenant id (clock n)
            delete_documents ctx tenant clock rest (n + 1)))

  -- `if input.DeleteDocuments { … }`
  unfoldable pub delete_source_documents :
      Context → DataSource → TenantId → (ℕ → Time) → Action (World O V) ℕ
  unfolding delete_documents
  delete_source_documents ctx source tenant clock = do
    jobs ← in_store (list_jobs ctx tenant max_job_list_limit)
    _ ← lift (reject_if (has_active jobs source.id source_scan) invalid_state_transition)
    ids ← in_store (active_document_ids_for_source ctx source)
    delete_documents ctx source.tenant_id clock ids 0

  -- The end of Archive: a source that is archived already is left as it is.
  unfoldable pub put_away : Context → DataSource → Time → Action (World O V) DataSource
  put_away ctx source now = if is_archived source.status then pure source else (do
    moved ← lift (transition source archived now service.wall)
    _ ← in_store (save_data_source ctx moved)
    pure moved)

  unfoldable pub archive :
      Context
      → TenantId
      → DataSourceId
      → Bool
      → (ℕ → Time)
      → Time
      → Action (World O V) DataSourceResult
  unfolding delete_source_documents put_away
  archive ctx tenant id with_documents clock now = live ctx do
    _ ← lift (require_ids tenant id)
    source ← in_store (get_data_source ctx tenant id)
    deleted ← if with_documents then delete_source_documents ctx source tenant clock else pure 0
    moved ← put_away ctx source now
    pure (record { source = moved; deleted_document_count = deleted })

-- The loop of RequestReindex and of RequestRetryFailedDocuments: the documents that are queued, and how
-- many were skipped. The n-th job has the identifier `fresh n` and the time `clock n`.
unfoldable pub queue_documents :
    Time
    → Context
    → TenantId
    → (ℕ → JobId)
    → (ℕ → Time)
    → (Document → Bool)
    → List Job
    → List DocumentId
    → List Job
    → ℕ
    → Action Store (List Job × ℕ)
queue_documents wall ctx tenant fresh clock is_skipped jobs [] queued skipped =
    pure (queued, skipped)
queue_documents wall ctx tenant fresh clock is_skipped jobs (id ∷ rest) queued skipped =
    attempt (get_document ctx tenant id) (
      if_found
        (queue_documents wall ctx tenant fresh clock is_skipped jobs rest queued (skipped + 1))
        λ document.
          if is_skipped document || has_active_document_ingestion_job jobs document.id
          then queue_documents wall ctx tenant fresh clock is_skipped jobs rest queued (skipped + 1)
          else (do
            job ←
                lift
                  (new_ingestion_job wall (fresh (length queued)) document (clock (length queued)))
            _ ← save_job ctx job
            queue_documents wall ctx tenant fresh clock is_skipped jobs rest (queued ++ job ∷ [])
                skipped))

-- RequestReindex and RequestRetryFailedDocuments differ in the documents that they skip.
unfoldable pub request_documents :
    (Document → Bool)
    → Time
    → Context
    → TenantId
    → DataSourceId
    → (ℕ → JobId)
    → (ℕ → Time)
    → Action Store QueuedDocuments
unfolding queue_documents
request_documents is_skipped wall ctx tenant id fresh clock = live ctx do
  _ ← lift (require_ids tenant id)
  source ← get_data_source ctx tenant id
  _ ← lift (reject_if (is_archived source.status) invalid_state_transition)
  jobs ← list_jobs ctx tenant max_job_list_limit
  _ ← lift (reject_if (has_active jobs source.id source_scan) invalid_state_transition)
  ids ← active_document_ids_for_source ctx source
  result ← queue_documents wall ctx source.tenant_id fresh clock is_skipped jobs ids [] 0
  pure (record { source = source; jobs = result.0; skipped_document_count = result.1 })

unfoldable pub request_reindex :
    Time
    → Context
    → TenantId
    → DataSourceId
    → (ℕ → JobId)
    → (ℕ → Time)
    → Action Store QueuedDocuments
unfolding request_documents
request_reindex = request_documents (λ d. is_deleted d.status)

unfoldable pub request_retry_failed_documents :
    Time
    → Context
    → TenantId
    → DataSourceId
    → (ℕ → JobId)
    → (ℕ → Time)
    → Action Store QueuedDocuments
unfolding request_documents
request_retry_failed_documents = request_documents (λ d. not (is_failed d.status))
