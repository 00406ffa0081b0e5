-- ===== src/App/Documents.antt =====
-- internal/app/documents.go: documents, their objects and their ingestion jobs. The identifiers that
-- the generator returns and the times that the clock returns are arguments.
pub mod Upload
use nexus_local.Prelude.{
  ℕ, List, [], ◌∷◌, ◌++◌, Bool, true, false, not, ◌&&◌, ◌||◌, ◌≡◌, Option, none, some, is_some,
  if◌then◌else◌, ℤ, keep,
}
use nexus_local.Result.{
  Result, ok, err, invalid_entity, invalid_state_transition, not_found, object_store_unavailable,
  reject_if,
}
use nexus_local.Action.{Action, Context, live, pure, raise, lift, ◌>>=◌, continue}
use nexus_local.Text.{Text, text, text_eq, is_empty, trim_space, replace_rune}
use nexus_local.Text.Paths.{base}
use nexus_local.Clock.{Time}
use nexus_local.Domain.Ids.{TenantId, UserId, DocumentId, JobId, empty_id}
use nexus_local.Domain.Document.{
  Document, DocumentStatus, deleted, is_deleted, is_failed, new_document, transition,
}
use nexus_local.Domain.Job.{
  Job, JobType, JobState, document_ingestion, queued, running, retrying, new_job,
}
use nexus_local.Ingest.Kinds.{validate_document_type}
use nexus_local.Providers.{Bytes, ObjectInfo, ObjectStore, VectorIndex}
use nexus_local.World.{World, in_store, in_objects, in_vectors}
use nexus_local.Store.Documents.{save_document, get_document}
use nexus_local.Store.Documents
use nexus_local.Store.Jobs.{save_job, list_jobs, type_eq}
use nexus_local.App.Jobs.{max_job_list_limit}

-- `none` is a service that is not configured. `wall` is what `time.Now` returns.
pub record DocumentService (O V : Type 0) : Type 0 where
  pub objects : Option (ObjectStore O)
  pub vectors : Option (VectorIndex V)
  pub case_table : ℕ → ℕ
  pub wall : Time

pub record RegisterDocumentInput : Type 0 where
  pub tenant_id : TenantId
  pub owner_id : UserId
  pub name : Text
  pub storage_key : Text
  pub size_bytes : ℤ

-- RegisterDocumentResult and RetryDocumentResult
pub record DocumentJob : Type 0 where
  pub document : Document
  pub job : Job

pub record UploadDocumentInput : Type 0 where
  pub tenant_id : TenantId
  pub owner_id : UserId
  pub name : Text
  pub content_type : Text
  pub size_bytes : ℤ
  pub body : Result Bytes

pub record DocumentDetailResult : Type 0 where
  pub document : Document
  pub jobs : List Job

pub record DownloadDocumentResult : Type 0 where
  pub document : Document
  pub object : ObjectInfo
  pub body : Bytes

-- The two identifiers of an input are not blank.
abbrev pub require_ids : Text → Text → Result (Unit {0})
require_ids tenant id = reject_if (empty_id tenant || empty_id id) invalid_entity

unfoldable pub safe_file_name : Text → Text
safe_file_name name =
    let file = base (replace_rune b'\\' b'/' (trim_space name)) in
    if text_eq file (text ".") || text_eq file (text "/") || is_empty file
    then text "upload.bin"
    else file

unfoldable pub document_storage_key : TenantId → DocumentId → Text → Text
document_storage_key tenant id name =
    text "tenants/" ++ (tenant ++ (text "/documents/" ++ (id ++ (text "/" ++ safe_file_name name))))

-- validateDocumentType
unfoldable pub validate_type : (ℕ → ℕ) → Text → Text → Result (Unit {0})
validate_type table name content_type =
    if is_empty (trim_space name) then ok tt else validate_document_type table name content_type

-- state == JobStateQueued || state == JobStateRunning || state == JobStateRetrying
abbrev pub is_active_job_state : JobState → Bool
is_active_job_state queued = true
is_active_job_state running = true
is_active_job_state retrying = true
is_active_job_state _ = false

-- job.Type == jobType && job.ResourceType == resourceType && job.ResourceID == id
abbrev pub is_job_on : JobType → Text → Text → Job → Bool
is_job_on type resource_type id job =
    type_eq job.type type && text_eq job.resource_type resource_type && text_eq job.resource_id id

unfoldable pub is_active_document_ingestion_job : Job → DocumentId → Bool
is_active_document_ingestion_job job id =
    is_job_on document_ingestion (text "document") id job && is_active_job_state job.state

unfoldable pub has_active_document_ingestion_job : List Job → DocumentId → Bool
has_active_document_ingestion_job [] id = false
has_active_document_ingestion_job (job ∷ rest) id =
    is_active_document_ingestion_job job id || has_active_document_ingestion_job rest id

-- The call of NewJob that the services make for a document that is to be ingested.
unfoldable pub new_ingestion_job : Time → JobId → Document → Time → Result Job
new_ingestion_job wall id document now = new_job wall (record {
  id = id;
  tenant_id = document.tenant_id;
  type = document_ingestion;
  resource_type = text "document";
  resource_id = document.id;
  now = now;
})

unfoldable pub filter_active_documents : List Document → List Document
filter_active_documents = keep (λ d. not (is_deleted d.status))

-- job.ResourceType == resourceType && job.ResourceID == id
abbrev pub is_related : Text → Text → Job → Bool
is_related resource_type id job =
    text_eq job.resource_type resource_type && text_eq job.resource_id id

module _ {O V : Type 0} (service : DocumentService O V) where
  -- registerDocument
  unfoldable pub register :
      Context → RegisterDocumentInput → DocumentId → JobId → Time → Action (World O V) DocumentJob
  register ctx input document_id job_id now = do
    document ← lift (
        new_document service.wall (record {
          id = document_id;
          tenant_id = input.tenant_id;
          owner_id = input.owner_id;
          name = input.name;
          storage_key = input.storage_key;
          size_bytes = input.size_bytes;
          now = now;
        }))
    job ← lift (
        new_job service.wall (record {
          id = job_id;
          tenant_id = input.tenant_id;
          type = document_ingestion;
          resource_type = text "document";
          resource_id = document.id;
          now = now;
        }))
    _ ← in_store (save_document ctx document)
    _ ← in_store (save_job ctx job)
    pure (record { document = document; job = job })

  unfoldable pub register_document :
      Context → RegisterDocumentInput → DocumentId → JobId → Time → Action (World O V) DocumentJob
  register_document ctx input document_id job_id now = live ctx do
    _ ← lift (validate_type service.case_table input.name [])
    register ctx input document_id job_id now

  -- The call of PutObject, on an object store that is configured.
  abbrev pub put_upload :
      ObjectStore O → Context → UploadDocumentInput → Text → Action (World O V) ObjectInfo
  put_upload objects ctx input key = in_objects (
      objects.put_object ctx (record {
        tenant_id = input.tenant_id;
        key = key;
        body = input.body;
        content_type = input.content_type;
        size_bytes = input.size_bytes;
      }))

  abbrev pub upload_to :
      Option (ObjectStore O)
      → Context
      → UploadDocumentInput
      → DocumentId
      → JobId
      → Time
      → Action (World O V) DocumentJob
  upload_to none ctx input document_id job_id now = raise object_store_unavailable
  upload_to (some objects) ctx input document_id job_id now = do
    info ←
        put_upload objects ctx input (document_storage_key input.tenant_id document_id input.name)
    register ctx
        (record {
          tenant_id = input.tenant_id;
          owner_id = input.owner_id;
          name = input.name;
          storage_key = info.key;
          size_bytes = info.size_bytes;
        })
        document_id job_id now

  unfoldable pub upload_document :
      Context → UploadDocumentInput → DocumentId → JobId → Time → Action (World O V) DocumentJob
  upload_document ctx input document_id job_id now = live ctx do
    _ ← lift (reject_if (is_empty (trim_space input.name)) invalid_entity)
    _ ← lift (validate_type service.case_table input.name input.content_type)
    upload_to service.objects ctx input document_id job_id now

  unfoldable pub list_documents : Context → TenantId → Action (World O V) (List Document)
  list_documents ctx tenant = live ctx do
    _ ← lift (reject_if (empty_id tenant) invalid_entity)
    documents ← in_store (Documents.list_documents ctx tenant)
    pure (filter_active_documents documents)

  unfoldable pub get_document_detail :
      Context → TenantId → DocumentId → Action (World O V) DocumentDetailResult
  get_document_detail ctx tenant id = live ctx do
    _ ← lift (require_ids tenant id)
    document ← in_store (get_document ctx tenant id)
    jobs ← in_store (list_jobs ctx tenant max_job_list_limit)
    pure (record {
      document = document;
      jobs = keep (is_related (text "document") document.id) jobs;
    })

  abbrev pub download_from :
      Option (ObjectStore O)
      → Context
      → TenantId
      → DocumentId
      → Action (World O V) DownloadDocumentResult
  download_from none ctx tenant id = raise object_store_unavailable
  download_from (some objects) ctx tenant id = do
    _ ← lift (require_ids tenant id)
    document ← in_store (get_document ctx tenant id)
    _ ← lift (reject_if (is_deleted document.status) not_found)
    object ← in_objects (objects.get_object ctx document.tenant_id document.storage_key)
    pure (record { document = document; object = object.1; body = object.0 })

  unfoldable pub download_document :
      Context → TenantId → DocumentId → Action (World O V) DownloadDocumentResult
  download_document ctx tenant id = live ctx (download_from service.objects ctx tenant id)

  unfoldable pub retry_document_ingestion :
      Context → TenantId → DocumentId → JobId → Time → Action (World O V) DocumentJob
  retry_document_ingestion ctx tenant id job_id now = live ctx do
    _ ← lift (require_ids tenant id)
    document ← in_store (get_document ctx tenant id)
    _ ← lift (reject_if (not (is_failed document.status)) invalid_state_transition)
    jobs ← in_store (list_jobs ctx tenant max_job_list_limit)
    _ ←
        lift
          (reject_if (has_active_document_ingestion_job jobs document.id) invalid_state_transition)
    job ← lift (new_ingestion_job service.wall job_id document now)
    _ ← in_store (save_job ctx job)
    pure (record { document = document; job = job })

  -- `if s.vectors != nil { … }`
  abbrev pub forget_vectors :
      Option (VectorIndex V) → Context → Document → Action (World O V) (Unit {0})
  forget_vectors none ctx document = pure tt
  forget_vectors (some vectors) ctx document =
      in_vectors (vectors.delete_document ctx document.tenant_id document.id)

  -- `if s.objects != nil { … }`
  abbrev pub forget_object :
      Option (ObjectStore O) → Context → Document → Action (World O V) (Unit {0})
  forget_object none ctx document = pure tt
  forget_object (some objects) ctx document =
      in_objects (objects.delete_object ctx document.tenant_id document.storage_key)

  -- The rest of DeleteDocument, for a document that is not deleted.
  unfoldable pub delete_active : Context → Document → Time → Action (World O V) Document
  delete_active ctx document now = do
    _ ← forget_vectors service.vectors ctx document
    _ ← forget_object service.objects ctx document
    gone ← lift (transition document deleted now service.wall)
    _ ← in_store (save_document ctx gone)
    pure gone

  unfoldable pub delete_document :
      Context → TenantId → DocumentId → Time → Action (World O V) Document
  unfolding delete_active
  delete_document ctx tenant id now = live ctx do
    _ ← lift (require_ids tenant id)
    document ← in_store (get_document ctx tenant id)
    if is_deleted document.status then pure document else delete_active ctx document now
