-- ===== src/App/Documents/Upload.antt =====
-- app/documents.go: what an upload stores, a download returns.
use nexus_local.Prelude.{
  false, ◌≡◌, refl, ap, ◌∙◌, arith, none, some, length, pos, Bool-cases, inl, inr,
}
use nexus_local.Result.{ok, Result-cases}
use nexus_local.Text.{Text, text, text_Eq, is_empty, trim_space}
use nexus_local.Clock.{Time}
use nexus_local.Map
use nexus_local.Domain.Ids.{DocumentId, JobId, empty_id}
use nexus_local.Domain.Document.{uploaded, new_document}
use nexus_local.Domain.Job.{queued, document_ingestion, new_job}
use nexus_local.Store.{key_Eq, document_key, job_key}
use nexus_local.Store.Documents.{save_document, get_document}
use nexus_local.Store.Jobs.{save_job}
use nexus_local.Providers.{Bytes, ObjectPut}
use nexus_local.Providers.Objects.{
  Objects, memory_objects, validate_tenant_key, object_of, info_of, put_object, loaded, get_object,
}
use nexus_local.World.{World}
use nexus_local.App.Documents.{
  DocumentService, RegisterDocumentInput, UploadDocumentInput, DocumentJob, DownloadDocumentResult,
  document_storage_key, validate_type, register, upload_to, upload_document, download_document,
  download_from,
}

-- What registerDocument leaves in the repositories: the document as it was uploaded, and a queued job
-- for it.
pub record IsRegistered {O V : Type 0} (input : RegisterDocumentInput) (id : DocumentId)
    (job_id : JobId) (w w' : World O V) (r : DocumentJob) : Type 0 where
  pub key : document_key r.document ≡ (input.tenant_id, id)
  pub named : (empty_id input.tenant_id ≡ false) × (empty_id id ≡ false)
  pub storage_key : r.document.storage_key ≡ trim_space input.storage_key
  pub fresh : r.document.status ≡ uploaded
  pub job : job_key r.job ≡ (input.tenant_id, job_id)
  pub queued :
      (r.job.state ≡ queued)
      × (r.job.type ≡ document_ingestion)
      × (r.job.resource_type ≡ text "document")
      × (r.job.resource_id ≡ id)
  pub stored : w' ≡ record w {
    store = record w.store {
      documents = Map.put w.store.documents (input.tenant_id, id) r.document;
      jobs = Map.put w.store.jobs (input.tenant_id, job_id) r.job;
    };
  }

module _ {O V : Type 0} (service : DocumentService O V) where
  register-IsRegistered :
      (input : RegisterDocumentInput) (id : DocumentId) (job_id : JobId) (now : Time)
      (w w' : World O V) (r : DocumentJob)
      → register service none input id job_id now w ≡ (ok r, w')
      → IsRegistered input id job_id w w' r
  unfolding register new_document new_job save_document save_job
  register-IsRegistered input id job_id now w w' r h = record {
    key = ground (arith, h);
    named = ground (arith, h);
    storage_key = ground (arith, h);
    fresh = ground (arith, h);
    job = ground (arith, h);
    queued = ground (arith, h);
    stored = ground (arith, h);
  }

  abbrev pub key_of : UploadDocumentInput → DocumentId → Text
  key_of input id = document_storage_key input.tenant_id id input.name

-- The object that the upload puts under the key.
abbrev pub put_of : UploadDocumentInput → DocumentId → ObjectPut
put_of input id = record {
  tenant_id = input.tenant_id;
  key = document_storage_key input.tenant_id id input.name;
  body = input.body;
  content_type = input.content_type;
  size_bytes = input.size_bytes;
}

module _ {V : Type 0} (service : DocumentService Objects V) (wall : Time) where
  -- The world behind the call of PutObject.
  abbrev with_object : UploadDocumentInput → DocumentId → Bytes → World Objects V → World Objects V
  with_object input id bytes w = record w {
    objects = Map.put w.objects (key_of service input id) (object_of wall (put_of input id) bytes);
  }

  abbrev registration : UploadDocumentInput → DocumentId → Bytes → RegisterDocumentInput
  registration input id bytes = record {
    tenant_id = input.tenant_id;
    owner_id = input.owner_id;
    name = input.name;
    storage_key = key_of service input id;
    size_bytes = pos (length bytes);
  }

  upload_to-IsRegistered :
      (input : UploadDocumentInput) (id : DocumentId) (job_id : JobId) (now : Time) (bytes : Bytes)
      (w w' : World Objects V) (r : DocumentJob)
      → input.body ≡ ok bytes
      → upload_to service (some (memory_objects wall)) none input id job_id now w ≡ (ok r, w')
      → (validate_tenant_key input.tenant_id (key_of service input id) ≡ ok tt)
        × IsRegistered (registration input id bytes) id job_id (with_object input id bytes w) w' r
  unfolding memory_objects put_object object_of info_of
  upload_to-IsRegistered input id job_id now bytes w w' r c h =
      elim (Result-cases (validate_tenant_key input.tenant_id (key_of service input id))) [
        | inr (e, p) ↦ absurd (ground (arith, (rw p at h)))
        | inl (u, p) ↦ (
          p,
          register-IsRegistered service (registration input id bytes) id job_id now _ w' r
              (rw (p, c) at h),
        )
      ]

  -- An upload that succeeds has passed its guards.
  upload_document-upload_to :
      (input : UploadDocumentInput) (id : DocumentId) (job_id : JobId) (now : Time)
      (w w' : World Objects V) (r : DocumentJob)
      → upload_document service none input id job_id now w ≡ (ok r, w')
      → upload_to service service.objects none input id job_id now w ≡ (ok r, w')
  unfolding upload_document
  upload_document-upload_to input id job_id now w w' r h =
      elim (Bool-cases (is_empty (trim_space input.name))) [
        | inl e ↦ absurd (ground (arith, (rw e at h)))
        | inr e ↦
            elim (Result-cases (validate_type service.case_table input.name input.content_type)) [
              | inr (x, v) ↦ absurd (ground (arith, (rw (e, v) at h)))
              | inl (x, v) ↦ rw (e, v) at h
            ]
      ]

  upload_document-IsRegistered :
      (input : UploadDocumentInput) (id : DocumentId) (job_id : JobId) (now : Time) (bytes : Bytes)
      (w w' : World Objects V) (r : DocumentJob)
      → service.objects ≡ some (memory_objects wall)
      → input.body ≡ ok bytes
      → upload_document service none input id job_id now w ≡ (ok r, w')
      → (validate_tenant_key input.tenant_id (key_of service input id) ≡ ok tt)
        × IsRegistered (registration input id bytes) id job_id (with_object input id bytes w) w' r
  upload_document-IsRegistered input id job_id now bytes w w' r m c h =
      upload_to-IsRegistered input id job_id now bytes w w' r c (
        coe 0 1 (i. upload_to service (m i) none input id job_id now w ≡ (ok r, w'))
          (upload_document-upload_to input id job_id now w w' r h))

  -- What DownloadDocument returns for the document.
  abbrev pub download_of :
      UploadDocumentInput → DocumentId → Bytes → DocumentJob → DownloadDocumentResult
  download_of input id bytes r = record {
    document = r.document;
    object = info_of (key_of service input id) (object_of wall (put_of input id) bytes);
    body = bytes;
  }

  download_from-registered :
      (input : UploadDocumentInput) (id : DocumentId) (job_id : JobId) (bytes : Bytes)
      (w w' : World Objects V) (r : DocumentJob)
      → validate_tenant_key input.tenant_id (key_of service input id) ≡ ok tt
      → trim_space (key_of service input id) ≡ key_of service input id
      → IsRegistered (registration input id bytes) id job_id (with_object input id bytes w) w' r
      → download_from service (some (memory_objects wall)) none input.tenant_id id w'
        ≡ (ok (download_of input id bytes r), w')
  unfolding memory_objects get_document get_object loaded object_of
  download_from-registered input id job_id bytes w w' r valid trimmed reg =
      let document : Map.get w'.store.documents (input.tenant_id, id) ≡ some r.document =
        ap (λ x. Map.get x.store.documents (input.tenant_id, id)) reg.stored
        ∙ Map.get-put_same w.store.documents (input.tenant_id, id) r.document in
      let object : Map.get w'.objects (key_of service input id)
          ≡ some (object_of wall (put_of input id) bytes) =
        ap (λ x. Map.get x.objects (key_of service input id)) reg.stored
        ∙ Map.get-put_same w.objects (key_of service input id)
            (object_of wall (put_of input id) bytes) in
      let tenant : r.document.tenant_id ≡ input.tenant_id = ap (λ k. k.0) reg.key in
      let keyed : r.document.storage_key ≡ key_of service input id = reg.storage_key ∙ trimmed in
      rw (reg.named.0, reg.named.1, document, reg.fresh, tenant, keyed, valid, object) refl

  -- On the memory object store and under a live context, a document that was uploaded without an
  -- error can be downloaded from the world that the upload left: the download returns the document
  -- that the upload registered and the bytes that its body yielded, and changes nothing. The key of
  -- the object must not end in white space, which the registration would trim.
  pub upload_document-download_document :
      (input : UploadDocumentInput) (id : DocumentId) (job_id : JobId) (now : Time) (bytes : Bytes)
      (w w' : World Objects V) (r : DocumentJob)
      → service.objects ≡ some (memory_objects wall)
      → input.body ≡ ok bytes
      → trim_space (key_of service input id) ≡ key_of service input id
      → upload_document service none input id job_id now w ≡ (ok r, w')
      → download_document service none input.tenant_id id w'
        ≡ (ok (download_of input id bytes r), w')
  unfolding download_document
  upload_document-download_document input id job_id now bytes w w' r m c trimmed h =
      let both = upload_document-IsRegistered input id job_id now bytes w w' r m c h in
      coe 1 0
        (i.
          download_from service (m i) none input.tenant_id id w'
          ≡ (ok (download_of input id bytes r), w'))
        (download_from-registered input id job_id bytes w w' r both.0 trimmed both.1)
