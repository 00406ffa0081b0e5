-- ===== src/Tests/Uploads.antt =====
-- app/documents.go, and the memory object store and vector index, at fixed inputs.
use nexus_local.Prelude.{pos, [], ◌∷◌, ◌≡◌, ◌≢◌, refl, true, none, some, inl, arith}
use nexus_local.Result.{Result, ok, err}
use nexus_local.Text.{Text, text, text_eq, text_Eq, trim_space}
use nexus_local.Clock.{Time}
use nexus_local.Map
use nexus_local.Map.{Map}
use nexus_local.Map.Keyed.{IsKeyed, empty-IsKeyed}
use nexus_local.Domain.Document.{Document, uploaded, new_document}
use nexus_local.Domain.Job.{Job, document_ingestion, queued, new_job}
use nexus_local.Store.{Store, new_store, key_Eq, long_key_Eq}
use nexus_local.Sort.{sort, insert}
use nexus_local.Store.Select.{cut}
use nexus_local.Providers.{Float, Vector, VectorSearch, VectorHit, ObjectPut}
use nexus_local.Providers.Objects.{Objects, memory_objects, put_object, get_object, delete_object}
use nexus_local.Providers.Objects.Scope.{get_object-scoped}
use nexus_local.Providers.Vectors.{
  Vectors, is_candidate, matches_filters, vector_key, insert_vectors, search, delete_document,
}
use nexus_local.Providers.Vectors.Hits.{
  IsHit, insert_vectors-IsKeyed, search-IsHit, delete_document-gone,
}
use nexus_local.World.{World}
use nexus_local.App.Documents.{
  DocumentService, UploadDocumentInput, DocumentJob, upload_document, download_document,
  document_storage_key,
}
use nexus_local.App.Documents.Upload.{download_of, upload_document-download_document}

abbrev service : DocumentService Objects Vectors
service = record {
  objects = some (memory_objects 9);
  vectors = none;
  case_table = λ c. c;
  wall = 9;
}

abbrev input : UploadDocumentInput
input = record {
  tenant_id = text "acme";
  owner_id = text "ann";
  name = text "dir/notes.txt";
  content_type = text "text/plain";
  size_bytes = pos 2;
  body = ok (104 ∷ 105 ∷ []);
}

abbrev world : World Objects Vectors
world = record { store = new_store; objects = Map.empty; vectors = Map.empty }

abbrev job_of : Result DocumentJob → DocumentJob → DocumentJob
job_of (ok r) other = r
job_of (err e) other = other

abbrev put : ObjectPut
put = record {
  tenant_id = text "acme";
  key = text "tenants/acme/x";
  body = ok [];
  content_type = [];
  size_bytes = pos 0;
}

get_object-scoped_example :
    ((get_object none (text "bolt") (text "tenants/bolt/y") (put_object 9 none put Map.empty).1).0
      ≡ (get_object none (text "bolt") (text "tenants/bolt/y") Map.empty).0)
    × ((get_object none
          (text "bolt")
          (text "tenants/bolt/y")
          (delete_object none (text "acme") (text "tenants/bolt/y") Map.empty).1).0
        ≡ (get_object none (text "bolt") (text "tenants/bolt/y") Map.empty).0)
get_object-scoped_example =
    get_object-scoped 9 none none put (text "tenants/bolt/y") (text "tenants/bolt/y") (text "bolt")
      Map.empty (refl, (refl, (refl, (refl, tt)))) (refl, (refl, (refl, (refl, tt))))
      (λ p. ground (arith, p))

abbrev vector : Text → Vector
vector tenant = record {
  tenant_id = tenant;
  document_id = text "doc";
  chunk_id = text "chunk_0000";
  values = [];
  text = text "hello";
  metadata = Map.empty;
}

vectors : Vectors
vectors = insert_vectors (vector (text "acme") ∷ vector (text "bolt") ∷ []) Map.empty

vectors-IsKeyed : IsKeyed vector_key vectors
unfolding vectors
vectors-IsKeyed = insert_vectors-IsKeyed _ Map.empty (empty-IsKeyed vector_key)

abbrev query : VectorSearch
query = record {
  tenant_id = text "acme";
  document_id = [];
  query = [];
  limit = pos 5;
  filters = Map.empty;
}

abbrev hit : VectorHit
hit = record {
  document_id = text "doc";
  chunk_id = text "chunk_0000";
  text = text "hello";
  score = 0;
  metadata = Map.empty;
}

found_one : (search (λ a b. 0) (λ a b. true) none query vectors).0 ≡ ok (hit ∷ [])
unfolding vectors search cut sort Map.values insert_vectors Map.put is_candidate text_eq Map.without
    matches_filters Map.empty insert
found_one = refl

search-IsHit_example : (v : Vector) × IsHit query vectors hit v
search-IsHit_example =
    search-IsHit (λ a b. 0) (λ a b. true) query vectors (hit ∷ []) hit vectors-IsKeyed found_one
      (inl refl)

abbrev other : VectorHit
other = record hit { document_id = text "else" }

others : Vectors
others =
    insert_vectors
      (vector (text "acme") ∷ record (vector (text "acme")) { document_id = text "else" } ∷ [])
      Map.empty

others-IsKeyed : IsKeyed vector_key others
unfolding others
others-IsKeyed = insert_vectors-IsKeyed _ Map.empty (empty-IsKeyed vector_key)

left :
    (search
      (λ a b. 0)
      (λ a b. true)
      none
      query
      (delete_document none (text "acme") (text "doc") others).1).0
    ≡ ok (other ∷ [])
unfolding others search delete_document cut sort Map.values Map.delete_if Map.drop_entries
    insert_vectors Map.put text_eq is_candidate matches_filters Map.empty insert Map.without
left = refl

delete_document-gone_example : other.document_id ≢ text "doc"
delete_document-gone_example =
    delete_document-gone (λ a b. 0) (λ a b. true) (text "acme") (text "doc") query others
      (other ∷ []) other others-IsKeyed refl left (inl refl)

abbrev key : Text
key = text "tenants/acme/documents/doc/notes.txt"

abbrev uploaded_document : Document
uploaded_document = record {
  id = text "doc";
  tenant_id = text "acme";
  owner_id = text "ann";
  name = text "dir/notes.txt";
  storage_key = key;
  size_bytes = pos 2;
  status = uploaded;
  created_at = 3;
  updated_at = 3;
}

abbrev uploaded_job : Job
uploaded_job = record {
  id = text "job";
  tenant_id = text "acme";
  type = document_ingestion;
  resource_type = text "document";
  resource_id = text "doc";
  state = queued;
  attempts = 0;
  error_message = [];
  result_json = [];
  created_at = 3;
  updated_at = 3;
}

abbrev result : DocumentJob
result = record { document = uploaded_document; job = uploaded_job }

abbrev after : World Objects Vectors
after = record {
  store = record new_store {
    documents = Map.put Map.empty (text "acme", text "doc") uploaded_document;
    jobs = Map.put Map.empty (text "acme", text "job") uploaded_job;
  };
  objects = Map.put Map.empty key (record {
    content = 104 ∷ 105 ∷ [];
    content_type = text "text/plain";
    size_bytes = pos 2;
    updated_at = 9;
  });
  vectors = Map.empty;
}

trimmed :
    trim_space (document_storage_key (text "acme") (text "doc") (text "dir/notes.txt"))
    ≡ document_storage_key (text "acme") (text "doc") (text "dir/notes.txt")
unfolding trim_space document_storage_key nexus_local.App.Documents.safe_file_name text_eq
    nexus_local.Text.Paths.base nexus_local.Text.replace_rune nexus_local.Text.is_space
trimmed = refl

accepted : upload_document service none input (text "doc") (text "job") 3 world ≡ (ok result, after)
unfolding upload_document new_store trim_space nexus_local.Text.is_space
    nexus_local.App.Documents.validate_type nexus_local.Ingest.Kinds.validate_document_type text_eq
    nexus_local.Text.to_lower nexus_local.Text.split nexus_local.Text.Paths.ext
    nexus_local.Text.has_prefix memory_objects put_object
    nexus_local.Providers.Objects.validate_tenant_key document_storage_key
    nexus_local.App.Documents.register new_document nexus_local.Domain.Job.new_job
    nexus_local.Clock.or_now nexus_local.Domain.Ids.empty_id
    nexus_local.Store.Documents.save_document nexus_local.Store.Jobs.save_job Map.put Map.without
    Map.empty nexus_local.App.Documents.safe_file_name nexus_local.Text.Paths.base
    nexus_local.Text.replace_rune nexus_local.Providers.Objects.info_of
    nexus_local.Providers.Objects.object_of
accepted = refl

upload_document-download_document_example :
    download_document service none (text "acme") (text "doc") after
    ≡ (ok (download_of service 9 input (text "doc") (104 ∷ 105 ∷ []) result), after)
upload_document-download_document_example =
    upload_document-download_document service 9 input (text "doc") (text "job") 3 (104 ∷ 105 ∷ [])
      world after result refl refl trimmed accepted
