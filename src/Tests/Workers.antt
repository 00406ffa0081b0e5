-- ===== src/Tests/Workers.antt =====
-- worker/ingestion.go at fixed inputs: one job, one document and one object.
use nexus_local.Prelude.{
  pos, [], ◌∷◌, ◌≡◌, ◌⊎◌, ◌∙◌, List, length, map, refl, sym, ap, arith, true, false, Option, none,
  some, inl, inr,
}
use nexus_local.Result.{Result, ok, err, invalid_state_transition, Result-cases}
use nexus_local.Text.{Text, text, text_Eq, text_eq, join, fields, is_space}
use nexus_local.Map
use nexus_local.Domain.Document.{Document, DocumentStatus, uploaded, ready, transition}
use nexus_local.Domain.Job.{Job, document_ingestion, queued}
use nexus_local.Ingest.Chunker.{Chunk, chunk, clean}
use nexus_local.Store.{Store, new_store, key_Eq}
use nexus_local.Store.WellFormed.{
  IsWellFormed, call_save_document, call_save_job, perform, perform_all, new_store-IsWellFormed,
  perform_all-IsWellFormed,
}
use nexus_local.Store.Documents.{save_document, get_document}
use nexus_local.Store.Jobs.{save_job, type_eq}
use nexus_local.Providers.{Float}
use nexus_local.Providers.Objects.{Objects, memory_objects}
use nexus_local.Providers.Vectors.{Vectors, memory_vectors, upsert, delete_document}
use nexus_local.Worker.{Claimed, processed}
use nexus_local.World.{World}
use nexus_local.Worker.Indexing.{
  Pipeline, DocumentIngestionWorker, extract_text, ingest_document, index_chunks, vector_of,
}
use nexus_local.Worker.Indexing.Frame.{ReadsBreaks}
use nexus_local.Worker.Ingestion.{
  ProcessResult, Times, is_unsupported, begin_document, process_document, process_claimed_job,
  process_next,
}
use nexus_local.Worker.Ingestion.Settles.{IsSettled, IsIdleCall, process_next-settles}
use nexus_local.Worker.Ingestion.Documents.{
  IsIngestion, ends_in, process_claimed_job-IsIngestion, process_claimed_job-refuses,
}

abbrev document : DocumentStatus → Document
document status = record {
  id = text "doc";
  tenant_id = text "acme";
  owner_id = text "ann";
  name = text "notes.txt";
  storage_key = text "tenants/acme/documents/doc/notes.txt";
  size_bytes = pos 5;
  status = status;
  created_at = 1;
  updated_at = 1;
}

abbrev job : Job
job = record {
  id = text "job";
  tenant_id = text "acme";
  type = document_ingestion;
  resource_type = text "document";
  resource_id = text "doc";
  state = queued;
  attempts = 0;
  error_message = [];
  result_json = [];
  created_at = 2;
  updated_at = 2;
}

store : DocumentStatus → Store
store status =
    perform_all ((none, call_save_document (document status)) ∷ (none, call_save_job job) ∷ [])
      new_store

store-IsWellFormed : (status : DocumentStatus) → IsWellFormed (store status)
unfolding store
store-IsWellFormed status = perform_all-IsWellFormed _ new_store new_store-IsWellFormed

abbrev world : DocumentStatus → World Objects Vectors
world status = record { store = store status; objects = Map.empty; vectors = Map.empty }

abbrev zeros : List Float
zeros = 0 ∷ []

-- A worker with the windows of NewDocumentIngestionWorker, whose extractor reads the same word in every
-- file.
abbrev worker : DocumentIngestionWorker Objects Vectors
worker = record {
  pipeline = some (record {
    objects = memory_objects 9;
    embedder = λ ctx texts. ok (map (λ t. zeros) texts);
    vectors = memory_vectors (λ a b. 0) (λ a b. true);
  });
  extract = λ b name content_type. ok (text "hello");
  chunker = record { max_runes = 1200; overlap_runes = 150 };
  fuel = 9;
  describe = λ e. text "error";
  wall = 9;
}

abbrev times : Times
times = record { claim = 3; begin = 4; end = 5; settle = 6 }

abbrev word_of : Result (Option Text) → Text
word_of (ok (some t)) = t
word_of x = []

hello_is_short : length (clean (text "hello")) ≡ 5
unfolding clean join fields is_space
hello_is_short = refl

-- Whatever object the document has.
read_word :
    (p : Pipeline Objects Vectors) (d : Document) (t : Text)
    → (extract_text worker p none d (world uploaded)).0 ≡ ok (some t)
    → t ≡ text "hello"
unfolding extract_text
read_word p d t x =
    elim (Result-cases
      (p.objects.get_object none d.tenant_id d.storage_key (world uploaded).objects).0) [
        | inr (e, q) ↦ absurd (ground (arith, (rw q at x)))
        | inl (object, q) ↦ sym (ap word_of (rw q at x))
      ]

worker-ReadsBreaks : ReadsBreaks worker (world uploaded)
worker-ReadsBreaks k d t stored (p, c, x) =
    let short : length (clean t) ≡ 5 =
      ap (λ y. length (clean y)) (read_word p d t x) ∙ hello_is_short in
    (
      omega (arith, short),
      record {
        break_at = λ start whole. 0;
        behind = λ start whole. absurd (omega (arith, short, whole));
        within = λ start whole. absurd (omega (arith, short, whole));
        is_one = λ start whole. absurd (omega (arith, short, whole));
      },
    )

process_next-settles_example :
    (r : Result ProcessResult) × (w' : World Objects Vectors) × (process_next worker none times
        (world uploaded)
      ≡ some (r, w'))
    × (IsSettled worker times (world uploaded) r w' ⊎ IsIdleCall (world uploaded) r w')
process_next-settles_example =
    process_next-settles worker times (world uploaded) (store-IsWellFormed uploaded)
      (record { positive = omega arith; smaller = omega arith }) worker-ReadsBreaks

stored :
    (status : DocumentStatus)
    → Map.get (store status).documents (text "acme", text "doc") ≡ some (document status)
unfolding store perform perform_all save_document save_job Map.get Map.lookup Map.put Map.without
    text_eq
stored status = refl

supported : is_unsupported job ≡ false
unfolding is_unsupported type_eq text_eq
supported = refl

-- The object of the document is there.
abbrev full : World Objects Vectors
full = record (world uploaded) {
  objects = Map.put Map.empty (text "tenants/acme/documents/doc/notes.txt") (record {
    content = [];
    content_type = text "text/plain";
    size_bytes = pos 0;
    updated_at = 1;
  });
}

abbrev hello : Chunk
hello = record { id = text "chunk_0000"; index = 0; text = text "hello" }

abbrev behind : World Objects Vectors
behind = record full {
  store = ends_in worker times (document uploaded) ready (store uploaded);
  vectors = (upsert none (vector_of (document uploaded) hello zeros ∷ []) Map.empty).1;
}

abbrev one_chunk : Result (Claimed ProcessResult)
one_chunk =
    ok (processed (record { job_id = text "job"; document_id = text "doc"; chunk_count = 1 }))

indexed : process_claimed_job worker none times job full ≡ some (one_chunk, behind)
unfolding process_claimed_job process_document begin_document ingest_document extract_text
    index_chunks type_eq text_eq get_document Map.get Map.lookup store perform_all perform save_job
    save_document Map.put transition memory_objects nexus_local.Providers.Objects.get_object
    nexus_local.Providers.Objects.validate_tenant_key nexus_local.Text.has_prefix
    nexus_local.Providers.Objects.loaded chunk clean join fields is_space memory_vectors
    delete_document upsert Map.empty Map.delete_if Map.drop_entries
indexed = refl

process_claimed_job-IsIngestion_example :
    IsIngestion worker times job (document uploaded) full one_chunk behind
process_claimed_job-IsIngestion_example =
    process_claimed_job-IsIngestion worker times job (document uploaded) full behind one_chunk
      supported (stored uploaded) refl indexed

process_claimed_job-refuses_example :
    process_claimed_job worker none times job (world ready)
    ≡ some (err invalid_state_transition, world ready)
process_claimed_job-refuses_example =
    process_claimed_job-refuses worker times job (document ready) (world ready) supported
      (stored ready) (inl refl)
