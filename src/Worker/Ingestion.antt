-- ===== src/Worker/Ingestion.antt =====
-- ingestion.go: ProcessNext, which claims one ingestion job and brings its document to ready or failed.
-- The times of the calls of the clock are arguments.
pub mod Settles
pub mod Documents
pub mod Returns
pub mod Verdict
use nexus_local.Prelude.{
  ℕ, List, [], ◌∷◌, Bool, true, false, not, ◌||◌, ◌&&◌, Option, none, some, if◌then◌else◌,
}
use nexus_local.Result.{Error, Result, ok, err, other_error, reject_if}
use nexus_local.Action.{Action, Context, pure, lift}
use nexus_local.Action.Run.{Run, returns, follow, next, unless_error, ◌>>=◌}
use nexus_local.Text.{text, text_eq, is_empty}
use nexus_local.Clock.{Time}
use nexus_local.Domain.Ids.{JobId, DocumentId}
use nexus_local.Domain.Document.{Document, processing, ready, failed, transition, is_deleted}
use nexus_local.Domain.Job.{Job, document_ingestion}
use nexus_local.Store.Documents.{save_document, get_document}
use nexus_local.Store.Jobs.{claim_next_queued_job, type_eq}
use nexus_local.World.{World, in_store}
use nexus_local.Worker.{Claimed, processed, withdrawn, settle}
use nexus_local.Worker.Indexing.{DocumentIngestionWorker, ingest_document}

pub record ProcessResult : Type 0 where
  pub job_id : JobId
  pub document_id : DocumentId
  pub chunk_count : ℕ

-- What the clock returns to the claim, to each of the transitions of the document, and to that of the
-- job.
pub record Times : Type 0 where
  pub claim : Time
  pub begin : Time
  pub end : Time
  pub settle : Time

-- The test that processClaimedJob begins with.
unfoldable pub is_unsupported : Job → Bool
is_unsupported job =
    not (type_eq job.type document_ingestion)
    || not (text_eq job.resource_type (text "document"))
    || is_empty job.resource_id

module _ {O V : Type 0} (worker : DocumentIngestionWorker O V) (ctx : Context) (times : Times) where
  -- `if transitionErr == nil { _ = w.repos.SaveDocument(ctx, document) }`
  abbrev pub save_if_moved : Result Document → World O V → World O V
  save_if_moved (err e) w = w
  save_if_moved (ok d) w = (in_store (save_document ctx d) w).1

  -- What is done about an error of ingestDocument.
  abbrev pub give_up : Document → Result ℕ → Run (World O V) ℕ
  give_up d (ok count) w = some (ok count, w)
  give_up d (err e) w = some (err e, save_if_moved (transition d failed times.end worker.wall) w)

  -- The document becomes processing, and is saved.
  unfoldable pub begin_document : Document → Run (World O V) Document
  begin_document document = do
    begun ← returns (lift (transition document processing times.begin worker.wall))
    _ ← returns (in_store (save_document ctx begun))
    returns (pure begun)

  -- The rest of processClaimedJob, for a document that is not deleted.
  unfoldable pub process_document : Job → Document → Run (World O V) (Claimed ProcessResult)
  unfolding begin_document ingest_document
  process_document job document = do
    begun ← begin_document document
    count ← follow (ingest_document worker ctx begun) (give_up begun)
    done ← returns (lift (transition begun ready times.end worker.wall))
    _ ← returns (in_store (save_document ctx done))
    returns (
        pure
          (processed (record { job_id = job.id; document_id = document.id; chunk_count = count })))

  unfoldable pub process_claimed_job : Job → Run (World O V) (Claimed ProcessResult)
  unfolding is_unsupported process_document
  process_claimed_job job = do
    _ ← returns (lift (reject_if (is_unsupported job) other_error))
    document ← returns (in_store (get_document ctx job.tenant_id job.resource_id))
    if is_deleted document.status
        then returns (
            pure
              (withdrawn (record { job_id = job.id; document_id = document.id; chunk_count = 0 })))
        else process_document job document

  unfoldable pub process_next : Run (World O V) ProcessResult
  unfolding process_claimed_job
  process_next = do
    job ←
        returns
          (in_store (claim_next_queued_job ctx times.claim worker.wall (document_ingestion ∷ [])))
    follow (process_claimed_job job)
        (λ r. returns (in_store (settle worker.describe ctx times.settle worker.wall job r)))
