-- ===== src/Worker/Ingestion/Returns.antt =====
-- ingestion.go, processClaimedJob: when the call returns.
use nexus_local.Prelude.{true, ◌≡◌, inl, inr, arith, Option, none, some, is_some, Option-cases}
use nexus_local.Result.{Result, ok}
use nexus_local.Text.{Text, text_Eq}
use nexus_local.Clock.{Time, or_now}
use nexus_local.Map
use nexus_local.Domain.Document.{Document, processing, transition}
use nexus_local.Domain.Job.{Job}
use nexus_local.Ingest.Chunker.Window.{IsChunker}
use nexus_local.Ingest.Chunker.Progress.{chunk_returns}
use nexus_local.Store.{Key, key_Eq, document_key}
use nexus_local.Store.Documents.{save_document, get_document}
use nexus_local.World.{World}
use nexus_local.Worker.Indexing.{DocumentIngestionWorker, extract_text, ingest_document}
use nexus_local.Worker.Indexing.Frame.{
  IsTextOf, IsTextOf-store, ReadsBreaks, ingest_document-returns,
}
use nexus_local.Worker.Ingestion.{Times, begin_document, process_document, process_claimed_job}

abbrev pub begun : Document → Times → Time → Document
begun d times wall = record d { status = processing; updated_at = or_now wall times.begin }

module _ {O V : Type 0} where
  abbrev pub saved : Document → World O V → World O V
  saved d w = record w {
    store = record w.store { documents = Map.put w.store.documents (document_key d) d };
  }

module _ {O V : Type 0} (worker : DocumentIngestionWorker O V) (times : Times) where
  process_document-returns :
      (job : Job) (d : Document) (w : World O V)
      → is_some (
          ingest_document worker none
            (begun d times worker.wall)
            (saved (begun d times worker.wall) w))
        ≡ true
      → is_some (process_document worker none times job d w) ≡ true
  unfolding process_document begin_document save_document transition
  process_document-returns job d w h = ground (arith, h)

  -- The text of a document is the same before and after it becomes processing.
  pub begun-IsTextOf :
      (d : Document) (w : World O V) (t : Result (Option Text))
      → IsTextOf worker (begun d times worker.wall) (saved (begun d times worker.wall) w) t
      → IsTextOf worker d w t
  unfolding extract_text
  begun-IsTextOf d w t x = IsTextOf-store worker d w (saved (begun d times worker.wall) w).store t x

  begun-ReadsBreaks :
      (d : Document) (w : World O V) (k : Key)
      → IsChunker worker.chunker
      → Map.get w.store.documents k ≡ some d
      → ReadsBreaks worker w
      → is_some (
          ingest_document worker none
            (begun d times worker.wall)
            (saved (begun d times worker.wall) w))
        ≡ true
  begun-ReadsBreaks d w k good stored reads =
      ingest_document-returns worker (begun d times worker.wall)
        (saved (begun d times worker.wall) w)
        (λ t x.
          let breaks = reads k d t stored (begun-IsTextOf d w (ok (some t)) x) in
          ground (arith, (chunk_returns worker.fuel worker.chunker t good breaks.1 breaks.0).1))

  pub process_claimed_job-returns :
      (job : Job) (w : World O V)
      → IsChunker worker.chunker
      → ReadsBreaks worker w
      → is_some (process_claimed_job worker none times job w) ≡ true
  unfolding process_claimed_job get_document
  process_claimed_job-returns job w good h =
      elim (Option-cases (Map.get w.store.documents (job.tenant_id, job.resource_id))) [
        | inl e ↦ ground (arith, e)
        | inr (d, e) ↦ ground (
          arith,
          e,
          process_document-returns job d w
              (begun-ReadsBreaks d w (job.tenant_id, job.resource_id) good e h),
        )
      ]
