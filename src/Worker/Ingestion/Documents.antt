-- ===== src/Worker/Ingestion/Documents.antt =====
-- ingestion.go, processClaimedJob: what becomes of the document.
use nexus_local.Prelude.{
  ℕ, true, false, ◌≡◌, ◌⊎◌, inl, inr, refl, sym, ap, ◌∙◌, arith, none, some, Option-cases,
  Bool-cases,
}
use nexus_local.Result.{Result, ok, err, invalid_state_transition}
use nexus_local.Text.{text_Eq}
use nexus_local.Clock.{or_now}
use nexus_local.Map
use nexus_local.Domain.Document.{
  Document, DocumentStatus, processing, ready, failed, transition, can_transition, is_deleted,
}
use nexus_local.Domain.Job.{Job}
use nexus_local.Store.{Store, key_Eq, document_key}
use nexus_local.Store.Documents.{save_document, get_document}
use nexus_local.World.{World}
use nexus_local.Worker.{Claimed, processed}
use nexus_local.Worker.Indexing.{DocumentIngestionWorker, ingest_document}
use nexus_local.Worker.Indexing.Count.{IsChunkCount, ingest_document-count}
use nexus_local.Worker.Indexing.Frame.{ingest_document-store}
use nexus_local.Worker.Ingestion.{
  ProcessResult, Times, is_unsupported, begin_document, process_document, process_claimed_job,
}
use nexus_local.Worker.Ingestion.Returns.{begun, saved, begun-IsTextOf}

module _ {O V : Type 0} (worker : DocumentIngestionWorker O V) (times : Times) where
  -- The repositories when the document has been brought to a status, by way of processing.
  abbrev pub ends_in : Document → DocumentStatus → Store → Store
  ends_in d status s = record s {
    documents =
        Map.put (Map.put s.documents (document_key d) (begun d times worker.wall)) (document_key d)
          (record d { status = status; updated_at = or_now worker.wall times.end });
  }

  -- The document of an ingestion that ended in a world.
  abbrev ended : Document → DocumentStatus → Document
  ended d status = record d { status = status; updated_at = or_now worker.wall times.end }

  -- What follows an ingestion that ended in the world `v`.
  abbrev IsOutcome :
      Job
      → Document
      → World O V
      → World O V
      → Result (Claimed ProcessResult)
      → World O V
      → Result ℕ
      → Type 0
  IsOutcome job d w v r w' (ok n) =
      IsChunkCount worker d w n
      × (r ≡ ok (processed (record { job_id = job.id; document_id = d.id; chunk_count = n })))
      × (w' ≡ saved (ended d ready) v)
      × (w'.store ≡ ends_in d ready w.store)
  IsOutcome job d w v r w' (err e) =
      (r ≡ err e) × (w' ≡ saved (ended d failed) v) × (w'.store ≡ ends_in d failed w.store)

  -- The document was saved as processing, and ingested then.
  abbrev IsIndexing :
      Job → Document → World O V → Result (Claimed ProcessResult) → World O V → Type 0
  IsIndexing job d w r w' =
      (begin_document worker none times d w
        ≡ some (ok (begun d times worker.wall), saved (begun d times worker.wall) w))
      × (n : Result ℕ) × (v : World O V) × (ingest_document worker none (begun d times worker.wall)
            (saved (begun d times worker.wall) w)
          ≡ some (n, v))
      × IsOutcome job d w v r w' n

  -- What the call does with a stored document that is not deleted.
  abbrev pub IsIngestion :
      Job → Document → World O V → Result (Claimed ProcessResult) → World O V → Type 0
  IsIngestion job d w r w' =
      ((can_transition d.status processing ≡ false) × (r ≡ err invalid_state_transition) × (w' ≡ w))
      ⊎ IsIndexing job d w r w'

  ended_store :
      (d : Document) (status : DocumentStatus) (w v : World O V) (n : Result ℕ)
      → ingest_document worker none
          (begun d times worker.wall)
          (saved (begun d times worker.wall) w)
        ≡ some (n, v)
      → (saved (ended d status) v).store ≡ ends_in d status w.store
  ended_store d status w v n q =
      ap {A = Store}
        (λ s. record s { documents = Map.put s.documents (document_key d) (ended d status) })
        (ingest_document-store worker none (begun d times worker.wall)
          (saved (begun d times worker.wall) w) v n q)

  begins :
      (d : Document) (w : World O V)
      → can_transition d.status processing ≡ true
      → begin_document worker none times d w
        ≡ some (ok (begun d times worker.wall), saved (begun d times worker.wall) w)
  unfolding begin_document transition save_document
  begins d w h = rw h refl

  begun-count :
      (d : Document) (w v : World O V) (n : ℕ)
      → ingest_document worker none
          (begun d times worker.wall)
          (saved (begun d times worker.wall) w)
        ≡ some (ok n, v)
      → IsChunkCount worker d w n
  begun-count d w v n q =
      elim (ingest_document-count worker (begun d times worker.wall)
        (saved (begun d times worker.wall) w) v n q) [
          | inl (x, z) ↦ inl (begun-IsTextOf worker times d w (ok none) x, z)
          | inr (t, cs, x, c, z) ↦
              inr (t, cs, begun-IsTextOf worker times d w (ok (some t)) x, c, z)
        ]

  after_ingest :
      (job : Job) (d : Document) (w w' v : World O V) (r : Result (Claimed ProcessResult))
      (n : Result ℕ)
      → can_transition d.status processing ≡ true
      → ingest_document worker none
          (begun d times worker.wall)
          (saved (begun d times worker.wall) w)
        ≡ some (n, v)
      → process_document worker none times job d w ≡ some (r, w')
      → IsOutcome job d w v r w' n
  unfolding process_document begin_document save_document transition
  after_ingest job d w w' v r (ok n) h q e =
      let both : (ok (processed (record { job_id = job.id; document_id = d.id; chunk_count = n }))
            ≡ r)
          × (saved (ended d ready) v ≡ w') =
        ground (arith, (rw (h, q) at e)) in
      (
        begun-count d w v n q,
        sym both.0,
        sym both.1,
        ap (λ x. x.store) (sym both.1) ∙ ended_store d ready w v (ok n) q,
      )
  after_ingest job d w w' v r (err n) h q e =
      let both : (err n ≡ r) × (saved (ended d failed) v ≡ w') = ground (arith, (rw (h, q) at e)) in
      (sym both.0, sym both.1, ap (λ x. x.store) (sym both.1) ∙ ended_store d failed w v (err n) q)

  pub process_document-IsIngestion :
      (job : Job) (d : Document) (w w' : World O V) (r : Result (Claimed ProcessResult))
      → process_document worker none times job d w ≡ some (r, w')
      → IsIngestion job d w r w'
  unfolding process_document begin_document transition save_document
  process_document-IsIngestion job d w w' r e =
      elim (Bool-cases (can_transition d.status processing)) [
        | inr h ↦
            let both : (err invalid_state_transition ≡ r) × (w ≡ w') =
              ground (arith, (rw h at e)) in
            inl (h, sym both.0, sym both.1)
        | inl h ↦
            elim (Option-cases (
              ingest_document worker none (begun d times worker.wall)
                (saved (begun d times worker.wall) w))) [
                  | inl q ↦ absurd (ground (arith, (rw (h, q) at e)))
                  | inr ((n, v), q) ↦
                      inr (begins d w h, n, v, q, after_ingest job d w w' v r n h q e)
                ]
      ]

  -- Under a live context, a call of processClaimedJob that returns, for a supported job and a stored
  -- document that is not deleted, does one of three things. A document that may not become
  -- processing is refused, and nothing changes. Or the first step saves the document as processing,
  -- and ingestDocument runs on the repositories that this step leaves. If it returns a count, this is
  -- the number of the chunks of the text of the document, or 0 where the object has no text; the
  -- document is then stored as ready, and the call returns the count. If it returns an error, the
  -- document is stored as failed, and the call returns that error. No other entry of the repositories
  -- changes, and the vectors and objects are those that ingestDocument leaves.
  pub process_claimed_job-IsIngestion :
      (job : Job) (d : Document) (w w' : World O V) (r : Result (Claimed ProcessResult))
      → is_unsupported job ≡ false
      → Map.get w.store.documents (job.tenant_id, job.resource_id) ≡ some d
      → is_deleted d.status ≡ false
      → process_claimed_job worker none times job w ≡ some (r, w')
      → IsIngestion job d w r w'
  unfolding process_claimed_job get_document
  process_claimed_job-IsIngestion job d w w' r supported stored active e =
      process_document-IsIngestion job d w w' r (rw (supported, stored, active) at e)

  -- Under a live context, processClaimedJob refuses a stored document that is already ready, or that
  -- another worker left in processing: it returns ErrInvalidStateTransition and changes nothing.
  pub process_claimed_job-refuses :
      (job : Job) (d : Document) (w : World O V)
      → is_unsupported job ≡ false
      → Map.get w.store.documents (job.tenant_id, job.resource_id) ≡ some d
      → (d.status ≡ ready) ⊎ (d.status ≡ processing)
      → process_claimed_job worker none times job w ≡ some (err invalid_state_transition, w)
  unfolding process_claimed_job get_document process_document begin_document transition
      can_transition
  process_claimed_job-refuses job d w supported stored (inl h) = rw (supported, stored, h) refl
  process_claimed_job-refuses job d w supported stored (inr h) = rw (supported, stored, h) refl
