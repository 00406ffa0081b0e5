-- ===== src/Worker/Ingestion/Verdict.antt =====
-- ingestion.go, processClaimedJob: which documents it processes, and from which it withdraws.
use nexus_local.Prelude.{
  Bool, true, false, ◌≡◌, inl, inr, arith, none, some, Option-cases, Bool-cases,
}
use nexus_local.Result.{Error, Result, ok, err, other_error, not_found}
use nexus_local.Text.{text_Eq}
use nexus_local.Map
use nexus_local.Domain.Document.{Document, is_deleted}
use nexus_local.Domain.Job.{Job}
use nexus_local.Store.{Store, key_Eq}
use nexus_local.Store.Documents.{get_document}
use nexus_local.World.{World}
use nexus_local.Worker.{Claimed, processed, withdrawn}
use nexus_local.Worker.Indexing.{DocumentIngestionWorker}
use nexus_local.Worker.Ingestion.{
  ProcessResult, Times, is_unsupported, process_document, process_claimed_job,
}
use nexus_local.Worker.Ingestion.Documents.{process_document-IsIngestion}

-- The document of the job is stored, and it is deleted or not.
abbrev pub IsDocument : Store → Job → Bool → Type 0
IsDocument s job gone =
    (d : Document) × (Map.get s.documents (job.tenant_id, job.resource_id) ≡ some d)
    × (is_deleted d.status ≡ gone)

-- A document that is processed is not deleted, and one that the worker withdraws from is.
abbrev pub IsVerdict : Store → Job → Result (Claimed ProcessResult) → Type 0
IsVerdict s job (ok (processed x)) = IsDocument s job false
IsVerdict s job (ok (withdrawn x)) = IsDocument s job true
IsVerdict s job (err e) = Unit

module _ {O V : Type 0} (worker : DocumentIngestionWorker O V) (times : Times) where
  active-IsVerdict :
      (job : Job) (d : Document) (w w' : World O V) (r : Result (Claimed ProcessResult))
      → Map.get w.store.documents (job.tenant_id, job.resource_id) ≡ some d
      → is_deleted d.status ≡ false
      → process_document worker none times job d w ≡ some (r, w')
      → IsVerdict w.store job r
  active-IsVerdict job d w w' (err e) s a h = tt
  active-IsVerdict job d w w' (ok (processed x)) s a h = (d, s, a)
  active-IsVerdict job d w w' (ok (withdrawn x)) s a h =
      elim (process_document-IsIngestion worker times job d w w' (ok (withdrawn x)) h) [
        | inl q ↦ absurd (ground (arith, q.1))
        | inr (b, ok n, v, i, q) ↦ absurd (ground (arith, q.1))
        | inr (b, err e, v, i, q) ↦ absurd (ground (arith, q.0))
      ]

  deleted-IsVerdict :
      (job : Job) (d : Document) (w w' : World O V) (r : Result (Claimed ProcessResult))
      → is_unsupported job ≡ false
      → Map.get w.store.documents (job.tenant_id, job.resource_id) ≡ some d
      → is_deleted d.status ≡ true
      → process_claimed_job worker none times job w ≡ some (r, w')
      → IsVerdict w.store job r
  unfolding process_claimed_job get_document
  deleted-IsVerdict job d w w' (err e) u s a h = tt
  deleted-IsVerdict job d w w' (ok (withdrawn x)) u s a h = (d, s, a)
  deleted-IsVerdict job d w w' (ok (processed x)) u s a h =
      absurd (ground (arith, (rw (u, s, a) at h)))

  failed-IsVerdict :
      (job : Job) (w : World O V) (r : Result (Claimed ProcessResult)) (e : Error)
      → r ≡ err e
      → IsVerdict w.store job r
  failed-IsVerdict job w (ok r) e h = absurd (ground (arith, h))
  failed-IsVerdict job w (err x) e h = tt

  -- What processClaimedJob returns says whether the document is deleted.
  pub process_claimed_job-IsVerdict :
      (job : Job) (w w' : World O V) (r : Result (Claimed ProcessResult))
      → process_claimed_job worker none times job w ≡ some (r, w')
      → IsVerdict w.store job r
  unfolding process_claimed_job get_document
  process_claimed_job-IsVerdict job w w' r h = elim (Bool-cases (is_unsupported job)) [
    | inl u ↦ failed-IsVerdict job w r other_error (ground (arith, (rw u at h)))
    | inr u ↦ elim (Option-cases (Map.get w.store.documents (job.tenant_id, job.resource_id))) [
      | inl s ↦ failed-IsVerdict job w r not_found (ground (arith, (rw (u, s) at h)))
      | inr (d, s) ↦ elim (Bool-cases (is_deleted d.status)) [
        | inl a ↦ deleted-IsVerdict job d w w' r u s a h
        | inr a ↦ active-IsVerdict job d w w' r s a (rw (u, s, a) at h)
      ]
    ]
  ]
