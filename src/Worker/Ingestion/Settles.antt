-- ===== src/Worker/Ingestion/Settles.antt =====
-- ingestion.go, ProcessNext: no claimed job is left running.
use nexus_local.Prelude.{
  ◌+◌, [], ◌∷◌, ◌≡◌, ◌⊎◌, inl, inr, refl, sym, ap, arith, none, some, Option-cases,
}
use nexus_local.Result.{Result, ok, err, not_found}
use nexus_local.Text.{text_Eq}
use nexus_local.Map
use nexus_local.Domain.Job.{Job, document_ingestion}
use nexus_local.Ingest.Chunker.Window.{IsChunker}
use nexus_local.Store.{Key, key_Eq, job_key}
use nexus_local.Store.WellFormed.{IsWellFormed}
use nexus_local.Store.Jobs.{claim_next_queued_job}
use nexus_local.Store.Jobs.Claim.{IsWaiting, IsClaim, IsIdle, IsClaim-cases, started}
use nexus_local.World.{World}
use nexus_local.Worker.{Claimed, processed, withdrawn}
use nexus_local.Worker.Closing.{IsEnd, result_of, settle-IsClosed}
use nexus_local.Worker.Indexing.{DocumentIngestionWorker}
use nexus_local.Worker.Indexing.Frame.{ReadsBreaks, IsTextOf-store}
use nexus_local.Worker.Ingestion.Verdict.{IsVerdict, process_claimed_job-IsVerdict}
use nexus_local.Worker.Ingestion.Returns.{process_claimed_job-returns}
use nexus_local.Worker.Ingestion.{ProcessResult, Times, process_claimed_job, process_next}

-- The repositories with a job under the key of that job.
abbrev with_job : {O V : Type 0} → Job → World O V → World O V
with_job job w = record w {
  store = record w.store { jobs = Map.put w.store.jobs (job_key job) job };
}

-- No job was waiting, and nothing was done.
abbrev pub IsIdleCall : {O V : Type 0} → World O V → Result ProcessResult → World O V → Type 0
IsIdleCall w r w' =
    ((job : Job) → ¬ IsWaiting (document_ingestion ∷ []) w.store job)
    × (r ≡ err not_found)
    × (w' ≡ w)

module _ {O V : Type 0} (worker : DocumentIngestionWorker O V) (times : Times) where
  -- The job that was claimed, what processClaimedJob made of it and the world that it left, and the
  -- same job as it was stored in the end.
  pub record IsSettled (w : World O V) (r : Result ProcessResult) (w' : World O V) : Type 0 where
    pub job : Job
    pub waited : IsWaiting (document_ingestion ∷ []) w.store job
    pub made : Result (Claimed ProcessResult)
    pub left : World O V
    pub run :
        process_claimed_job worker none times
          (started job times.claim worker.wall)
          (with_job (started job times.claim worker.wall) w)
        ≡ some (made, left)
    pub verdict : IsVerdict w.store job made
    pub result : r ≡ result_of made
    pub closed : Job
    pub outcome : w' ≡ with_job closed left
    pub key : job_key closed ≡ job_key job
    pub end : IsEnd worker.describe made closed
    pub attempts : closed.attempts ≡ job.attempts + 1

  -- The claim keeps the documents, and the resource of the job.
  IsVerdict-started :
      (job : Job) (w : World O V) (made : Result (Claimed ProcessResult))
      → IsVerdict
          (with_job (started job times.claim worker.wall) w).store
          (started job times.claim worker.wall)
          made
      → IsVerdict w.store job made
  unfolding started
  IsVerdict-started job w (ok (processed x)) v = v
  IsVerdict-started job w (ok (withdrawn x)) v = v
  IsVerdict-started job w (err e) v = v

  -- The call for the job that was claimed, once the rest of the worker has returned.
  closed_with :
      (w left : World O V) (made : Result (Claimed ProcessResult))
      (c : IsClaim
        (document_ingestion ∷ [])
        times.claim
        worker.wall
        w.store
        (claim_next_queued_job none times.claim worker.wall (document_ingestion ∷ []) w.store))
      → process_claimed_job worker none times
          (started c.job times.claim worker.wall)
          (with_job (started c.job times.claim worker.wall) w)
        ≡ some (made, left)
      → (r : Result ProcessResult) × (w' : World O V) × (process_next worker none times w
          ≡ some (r, w'))
        × IsSettled w r w'
  unfolding process_next started
  closed_with w left made c e =
      let job = started c.job times.claim worker.wall in
      let closing =
        settle-IsClosed worker.describe times.settle worker.wall job made left.store refl in
      (
        result_of made,
        record left {
          store = record left.store {
            jobs = Map.put left.store.jobs (job_key c.job) closing.closed;
          };
        },
        rw (c.outcome, e, closing.outcome) refl,
        record {
          job = c.job;
          waited = c.waited;
          made = made;
          left = left;
          run = e;
          verdict =
              IsVerdict-started c.job w made
                (process_claimed_job-IsVerdict worker times job (with_job job w) left made e);
          result = refl;
          closed = closing.closed;
          outcome =
              ap {A = Key} {B = World O V}
                (λ k. record left {
                  store = record left.store { jobs = Map.put left.store.jobs k closing.closed };
                })
                (sym closing.key);
          key = closing.key;
          end = closing.end;
          attempts = closing.attempts;
        },
      )

  claimed_with :
      (w : World O V)
      → IsClaim
          (document_ingestion ∷ [])
          times.claim
          worker.wall
          w.store
          (claim_next_queued_job none times.claim worker.wall (document_ingestion ∷ []) w.store)
      → IsChunker worker.chunker
      → ReadsBreaks worker w
      → (r : Result ProcessResult) × (w' : World O V) × (process_next worker none times w
          ≡ some (r, w'))
        × IsSettled w r w'
  claimed_with w c good reads =
      let job = started c.job times.claim worker.wall in
      let back =
        process_claimed_job-returns worker times job (with_job job w) good (λ k d t stored x.
          reads k d t stored (IsTextOf-store worker d w (with_job job w).store (ok (some t)) x)) in
      elim (Option-cases (process_claimed_job worker none times job (with_job job w))) [
        | inl e ↦ absurd (ground (arith, e, back))
        | inr ((made, left), e) ↦ closed_with w left made c e
      ]

  nothing_to_do :
      (w : World O V)
      → IsIdle
          (document_ingestion ∷ [])
          w.store
          (claim_next_queued_job none times.claim worker.wall (document_ingestion ∷ []) w.store)
      → process_next worker none times w ≡ some (err not_found, w)
  unfolding process_next
  nothing_to_do w idle = rw idle.outcome refl

  -- On a well-formed store and a live context, for a chunker that NewChunker can return, where the
  -- text of the object of each stored document is shorter than the fuel and has, in each stretch of
  -- MaxRunes runes, a break behind the first OverlapRunes of them: ProcessNext returns and leaves no
  -- job that it claimed running. Either it claimed a stored job that was queued for ingestion, and
  -- processClaimedJob ran on that job, started, in the repositories that have it as running. The only
  -- entry that changes after this run is that of the job, which has one more attempt: it is stored as
  -- succeeded where the run processed the document of the job, which was not deleted then, as
  -- canceled where the run withdrew from it, which was deleted then, and as failed with the text of
  -- the error where the run returned an error; and ProcessNext returns what the run returned. Or no
  -- job was waiting, and the call returns not-found and changes nothing.
  pub process_next-settles :
      (w : World O V)
      → IsWellFormed w.store
      → IsChunker worker.chunker
      → ReadsBreaks worker w
      → (r : Result ProcessResult) × (w' : World O V) × (process_next worker none times w
          ≡ some (r, w'))
        × (IsSettled w r w' ⊎ IsIdleCall w r w')
  process_next-settles w h good reads =
      elim (IsClaim-cases (document_ingestion ∷ []) times.claim worker.wall w.store h) [
        | inl c ↦ let (r, w', e, done) = claimed_with w c good reads in (r, w', e, inl done)
        | inr idle ↦ (err not_found, w, nothing_to_do w idle, inr (idle.nothing, refl, refl))
      ]
