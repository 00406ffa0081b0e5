-- ===== src/Store/Jobs/Claim.antt =====
-- memory/store.go, ClaimNextQueuedJob: which job a claim takes and what it leaves behind.
use nexus_local.Prelude.{
  ◌+◌, List, [], ◌∷◌, Bool, true, false, ◌≡◌, ◌≢◌, ◌↔◌, ◌⊎◌, inl, inr, refl, sym, ap, ◌∙◌, arith,
  none, some, keep, In,
}
use nexus_local.Result.{Result, ok, err, not_found}
use nexus_local.Text.{Text, text_Eq}
use nexus_local.Clock.{Time, or_now}
use nexus_local.Map
use nexus_local.Map.{Map}
use nexus_local.Domain.Job.{Job, JobType, running, transition, can_transition}
use nexus_local.Sort.Head.{sort_head}
use nexus_local.Sort.{In-sort}
use nexus_local.Store.{Store, key_Eq, job_key}
use nexus_local.Store.Select.{
  select, oldest_first, oldest_first-IsOrder, oldest_first_asym, oldest_first_cotrans,
}
use nexus_local.Store.Listing.{In-select}
use nexus_local.Store.WellFormed.{IsWellFormed}
use nexus_local.Store.Jobs.{claimable, start, claim_first, claim_next_queued_job}

-- One job comes before another: it is older, or as old with the lesser identifier.
abbrev pub before : Job → Job → Bool
before = oldest_first (λ j. j.created_at) (λ j. j.id)

-- A job that has been started.
unfoldable pub started : Job → Time → Time → Job
started job now wall = record job {
  attempts = job.attempts + 1;
  error_message = [];
  result_json = [];
  state = running;
  updated_at = or_now wall now;
}

-- The job waits in the store to be claimed.
pub record IsWaiting (types : List JobType) (s : Store) (job : Job) : Type 0 where
  pub stored : Map.get s.jobs (job_key job) ≡ some job
  pub free : claimable types job ≡ true

pub record IsClaim (types : List JobType) (now wall : Time) (s : Store) (r : Result Job × Store)
    : Type 0 where
  pub job : Job
  pub waited : IsWaiting types s job
  pub first : (other : Job) → IsWaiting types s other → before other job ≡ false
  pub outcome : r ≡ (
    ok (started job now wall),
    record s { jobs = Map.put s.jobs (job_key job) (started job now wall) },
  )

pub record IsIdle (types : List JobType) (s : Store) (r : Result Job × Store) : Type 0 where
  pub nothing : (job : Job) → ¬ IsWaiting types s job
  pub outcome : r ≡ (err not_found, s)

start-claimable :
    (types : List JobType) (job : Job) (now wall : Time) (s : Store)
    → claimable types job ≡ true
    → start job now wall s ≡ (
      ok (started job now wall),
      record s { jobs = Map.put s.jobs (job_key job) (started job now wall) },
    )
unfolding start claimable transition can_transition started
start-claimable types job now wall s h = ground (arith, h)

-- Nothing that waits comes before the head of the queue.
queue_head :
    (types : List JobType) (s : Store) (job : Job) (rest : List Job)
    → select (claimable types) before s.jobs ≡ job ∷ rest
    → (other : Job) → In other (select (claimable types) before s.jobs)
    → before other job ≡ false
unfolding select
queue_head types s job rest e other i =
    let all : List Job = keep (claimable types) (Map.values s.jobs) in
    (sort_head before irrefl (oldest_first_asym created id) (oldest_first_cotrans created id) job
        all rest e).1
      other ((In-sort before other all).0 i)
  where
    created : Job → Time
    created j = j.created_at

    id : Job → Text
    id j = j.id

    irrefl : (a : Job) → before a a ≡ false
    irrefl = (oldest_first-IsOrder created id).irrefl

List-cases : {A : Type 0} (xs : List A) → (xs ≡ []) ⊎ ((x : A) × (rest : List A) × (xs ≡ x ∷ rest))
List-cases [] = inl refl
List-cases (x ∷ rest) = inr (x, rest, refl)

IsWaiting-iff :
    (types : List JobType) (s : Store) (job : Job)
    → IsWellFormed s
    → In job (select (claimable types) before s.jobs) ↔ IsWaiting types s job
IsWaiting-iff types s job h =
    let both = In-select job_key (claimable types) before s.jobs job h.jobs in
    (λ i. record { stored = (both.0 i).0; free = (both.0 i).1 }, λ w. both.1 (w.stored, w.free))

-- On a well-formed store and a live context, a claim either takes a stored job that is queued and of
-- an allowed type, such that no other waiting job comes before it, writes it back under its own key
-- as running with one more attempt and no error or result, changes nothing else, and returns it; or
-- no stored job is queued with an allowed type, and it returns not-found and changes nothing.
pub IsClaim-cases :
    (types : List JobType) (now wall : Time) (s : Store)
    → IsWellFormed s
    → IsClaim types now wall s (claim_next_queued_job none now wall types s)
      ⊎ IsIdle types s (claim_next_queued_job none now wall types s)
unfolding claim_next_queued_job claim_first
IsClaim-cases types now wall s h = elim (List-cases (select (claimable types) before s.jobs)) [
  | inl e ↦ inr (record {
    nothing = λ job w. absurd_in job (rw e at ((IsWaiting-iff types s job h).1 w));
    outcome = rw e refl;
  })
  | inr (job, rest, e) ↦
      let waits : IsWaiting types s job = (IsWaiting-iff types s job h).0 (rw e (inl refl)) in
      inl (record {
        job = job;
        waited = waits;
        first =
            λ other w. queue_head types s job rest e other ((IsWaiting-iff types s other h).1 w);
        outcome = rw e (start-claimable types job now wall s waits.free);
      })
]
  where
    absurd_in : (job : Job) → In job [] → ⊥
    absurd_in job i = elim i [ ]

started-claimable :
    (more : List JobType) (now wall : Time) (job other : Job)
    → some (started job now wall) ≡ some other
    → ¬ (claimable more other ≡ true)
unfolding started claimable
started-claimable more now wall job other p f = ground (arith, p, f)

started_waits_no_more :
    (more : List JobType) (now wall : Time) (s : Store) (job other : Job)
    → IsWaiting more (record s { jobs = Map.put s.jobs (job_key job) (started job now wall) }) other
    → job_key other ≢ job_key job
unfolding started
started_waits_no_more more now wall s job other w q =
    let same : some (started job now wall) ≡ some other =
      sym (Map.get-put_same s.jobs (job_key job) (started job now wall))
      ∙ ap (λ k. Map.get (Map.put s.jobs (job_key job) (started job now wall)) k) (sym q)
      ∙ w.stored in
    started-claimable more now wall job other same w.free

abbrev job_of : Result Job → Job → Job
job_of (ok job) other = job
job_of (err e) other = other

-- After a claim on a well-formed store has returned a job, a job under the same key waits no more,
-- for any types, so no later claim on that store returns it: a job is handed to one worker.
pub claim_once :
    (types more : List JobType) (now wall : Time) (s t : Store) (claimed other : Job)
    → IsWellFormed s
    → claim_next_queued_job none now wall types s ≡ (ok claimed, t)
    → IsWaiting more t other
    → job_key other ≢ job_key claimed
unfolding started
claim_once types more now wall s t claimed other h e w q = elim (IsClaim-cases types now wall s h) [
  | inr idle ↦ cc (idle.outcome, e)
  | inl c ↦
      let same = sym c.outcome ∙ e in
      let key : job_key claimed ≡ job_key c.job =
        ap (λ j. job_key (job_of j.0 claimed)) (sym same) in
      started_waits_no_more more now wall s c.job other
        (coe 1 0 (i. IsWaiting more (same i).1 other) w) (q ∙ key)
]
