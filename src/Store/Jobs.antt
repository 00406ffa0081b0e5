-- ===== src/Store/Jobs.antt =====
-- memory/store.go: the job queue.
pub mod Claim
use nexus_local.Prelude.{List, [], ◌∷◌, Bool, true, false, ◌||◌, ◌&&◌, if◌then◌else◌, ℤ}
use nexus_local.Result.{Result, ok, err, not_found}
use nexus_local.Action.{Action, Context, live}
use nexus_local.Text.{Text, text_eq, text_Eq}
use nexus_local.Clock.{Time}
use nexus_local.Map
use nexus_local.Domain.Ids.{TenantId, JobId}
use nexus_local.Domain.Job.{
  Job, JobType, JobState, document_ingestion, source_scan, source_preflight, source_plan,
  embedding_backfill, ai_turn, evaluation, other_type, queued, running, transition,
}
use nexus_local.Store.{Store, found, key_Eq, job_key}
use nexus_local.Store.Select.{select, oldest_first, newest_first, cut}

unfoldable pub save_job : Context → Job → Action Store (Unit {0})
save_job ctx job = live ctx λ s. (ok tt, record s { jobs = Map.put s.jobs (job_key job) job })

unfoldable pub get_job : Context → TenantId → JobId → Action Store Job
get_job ctx tenant id = live ctx λ s. (found (Map.get s.jobs (tenant, id)), s)

unfoldable pub list_jobs : Context → TenantId → ℤ → Action Store (List Job)
list_jobs ctx tenant limit = live ctx λ s. (
  ok (
      cut limit (
        select (λ j. text_eq j.tenant_id tenant) (newest_first (λ j. j.updated_at) (λ j. j.id))
          s.jobs)),
  s,
)

-- jobType == jobType
unfoldable pub type_eq : JobType → JobType → Bool
type_eq document_ingestion document_ingestion = true
type_eq source_scan source_scan = true
type_eq source_preflight source_preflight = true
type_eq source_plan source_plan = true
type_eq embedding_backfill embedding_backfill = true
type_eq ai_turn ai_turn = true
type_eq evaluation evaluation = true
type_eq (other_type a) (other_type b) = text_eq a b
type_eq _ _ = false

unfoldable pub has_type : JobType → List JobType → Bool
unfolding type_eq
has_type type [] = false
has_type type (t ∷ ts) = type_eq t type || has_type type ts

-- jobTypeAllowed: no types given allow every type
unfoldable pub job_type_allowed : JobType → List JobType → Bool
unfolding has_type
job_type_allowed type [] = true
job_type_allowed type (t ∷ ts) = has_type type (t ∷ ts)

-- job.State == JobStateQueued
abbrev pub is_queued : JobState → Bool
is_queued queued = true
is_queued _ = false

-- A job that a claim of these types may take.
unfoldable pub claimable : List JobType → Job → Bool
claimable types job = is_queued job.state && job_type_allowed job.type types

-- job.Transition(JobStateRunning, now), and what the store keeps of it
unfoldable pub start : Job → Time → Time → Action Store Job
start job now wall s = elim (transition job running now wall) [
  | err e ↦ (err e, s)
  | ok started ↦ (ok started, record s { jobs = Map.put s.jobs (job_key started) started })
]

unfoldable pub claim_first : List Job → Time → Time → Action Store Job
unfolding start
claim_first [] now wall s = (err not_found, s)
claim_first (job ∷ rest) now wall s = start job now wall s

unfoldable pub claim_next_queued_job : Context → Time → Time → List JobType → Action Store Job
unfolding claim_first
claim_next_queued_job ctx now wall types = live ctx λ s.
    claim_first (select (claimable types) (oldest_first (λ j. j.created_at) (λ j. j.id)) s.jobs) now
      wall s
