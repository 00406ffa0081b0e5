-- ===== src/App/DataSources/Requests/Guards.antt =====
-- app/data_sources.go: what RequestScan, RequestPreflight and RequestPlan have made sure of when they
-- queue a job.
use nexus_local.Prelude.{
  ℕ, ◌≤◌, List, [], ◌∷◌, Bool, true, false, ◌≡◌, sym, ap, ◌∙◌, arith, none, some, pos, length, In,
  inl, inr, Option-cases, Bool-cases,
}
use nexus_local.Result.{ok, Result-cases}
use nexus_local.Action.{Action, Context}
use nexus_local.Text.{text, text_Eq, text_eq}
use nexus_local.Clock.{Time}
use nexus_local.Map
use nexus_local.Domain.Ids.{TenantId, DataSourceId, JobId}
use nexus_local.Domain.Job.{
  Job, JobType, queued, source_scan, source_preflight, source_plan, new_job,
}
use nexus_local.Domain.DataSource.{DataSource, is_archived}
use nexus_local.Store.{Store, key_Eq, job_key}
use nexus_local.Store.Select.{select, newest_first, cut}
use nexus_local.Store.Listing.{In-select}
use nexus_local.Store.WellFormed.{IsWellFormed}
use nexus_local.Store.Sources.{get_data_source}
use nexus_local.Store.Jobs.{save_job, list_jobs}
use nexus_local.App.Documents.{require_ids}
use nexus_local.App.DataSources.Requests.{
  SourceJob, is_active_data_source_job, has_active, scan_is_refused, preflight_is_refused,
  plan_is_refused, new_source_job, queue_job, request, request_scan, request_preflight,
  request_plan,
}

-- The jobs of a tenant, newest first.
abbrev pub jobs_of : TenantId → Store → List Job
jobs_of tenant s =
    select (λ j. text_eq j.tenant_id tenant) (newest_first (λ j. j.updated_at) (λ j. j.id)) s.jobs

-- The job that was queued, and what held before it.
pub record IsRequested (type : JobType) (tenant : TenantId) (id : DataSourceId) (job_id : JobId)
    (s s' : Store) (r : SourceJob) : Type 0 where
  pub stored : Map.get s.data_sources (tenant, id) ≡ some r.source
  pub unarchived : is_archived r.source.status ≡ false
  pub alone :
      (job : Job)
      → Map.get s.jobs (job_key job) ≡ some job
      → text_eq job.tenant_id tenant ≡ true
      → is_active_data_source_job job r.source.id type ≡ false
  pub job : job_key r.job ≡ (r.source.tenant_id, job_id)
  pub waits : (r.job.state ≡ queued) × (r.job.type ≡ type)
  pub about : (r.job.resource_type ≡ text "data_source") × (r.job.resource_id ≡ r.source.id)
  pub saved : s' ≡ record s { jobs = Map.put s.jobs (r.source.tenant_id, job_id) r.job }

has_active-In :
    (job : Job) (jobs : List Job) (id : DataSourceId) (type : JobType)
    → In job jobs
    → has_active jobs id type ≡ false
    → is_active_data_source_job job id type ≡ false
unfolding has_active
has_active-In job [] id type i h = elim i [ ]
has_active-In job (j ∷ jobs) id type (inl p) h =
    ground (arith, h, ap (λ x. is_active_data_source_job x id type) p)
has_active-In job (j ∷ jobs) id type (inr i) h =
    has_active-In job jobs id type i (ground (arith, h))

cut-all : {A : Type 0} (n : ℕ) (xs : List A) → length xs ≤ n → cut (pos n) xs ≡ xs
unfolding cut
cut-all n xs h = ground (arith, h)

module _ (is_refused : List Job → DataSource → Bool) (type : JobType)
    (covers : (jobs : List Job) (source : DataSource)
      → is_refused jobs source ≡ false
      → has_active jobs source.id type ≡ false) where
  queued_request :
      (wall now : Time) (tenant : TenantId) (id : DataSourceId) (job_id : JobId) (s s' : Store)
      (r : SourceJob) (source : DataSource)
      → IsWellFormed s
      → Map.get s.data_sources (tenant, id) ≡ some source
      → is_archived source.status ≡ false
      → is_refused (jobs_of tenant s) source ≡ false
      → queue_job wall none type job_id now source s ≡ (ok r, s')
      → IsRequested type tenant id job_id s s' r
  unfolding queue_job save_job new_source_job new_job
  queued_request wall now tenant id job_id s s' r source h g a f e =
      let same : r.source ≡ source = ground (arith, e) in
      record {
        stored = g ∙ ap some (sym same);
        unarchived = rw same a;
        alone = λ job i t. rw same (
            has_active-In job (jobs_of tenant s) source.id type
              ((In-select job_key (λ j. text_eq j.tenant_id tenant) _ s.jobs job h.jobs).1 (i, t))
              (covers _ source f));
        job = ground (arith, e);
        waits = ground (arith, e);
        about = ground (arith, e);
        saved = ground (arith, e);
      }

  accepted :
      (wall now : Time) (tenant : TenantId) (id : DataSourceId) (job_id : JobId) (s s' : Store)
      (r : SourceJob)
      → IsWellFormed s
      → length (jobs_of tenant s) ≤ 100
      → request is_refused type wall none tenant id job_id now s ≡ (ok r, s')
      → IsRequested type tenant id job_id s s' r
  unfolding request get_data_source list_jobs
  accepted wall now tenant id job_id s s' r h few e = elim (Result-cases (require_ids tenant id)) [
    | inr (x, v) ↦ absurd (ground (arith, (rw v at e)))
    | inl (u, v) ↦ elim (Option-cases (Map.get s.data_sources (tenant, id))) [
      | inl g ↦ absurd (ground (arith, (rw (v, g) at e)))
      | inr (source, g) ↦ elim (Bool-cases (is_archived source.status)) [
        | inl a ↦ absurd (ground (arith, (rw (v, g, a) at e)))
        | inr a ↦ elim (Bool-cases (is_refused (jobs_of tenant s) source)) [
          | inl f ↦ absurd (ground (arith, (rw (v, g, a, whole, f) at e)))
          | inr f ↦
              queued_request wall now tenant id job_id s s' r source h g a f
                (rw (v, g, a, whole, f) at e)
        ]
      ]
    ]
  ]
    where
      whole : cut (pos 100) (jobs_of tenant s) ≡ jobs_of tenant s
      whole = cut-all 100 (jobs_of tenant s) few

pub data RequestKind : Type 0 where
  for_scan : RequestKind
  for_preflight : RequestKind
  for_plan : RequestKind

abbrev pub type_of : RequestKind → JobType
type_of for_scan = source_scan
type_of for_preflight = source_preflight
type_of for_plan = source_plan

-- RequestScan, RequestPreflight and RequestPlan
abbrev pub request_of :
    RequestKind → Time → Context → TenantId → DataSourceId → JobId → Time → Action Store SourceJob
request_of for_scan = request_scan
request_of for_preflight = request_preflight
request_of for_plan = request_plan

-- On a well-formed store, under a live context, and for a tenant with at most 100 jobs: where
-- RequestScan, RequestPreflight or RequestPlan succeeds, the source is stored and not archived, no
-- stored job of that kind for the source was queued, running or retrying, and exactly one job is
-- added, of that kind, queued and about the source. Nothing else changes.
pub request-IsRequested :
    (kind : RequestKind) (wall now : Time) (tenant : TenantId) (id : DataSourceId) (job_id : JobId)
    (s s' : Store) (r : SourceJob)
    → IsWellFormed s
    → length (jobs_of tenant s) ≤ 100
    → request_of kind wall none tenant id job_id now s ≡ (ok r, s')
    → IsRequested (type_of kind) tenant id job_id s s' r
unfolding request_scan request_preflight request_plan scan_is_refused preflight_is_refused
    plan_is_refused
request-IsRequested for_scan wall now tenant id job_id s s' r h few e =
    accepted scan_is_refused source_scan (λ jobs source f. ground (arith, f)) wall now tenant id
      job_id s s' r h few e
request-IsRequested for_preflight wall now tenant id job_id s s' r h few e =
    accepted preflight_is_refused source_preflight (λ jobs source f. f) wall now tenant id job_id s
      s' r h few e
request-IsRequested for_plan wall now tenant id job_id s s' r h few e =
    accepted plan_is_refused source_plan (λ jobs source f. ground (arith, f)) wall now tenant id
      job_id s s' r h few e
