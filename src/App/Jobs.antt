-- ===== src/App/Jobs.antt =====
-- internal/app/jobs.go: listing jobs.
use nexus_local.Prelude.{ℕ, List, ltb, ℤ, pos, is_nonpositive, magnitude, if◌then◌else◌}
use nexus_local.Result.{invalid_entity, reject_if}
use nexus_local.Action.{Action, Context, live, lift, ◌>>=◌}
use nexus_local.Domain.Ids.{TenantId, empty_id}
use nexus_local.Domain.Job.{Job}
use nexus_local.Store.{Store}
use nexus_local.Store.Jobs

abbrev pub max_job_list_limit : ℤ
max_job_list_limit = pos 100

-- `if value <= 0 { return default }; if value > max { return max }; return value`, as several
-- services limit a listing
unfoldable pub normalize_limit : ℕ → ℕ → ℤ → ℤ
normalize_limit fallback most value =
    if is_nonpositive value
    then pos fallback
    else if ltb most (magnitude value)
    then pos most
    else value

unfoldable pub normalize_job_limit : ℤ → ℤ
normalize_job_limit = normalize_limit 25 100

unfoldable pub list_jobs : Context → TenantId → ℤ → Action Store (List Job)
list_jobs ctx tenant limit = live ctx do
  _ ← lift (reject_if (empty_id tenant) invalid_entity)
  Jobs.list_jobs ctx tenant (normalize_job_limit limit)
