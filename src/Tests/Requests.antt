-- ===== src/Tests/Requests.antt =====
-- app/data_sources.go and the abstract repository at fixed inputs.
use nexus_local.Prelude.{pos, [], ◌∷◌, ◌≡◌, refl, none, some, length, ◌≤◌, arith}
use nexus_local.Result.{ok}
use nexus_local.Text.{text, text_eq}
use nexus_local.Map
use nexus_local.Domain.Job.{Job, source_scan, queued}
use nexus_local.Domain.DataSource.{DataSource, folder, active}
use nexus_local.Store.{Store, new_store, key_Eq}
use nexus_local.Store.WellFormed.{
  IsWellFormed, call_save_data_source, perform, perform_all, new_store-IsWellFormed,
  perform_all-IsWellFormed,
}
use nexus_local.Store.Sources.{save_data_source}
use nexus_local.App.DataSources.Requests.{SourceJob, request_scan}
use nexus_local.App.DataSources.Requests.Guards.{
  IsRequested, jobs_of, for_scan, request-IsRequested,
}

abbrev source : DataSource
source = record {
  id = text "src";
  tenant_id = text "acme";
  owner_id = text "ann";
  type = folder;
  name = text "Docs";
  root_path = text "/docs";
  connector_config = record { provider = []; resource_id = []; credential_ref = []; notes = [] };
  include_patterns = [];
  exclude_patterns = [];
  scan_interval_minutes = pos 60;
  next_scan_at = some 100;
  status = active;
  last_scan_at = none;
  last_scan_imported = pos 0;
  last_scan_skipped = pos 0;
  last_scan_failed = pos 0;
  created_at = 1;
  updated_at = 1;
}

store : Store
store = perform_all ((none, call_save_data_source source) ∷ []) new_store

store-IsWellFormed : IsWellFormed store
unfolding store
store-IsWellFormed = perform_all-IsWellFormed _ new_store new_store-IsWellFormed

few : length (jobs_of (text "acme") store) ≤ 100
unfolding store nexus_local.Store.Select.select nexus_local.Sort.sort Map.values perform_all perform
    save_data_source new_store Map.empty
few = omega arith

abbrev job : Job
job = record {
  id = text "job";
  tenant_id = text "acme";
  type = source_scan;
  resource_type = text "data_source";
  resource_id = text "src";
  state = queued;
  attempts = 0;
  error_message = [];
  result_json = [];
  created_at = 3;
  updated_at = 3;
}

abbrev result : SourceJob
result = record { source = source; job = job }

abbrev after : Store
after = record store { jobs = Map.put Map.empty (text "acme", text "job") job }

scan_requested :
    request_scan 9 none (text "acme") (text "src") (text "job") 3 store ≡ (ok result, after)
unfolding store request_scan nexus_local.App.DataSources.Requests.request
    nexus_local.Domain.Ids.empty_id nexus_local.Text.trim_space nexus_local.Text.is_space
    nexus_local.Store.Sources.get_data_source Map.get Map.lookup perform_all perform
    save_data_source Map.put text_eq nexus_local.Store.Jobs.list_jobs
    nexus_local.App.DataSources.Requests.has_active new_store Map.empty
    nexus_local.Store.Select.select nexus_local.Sort.sort Map.values nexus_local.Store.Select.cut
    nexus_local.App.DataSources.Requests.scan_is_refused
    nexus_local.App.DataSources.Requests.latest_relevant_data_source_job
    nexus_local.App.DataSources.Requests.queue_job
    nexus_local.App.DataSources.Requests.new_source_job nexus_local.Domain.Job.new_job
    nexus_local.Clock.or_now nexus_local.Store.Jobs.save_job Map.without
    nexus_local.Domain.Job.valid_type
scan_requested = refl

request-IsRequested_example :
    IsRequested source_scan (text "acme") (text "src") (text "job") store after result
request-IsRequested_example =
    request-IsRequested for_scan 9 3 (text "acme") (text "src") (text "job") store after result
      store-IsWellFormed few scan_requested
