-- ===== src/Tests/Stores.antt =====
-- store/memory/store.go at fixed inputs.
use nexus_local.Prelude.{ℕ, pos, arith, [], ◌∷◌, ◌≡◌, ◌≢◌, ◌⊎◌, refl, none}
use nexus_local.Result.{ok}
use nexus_local.Text.{Text, text, text_eq, text_Eq, text_ltb}
use nexus_local.Clock.{or_now}
use nexus_local.Map
use nexus_local.Sort.{sort, insert}
use nexus_local.Domain.Tenant.{Tenant}
use nexus_local.Domain.Job.{Job, JobState, document_ingestion, queued, succeeded, transition}
use nexus_local.Store.{Store, Key, new_store, key_Eq, job_key}
use nexus_local.Store.Select.{select, oldest_first}
use nexus_local.Store.WellFormed.{
  IsWellFormed, call_save_tenant, call_save_job, call_claim, perform, perform_all,
  new_store-IsWellFormed, perform_all-IsWellFormed,
}
use nexus_local.Store.Tenants.{delete_tenant, save_tenant}
use nexus_local.Store.Jobs.{
  list_jobs, save_job, claim_next_queued_job, claim_first, start, claimable, job_type_allowed,
}
use nexus_local.Store.Jobs.Claim.{IsClaim, IsIdle, IsWaiting, IsClaim-cases, claim_once, started}
use nexus_local.Store.Abstract.{view, Step}
use nexus_local.Store.Abstract.Refines.{perform-refines}
use nexus_local.Store.Abstract.Listings.{lists_of_same_view}
use nexus_local.Store.Documents.{list_documents}
use nexus_local.Store.Sources.{list_data_sources}
use nexus_local.Store.Conversations.{list_conversations, list_messages}
use nexus_local.Store.Isolation.{IsDeletion, delete_tenant-IsDeletion}

abbrev job : Text → JobState → ℕ → Job
job id state created = record {
  id = id;
  tenant_id = text "acme";
  type = document_ingestion;
  resource_type = text "document";
  resource_id = text "doc";
  state = state;
  attempts = 0;
  error_message = [];
  result_json = [];
  created_at = created;
  updated_at = created;
}

abbrev acme : Tenant
acme = record { id = text "acme"; name = text "Acme"; created_at = 1; updated_at = 1 }

-- Three jobs, of which two wait.
store : Store
store =
    perform_all
      ((none, call_save_tenant acme)
        ∷ (none, call_save_job (job (text "late") queued 30))
        ∷ (none, call_save_job (job (text "early") queued 20))
        ∷ (none, call_save_job (job (text "done") succeeded 10))
        ∷ [])
      new_store

perform_all-IsWellFormed_example : IsWellFormed (
    perform_all
      ((none, call_save_job (job (text "late") queued 30)) ∷ (none, call_claim 50 5 []) ∷ [])
      new_store)
perform_all-IsWellFormed_example =
    perform_all-IsWellFormed
      ((none, call_save_job (job (text "late") queued 30)) ∷ (none, call_claim 50 5 []) ∷ [])
      new_store new_store-IsWellFormed

store-IsWellFormed : IsWellFormed store
unfolding store
store-IsWellFormed = perform_all-IsWellFormed _ new_store new_store-IsWellFormed

IsClaim-cases_example :
    IsClaim
      (document_ingestion ∷ [])
      50
      5
      store
      (claim_next_queued_job none 50 5 (document_ingestion ∷ []) store)
    ⊎ IsIdle
        (document_ingestion ∷ [])
        store
        (claim_next_queued_job none 50 5 (document_ingestion ∷ []) store)
IsClaim-cases_example = IsClaim-cases (document_ingestion ∷ []) 50 5 store store-IsWellFormed

-- The older of the two is taken.
abbrev after : Store
after = record store {
  jobs =
      Map.put store.jobs (text "acme", text "early") (started (job (text "early") queued 20) 50 5);
}

taken :
    claim_next_queued_job none 50 5 [] store
    ≡ (ok (started (job (text "early") queued 20) 50 5), after)
unfolding store perform perform_all claim_next_queued_job select sort Map.values save_job Map.put
    claimable Map.without text_eq job_type_allowed insert save_tenant new_store started Map.empty
    oldest_first text_ltb claim_first start transition or_now
taken = refl

late_waits : IsWaiting [] after (job (text "late") queued 30)
unfolding store perform perform_all save_job Map.get Map.lookup Map.put Map.without text_eq
    claimable job_type_allowed started
late_waits = record { stored = refl; free = refl }

claim_once_example :
    job_key (job (text "late") queued 30) ≢ job_key (started (job (text "early") queued 20) 50 5)
claim_once_example =
    claim_once [] [] 50 5 store after (started (job (text "early") queued 20) 50 5)
      (job (text "late") queued 30) store-IsWellFormed taken late_waits

delete_tenant-IsDeletion_example :
    IsDeletion (text "acme") store (delete_tenant none (text "acme") store)
delete_tenant-IsDeletion_example = delete_tenant-IsDeletion (text "acme") store

perform-refines_example :
    Step (call_claim 50 5 []) (view store) (view (perform none (call_claim 50 5 []) store))
perform-refines_example = perform-refines (call_claim 50 5 []) store store-IsWellFormed

-- The same two jobs, saved in two orders.
abbrev two : Text → Text → Store
two first second =
    perform_all
      ((none, call_save_job (job first queued 1))
        ∷ (none, call_save_job (job second queued 1))
        ∷ [])
      new_store

same_jobs :
    (k : Key)
    → Map.get
        (Map.put
          (Map.put Map.empty (text "acme", text "a") (job (text "a") queued 1))
          (text "acme", text "b")
          (job (text "b") queued 1))
        k
      ≡ Map.get
          (Map.put
            (Map.put Map.empty (text "acme", text "b") (job (text "b") queued 1))
            (text "acme", text "a")
            (job (text "a") queued 1))
          k
unfolding Map.get Map.lookup Map.put Map.without Map.empty text_eq
same_jobs (x, y) = ground (
  arith,
  text_Eq.same_iff (text "acme") x,
  text_Eq.same_iff (text "a") y,
  text_Eq.same_iff (text "b") y,
)

same_view : view (two (text "a") (text "b")) ≡ view (two (text "b") (text "a"))
unfolding perform_all perform save_job new_store
same_view = λ i. record (view new_store) { jobs = λ k. same_jobs k i }

two-IsWellFormed : (first second : Text) → IsWellFormed (two first second)
two-IsWellFormed first second = perform_all-IsWellFormed _ new_store new_store-IsWellFormed

lists_of_same_view_example :
    ((list_documents none (text "acme") (two (text "a") (text "b"))).0
      ≡ (list_documents none (text "acme") (two (text "b") (text "a"))).0)
    × ((list_data_sources none (text "acme") (two (text "a") (text "b"))).0
        ≡ (list_data_sources none (text "acme") (two (text "b") (text "a"))).0)
    × ((list_jobs none (text "acme") (pos 1) (two (text "a") (text "b"))).0
        ≡ (list_jobs none (text "acme") (pos 1) (two (text "b") (text "a"))).0)
    × ((list_conversations none (text "acme") (two (text "a") (text "b"))).0
        ≡ (list_conversations none (text "acme") (two (text "b") (text "a"))).0)
    × ((list_messages none (text "acme") (text "c") (two (text "a") (text "b"))).0
        ≡ (list_messages none (text "acme") (text "c") (two (text "b") (text "a"))).0)
lists_of_same_view_example =
    lists_of_same_view (two (text "a") (text "b")) (two (text "b") (text "a")) (text "acme")
      (text "c") (pos 1) (two-IsWellFormed (text "a") (text "b"))
      (two-IsWellFormed (text "b") (text "a")) same_view
