-- ===== src/App/Tenants/Closing.antt =====
-- app/tenants.go, DeleteTenant: what must be gone before a workspace is.
use nexus_local.Prelude.{
  List, [], ◌∷◌, Bool, true, false, ◌≡◌, inl, inr, ap, arith, none, some, In, Bool-cases,
  Option-cases,
}
use nexus_local.Result.{ok}
use nexus_local.Text.{text_Eq, text_eq}
use nexus_local.Map
use nexus_local.Domain.Ids.{TenantId}
use nexus_local.Domain.Tenant.{Tenant}
use nexus_local.Domain.Document.{Document}
use nexus_local.Domain.DataSource.{DataSource}
use nexus_local.Store.{Store, key_Eq, document_key, data_source_key}
use nexus_local.Store.Select.{select, oldest_first, newest_first}
use nexus_local.Store.Listing.{In-select}
use nexus_local.Store.WellFormed.{IsWellFormed}
use nexus_local.Store.Tenants.{get_tenant}
use nexus_local.Store.Documents.{list_documents}
use nexus_local.Store.Sources.{list_data_sources}
use nexus_local.App.Tenants.{is_active_document, is_active_source, any_active, delete_tenant}

-- Every stored document of the tenant is deleted and every stored source archived.
pub record IsVacant (id : TenantId) (s : Store) : Type 0 where
  pub documents :
      (d : Document)
      → text_eq d.tenant_id id ≡ true
      → Map.get s.documents (document_key d) ≡ some d
      → is_active_document d ≡ false
  pub sources :
      (d : DataSource)
      → text_eq d.tenant_id id ≡ true
      → Map.get s.data_sources (data_source_key d) ≡ some d
      → is_active_source d ≡ false

any_active-In :
    {A : Type 0} (active : A → Bool) (x : A) (xs : List A)
    → In x xs
    → any_active active xs ≡ false
    → active x ≡ false
unfolding any_active
any_active-In active x [] i h = elim i [ ]
any_active-In active x (y ∷ ys) (inl p) h = ground (arith, ap active p, h)
any_active-In active x (y ∷ ys) (inr q) h = any_active-In active x ys q (ground (arith, h))

abbrev documents_of : TenantId → Store → List Document
documents_of id s =
    select (λ d. text_eq d.tenant_id id) (oldest_first (λ d. d.created_at) (λ d. d.id)) s.documents

abbrev sources_of : TenantId → Store → List DataSource
sources_of id s =
    select (λ d. text_eq d.tenant_id id) (newest_first (λ d. d.updated_at) (λ d. d.id))
      s.data_sources

guards :
    (id : TenantId) (s : Store) (tenant : Tenant)
    → (delete_tenant none id s).0 ≡ ok tenant
    → (any_active is_active_document (documents_of id s) ≡ false)
      × (any_active is_active_source (sources_of id s) ≡ false)
unfolding delete_tenant get_tenant list_documents list_data_sources
guards id s tenant h = elim (Option-cases (Map.get s.tenants id)) [
  | inl e ↦ absurd (ground (arith, rw e at h))
  | inr (there, e) ↦ elim (Bool-cases (any_active is_active_document (documents_of id s))) [
    | inl busy ↦ absurd (ground (arith, rw (e, busy) at h))
    | inr free ↦ elim (Bool-cases (any_active is_active_source (sources_of id s))) [
      | inl busy ↦ absurd (ground (arith, rw (e, free, busy) at h))
      | inr idle ↦ (free, idle)
    ]
  ]
]

-- On a well-formed store and a live context, DeleteTenant succeeds only where every stored document
-- of the workspace is deleted and every stored source of it is archived.
pub delete_tenant-IsVacant :
    (id : TenantId) (s : Store) (tenant : Tenant)
    → IsWellFormed s
    → (delete_tenant none id s).0 ≡ ok tenant
    → IsVacant id s
delete_tenant-IsVacant id s tenant w h =
    let (no_document, no_source) = guards id s tenant h in
    record {
      documents = λ d here stored.
          any_active-In is_active_document d (documents_of id s)
            ((In-select document_key (λ d. text_eq d.tenant_id id)
                (oldest_first (λ d. d.created_at) (λ d. d.id)) s.documents d w.documents).1
              (stored, here))
            no_document;
      sources = λ d here stored.
          any_active-In is_active_source d (sources_of id s)
            ((In-select data_source_key (λ d. text_eq d.tenant_id id)
                (newest_first (λ d. d.updated_at) (λ d. d.id)) s.data_sources d w.data_sources).1
              (stored, here))
            no_source;
    }
