-- ===== src/Store/Documents.antt =====
-- memory/store.go: documents.
use nexus_local.Prelude.{List}
use nexus_local.Result.{ok}
use nexus_local.Action.{Action, Context, live}
use nexus_local.Text.{text_eq, text_Eq}
use nexus_local.Map
use nexus_local.Domain.Ids.{TenantId, DocumentId}
use nexus_local.Domain.Document.{Document}
use nexus_local.Store.{key_Eq, long_key_Eq, Store, found, document_key}
use nexus_local.Store.Select.{select, oldest_first}

unfoldable pub save_document : Context → Document → Action Store (Unit {0})
save_document ctx d =
    live ctx λ s. (ok tt, record s { documents = Map.put s.documents (document_key d) d })

unfoldable pub get_document : Context → TenantId → DocumentId → Action Store Document
get_document ctx tenant id = live ctx λ s. (found (Map.get s.documents (tenant, id)), s)

unfoldable pub list_documents : Context → TenantId → Action Store (List Document)
list_documents ctx tenant = live ctx λ s. (
  ok (
      select (λ d. text_eq d.tenant_id tenant) (oldest_first (λ d. d.created_at) (λ d. d.id))
        s.documents),
  s,
)
