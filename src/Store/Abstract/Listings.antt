-- ===== src/Store/Abstract/Listings.antt =====
-- memory/store.go: what is listed depends on what the repository holds, and not on the order in which
-- Go ranges over a map.
use nexus_local.Prelude.{◌≡◌, ap, arith, true, none, ℤ}
use nexus_local.Result.{ok}
use nexus_local.Text.{Text, text_eq, text_Eq}
use nexus_local.Store.{
  Store, Key, key_Eq, long_key_Eq, document_key, data_source_key, job_key, conversation_key,
  message_key,
}
use nexus_local.Store.Select.{oldest_first-IsOrder, newest_first-IsOrder, cut}
use nexus_local.Store.Listing.{select_of_same}
use nexus_local.Store.WellFormed.{IsWellFormed}
use nexus_local.Store.Documents.{list_documents}
use nexus_local.Store.Sources.{list_data_sources}
use nexus_local.Store.Jobs.{list_jobs}
use nexus_local.Store.Conversations.{list_conversations, list_messages, is_message_of}
use nexus_local.Store.Abstract.{view}

-- Two keys of one tenant with one identifier.
same_key :
    (x y tenant i j : Text)
    → text_eq x tenant ≡ true
    → text_eq y tenant ≡ true
    → i ≡ j
    → ◌≡◌ {A = Key} (x, i) (y, j)
same_key x y tenant i j p q e =
    ground (arith, p, q, e, text_Eq.same_iff x tenant, text_Eq.same_iff y tenant)

-- On two well-formed stores that stand for one repository, whatever the order of their maps, each of
-- ListDocuments, ListDataSources, ListJobs at any limit, ListConversations and ListMessages returns
-- the same list.
pub lists_of_same_view :
    (s t : Store) (tenant conversation : Text) (limit : ℤ)
    → IsWellFormed s
    → IsWellFormed t
    → view s ≡ view t
    → ((list_documents none tenant s).0 ≡ (list_documents none tenant t).0)
      × ((list_data_sources none tenant s).0 ≡ (list_data_sources none tenant t).0)
      × ((list_jobs none tenant limit s).0 ≡ (list_jobs none tenant limit t).0)
      × ((list_conversations none tenant s).0 ≡ (list_conversations none tenant t).0)
      × ((list_messages none tenant conversation s).0
          ≡ (list_messages none tenant conversation t).0)
unfolding list_documents list_data_sources list_jobs list_conversations list_messages
lists_of_same_view s t tenant conversation limit hs ht v = (
  ap ok (
      select_of_same document_key (λ d. d.id) (λ d. text_eq d.tenant_id tenant) _
        (oldest_first-IsOrder _ _)
        (λ a b p q e. same_key a.tenant_id b.tenant_id tenant a.id b.id p q e) s.documents
        t.documents hs.documents ht.documents (λ k. ap (λ a. a.documents k) v)),
  ap ok (
      select_of_same data_source_key (λ d. d.id) (λ d. text_eq d.tenant_id tenant) _
        (newest_first-IsOrder _ _)
        (λ a b p q e. same_key a.tenant_id b.tenant_id tenant a.id b.id p q e) s.data_sources
        t.data_sources hs.data_sources ht.data_sources (λ k. ap (λ a. a.data_sources k) v)),
  ap (λ js. ok (cut limit js))
      (select_of_same job_key (λ d. d.id) (λ d. text_eq d.tenant_id tenant) _
        (newest_first-IsOrder _ _)
        (λ a b p q e. same_key a.tenant_id b.tenant_id tenant a.id b.id p q e) s.jobs t.jobs hs.jobs
        ht.jobs (λ k. ap (λ a. a.jobs k) v)),
  ap ok (
      select_of_same conversation_key (λ d. d.id) (λ d. text_eq d.tenant_id tenant) _
        (newest_first-IsOrder _ _)
        (λ a b p q e. same_key a.tenant_id b.tenant_id tenant a.id b.id p q e) s.conversations
        t.conversations hs.conversations ht.conversations (λ k. ap (λ a. a.conversations k) v)),
  ap ok (
      select_of_same message_key (λ d. d.id) (is_message_of tenant conversation) _
        (oldest_first-IsOrder _ _)
        (λ a b p q e. ground (
          arith,
          p,
          q,
          e,
          text_Eq.same_iff a.tenant_id tenant,
          text_Eq.same_iff b.tenant_id tenant,
          text_Eq.same_iff a.conversation_id conversation,
          text_Eq.same_iff b.conversation_id conversation,
        ))
        s.messages t.messages hs.messages ht.messages (λ k. ap (λ a. a.messages k) v)),
)
