-- ===== src/Store/WellFormed.antt =====
-- memory/store.go: the keys of the maps over sequences of calls.
use nexus_local.Prelude.{
  List, [], ◌∷◌, Bool, true, false, ◌≡◌, refl, none, some, inl, inr, not, if◌then◌else◌,
}
use nexus_local.Result.{Error, Result, Result-cases}
use nexus_local.Action.{Context}
use nexus_local.Text.{Text, text_Eq}
use nexus_local.Clock.{Time}
use nexus_local.Map
use nexus_local.Map.Keyed.{IsKeyed, empty-IsKeyed, put-IsKeyed, remove-IsKeyed, delete_if-IsKeyed}
use nexus_local.Domain.Tenant.{Tenant, User}
use nexus_local.Domain.Membership.{Membership}
use nexus_local.Domain.Document.{Document}
use nexus_local.Domain.DataSource.{DataSource, DataSourceScanEntry}
use nexus_local.Domain.SourceView.{SourceView}
use nexus_local.Domain.PolicyProfile.{SourcePolicyProfile}
use nexus_local.Domain.Job.{Job, JobType, running, transition}
use nexus_local.Domain.Conversation.{Conversation, Message}
use nexus_local.Domain.Audit.{AuditEvent}
use nexus_local.Store.{
  Store, key_Eq, long_key_Eq, new_store, tenant_key, user_key, membership_key, document_key,
  data_source_key, source_view_key, policy_profile_key, scan_entry_key, job_key, conversation_key,
  message_key, audit_event_key,
}
use nexus_local.Store.Tenants.{
  save_tenant, delete_tenant, save_user, save_membership, delete_membership, without_tenant,
}
use nexus_local.Store.Documents.{save_document}
use nexus_local.Store.Sources.{
  save_data_source, save_source_view, delete_source_view, save_source_policy_profile,
  delete_source_policy_profile, save_data_source_scan_entry,
}
use nexus_local.Store.Jobs.{save_job, start, claim_first, claim_next_queued_job}
use nexus_local.Store.Conversations.{
  save_conversation, delete_conversation, save_message, is_message_of,
}
use nexus_local.Store.Audit.{save_audit_event}

pub record IsWellFormed (s : Store) : Type 0 where
  pub tenants : IsKeyed tenant_key s.tenants
  pub users : IsKeyed user_key s.users
  pub memberships : IsKeyed membership_key s.memberships
  pub documents : IsKeyed document_key s.documents
  pub data_sources : IsKeyed data_source_key s.data_sources
  pub source_views : IsKeyed source_view_key s.source_views
  pub policy_profiles : IsKeyed policy_profile_key s.policy_profiles
  pub scan_entries : IsKeyed scan_entry_key s.scan_entries
  pub jobs : IsKeyed job_key s.jobs
  pub conversations : IsKeyed conversation_key s.conversations
  pub messages : IsKeyed message_key s.messages
  pub audit_events : IsKeyed audit_event_key s.audit_events

-- The calls of a RepositorySet that write.
pub data Call : Type 0 where
  call_save_tenant : Tenant → Call
  call_delete_tenant : Text → Call
  call_save_user : User → Call
  call_save_membership : Membership → Call
  call_delete_membership : Text → Text → Call
  call_save_document : Document → Call
  call_save_data_source : DataSource → Call
  call_save_scan_entry : DataSourceScanEntry → Call
  call_save_source_view : SourceView → Call
  call_delete_source_view : Text → Text → Call
  call_save_policy_profile : SourcePolicyProfile → Call
  call_delete_policy_profile : Text → Text → Call
  call_save_job : Job → Call
  call_claim : Time → Time → List JobType → Call
  call_save_conversation : Conversation → Call
  call_delete_conversation : Text → Text → Call
  call_save_message : Message → Call
  call_save_audit_event : AuditEvent → Call

-- The store behind a call.
unfoldable pub perform : Context → Call → Store → Store
perform ctx (call_save_tenant t) s = (save_tenant ctx t s).1
perform ctx (call_delete_tenant id) s = (delete_tenant ctx id s).1
perform ctx (call_save_user u) s = (save_user ctx u s).1
perform ctx (call_save_membership m) s = (save_membership ctx m s).1
perform ctx (call_delete_membership t u) s = (delete_membership ctx t u s).1
perform ctx (call_save_document d) s = (save_document ctx d s).1
perform ctx (call_save_data_source d) s = (save_data_source ctx d s).1
perform ctx (call_save_scan_entry e) s = (save_data_source_scan_entry ctx e s).1
perform ctx (call_save_source_view v) s = (save_source_view ctx v s).1
perform ctx (call_delete_source_view t v) s = (delete_source_view ctx t v s).1
perform ctx (call_save_policy_profile p) s = (save_source_policy_profile ctx p s).1
perform ctx (call_delete_policy_profile t p) s = (delete_source_policy_profile ctx t p s).1
perform ctx (call_save_job j) s = (save_job ctx j s).1
perform ctx (call_claim now wall types) s = (claim_next_queued_job ctx now wall types s).1
perform ctx (call_save_conversation c) s = (save_conversation ctx c s).1
perform ctx (call_delete_conversation t c) s = (delete_conversation ctx t c s).1
perform ctx (call_save_message m) s = (save_message ctx m s).1
perform ctx (call_save_audit_event e) s = (save_audit_event ctx e s).1

-- Each call with the context that it is made under.
unfoldable pub perform_all : List (Context × Call) → Store → Store
perform_all [] s = s
perform_all ((ctx, c) ∷ rest) s = perform_all rest (perform ctx c s)

pub new_store-IsWellFormed : IsWellFormed new_store
unfolding new_store
new_store-IsWellFormed = record {
  tenants = empty-IsKeyed tenant_key;
  users = empty-IsKeyed user_key;
  memberships = empty-IsKeyed membership_key;
  documents = empty-IsKeyed document_key;
  data_sources = empty-IsKeyed data_source_key;
  source_views = empty-IsKeyed source_view_key;
  policy_profiles = empty-IsKeyed policy_profile_key;
  scan_entries = empty-IsKeyed scan_entry_key;
  jobs = empty-IsKeyed job_key;
  conversations = empty-IsKeyed conversation_key;
  messages = empty-IsKeyed message_key;
  audit_events = empty-IsKeyed audit_event_key;
}

without_tenant-IsWellFormed :
    (id : Text) (s : Store) → IsWellFormed s → IsWellFormed (without_tenant id s)
unfolding without_tenant
without_tenant-IsWellFormed id s h = record {
  tenants = remove-IsKeyed tenant_key s.tenants id h.tenants;
  users = h.users;
  memberships = delete_if-IsKeyed membership_key _ s.memberships h.memberships;
  documents = delete_if-IsKeyed document_key _ s.documents h.documents;
  data_sources = delete_if-IsKeyed data_source_key _ s.data_sources h.data_sources;
  source_views = delete_if-IsKeyed source_view_key _ s.source_views h.source_views;
  policy_profiles = delete_if-IsKeyed policy_profile_key _ s.policy_profiles h.policy_profiles;
  scan_entries = delete_if-IsKeyed scan_entry_key _ s.scan_entries h.scan_entries;
  jobs = delete_if-IsKeyed job_key _ s.jobs h.jobs;
  conversations = delete_if-IsKeyed conversation_key _ s.conversations h.conversations;
  messages = delete_if-IsKeyed message_key _ s.messages h.messages;
  audit_events = delete_if-IsKeyed audit_event_key _ s.audit_events h.audit_events;
}

start-IsWellFormed :
    (job : Job) (now wall : Time) (s : Store)
    → IsWellFormed s
    → IsWellFormed (start job now wall s).1
unfolding start
start-IsWellFormed job now wall s h = elim (Result-cases (transition job running now wall)) [
  | inr (e, p) ↦ rw (p, start) h
  | inl (started, p) ↦ rw (p, start) (assumption (put-IsKeyed job_key s.jobs started h.jobs))
]

claim_first-IsWellFormed :
    (queue : List Job) (now wall : Time) (s : Store)
    → IsWellFormed s
    → IsWellFormed (claim_first queue now wall s).1
unfolding claim_first
claim_first-IsWellFormed [] now wall s h = h
claim_first-IsWellFormed (job ∷ rest) now wall s h = start-IsWellFormed job now wall s h

-- A call that deletes what is there, or finds nothing and changes nothing.
delete-IsWellFormed :
    (there : Bool) (r q : Result (Unit {0})) (s t : Store)
    → IsWellFormed s
    → IsWellFormed t
    → IsWellFormed (if◌then◌else◌ {A = Result (Unit {0}) × Store} (not there) (r, s) (q, t)).1
delete-IsWellFormed true r q s t h k = k
delete-IsWellFormed false r q s t h k = h

perform-IsWellFormed : (c : Call) (s : Store) → IsWellFormed s → IsWellFormed (perform none c s)
unfolding perform save_tenant save_user save_membership save_document save_data_source
    save_data_source_scan_entry save_source_view save_source_policy_profile save_job
    save_conversation save_message save_audit_event delete_tenant delete_membership
    delete_source_view delete_source_policy_profile delete_conversation claim_next_queued_job
perform-IsWellFormed (call_save_tenant t) s h =
    assumption (put-IsKeyed tenant_key s.tenants t h.tenants)
perform-IsWellFormed (call_save_user u) s h = assumption (put-IsKeyed user_key s.users u h.users)
perform-IsWellFormed (call_save_membership m) s h =
    assumption (put-IsKeyed membership_key s.memberships m h.memberships)
perform-IsWellFormed (call_save_document d) s h =
    assumption (put-IsKeyed document_key s.documents d h.documents)
perform-IsWellFormed (call_save_data_source d) s h =
    assumption (put-IsKeyed data_source_key s.data_sources d h.data_sources)
perform-IsWellFormed (call_save_scan_entry e) s h =
    assumption (put-IsKeyed scan_entry_key s.scan_entries e h.scan_entries)
perform-IsWellFormed (call_save_source_view v) s h =
    assumption (put-IsKeyed source_view_key s.source_views v h.source_views)
perform-IsWellFormed (call_save_policy_profile p) s h =
    assumption (put-IsKeyed policy_profile_key s.policy_profiles p h.policy_profiles)
perform-IsWellFormed (call_save_job j) s h = assumption (put-IsKeyed job_key s.jobs j h.jobs)
perform-IsWellFormed (call_save_conversation c) s h =
    assumption (put-IsKeyed conversation_key s.conversations c h.conversations)
perform-IsWellFormed (call_save_message m) s h =
    assumption (put-IsKeyed message_key s.messages m h.messages)
perform-IsWellFormed (call_save_audit_event e) s h =
    assumption (put-IsKeyed audit_event_key s.audit_events e h.audit_events)
perform-IsWellFormed (call_delete_tenant id) s h =
    delete-IsWellFormed _ _ _ s (without_tenant id s) h (without_tenant-IsWellFormed id s h)
perform-IsWellFormed (call_delete_membership t u) s h =
    delete-IsWellFormed _ _ _ s (record s { memberships = Map.remove s.memberships (t, u) }) h
      (assumption (remove-IsKeyed membership_key s.memberships (t, u) h.memberships))
perform-IsWellFormed (call_delete_source_view t v) s h =
    delete-IsWellFormed _ _ _ s (record s { source_views = Map.remove s.source_views (t, v) }) h
      (assumption (remove-IsKeyed source_view_key s.source_views (t, v) h.source_views))
perform-IsWellFormed (call_delete_policy_profile t p) s h =
    delete-IsWellFormed _ _ _ s (record s { policy_profiles = Map.remove s.policy_profiles (t, p) })
      h (assumption (remove-IsKeyed policy_profile_key s.policy_profiles (t, p) h.policy_profiles))
perform-IsWellFormed (call_delete_conversation t c) s h =
    delete-IsWellFormed _ _ _ s
      (record s {
        conversations = Map.remove s.conversations (t, c);
        messages = Map.delete_if (λ k m. is_message_of t c m) s.messages;
      })
      h
      (assumption (
        remove-IsKeyed conversation_key s.conversations (t, c) h.conversations,
        delete_if-IsKeyed message_key (λ k m. is_message_of t c m) s.messages h.messages,
      ))
perform-IsWellFormed (call_claim now wall types) s h = claim_first-IsWellFormed _ now wall s h

-- Under a context that is over, a call changes nothing.
over-perform : (e : Error) (c : Call) (s : Store) → perform (some e) c s ≡ s
unfolding perform save_tenant save_user save_membership save_document save_data_source
    save_data_source_scan_entry save_source_view save_source_policy_profile save_job
    save_conversation save_message save_audit_event delete_tenant delete_membership
    delete_source_view delete_source_policy_profile delete_conversation claim_next_queued_job
over-perform e (call_save_tenant t) s = refl
over-perform e _ s = refl

-- From a well-formed store, any calls of the repository, under whatever contexts, lead to a
-- well-formed one: every map holds each value under the key that is made of its own fields, once.
pub perform_all-IsWellFormed :
    (calls : List (Context × Call)) (s : Store)
    → IsWellFormed s
    → IsWellFormed (perform_all calls s)
unfolding perform_all
perform_all-IsWellFormed [] s h = h
perform_all-IsWellFormed ((none, c) ∷ rest) s h =
    perform_all-IsWellFormed rest (perform none c s) (perform-IsWellFormed c s h)
perform_all-IsWellFormed ((some e, c) ∷ rest) s h =
    perform_all-IsWellFormed rest (perform (some e) c s) (rw over-perform h)
