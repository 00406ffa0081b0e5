-- ===== src/Store/Abstract.antt =====
-- internal/store/contracts.go: what the repositories promise, on finite functions in place of maps: an
-- entry for each key or none, without an order.
pub mod Refines
pub mod Listings
use nexus_local.Prelude.{
  Bool, true, false, ◌≡◌, ◌⊎◌, Option, none, some, is_some, Eq, ◌==◌, if◌then◌else◌, List,
}
use nexus_local.Text.{Text, text_Eq, text_eq}
use nexus_local.Clock.{Time}
use nexus_local.Map
use nexus_local.Domain.Tenant.{Tenant, User}
use nexus_local.Domain.Membership.{Membership}
use nexus_local.Domain.Document.{Document}
use nexus_local.Domain.DataSource.{DataSource, DataSourceScanEntry}
use nexus_local.Domain.SourceView.{SourceView}
use nexus_local.Domain.PolicyProfile.{SourcePolicyProfile}
use nexus_local.Domain.Job.{Job, JobType}
use nexus_local.Domain.Conversation.{Conversation, Message}
use nexus_local.Domain.Audit.{AuditEvent}
use nexus_local.Store.{
  Store, Key, LongKey, key_Eq, long_key_Eq, tenant_key, user_key, membership_key, document_key,
  data_source_key, source_view_key, policy_profile_key, scan_entry_key, job_key, conversation_key,
  message_key, audit_event_key,
}
use nexus_local.Store.Jobs.{claimable}
use nexus_local.Store.Jobs.Claim.{started, before}
use nexus_local.Store.Conversations.{is_message_of}
use nexus_local.Store.WellFormed.{
  Call, call_save_tenant, call_delete_tenant, call_save_user, call_save_membership,
  call_delete_membership, call_save_document, call_save_data_source, call_save_scan_entry,
  call_save_source_view, call_delete_source_view, call_save_policy_profile,
  call_delete_policy_profile, call_save_job, call_claim, call_save_conversation,
  call_delete_conversation, call_save_message, call_save_audit_event,
}

pub record Repository : Type 0 where
  pub tenants : Text → Option Tenant
  pub users : Text → Option User
  pub memberships : Key → Option Membership
  pub documents : Key → Option Document
  pub data_sources : Key → Option DataSource
  pub source_views : Key → Option SourceView
  pub policy_profiles : Key → Option SourcePolicyProfile
  pub scan_entries : LongKey → Option DataSourceScanEntry
  pub jobs : Key → Option Job
  pub conversations : Key → Option Conversation
  pub messages : LongKey → Option Message
  pub audit_events : Key → Option AuditEvent

-- The repository that a store stands for.
abbrev pub view : Store → Repository
view s = record {
  tenants = λ k. Map.get s.tenants k;
  users = λ k. Map.get s.users k;
  memberships = λ k. Map.get s.memberships k;
  documents = λ k. Map.get s.documents k;
  data_sources = λ k. Map.get s.data_sources k;
  source_views = λ k. Map.get s.source_views k;
  policy_profiles = λ k. Map.get s.policy_profiles k;
  scan_entries = λ k. Map.get s.scan_entries k;
  jobs = λ k. Map.get s.jobs k;
  conversations = λ k. Map.get s.conversations k;
  messages = λ k. Map.get s.messages k;
  audit_events = λ k. Map.get s.audit_events k;
}

module _ {K V : Type 0} where
  -- No entry under the keys that are meant.
  abbrev pub clear : (K → Bool) → (K → Option V) → K → Option V
  clear p f k = if p k then none else f k

  -- No entry with a value that is meant.
  abbrev pub clear_values : (V → Bool) → (K → Option V) → K → Option V
  clear_values p f k = elim (f k) [ none ↦ none | some v ↦ if p v then none else some v ]

module _ {K V : Type 0} ⦃e : Eq K⦄ where
  abbrev pub set : K → V → (K → Option V) → K → Option V
  set k v f j = if k == j then some v else f j

  abbrev pub unset : K → (K → Option V) → K → Option V
  unset k f j = if k == j then none else f j

-- All that belongs to a tenant is gone.
abbrev pub without : Text → Repository → Repository
without id a = record a {
  tenants = unset id a.tenants;
  memberships = clear (λ k. text_eq k.0 id) a.memberships;
  documents = clear (λ k. text_eq k.0 id) a.documents;
  data_sources = clear (λ k. text_eq k.0 id) a.data_sources;
  source_views = clear (λ k. text_eq k.0 id) a.source_views;
  policy_profiles = clear (λ k. text_eq k.0 id) a.policy_profiles;
  scan_entries = clear (λ k. text_eq k.0.0 id) a.scan_entries;
  jobs = clear (λ k. text_eq k.0 id) a.jobs;
  conversations = clear (λ k. text_eq k.0 id) a.conversations;
  messages = clear (λ k. text_eq k.0.0 id) a.messages;
  audit_events = clear (λ k. text_eq k.0 id) a.audit_events;
}

-- A claim: the first of the jobs that wait is running, or none waits.
abbrev pub Waits : List JobType → Repository → Job → Type 0
Waits types a job = (a.jobs (job_key job) ≡ some job) × (claimable types job ≡ true)

pub record Takes (types : List JobType) (now wall : Time) (a b : Repository) : Type 0 where
  pub job : Job
  pub waited : Waits types a job
  pub first : (other : Job) → Waits types a other → before other job ≡ false
  pub taken : b ≡ record a { jobs = set (job_key job) (started job now wall) a.jobs }

-- What each call may do to a repository.
unfoldable pub Step : Call → Repository → Repository → Type 0
Step (call_save_tenant t) a b = b ≡ record a { tenants = set (tenant_key t) t a.tenants }
Step (call_save_user u) a b = b ≡ record a { users = set (user_key u) u a.users }
Step (call_save_membership m) a b =
    b ≡ record a { memberships = set (membership_key m) m a.memberships }
Step (call_save_document d) a b = b ≡ record a { documents = set (document_key d) d a.documents }
Step (call_save_data_source d) a b =
    b ≡ record a { data_sources = set (data_source_key d) d a.data_sources }
Step (call_save_scan_entry e) a b =
    b ≡ record a { scan_entries = set (scan_entry_key e) e a.scan_entries }
Step (call_save_source_view v) a b =
    b ≡ record a { source_views = set (source_view_key v) v a.source_views }
Step (call_save_policy_profile p) a b =
    b ≡ record a { policy_profiles = set (policy_profile_key p) p a.policy_profiles }
Step (call_save_job j) a b = b ≡ record a { jobs = set (job_key j) j a.jobs }
Step (call_save_conversation c) a b =
    b ≡ record a { conversations = set (conversation_key c) c a.conversations }
Step (call_save_message m) a b = b ≡ record a { messages = set (message_key m) m a.messages }
Step (call_save_audit_event e) a b =
    b ≡ record a { audit_events = set (audit_event_key e) e a.audit_events }
Step (call_delete_tenant id) a b = b ≡ (if is_some (a.tenants id) then without id a else a)
Step (call_delete_membership t u) a b = b ≡ (
    if is_some (a.memberships (t, u))
    then record a { memberships = unset (t, u) a.memberships }
    else a)
Step (call_delete_source_view t v) a b = b ≡ (
    if is_some (a.source_views (t, v))
    then record a { source_views = unset (t, v) a.source_views }
    else a)
Step (call_delete_policy_profile t p) a b = b ≡ (
    if is_some (a.policy_profiles (t, p))
    then record a { policy_profiles = unset (t, p) a.policy_profiles }
    else a)
Step (call_delete_conversation t c) a b = b ≡ (
    if is_some (a.conversations (t, c))
    then record a {
      conversations = unset (t, c) a.conversations;
      messages = clear_values (is_message_of t c) a.messages;
    }
    else a)
Step (call_claim now wall types) a b =
    Takes types now wall a b ⊎ (((job : Job) → ¬ Waits types a job) × (b ≡ a))
