-- ===== src/Store.antt =====
-- internal/store/memory: the in-memory repositories. A method of `*Store` is an action on the record
-- of its maps; the lock makes each one atomic. The key of a map is a pair, or a pair and a text.
pub mod Select
pub mod Tenants
pub mod Documents
pub mod Sources
pub mod Jobs
pub mod Conversations
pub mod Audit
pub mod WellFormed
pub mod Isolation
pub mod Listing
pub mod Abstract
use nexus_local.Prelude.{ℕ, Option, none, some, Eq, pair_eq}
use nexus_local.Result.{Result, ok, err, not_found}
use nexus_local.Text.{Text, text_Eq}
use nexus_local.Map
use nexus_local.Map.{Map}
use nexus_local.Domain.Ids.{TenantId, UserId}
use nexus_local.Domain.Tenant.{Tenant, User}
use nexus_local.Domain.Membership.{Membership}
use nexus_local.Domain.Document.{Document}
use nexus_local.Domain.DataSource.{DataSource, DataSourceScanEntry}
use nexus_local.Domain.SourceView.{SourceView}
use nexus_local.Domain.PolicyProfile.{SourcePolicyProfile}
use nexus_local.Domain.Job.{Job}
use nexus_local.Domain.Conversation.{Conversation, Message}
use nexus_local.Domain.Audit.{AuditEvent}

-- A tenant and an identifier in it.
abbrev pub Key : Type 0
Key = Text × Text

-- A tenant, an identifier in it, and one below that.
abbrev pub LongKey : Type 0
LongKey = Key × Text

instance abbrev pub key_Eq : Eq Key
key_Eq = pair_eq {A = Text} {B = Text}

instance abbrev pub long_key_Eq : Eq LongKey
long_key_Eq = pair_eq {A = Key} {B = Text}

pub record Store : Type 0 where
  pub tenants : Map Text Tenant
  pub users : Map Text User
  pub memberships : Map Key Membership
  pub documents : Map Key Document
  pub data_sources : Map Key DataSource
  pub source_views : Map Key SourceView
  pub policy_profiles : Map Key SourcePolicyProfile
  pub scan_entries : Map LongKey DataSourceScanEntry
  pub jobs : Map Key Job
  pub conversations : Map Key Conversation
  pub messages : Map LongKey Message
  pub audit_events : Map Key AuditEvent

-- New
unfoldable pub new_store : Store
new_store = record {
  tenants = Map.empty;
  users = Map.empty;
  memberships = Map.empty;
  documents = Map.empty;
  data_sources = Map.empty;
  source_views = Map.empty;
  policy_profiles = Map.empty;
  scan_entries = Map.empty;
  jobs = Map.empty;
  conversations = Map.empty;
  messages = Map.empty;
  audit_events = Map.empty;
}

-- `if !ok { return store.ErrNotFound }`
abbrev pub found : {A : Type 0} → Option A → Result A
found none = err not_found
found (some a) = ok a

-- The key under which each method stores its value.
abbrev pub tenant_key : Tenant → Text
tenant_key t = t.id

abbrev pub user_key : User → Text
user_key u = u.id

abbrev pub membership_key : Membership → Key
membership_key m = (m.tenant_id, m.user_id)

abbrev pub document_key : Document → Key
document_key d = (d.tenant_id, d.id)

abbrev pub data_source_key : DataSource → Key
data_source_key d = (d.tenant_id, d.id)

abbrev pub source_view_key : SourceView → Key
source_view_key v = (v.tenant_id, v.id)

abbrev pub policy_profile_key : SourcePolicyProfile → Key
policy_profile_key p = (p.tenant_id, p.id)

abbrev pub scan_entry_key : DataSourceScanEntry → LongKey
scan_entry_key e = ((e.tenant_id, e.job_id), e.path)

abbrev pub job_key : Job → Key
job_key j = (j.tenant_id, j.id)

abbrev pub conversation_key : Conversation → Key
conversation_key c = (c.tenant_id, c.id)

abbrev pub message_key : Message → LongKey
message_key m = ((m.tenant_id, m.conversation_id), m.id)

abbrev pub audit_event_key : AuditEvent → Key
audit_event_key e = (e.tenant_id, e.id)
