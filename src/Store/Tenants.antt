-- ===== src/Store/Tenants.antt =====
-- memory/store.go: workspaces, users and memberships.
use nexus_local.Prelude.{List, Bool, is_some, if◌then◌else◌, not}
use nexus_local.Result.{ok, err, not_found}
use nexus_local.Action.{Action, Context, live}
use nexus_local.Text.{text_eq, text_Eq, text_ltb}
use nexus_local.Map
use nexus_local.Domain.Ids.{TenantId, UserId}
use nexus_local.Domain.Tenant.{Tenant, User}
use nexus_local.Domain.Membership.{Membership}
use nexus_local.Store.{
  key_Eq, long_key_Eq, Store, Key, LongKey, found, tenant_key, user_key, membership_key,
}
use nexus_local.Store.Select.{select}

unfoldable pub save_tenant : Context → Tenant → Action Store (Unit {0})
save_tenant ctx tenant =
    live ctx λ s. (ok tt, record s { tenants = Map.put s.tenants (tenant_key tenant) tenant })

unfoldable pub get_tenant : Context → TenantId → Action Store Tenant
get_tenant ctx id = live ctx λ s. (found (Map.get s.tenants id), s)

-- `key.tenantID == id`
abbrev pub in_tenant : {V : Type 0} → TenantId → Key → V → Bool
in_tenant id k v = text_eq k.0 id

abbrev pub below_tenant : {V : Type 0} → TenantId → LongKey → V → Bool
below_tenant id k v = text_eq k.0.0 id

-- The store without all that belongs to a tenant.
unfoldable pub without_tenant : TenantId → Store → Store
without_tenant id s = record s {
  tenants = Map.remove s.tenants id;
  memberships = Map.delete_if (in_tenant id) s.memberships;
  documents = Map.delete_if (in_tenant id) s.documents;
  data_sources = Map.delete_if (in_tenant id) s.data_sources;
  source_views = Map.delete_if (in_tenant id) s.source_views;
  policy_profiles = Map.delete_if (in_tenant id) s.policy_profiles;
  scan_entries = Map.delete_if (below_tenant id) s.scan_entries;
  jobs = Map.delete_if (in_tenant id) s.jobs;
  conversations = Map.delete_if (in_tenant id) s.conversations;
  messages = Map.delete_if (below_tenant id) s.messages;
  audit_events = Map.delete_if (in_tenant id) s.audit_events;
}

unfoldable pub delete_tenant : Context → TenantId → Action Store (Unit {0})
delete_tenant ctx id = live ctx λ s.
    if not (is_some (Map.get s.tenants id))
    then (err not_found, s)
    else (ok tt, without_tenant id s)

unfoldable pub save_user : Context → User → Action Store (Unit {0})
save_user ctx user =
    live ctx λ s. (ok tt, record s { users = Map.put s.users (user_key user) user })

unfoldable pub get_user : Context → UserId → Action Store User
get_user ctx id = live ctx λ s. (found (Map.get s.users id), s)

unfoldable pub save_membership : Context → Membership → Action Store (Unit {0})
save_membership ctx m =
    live ctx λ s. (ok tt, record s { memberships = Map.put s.memberships (membership_key m) m })

-- memberships[i].TenantID < memberships[j].TenantID
abbrev pub by_tenant : Membership → Membership → Bool
by_tenant a b = text_ltb a.tenant_id b.tenant_id

abbrev pub by_user : Membership → Membership → Bool
by_user a b = text_ltb a.user_id b.user_id

unfoldable pub list_memberships_for_user : Context → UserId → Action Store (List Membership)
list_memberships_for_user ctx user =
    live ctx λ s. (ok (select (λ m. text_eq m.user_id user) by_tenant s.memberships), s)

unfoldable pub list_memberships_for_tenant : Context → TenantId → Action Store (List Membership)
list_memberships_for_tenant ctx tenant =
    live ctx λ s. (ok (select (λ m. text_eq m.tenant_id tenant) by_user s.memberships), s)

unfoldable pub delete_membership : Context → TenantId → UserId → Action Store (Unit {0})
delete_membership ctx tenant user = live ctx λ s.
    if not (is_some (Map.get s.memberships (tenant, user)))
    then (err not_found, s)
    else (ok tt, record s { memberships = Map.remove s.memberships (tenant, user) })
