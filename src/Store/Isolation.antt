-- ===== src/Store/Isolation.antt =====
-- memory/store.go, DeleteTenant: which records it takes and which it leaves.
use nexus_local.Prelude.{
  ◌≡◌, inl, inr, refl, sym, ap, none, some, ◌==◌, if◌then◌else◌, Option-cases,
}
use nexus_local.Result.{Result, ok, err, not_found}
use nexus_local.Text.{Text, text_Eq, text_eq}
use nexus_local.Map
use nexus_local.Domain.Tenant.{Tenant}
use nexus_local.Map.{Map, get-delete_if, get-remove}
use nexus_local.Store.{Store, Key, LongKey, key_Eq, long_key_Eq}
use nexus_local.Store.Tenants.{delete_tenant, without_tenant, in_tenant, below_tenant}

-- What a map keyed by the tenant holds once the tenant is gone.
abbrev pub IsClearedOf : {V : Type 0} → Text → Map Key V → Map Key V → Type 0
IsClearedOf {V} id m n = (k : Key) → Map.get n k ≡ (if text_eq k.0 id then none else Map.get m k)

abbrev pub IsClearedBelow : {V : Type 0} → Text → Map LongKey V → Map LongKey V → Type 0
IsClearedBelow {V} id m n =
    (k : LongKey) → Map.get n k ≡ (if text_eq k.0.0 id then none else Map.get m k)

-- The records of one tenant are gone from every map; all others, and the users, are as they were.
pub record IsWithout (id : Text) (s t : Store) : Type 0 where
  pub tenants : (k : Text) → Map.get t.tenants k ≡ (if id == k then none else Map.get s.tenants k)
  pub users : t.users ≡ s.users
  pub memberships : IsClearedOf id s.memberships t.memberships
  pub documents : IsClearedOf id s.documents t.documents
  pub data_sources : IsClearedOf id s.data_sources t.data_sources
  pub source_views : IsClearedOf id s.source_views t.source_views
  pub policy_profiles : IsClearedOf id s.policy_profiles t.policy_profiles
  pub scan_entries : IsClearedBelow id s.scan_entries t.scan_entries
  pub jobs : IsClearedOf id s.jobs t.jobs
  pub conversations : IsClearedOf id s.conversations t.conversations
  pub messages : IsClearedBelow id s.messages t.messages
  pub audit_events : IsClearedOf id s.audit_events t.audit_events

module _ {V : Type 0} (id : Text) where
  cleared : (m : Map Key V) → IsClearedOf id m (Map.delete_if (in_tenant id) m)
  cleared m k = get-delete_if (λ (j : Key). text_eq j.0 id) m k

  cleared_below : (m : Map LongKey V) → IsClearedBelow id m (Map.delete_if (below_tenant id) m)
  cleared_below m k = get-delete_if (λ (j : LongKey). text_eq j.0.0 id) m k

without_tenant-IsWithout : (id : Text) (s : Store) → IsWithout id s (without_tenant id s)
unfolding without_tenant
without_tenant-IsWithout id s = record {
  tenants = get-remove s.tenants id;
  users = refl;
  memberships = cleared id s.memberships;
  documents = cleared id s.documents;
  data_sources = cleared id s.data_sources;
  source_views = cleared id s.source_views;
  policy_profiles = cleared id s.policy_profiles;
  scan_entries = cleared_below id s.scan_entries;
  jobs = cleared id s.jobs;
  conversations = cleared id s.conversations;
  messages = cleared_below id s.messages;
  audit_events = cleared id s.audit_events;
}

-- What a deletion of a tenant does on a live context.
pub data IsDeletion (id : Text) (s : Store) (r : Result (Unit {0}) × Store) : Type 0 where
  unknown : Map.get s.tenants id ≡ none → r ≡ (err not_found, s) → IsDeletion id s r
  deleted :
      (tenant : Tenant)
      → Map.get s.tenants id ≡ some tenant
      → r.0 ≡ ok tt
      → IsWithout id s r.1
      → IsDeletion id s r

-- On a live context, deleting a tenant that is not stored returns not-found and changes nothing;
-- deleting a stored one succeeds, takes it and every record of every map that is keyed by it, and
-- leaves the records of every other tenant and all users as they were.
pub delete_tenant-IsDeletion : (id : Text) (s : Store) → IsDeletion id s (delete_tenant none id s)
unfolding delete_tenant
delete_tenant-IsDeletion id s = elim (Option-cases (Map.get s.tenants id)) [
  | inl e ↦ unknown e (rw e refl)
  | inr (tenant, e) ↦
      let outcome : (ok tt, without_tenant id s) ≡ delete_tenant none id s = rw e refl in
      deleted tenant e (ap (λ q. q.0) (sym outcome))
        (coe 0 1 (i. IsWithout id s (outcome i).1) (without_tenant-IsWithout id s))
]
