-- ===== src/Store/Sources.antt =====
-- memory/store.go: data sources, their scan entries, source views and policy profiles.
use nexus_local.Prelude.{
  ℕ, List, [], Bool, true, false, not, ◌&&◌, ◌||◌, Option, none, some, ltb, eqb, length, drop,
  is_some, if◌then◌else◌, ℤ, is_nonpositive, magnitude,
}
use nexus_local.Result.{ok, err, not_found}
use nexus_local.Action.{Action, Context, live}
use nexus_local.Text.{Text, text_eq, text_Eq, text_ltb, to_lower, is_empty}
use nexus_local.Clock.{Time}
use nexus_local.Map
use nexus_local.Domain.Ids.{TenantId, DataSourceId, SourceViewId, SourcePolicyProfileId}
use nexus_local.Domain.DataSource.{
  DataSource, DataSourceScanEntry, DataSourceType, connector, DataSourceScanOutcome, imported,
  skipped, scan_failed, scan_deleted, other_outcome, is_archived, is_scanning,
}
use nexus_local.Domain.SourceView.{SourceView}
use nexus_local.Domain.PolicyProfile.{SourcePolicyProfile}
use nexus_local.Store.{
  key_Eq, long_key_Eq, Store, found, data_source_key, source_view_key, policy_profile_key,
  scan_entry_key,
}
use nexus_local.Store.Select.{select, newest_first, cut}

unfoldable pub save_data_source : Context → DataSource → Action Store (Unit {0})
save_data_source ctx d =
    live ctx λ s. (ok tt, record s { data_sources = Map.put s.data_sources (data_source_key d) d })

unfoldable pub get_data_source : Context → TenantId → DataSourceId → Action Store DataSource
get_data_source ctx tenant id = live ctx λ s. (found (Map.get s.data_sources (tenant, id)), s)

unfoldable pub list_data_sources : Context → TenantId → Action Store (List DataSource)
list_data_sources ctx tenant = live ctx λ s. (
  ok (
      select (λ d. text_eq d.tenant_id tenant) (newest_first (λ d. d.updated_at) (λ d. d.id))
        s.data_sources),
  s,
)

-- Names in lower case, and identifiers where those are equal. The first argument is the case table of
-- `unicode` beyond ASCII.
unfoldable pub by_name : {A : Type 0} → (ℕ → ℕ) → (A → Text) → (A → Text) → A → A → Bool
by_name table name id a b =
    let left = to_lower table (name a) in
    let right = to_lower table (name b) in
    if text_eq left right then text_ltb (id a) (id b) else text_ltb left right

unfoldable pub save_source_view : Context → SourceView → Action Store (Unit {0})
save_source_view ctx v =
    live ctx λ s. (ok tt, record s { source_views = Map.put s.source_views (source_view_key v) v })

unfoldable pub get_source_view : Context → TenantId → SourceViewId → Action Store SourceView
get_source_view ctx tenant id = live ctx λ s. (found (Map.get s.source_views (tenant, id)), s)

unfoldable pub list_source_views : (ℕ → ℕ) → Context → TenantId → Action Store (List SourceView)
list_source_views table ctx tenant = live ctx λ s. (
  ok (
      select (λ v. text_eq v.tenant_id tenant) (by_name table (λ v. v.name) (λ v. v.id))
        s.source_views),
  s,
)

unfoldable pub delete_source_view : Context → TenantId → SourceViewId → Action Store (Unit {0})
delete_source_view ctx tenant id = live ctx λ s.
    if not (is_some (Map.get s.source_views (tenant, id)))
    then (err not_found, s)
    else (ok tt, record s { source_views = Map.remove s.source_views (tenant, id) })

unfoldable pub save_source_policy_profile : Context → SourcePolicyProfile → Action Store (Unit {0})
save_source_policy_profile ctx p =
    live ctx λ s.
      (ok tt, record s { policy_profiles = Map.put s.policy_profiles (policy_profile_key p) p })

unfoldable pub get_source_policy_profile :
    Context → TenantId → SourcePolicyProfileId → Action Store SourcePolicyProfile
get_source_policy_profile ctx tenant id =
    live ctx λ s. (found (Map.get s.policy_profiles (tenant, id)), s)

unfoldable pub list_source_policy_profiles :
    (ℕ → ℕ) → Context → TenantId → Action Store (List SourcePolicyProfile)
list_source_policy_profiles table ctx tenant = live ctx λ s. (
  ok (
      select (λ p. text_eq p.tenant_id tenant) (by_name table (λ p. p.name) (λ p. p.id))
        s.policy_profiles),
  s,
)

unfoldable pub delete_source_policy_profile :
    Context → TenantId → SourcePolicyProfileId → Action Store (Unit {0})
delete_source_policy_profile ctx tenant id = live ctx λ s.
    if not (is_some (Map.get s.policy_profiles (tenant, id)))
    then (err not_found, s)
    else (ok tt, record s { policy_profiles = Map.remove s.policy_profiles (tenant, id) })

-- source.Type == DataSourceTypeConnector
abbrev pub is_connector : DataSourceType → Bool
is_connector connector = true
is_connector _ = false

-- t == nil || t.After(now)
abbrev pub not_yet : Option Time → Time → Bool
not_yet none now = true
not_yet (some t) now = ltb now t

unfoldable pub is_due : Time → DataSource → Bool
is_due now d = not (
    is_nonpositive d.scan_interval_minutes
    || not_yet d.next_scan_at now
    || is_connector d.type
    || is_archived d.status
    || is_scanning d.status)

-- *t; the sources that are compared have a time
abbrev pub the_time : Option Time → Time
the_time none = 0
the_time (some t) = t

unfoldable pub due_first : DataSource → DataSource → Bool
due_first a b =
    if eqb (the_time a.next_scan_at) (the_time b.next_scan_at)
    then (if not (text_eq a.tenant_id b.tenant_id)
        then text_ltb a.tenant_id b.tenant_id
        else text_ltb a.id b.id)
    else ltb (the_time a.next_scan_at) (the_time b.next_scan_at)

unfoldable pub list_due_data_sources : Context → Time → ℤ → Action Store (List DataSource)
list_due_data_sources ctx now limit =
    live ctx λ s. (ok (cut limit (select (is_due now) due_first s.data_sources)), s)

unfoldable pub save_data_source_scan_entry : Context → DataSourceScanEntry → Action Store (Unit {0})
save_data_source_scan_entry ctx e =
    live ctx λ s. (ok tt, record s { scan_entries = Map.put s.scan_entries (scan_entry_key e) e })

-- sortScanEntries: newest first, then the later job identifier, then the path
unfoldable pub entry_first : DataSourceScanEntry → DataSourceScanEntry → Bool
entry_first a b =
    if eqb a.created_at b.created_at
    then (if not (text_eq a.job_id b.job_id)
        then text_ltb b.job_id a.job_id
        else text_ltb a.path b.path)
    else ltb b.created_at a.created_at

unfoldable pub list_data_source_scan_entries :
    Context → TenantId → DataSourceId → ℤ → Action Store (List DataSourceScanEntry)
list_data_source_scan_entries ctx tenant source limit = live ctx λ s. (
  ok (
      cut limit (
        select (λ e. text_eq e.tenant_id tenant && text_eq e.source_id source) entry_first
          s.scan_entries)),
  s,
)

-- outcome == outcome
unfoldable pub outcome_eq : DataSourceScanOutcome → DataSourceScanOutcome → Bool
outcome_eq imported imported = true
outcome_eq skipped skipped = true
outcome_eq scan_failed scan_failed = true
outcome_eq scan_deleted scan_deleted = true
outcome_eq (other_outcome a) (other_outcome b) = text_eq a b
outcome_eq _ _ = false

-- outcome == ""
abbrev pub is_any : DataSourceScanOutcome → Bool
is_any (other_outcome t) = is_empty t
is_any _ = false

pub record ScanEntryFilter : Type 0 where
  pub outcome : DataSourceScanOutcome
  pub limit : ℤ
  pub offset : ℤ

pub record ScanEntryPage : Type 0 where
  pub entries : List DataSourceScanEntry
  pub total : ℕ
  pub limit : ℤ
  pub offset : ℕ

-- The entries from the offset on.
unfoldable pub skip : {A : Type 0} → ℕ → List A → List A
skip offset items =
    if ltb (length items) offset then [] else if ltb 0 offset then drop offset items else items

unfoldable pub page_of : ScanEntryFilter → List DataSourceScanEntry → ScanEntryPage
unfolding skip
page_of filter entries = record {
  entries = cut filter.limit (skip (magnitude filter.offset) entries);
  total = length entries;
  limit = filter.limit;
  offset = magnitude filter.offset;
}

unfoldable pub list_data_source_scan_entry_page :
    Context → TenantId → DataSourceId → ScanEntryFilter → Action Store ScanEntryPage
unfolding outcome_eq
list_data_source_scan_entry_page ctx tenant source filter = live ctx λ s. (
  ok (
      page_of filter (
        select
          (λ e.
            text_eq e.tenant_id tenant
            && text_eq e.source_id source
            && (is_any filter.outcome || outcome_eq e.outcome filter.outcome))
          entry_first s.scan_entries)),
  s,
)
