-- ===== src/Tests/Sources.antt =====
-- domain/data_source.go, source_view.go and membership.go at fixed inputs.
use nexus_local.Prelude.{ℕ, [], ◌∷◌, true, ◌≡◌, inl, inr, refl, Option, none, some, ℤ, pos}
use nexus_local.Result.{ok}
use nexus_local.Text.{
  Text, text, text_eq, trim_space, is_space, to_lower, split, contains, has_prefix, replace_rune,
  byte_len,
}
use nexus_local.Clock.{or_now, add_minutes}
use nexus_local.Domain.Ids.{empty_id}
use nexus_local.Domain.Membership.{member, admin, upload_documents, valid_role, allows, allows_mono}
use nexus_local.Domain.Patterns
use nexus_local.Domain.Patterns.{
  clean_pattern, has_parent_path_segment, normalize_from, normalize_data_source_patterns,
}
use nexus_local.Domain.Patterns.Laws.{IsNormal, normalize-IsNormal}
use nexus_local.Domain.DataSource.{
  ConnectorConfig, DataSource, DataSourceCreate, DataSourceStatus, folder, active, scanning,
  archived, normalize_connector_config, contains_control_character, normalize_scan_interval_minutes,
  new_data_source, transition, complete_scan, cancel_scan,
}
use nexus_local.Domain.DataSource.Schedule.{
  Reach, here, and, moved, completed, IsScheduled, life-IsScheduled,
}
use nexus_local.Domain.DataSource.Archive.{archived_absorbs, scan_end}
use nexus_local.Domain.SourceView.{
  SourceView, SourceViewFilters, SourceViewCreate, new_source_view, normalize_source_view_filters,
  valid_source_view_health, valid_source_view_schedule, valid_type_name, IsValid, writers-IsValid,
}

abbrev no_config : ConnectorConfig
no_config = record { provider = []; resource_id = []; credential_ref = []; notes = [] }

abbrev input : DataSourceCreate
input = record {
  id = text "source_1";
  tenant_id = text "tenant_1";
  owner_id = text "user_1";
  type = folder;
  name = text "Docs";
  root_path = text "/docs";
  connector_config = no_config;
  include_patterns = text "*.md" ∷ [];
  exclude_patterns = [];
  scan_interval_minutes = pos 60;
  now = 100;
}

abbrev source : DataSourceStatus → Option ℕ → Option ℕ → ℤ → ℕ → DataSource
source status next last imported updated = record {
  id = text "source_1";
  tenant_id = text "tenant_1";
  owner_id = text "user_1";
  type = folder;
  name = text "Docs";
  root_path = text "/docs";
  connector_config = no_config;
  include_patterns = text "*.md" ∷ [];
  exclude_patterns = [];
  scan_interval_minutes = pos 60;
  next_scan_at = next;
  status = status;
  last_scan_at = last;
  last_scan_imported = imported;
  last_scan_skipped = pos 0;
  last_scan_failed = pos 0;
  created_at = 100;
  updated_at = updated;
}

abbrev new_source : DataSource
new_source = source active (some 100) none (pos 0) 100

abbrev scanned : DataSource
scanned = source active (some 3_600_000_000_200) (some 200) (pos 4) 200

patterns :
    normalize_data_source_patterns (text " *.md " ∷ text "# note" ∷ text "*.md" ∷ [])
    ≡ ok (text "*.md" ∷ [])
unfolding normalize_data_source_patterns clean_pattern has_parent_path_segment trim_space
    replace_rune is_space has_prefix byte_len contains split text_eq Patterns.member
patterns = refl

created : new_data_source 5 input ≡ ok new_source
unfolding new_data_source normalize_connector_config normalize_scan_interval_minutes
    normalize_data_source_patterns clean_pattern has_parent_path_segment trim_space replace_rune
    is_space has_prefix byte_len contains split text_eq Patterns.member contains_control_character
    empty_id or_now
created = refl

completed_scan :
    complete_scan (source scanning (some 100) none (pos 0) 150) (pos 4) (pos 0) (pos 0) 200 5
    ≡ ok scanned
unfolding complete_scan add_minutes or_now
completed_scan = refl

run : Reach new_source scanned
unfolding transition or_now
run =
    and (and here (moved scanning 150 5 refl))
      (completed (pos 4) (pos 0) (pos 0) 200 5 completed_scan)

life-IsScheduled_example : IsScheduled scanned
life-IsScheduled_example = life-IsScheduled 5 input new_source scanned created run

abbrev put_away : DataSource
put_away = source archived none none (pos 0) 300

archiving : Reach new_source put_away
unfolding transition or_now
archiving = and here (moved archived 300 5 refl)

stay : Reach put_away put_away
stay = here

archived_absorbs_example : put_away ≡ put_away
archived_absorbs_example =
    archived_absorbs stay (life-IsScheduled 5 input new_source put_away created archiving) refl

-- A source without an interval.
abbrev unplanned : DataSourceStatus → ℕ → DataSource
unplanned status updated = record (source status none none (pos 0) updated) {
  scan_interval_minutes = pos 0;
}

abbrev canceled : DataSource
canceled = unplanned active 200

canceled_scan : cancel_scan (unplanned scanning 150) 200 5 ≡ ok canceled
unfolding cancel_scan or_now
canceled_scan = refl

scan_end_example :
    (canceled.status ≡ active)
    × (canceled.next_scan_at ≡ none)
    × (canceled.updated_at ≡ or_now 5 200)
scan_end_example =
    scan_end (unplanned scanning 150) canceled active (pos 0) (pos 0) (pos 0) 200 5
      (inr (inr (canceled_scan, refl)))

normalize-IsNormal_example : IsNormal (text "*.md" ∷ [])
normalize-IsNormal_example =
    normalize-IsNormal (text " *.md " ∷ text "# note" ∷ text "*.md" ∷ []) (text "*.md" ∷ [])
      patterns

member_uploads : allows member upload_documents ≡ true
unfolding allows
member_uploads = refl

allows_mono_example : (valid_role member ≡ true) × (allows admin upload_documents ≡ true)
allows_mono_example = allows_mono member admin upload_documents refl member_uploads

abbrev filters : Text → SourceViewFilters
filters health = record {
  health = health;
  query = text "wiki";
  schedule = [];
  type = text "folder";
}

abbrev view_input : SourceViewCreate
view_input = record {
  id = text "view_1";
  tenant_id = text "tenant_1";
  owner_id = text "user_1";
  name = text " Mine ";
  filters = filters (text "Active");
  now = 100;
}

abbrev view : SourceView
view = record {
  id = text "view_1";
  tenant_id = text "tenant_1";
  owner_id = text "user_1";
  name = text "Mine";
  filters = filters (text "active");
  created_at = 100;
  updated_at = 100;
}

ascii : ℕ → ℕ
ascii c = c

new_view : new_source_view ascii 5 view_input ≡ ok view
unfolding new_source_view normalize_source_view_filters valid_source_view_health to_lower trim_space
    is_space text_eq valid_source_view_schedule byte_len valid_type_name empty_id or_now
new_view = refl

writers-IsValid_example : IsValid view
writers-IsValid_example = writers-IsValid ascii 5 view_input view view (inl new_view)
