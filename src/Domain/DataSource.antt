-- ===== src/Domain/DataSource.antt =====
-- data_source.go: a managed knowledge source, its scan schedule and its state machine. A method that
-- mutates `*DataSource` returns the new source; where it returns an error the source is as it was.
mod Config
pub mod Schedule
pub mod Archive
pub use Config.{ConnectorConfig}
unfoldable pub use Config.{
  normalize_connector_config, normalize_scan_interval_minutes, contains_control_character,
}
use nexus_local.Prelude.{
  ℕ, List, Bool, true, false, not, ◌||◌, Option, none, some, ltb, eqb, if◌then◌else◌, ℤ, pos,
  is_negative, is_nonpositive, is_some, int_eq, ◌&&◌,
}
use nexus_local.Result.{
  Result, ok, err, invalid_entity, invalid_state_transition, ◌>>=◌, ◌>>◌, reject_if,
}
use nexus_local.Text.{Text, is_empty, trim_space}
use nexus_local.Clock.{Time, or_now, add_minutes}
use nexus_local.Domain.Ids.{DataSourceId, TenantId, UserId, JobId, DocumentId, empty_id}
use nexus_local.Domain.Patterns.{normalize_data_source_patterns}

-- `DataSourceType` is a string type: "" and what is none of the constants are an `other_type`.
pub data DataSourceType : Type 0 where
  folder : DataSourceType
  synced_folder : DataSourceType
  network_share : DataSourceType
  export : DataSourceType
  connector : DataSourceType
  other_type : Text → DataSourceType

pub data DataSourceStatus : Type 0 where
  active : DataSourceStatus
  scanning : DataSourceStatus
  failed : DataSourceStatus
  archived : DataSourceStatus
  other_status : Text → DataSourceStatus

pub data DataSourceScanOutcome : Type 0 where
  imported : DataSourceScanOutcome
  skipped : DataSourceScanOutcome
  scan_failed : DataSourceScanOutcome
  scan_deleted : DataSourceScanOutcome
  other_outcome : Text → DataSourceScanOutcome

pub record DataSource : Type 0 where
  pub id : DataSourceId
  pub tenant_id : TenantId
  pub owner_id : UserId
  pub type : DataSourceType
  pub name : Text
  pub root_path : Text
  pub connector_config : ConnectorConfig
  pub include_patterns : List Text
  pub exclude_patterns : List Text
  pub scan_interval_minutes : ℤ
  pub next_scan_at : Option Time
  pub status : DataSourceStatus
  pub last_scan_at : Option Time
  pub last_scan_imported : ℤ
  pub last_scan_skipped : ℤ
  pub last_scan_failed : ℤ
  pub created_at : Time
  pub updated_at : Time

pub record DataSourceScanEntry : Type 0 where
  pub tenant_id : TenantId
  pub job_id : JobId
  pub source_id : DataSourceId
  pub path : Text
  pub outcome : DataSourceScanOutcome
  pub reason : Text
  pub message : Text
  pub document_id : DocumentId
  pub size_bytes : ℤ
  pub content_hash : Text
  pub created_at : Time

-- The arguments of `NewDataSource` and of `Update`.
pub record DataSourceCreate : Type 0 where
  pub id : DataSourceId
  pub tenant_id : TenantId
  pub owner_id : UserId
  pub type : DataSourceType
  pub name : Text
  pub root_path : Text
  pub connector_config : ConnectorConfig
  pub include_patterns : List Text
  pub exclude_patterns : List Text
  pub scan_interval_minutes : ℤ
  pub now : Time

-- DataSourceType.Valid
unfoldable pub valid_type : DataSourceType → Bool
valid_type (other_type t) = false
valid_type _ = true

-- DataSourceScanOutcome.Valid
unfoldable pub valid_outcome : DataSourceScanOutcome → Bool
valid_outcome (other_outcome t) = false
valid_outcome _ = true

-- `if sourceType == "" { sourceType = fallback }`
unfoldable pub type_or : DataSourceType → DataSourceType → DataSourceType
type_or fallback (other_type t) = if is_empty t then fallback else other_type t
type_or fallback type = type

-- normalizeDataSourceScheduleForType
unfoldable pub normalize_data_source_schedule_for_type : DataSourceType → ℤ → ℤ
normalize_data_source_schedule_for_type connector interval = pos 0
normalize_data_source_schedule_for_type _ interval = interval

-- status == DataSourceStatusArchived
abbrev pub is_archived : DataSourceStatus → Bool
is_archived archived = true
is_archived _ = false

abbrev pub is_active : DataSourceStatus → Bool
is_active active = true
is_active _ = false

abbrev pub is_scanning : DataSourceStatus → Bool
is_scanning scanning = true
is_scanning _ = false

abbrev pub is_failed : DataSourceStatus → Bool
is_failed failed = true
is_failed _ = false

unfoldable pub new_data_source : Time → DataSourceCreate → Result DataSource
unfolding type_or valid_type normalize_data_source_schedule_for_type
new_data_source wall input = do
  include_patterns ← normalize_data_source_patterns input.include_patterns
  exclude_patterns ← normalize_data_source_patterns input.exclude_patterns
  minutes ← normalize_scan_interval_minutes input.scan_interval_minutes
  config ← normalize_connector_config input.connector_config
  let source_type = type_or folder input.type
  reject_if
      (empty_id input.id
        || empty_id input.tenant_id
        || empty_id input.owner_id
        || not (valid_type source_type)
        || is_empty (trim_space input.name)
        || is_empty (trim_space input.root_path))
      invalid_entity
  let interval = normalize_data_source_schedule_for_type source_type minutes
  let now = or_now wall input.now
  ok (record {
    id = input.id;
    tenant_id = input.tenant_id;
    owner_id = input.owner_id;
    type = source_type;
    name = trim_space input.name;
    root_path = trim_space input.root_path;
    connector_config = config;
    include_patterns = include_patterns;
    exclude_patterns = exclude_patterns;
    scan_interval_minutes = interval;
    next_scan_at = if is_nonpositive interval then none else some now;
    status = active;
    last_scan_at = none;
    last_scan_imported = pos 0;
    last_scan_skipped = pos 0;
    last_scan_failed = pos 0;
    created_at = now;
    updated_at = now;
  })

-- The argument has the fields of `DataSourceScanEntryCreate`; its `created_at` is `Now`.
unfoldable pub new_data_source_scan_entry : Time → DataSourceScanEntry → Result DataSourceScanEntry
unfolding valid_outcome
new_data_source_scan_entry wall input =
    if empty_id input.tenant_id
      || empty_id input.job_id
      || empty_id input.source_id
      || is_empty (trim_space input.path)
      || not (valid_outcome input.outcome)
      || is_negative input.size_bytes
    then err invalid_entity
    else ok (record input {
      path = trim_space input.path;
      reason = trim_space input.reason;
      message = trim_space input.message;
      content_hash = trim_space input.content_hash;
      created_at = or_now wall input.created_at;
    })

-- DataSourceStatus.CanTransition
unfoldable pub can_transition : DataSourceStatus → DataSourceStatus → Bool
can_transition active scanning = true
can_transition active failed = true
can_transition active archived = true
can_transition scanning active = true
can_transition scanning failed = true
can_transition scanning archived = true
can_transition failed scanning = true
can_transition failed active = true
can_transition failed archived = true
can_transition _ _ = false

-- nextScanAtForInterval, behind its test of the minutes; `next.Before(now)` is the test here
unfoldable pub scan_after : ℤ → Option Time → Time → Time
scan_after minutes none now = now
scan_after minutes (some last) now =
    if ltb (add_minutes last minutes) now then now else add_minutes last minutes

unfoldable pub next_scan_at_for_interval : ℤ → Option Time → Time → Time → Option Time
unfolding scan_after
next_scan_at_for_interval minutes last now wall =
    if is_nonpositive minutes then none else some (scan_after minutes last (or_now wall now))

-- What `Update` writes to the source, its arguments being normalized.
unfoldable pub updated :
    DataSource
    → DataSourceCreate
    → DataSourceType
    → ConnectorConfig
    → List Text
    → List Text
    → ℤ
    → Time
    → Time
    → DataSource
unfolding next_scan_at_for_interval
updated s input type config include_patterns exclude_patterns interval now wall = record s {
  name = trim_space input.name;
  type = type;
  root_path = trim_space input.root_path;
  connector_config = config;
  include_patterns = include_patterns;
  exclude_patterns = exclude_patterns;
  scan_interval_minutes = interval;
  next_scan_at =
      if int_eq interval (pos 0)
      then none
      else if not (int_eq s.scan_interval_minutes interval) || not (is_some s.next_scan_at)
      then next_scan_at_for_interval interval s.last_scan_at now wall
      else s.next_scan_at;
  updated_at = now;
}

unfoldable pub update : DataSource → DataSourceCreate → Time → Result DataSource
update s input wall = do
  config ← normalize_connector_config input.connector_config
  include_patterns ← normalize_data_source_patterns input.include_patterns
  exclude_patterns ← normalize_data_source_patterns input.exclude_patterns
  minutes ← normalize_scan_interval_minutes input.scan_interval_minutes
  let source_type = type_or s.type input.type
  reject_if
      (not (valid_type source_type)
        || is_empty (trim_space input.name)
        || is_empty (trim_space input.root_path)
        || is_archived s.status)
      invalid_entity
  ok (
      updated s input source_type config include_patterns exclude_patterns
        (normalize_data_source_schedule_for_type source_type minutes) (or_now wall input.now) wall)

unfoldable pub transition : DataSource → DataSourceStatus → Time → Time → Result DataSource
unfolding can_transition
transition s next now wall =
    if not (can_transition s.status next)
    then err invalid_state_transition
    else ok (record s {
      status = next;
      last_scan_at = if is_active next then some (or_now wall now) else s.last_scan_at;
      next_scan_at = if is_archived next then none else s.next_scan_at;
      updated_at = or_now wall now;
    })

unfoldable pub validate_scan_counts : ℤ → ℤ → ℤ → Result (Unit {0})
validate_scan_counts i k f =
    reject_if (is_negative i || is_negative k || is_negative f) invalid_entity

unfoldable pub schedule_next_scan : DataSource → Time → Time → DataSource
schedule_next_scan s now wall =
    if is_nonpositive s.scan_interval_minutes || is_archived s.status
    then record s { next_scan_at = none }
    else record s {
      next_scan_at = some (add_minutes (or_now wall now) s.scan_interval_minutes);
      updated_at = or_now wall now;
    }

-- The counts of the last scan.
abbrev pub counted : DataSource → ℤ → ℤ → ℤ → DataSource
counted s i k f = record s { last_scan_imported = i; last_scan_skipped = k; last_scan_failed = f }

-- One reading of the clock, `wall`, stands for both that a call with the zero time makes.
unfoldable pub complete_scan : DataSource → ℤ → ℤ → ℤ → Time → Time → Result DataSource
unfolding validate_scan_counts transition schedule_next_scan
complete_scan s i k f now wall = do
  validate_scan_counts i k f
  moved ← transition s active now wall
  ok (schedule_next_scan (counted moved i k f) now wall)

-- `FailScan`, behind the test of the counts; `now` is no longer zero.
unfoldable pub fail_at : DataSource → ℤ → ℤ → ℤ → Time → Time → Result DataSource
unfolding transition schedule_next_scan
fail_at s i k f now wall = do
  moved ← if is_failed s.status then ok s else transition s failed now wall
  let scanned = record (counted moved i k f) { last_scan_at = some now }
  ok (record (schedule_next_scan scanned now wall) { updated_at = now })

unfoldable pub fail_scan : DataSource → ℤ → ℤ → ℤ → Time → Time → Result DataSource
unfolding validate_scan_counts fail_at
fail_scan s i k f now wall = do validate_scan_counts i k f; fail_at s i k f (or_now wall now) wall

unfoldable pub cancel_scan : DataSource → Time → Time → Result DataSource
unfolding schedule_next_scan
cancel_scan s now wall =
    if not (is_scanning s.status)
    then err invalid_state_transition
    else ok (record (schedule_next_scan (record s { status = active }) (or_now wall now) wall) {
      updated_at = or_now wall now;
    })
