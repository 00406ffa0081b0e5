-- ===== src/Domain/PolicyProfile.antt =====
-- source_policy_profile.go: named scan policies.
use nexus_local.Prelude.{ℕ, List, Bool, ◌||◌, ltb, ℤ}
use nexus_local.Result.{Result, ok, invalid_entity, ◌>>=◌, ◌>>◌, reject_if}
use nexus_local.Text.{Text, is_empty, trim_space, byte_len}
use nexus_local.Clock.{Time, or_now}
use nexus_local.Domain.Ids.{SourcePolicyProfileId, TenantId, UserId, empty_id}
use nexus_local.Domain.Patterns.{normalize_data_source_patterns}
use nexus_local.Domain.DataSource.{normalize_scan_interval_minutes}

pub record SourcePolicyProfile : Type 0 where
  pub id : SourcePolicyProfileId
  pub tenant_id : TenantId
  pub owner_id : UserId
  pub name : Text
  pub detail : Text
  pub include_patterns : List Text
  pub exclude_patterns : List Text
  pub scan_interval_minutes : ℤ
  pub created_at : Time
  pub updated_at : Time

pub record SourcePolicyProfileCreate : Type 0 where
  pub id : SourcePolicyProfileId
  pub tenant_id : TenantId
  pub owner_id : UserId
  pub name : Text
  pub detail : Text
  pub include_patterns : List Text
  pub exclude_patterns : List Text
  pub scan_interval_minutes : ℤ
  pub now : Time

abbrev pub max_source_policy_profile_name_length : ℕ
max_source_policy_profile_name_length = 80

abbrev pub max_source_policy_profile_detail_length : ℕ
max_source_policy_profile_detail_length = 180

abbrev pub bad_name : Text → Text → Bool
bad_name name detail =
    is_empty name
    || ltb max_source_policy_profile_name_length (byte_len name)
    || ltb max_source_policy_profile_detail_length (byte_len detail)

unfoldable pub new_source_policy_profile :
    Time → SourcePolicyProfileCreate → Result SourcePolicyProfile
new_source_policy_profile wall input = do
  include_patterns ← normalize_data_source_patterns input.include_patterns
  exclude_patterns ← normalize_data_source_patterns input.exclude_patterns
  minutes ← normalize_scan_interval_minutes input.scan_interval_minutes
  let name = trim_space input.name
  let detail = trim_space input.detail
  reject_if
      (empty_id input.id
        || empty_id input.tenant_id
        || empty_id input.owner_id
        || bad_name name detail)
      invalid_entity
  ok (record {
    id = input.id;
    tenant_id = input.tenant_id;
    owner_id = input.owner_id;
    name = name;
    detail = detail;
    include_patterns = include_patterns;
    exclude_patterns = exclude_patterns;
    scan_interval_minutes = minutes;
    created_at = or_now wall input.now;
    updated_at = or_now wall input.now;
  })

-- SourcePolicyProfile.Update; the other arguments are those fields of `input`
unfoldable pub update :
    SourcePolicyProfile → SourcePolicyProfileCreate → Time → Result SourcePolicyProfile
update p input wall = do
  include_patterns ← normalize_data_source_patterns input.include_patterns
  exclude_patterns ← normalize_data_source_patterns input.exclude_patterns
  minutes ← normalize_scan_interval_minutes input.scan_interval_minutes
  let name = trim_space input.name
  let detail = trim_space input.detail
  reject_if (bad_name name detail) invalid_entity
  ok (record p {
    name = name;
    detail = detail;
    include_patterns = include_patterns;
    exclude_patterns = exclude_patterns;
    scan_interval_minutes = minutes;
    updated_at = or_now wall input.now;
  })
