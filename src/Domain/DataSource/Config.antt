-- ===== src/Domain/DataSource/Config.antt =====
-- data_source.go: the limits on a connector's configuration and on the scan interval.
use nexus_local.Prelude.{
  ℕ, ◌≤◌, [], ◌∷◌, Bool, false, not, ◌&&◌, ◌||◌, ltb, eqb, if◌then◌else◌, ℤ, pos, negsuc, ◌≡◌, ◌⊎◌,
  arith,
}
use nexus_local.Result.{Result, ok, err, invalid_entity}
use nexus_local.Text.{Text, trim_space, byte_len}

abbrev pub min_scan_interval_minutes : ℕ
min_scan_interval_minutes = 5

abbrev pub max_scan_interval_minutes : ℕ
max_scan_interval_minutes = 43200

-- NormalizeScanIntervalMinutes
unfoldable pub normalize_scan_interval_minutes : ℤ → Result ℤ
normalize_scan_interval_minutes (negsuc n) = err invalid_entity
normalize_scan_interval_minutes (pos n) =
    if eqb n 0
    then ok (pos 0)
    else if ltb n min_scan_interval_minutes || ltb max_scan_interval_minutes n
    then err invalid_entity
    else ok (pos n)

pub record ConnectorConfig : Type 0 where
  pub provider : Text
  pub resource_id : Text
  pub credential_ref : Text
  pub notes : Text

unfoldable pub contains_control_character : Text → Bool
contains_control_character [] = false
contains_control_character (r ∷ s) =
    (ltb r 32 && not (eqb r 10) && not (eqb r 13) && not (eqb r 9)) || contains_control_character s

abbrev trimmed : ConnectorConfig → ConnectorConfig
trimmed config = record {
  provider = trim_space config.provider;
  resource_id = trim_space config.resource_id;
  credential_ref = trim_space config.credential_ref;
  notes = trim_space config.notes;
}

abbrev pub is_too_long : ConnectorConfig → Bool
is_too_long config =
    ltb 80 (byte_len config.provider)
    || ltb 320 (byte_len config.resource_id)
    || ltb 160 (byte_len config.credential_ref)
    || ltb 500 (byte_len config.notes)

abbrev pub has_control : ConnectorConfig → Bool
has_control config =
    contains_control_character config.provider
    || contains_control_character config.resource_id
    || contains_control_character config.credential_ref
    || contains_control_character config.notes

unfoldable pub normalize_connector_config : ConnectorConfig → Result ConnectorConfig
normalize_connector_config config =
    if is_too_long (trimmed config)
    then err invalid_entity
    else if has_control (trimmed config)
    then err invalid_entity
    else ok (trimmed config)

-- A scan interval is off, or from five minutes to thirty days.
abbrev pub InRange : ℤ → Type 0
InRange (pos n) = (n ≡ 0) ⊎ ((min_scan_interval_minutes ≤ n) × (n ≤ max_scan_interval_minutes))
InRange (negsuc n) = ⊥

pub normalize-InRange : (m n : ℤ) → normalize_scan_interval_minutes m ≡ ok n → InRange n × (n ≡ m)
unfolding normalize_scan_interval_minutes
normalize-InRange (negsuc m) n h = cc
normalize-InRange (pos m) (negsuc n) h = ground arith
normalize-InRange (pos m) (pos n) h = ground arith
