-- ===== src/Domain/Audit.antt =====
-- audit.go: the events of the audit log.
use nexus_local.Prelude.{List, [], ◌∷◌, Bool, true, false, not, ◌||◌, if◌then◌else◌}
use nexus_local.Result.{Result, ok, err, invalid_entity}
use nexus_local.Text.{Text, is_empty, trim_space, text_Eq}
use nexus_local.Map
use nexus_local.Map.{Map}
use nexus_local.Clock.{Time, or_now}
use nexus_local.Domain.Ids.{AuditEventId, TenantId, UserId, empty_id}

pub data AuditOutcome : Type 0 where
  succeeded : AuditOutcome
  failed : AuditOutcome
  denied : AuditOutcome
  other_outcome : Text → AuditOutcome

pub record AuditEvent : Type 0 where
  pub id : AuditEventId
  pub tenant_id : TenantId
  pub actor_user_id : UserId
  pub action : Text
  pub resource_type : Text
  pub resource_id : Text
  pub outcome : AuditOutcome
  pub metadata : Map Text Text
  pub created_at : Time

pub record AuditEventCreate : Type 0 where
  pub id : AuditEventId
  pub tenant_id : TenantId
  pub actor_user_id : UserId
  pub action : Text
  pub resource_type : Text
  pub resource_id : Text
  pub outcome : AuditOutcome
  pub metadata : Map Text Text
  pub now : Time

-- AuditOutcome.Valid
unfoldable pub valid_outcome : AuditOutcome → Bool
valid_outcome (other_outcome t) = false
valid_outcome _ = true

-- The loop over `input.Metadata`, in the order of its iteration.
unfoldable pub clean_metadata : Map Text Text → List (Text × Text) → Map Text Text
clean_metadata metadata [] = metadata
clean_metadata metadata ((k, value) ∷ rest) =
    clean_metadata
      (if is_empty (trim_space k)
        then metadata
        else Map.put metadata (trim_space k) (trim_space value))
      rest

unfoldable pub new_audit_event : Time → AuditEventCreate → Result AuditEvent
unfolding valid_outcome
new_audit_event wall input =
    if empty_id input.id
      || empty_id input.tenant_id
      || empty_id input.actor_user_id
      || is_empty (trim_space input.action)
      || not (valid_outcome input.outcome)
    then err invalid_entity
    else ok (record {
      id = input.id;
      tenant_id = input.tenant_id;
      actor_user_id = input.actor_user_id;
      action = trim_space input.action;
      resource_type = trim_space input.resource_type;
      resource_id = trim_space input.resource_id;
      outcome = input.outcome;
      metadata = clean_metadata Map.empty input.metadata.entries;
      created_at = or_now wall input.now;
    })
