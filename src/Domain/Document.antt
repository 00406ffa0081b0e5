-- ===== src/Domain/Document.antt =====
-- document.go: an uploaded document and its state machine.
pub mod Life
use nexus_local.Prelude.{ℕ, Bool, true, false, not, ◌||◌, ◌≡◌, if◌then◌else◌, ℤ, is_negative}
use nexus_local.Result.{Result, ok, err, invalid_entity, invalid_state_transition}
use nexus_local.Text.{Text, is_empty, trim_space}
use nexus_local.Clock.{Time, or_now}
use nexus_local.Domain.Ids.{DocumentId, TenantId, UserId, empty_id}

-- `DocumentStatus` is a string type; a value that is none of the constants is an `other_status`.
pub data DocumentStatus : Type 0 where
  uploaded : DocumentStatus
  processing : DocumentStatus
  ready : DocumentStatus
  failed : DocumentStatus
  deleted : DocumentStatus
  other_status : Text → DocumentStatus

pub record Document : Type 0 where
  pub id : DocumentId
  pub tenant_id : TenantId
  pub owner_id : UserId
  pub name : Text
  pub storage_key : Text
  pub size_bytes : ℤ
  pub status : DocumentStatus
  pub created_at : Time
  pub updated_at : Time

pub record DocumentCreate : Type 0 where
  pub id : DocumentId
  pub tenant_id : TenantId
  pub owner_id : UserId
  pub name : Text
  pub storage_key : Text
  pub size_bytes : ℤ
  pub now : Time

unfoldable pub new_document : Time → DocumentCreate → Result Document
new_document wall input =
    if empty_id input.id
      || empty_id input.tenant_id
      || empty_id input.owner_id
      || is_empty (trim_space input.name)
      || is_empty (trim_space input.storage_key)
      || is_negative input.size_bytes
    then err invalid_entity
    else ok (record {
      id = input.id;
      tenant_id = input.tenant_id;
      owner_id = input.owner_id;
      name = trim_space input.name;
      storage_key = trim_space input.storage_key;
      size_bytes = input.size_bytes;
      status = uploaded;
      created_at = or_now wall input.now;
      updated_at = or_now wall input.now;
    })

-- DocumentStatus.CanTransition
unfoldable pub can_transition : DocumentStatus → DocumentStatus → Bool
can_transition uploaded processing = true
can_transition uploaded deleted = true
can_transition uploaded failed = true
can_transition processing ready = true
can_transition processing failed = true
can_transition processing deleted = true
can_transition ready deleted = true
can_transition failed processing = true
can_transition failed deleted = true
can_transition _ _ = false

unfoldable pub transition : Document → DocumentStatus → Time → Time → Result Document
unfolding can_transition
transition d next now wall =
    if not (can_transition d.status next)
    then err invalid_state_transition
    else ok (record d { status = next; updated_at = or_now wall now })

-- status == DocumentStatusDeleted
abbrev pub is_deleted : DocumentStatus → Bool
is_deleted deleted = true
is_deleted _ = false

-- status == DocumentStatusFailed
abbrev pub is_failed : DocumentStatus → Bool
is_failed failed = true
is_failed _ = false
