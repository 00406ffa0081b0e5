-- ===== src/Domain/Ids.antt =====
-- ids.go: an identifier is a string.
use nexus_local.Prelude.{Bool}
use nexus_local.Text.{Text, trim_space, is_empty}

abbrev pub TenantId : Type 0
TenantId = Text

abbrev pub UserId : Type 0
UserId = Text

abbrev pub ConversationId : Type 0
ConversationId = Text

abbrev pub MessageId : Type 0
MessageId = Text

abbrev pub DocumentId : Type 0
DocumentId = Text

abbrev pub DataSourceId : Type 0
DataSourceId = Text

abbrev pub SourceViewId : Type 0
SourceViewId = Text

abbrev pub SourcePolicyProfileId : Type 0
SourcePolicyProfileId = Text

abbrev pub JobId : Type 0
JobId = Text

abbrev pub AuditEventId : Type 0
AuditEventId = Text

-- strings.TrimSpace(value) == ""
unfoldable pub empty_id : Text → Bool
empty_id value = is_empty (trim_space value)
