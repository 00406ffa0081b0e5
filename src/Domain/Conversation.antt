-- ===== src/Domain/Conversation.antt =====
-- conversation.go: conversations and their messages.
use nexus_local.Prelude.{ℕ, Bool, true, false, not, ◌||◌, if◌then◌else◌}
use nexus_local.Result.{Result, ok, err, invalid_entity}
use nexus_local.Text.{Text, is_empty, trim_space, to_lower}
use nexus_local.Clock.{Time, or_now}
use nexus_local.Domain.Ids.{ConversationId, MessageId, TenantId, UserId, empty_id}

pub data MessageRole : Type 0 where
  system : MessageRole
  user : MessageRole
  assistant : MessageRole
  tool : MessageRole
  other_role : Text → MessageRole

pub record Conversation : Type 0 where
  pub id : ConversationId
  pub tenant_id : TenantId
  pub owner_id : UserId
  pub title : Text
  pub model_target : Text
  pub created_at : Time
  pub updated_at : Time

pub record Message : Type 0 where
  pub id : MessageId
  pub tenant_id : TenantId
  pub conversation_id : ConversationId
  pub role : MessageRole
  pub content : Text
  pub created_at : Time

pub record ConversationCreate : Type 0 where
  pub id : ConversationId
  pub tenant_id : TenantId
  pub owner_id : UserId
  pub title : Text
  pub model_target : Text
  pub now : Time

pub record MessageCreate : Type 0 where
  pub id : MessageId
  pub tenant_id : TenantId
  pub conversation_id : ConversationId
  pub role : MessageRole
  pub content : Text
  pub now : Time

-- MessageRole.Valid
unfoldable pub valid_message_role : MessageRole → Bool
valid_message_role (other_role t) = false
valid_message_role _ = true

-- The first argument is the case table of `unicode` beyond ASCII.
unfoldable pub new_conversation : (ℕ → ℕ) → Time → ConversationCreate → Result Conversation
new_conversation table wall input =
    if empty_id input.id
      || empty_id input.tenant_id
      || empty_id input.owner_id
      || is_empty (trim_space input.model_target)
    then err invalid_entity
    else ok (record {
      id = input.id;
      tenant_id = input.tenant_id;
      owner_id = input.owner_id;
      title = trim_space input.title;
      model_target = to_lower table (trim_space input.model_target);
      created_at = or_now wall input.now;
      updated_at = or_now wall input.now;
    })

unfoldable pub new_message : Time → MessageCreate → Result Message
unfolding valid_message_role
new_message wall input =
    if empty_id input.id
      || empty_id input.tenant_id
      || empty_id input.conversation_id
      || not (valid_message_role input.role)
      || is_empty (trim_space input.content)
    then err invalid_entity
    else ok (record {
      id = input.id;
      tenant_id = input.tenant_id;
      conversation_id = input.conversation_id;
      role = input.role;
      content = trim_space input.content;
      created_at = or_now wall input.now;
    })
