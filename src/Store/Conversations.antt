-- ===== src/Store/Conversations.antt =====
-- memory/store.go: conversations and their messages.
use nexus_local.Prelude.{List, Bool, ◌&&◌, not, is_some, if◌then◌else◌}
use nexus_local.Result.{ok, err, not_found}
use nexus_local.Action.{Action, Context, live}
use nexus_local.Text.{text_eq, text_Eq}
use nexus_local.Map
use nexus_local.Domain.Ids.{TenantId, ConversationId}
use nexus_local.Domain.Conversation.{Conversation, Message}
use nexus_local.Store.{Store, found, key_Eq, long_key_Eq, conversation_key, message_key}
use nexus_local.Store.Select.{select, oldest_first, newest_first}

unfoldable pub save_conversation : Context → Conversation → Action Store (Unit {0})
save_conversation ctx c =
    live ctx
      λ s. (ok tt, record s { conversations = Map.put s.conversations (conversation_key c) c })

unfoldable pub get_conversation : Context → TenantId → ConversationId → Action Store Conversation
get_conversation ctx tenant id = live ctx λ s. (found (Map.get s.conversations (tenant, id)), s)

unfoldable pub list_conversations : Context → TenantId → Action Store (List Conversation)
list_conversations ctx tenant = live ctx λ s. (
  ok (
      select (λ c. text_eq c.tenant_id tenant) (newest_first (λ c. c.updated_at) (λ c. c.id))
        s.conversations),
  s,
)

-- message.TenantID == tenantID && message.ConversationID == id
abbrev pub is_message_of : TenantId → ConversationId → Message → Bool
is_message_of tenant id m = text_eq m.tenant_id tenant && text_eq m.conversation_id id

unfoldable pub delete_conversation : Context → TenantId → ConversationId → Action Store (Unit {0})
delete_conversation ctx tenant id = live ctx λ s.
    if not (is_some (Map.get s.conversations (tenant, id))) then (err not_found, s) else (
      ok tt,
      record s {
        conversations = Map.remove s.conversations (tenant, id);
        messages = Map.delete_if (λ k m. is_message_of tenant id m) s.messages;
      },
    )

unfoldable pub save_message : Context → Message → Action Store (Unit {0})
save_message ctx m =
    live ctx λ s. (ok tt, record s { messages = Map.put s.messages (message_key m) m })

unfoldable pub list_messages : Context → TenantId → ConversationId → Action Store (List Message)
list_messages ctx tenant id = live ctx λ s. (
  ok (select (is_message_of tenant id) (oldest_first (λ m. m.created_at) (λ m. m.id)) s.messages),
  s,
)
