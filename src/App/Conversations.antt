-- ===== src/App/Conversations.antt =====
-- app/conversations.go: questions and their answers. The gateway of the model is a parameter. The
-- identifiers that the generator returns and the times that the clock returns are arguments.
pub mod Prompts
pub mod Asking
use nexus_local.Prelude.{
  ℕ, ◌+◌, ◌-◌, List, [], ◌∷◌, ◌++◌, Bool, true, false, not, ◌||◌, ltb, leb, Option, none, some,
  if◌then◌else◌, ℤ, magnitude, length, take, drop, keep, map,
}
use nexus_local.Result.{Result, ok, err, invalid_entity, other_error, reject_if}
use nexus_local.Action.{Action, Context, live, pure, raise, lift, ◌>>=◌, continue}
use nexus_local.Text.{Text, text, text_Eq, is_empty, trim_space, fields, join, byte_len}
use nexus_local.Text.Bytes.{first_bytes}
use nexus_local.Text.Decimal.{decimal}
use nexus_local.Clock.{Time}
use nexus_local.Map
use nexus_local.Map.{Map}
use nexus_local.Domain.Ids.{TenantId, UserId, ConversationId, MessageId, DocumentId, empty_id}
use nexus_local.Domain.Conversation.{
  Conversation, Message, MessageRole, system, user, assistant, tool, other_role, new_conversation,
  new_message,
}
use nexus_local.Store.{Store}
use nexus_local.Store.Conversations
use nexus_local.Store.Conversations.{save_conversation, get_conversation, save_message}
use nexus_local.Providers.{Float, VectorHit}
use nexus_local.World.{World, in_store}
use nexus_local.App.Jobs.{normalize_limit}
use nexus_local.App.Documents.{require_ids}
use nexus_local.App.Search.{Arithmetic, SearchService, SearchStrategy, search}
use nexus_local.App.Queries.{rewrite_retrieval_query, is_user}

pub record ChatMessage : Type 0 where
  pub role : Text
  pub content : Text

-- MaxTokens, which the service leaves at 0, is left out.
pub record ChatCompletionRequest : Type 0 where
  pub target : Text
  pub model : Text
  pub messages : List ChatMessage
  pub temperature : Float
  pub metadata : Map Text Text

pub record ChatCompletion : Type 0 where
  pub model : Text
  pub content : Text
  pub finish_reason : Text
  pub metadata : Map Text Text

-- Complete of a ModelGateway.
abbrev pub ModelGateway : Type 0
ModelGateway = Context → ChatCompletionRequest → Result ChatCompletion

pub record ConversationService (V : Type 0) : Type 0 where
  pub search_service : SearchService V
  pub models : Option ModelGateway
  pub wall : Time

pub record AskInput : Type 0 where
  pub tenant_id : TenantId
  pub owner_id : UserId
  pub conversation_id : ConversationId
  pub document_id : DocumentId
  pub model_target : Text
  pub question : Text
  pub limit : ℤ
  pub strategy : SearchStrategy

pub record AskResult : Type 0 where
  pub conversation : Conversation
  pub user_message : Message
  pub assistant_message : Message
  pub hits : List VectorHit
  pub completion : ChatCompletion

pub record AskPreparation : Type 0 where
  pub conversation : Conversation
  pub user_message : Message
  pub hits : List VectorHit
  pub completion_input : ChatCompletionRequest

unfoldable pub normalize_conversation_limit : ℤ → ℤ
normalize_conversation_limit = normalize_limit 25 100

unfoldable pub list_conversations : Context → TenantId → ℤ → Action Store (List Conversation)
unfolding normalize_conversation_limit
list_conversations ctx tenant limit = live ctx do
  _ ← lift (reject_if (empty_id tenant) invalid_entity)
  conversations ← Conversations.list_conversations ctx tenant
  pure (take (magnitude (normalize_conversation_limit limit)) conversations)

unfoldable pub list_messages : Context → TenantId → ConversationId → Action Store (List Message)
list_messages ctx tenant id = live ctx do
  _ ← lift (require_ids tenant id)
  _ ← get_conversation ctx tenant id
  Conversations.list_messages ctx tenant id

unfoldable pub delete_conversation : Context → TenantId → ConversationId → Action Store Conversation
delete_conversation ctx tenant id = live ctx do
  _ ← lift (require_ids tenant id)
  conversation ← get_conversation ctx tenant id
  _ ← Conversations.delete_conversation ctx tenant id
  pure conversation
