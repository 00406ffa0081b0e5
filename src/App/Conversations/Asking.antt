-- ===== src/App/Conversations/Asking.antt =====
-- app/conversations.go, Ask: a question is saved, answered by the model, and the answer is saved.
pub mod Questions
pub mod Answers
use nexus_local.Prelude.{
  ℕ, ◌+◌, ◌-◌, List, [], ◌∷◌, ◌++◌, Bool, true, false, not, ◌||◌, ltb, leb, Option, none, some,
  if◌then◌else◌, ℤ, magnitude, length, take, drop, keep, map,
}
use nexus_local.Result.{Result, ok, err, invalid_entity, other_error, reject_if}
use nexus_local.Action.{Action, Context, live, pure, raise, lift, ◌>>=◌, continue}
use nexus_local.Text.{Text, text, text_Eq, is_empty, trim_space, fields, join, byte_len}
use nexus_local.Text.Bytes.{first_bytes}
use nexus_local.Text.Decimal.{decimal}
use nexus_local.Clock.{Time}
use nexus_local.Map
use nexus_local.Map.{Map}
use nexus_local.Domain.Ids.{TenantId, UserId, ConversationId, MessageId, DocumentId, empty_id}
use nexus_local.Domain.Conversation.{
  Conversation, Message, MessageRole, system, user, assistant, tool, other_role, new_conversation,
  new_message,
}
use nexus_local.Store.{Store}
use nexus_local.Store.Conversations
use nexus_local.Store.Conversations.{save_conversation, get_conversation, save_message}
use nexus_local.Providers.{Float, VectorHit}
use nexus_local.World.{World, in_store}
use nexus_local.App.Jobs.{normalize_limit}
use nexus_local.App.Documents.{require_ids}
use nexus_local.App.Search.{Arithmetic, SearchService, SearchStrategy, search}
use nexus_local.App.Queries.{rewrite_retrieval_query, is_user}
use nexus_local.App.Conversations.{
  ChatMessage, ChatCompletionRequest, ChatCompletion, ModelGateway, ConversationService, AskInput,
  AskResult, AskPreparation,
}
use nexus_local.App.Conversations.Prompts.{title_from_question, prompt_messages}

-- The time of an answer is later than that of its question.
unfoldable pub answer_time : Time → Time → Time
answer_time asked now = if ltb asked now then now else asked + 1

module _ {V : Type 0} (service : ConversationService V) where
  -- The rest of openConversation, for an input that names no conversation.
  unfoldable pub start_conversation :
      Context → AskInput → Text → ConversationId → Time → Action Store Conversation
  unfolding title_from_question
  start_conversation ctx input question id now = do
    let target = trim_space input.model_target
    conversation ← lift (
        new_conversation service.search_service.case_table service.wall (record {
          id = id;
          tenant_id = input.tenant_id;
          owner_id = input.owner_id;
          title = title_from_question question;
          model_target = if is_empty target then text "general" else target;
          now = now;
        }))
    _ ← save_conversation ctx conversation
    pure conversation

  unfoldable pub open_conversation :
      Context → AskInput → Text → ConversationId → Time → Action Store Conversation
  unfolding start_conversation
  open_conversation ctx input question id now =
      if not (is_empty input.conversation_id)
      then get_conversation ctx input.tenant_id input.conversation_id
      else start_conversation ctx input question id now

  unfoldable pub completion_request :
      Conversation → List Message → Text → Text → List VectorHit → ChatCompletionRequest
  unfolding prompt_messages
  completion_request conversation history question query hits = record {
    target = conversation.model_target;
    model = [];
    messages = prompt_messages service history question hits;
    temperature = service.search_service.arithmetic.temperature;
    metadata =
        Map.put
          (Map.put (Map.put Map.empty (text "tenant_id") conversation.tenant_id)
            (text "conversation_id") conversation.id)
          (text "retrieval_query") query;
  }

  module _ {O : Type 0} where
    -- The end of prepareAsk.
    unfoldable pub save_question :
        Context
        → Text
        → Conversation
        → MessageId
        → Time
        → List Message
        → Text
        → List VectorHit
        → Action (World O V) AskPreparation
    unfolding completion_request
    save_question ctx question conversation message_id now history query hits = do
      message ← lift (
          new_message service.wall (record {
            id = message_id;
            tenant_id = conversation.tenant_id;
            conversation_id = conversation.id;
            role = user;
            content = question;
            now = now;
          }))
      _ ← in_store (save_message ctx message)
      pure (record {
        conversation = conversation;
        user_message = message;
        hits = hits;
        completion_input = completion_request conversation history question query hits;
      })

    -- The rest of prepareAsk, for a conversation that is open.
    unfoldable pub prepare_in :
        Context
        → AskInput
        → Text
        → Conversation
        → MessageId
        → Time
        → Action (World O V) AskPreparation
    unfolding save_question
    prepare_in ctx input question conversation message_id now = do
      history ← in_store (Conversations.list_messages ctx conversation.tenant_id conversation.id)
      let query = rewrite_retrieval_query service.search_service question history
      hits ← search service.search_service ctx (record {
        tenant_id = input.tenant_id;
        document_id = input.document_id;
        query = query;
        limit = input.limit;
        filters = Map.empty;
        strategy = input.strategy;
      })
      save_question ctx question conversation message_id now history query hits

    -- prepareAsk without `emit`, on a gateway that is configured
    unfoldable pub prepare_ask :
        Context → AskInput → ConversationId → MessageId → Time → Action (World O V) AskPreparation
    unfolding open_conversation prepare_in
    prepare_ask ctx input conversation_id message_id now = do
      let question = trim_space input.question
      _ ← lift (
          reject_if (empty_id input.tenant_id || empty_id input.owner_id || is_empty question)
            invalid_entity)
      conversation ← in_store (open_conversation ctx input question conversation_id now)
      prepare_in ctx input question conversation message_id now

    unfoldable pub finish_ask :
        Context → AskPreparation → ChatCompletion → MessageId → Time → Action (World O V) AskResult
    unfolding answer_time
    finish_ask ctx prepared completion message_id now = live ctx do
      message ← lift (
          new_message service.wall (record {
            id = message_id;
            tenant_id = prepared.conversation.tenant_id;
            conversation_id = prepared.conversation.id;
            role = assistant;
            content = completion.content;
            now = answer_time prepared.user_message.created_at now;
          }))
      _ ← in_store (save_message ctx message)
      let conversation = record prepared.conversation { updated_at = message.created_at }
      _ ← in_store (save_conversation ctx conversation)
      pure (record {
        conversation = conversation;
        user_message = prepared.user_message;
        assistant_message = message;
        hits = prepared.hits;
        completion = completion;
      })

    abbrev pub ask_model :
        Option ModelGateway
        → Context
        → AskInput
        → ConversationId
        → MessageId
        → MessageId
        → Time
        → Time
        → Action (World O V) AskResult
    ask_model none ctx input conversation_id question_id answer_id asked answered =
        raise other_error
    ask_model (some complete) ctx input conversation_id question_id answer_id asked answered = do
      prepared ← prepare_ask ctx input conversation_id question_id asked
      completion ← lift (complete ctx prepared.completion_input)
      finish_ask ctx prepared completion answer_id answered

    unfoldable pub ask :
        Context
        → AskInput
        → ConversationId
        → MessageId
        → MessageId
        → Time
        → Time
        → Action (World O V) AskResult
    unfolding prepare_ask finish_ask
    ask ctx input conversation_id question_id answer_id asked answered =
        live ctx
          (ask_model service.models ctx input conversation_id question_id answer_id asked answered)
