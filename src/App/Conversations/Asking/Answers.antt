-- ===== src/App/Conversations/Asking/Answers.antt =====
-- app/conversations.go, Ask: what an answer leaves in the repositories.
use nexus_local.Prelude.{
  ◌<◌, ◌≡◌, ◌≢◌, Option, refl, sym, ap, ◌∙◌, arith, none, some, inl, inr, Option-cases,
}
use nexus_local.Result.{ok, Result-cases}
use nexus_local.Text.{text_Eq, trim_space}
use nexus_local.Text.Trim.{trim_space_idem}
use nexus_local.Clock.{Time, or_now}
use nexus_local.Map
use nexus_local.Domain.Ids.{ConversationId, MessageId}
use nexus_local.Domain.Conversation.{Conversation, user, assistant, new_message}
use nexus_local.Store.{key_Eq, long_key_Eq, message_key, conversation_key}
use nexus_local.Store.Conversations.{save_conversation, save_message}
use nexus_local.World.{World}
use nexus_local.App.Conversations.{
  ModelGateway, ConversationService, ChatCompletion, AskInput, AskResult, AskPreparation,
  ChatCompletionRequest,
}
use nexus_local.App.Conversations.Asking.{answer_time, prepare_ask, finish_ask, ask_model, ask}
use nexus_local.App.Conversations.Asking.Questions.{IsOpened, IsAsked, prepare_ask-IsAsked}

-- The question of the input and the answer of the model are stored in the conversation of the input,
-- the answer behind the question.
pub record IsAnswered {O V : Type 0} (models : Option ModelGateway) (input : AskInput)
    (conversation_id : ConversationId) (question_id answer_id : MessageId) (w w' : World O V)
    (r : AskResult) : Type 0 where
  pub question : Map.get w'.store.messages (message_key r.user_message) ≡ some r.user_message
  pub answer :
      Map.get w'.store.messages (message_key r.assistant_message) ≡ some r.assistant_message
  pub placed :
      (message_key r.user_message ≡ ((r.conversation.tenant_id, r.conversation.id), question_id))
      × (message_key r.assistant_message
          ≡ ((r.conversation.tenant_id, r.conversation.id), answer_id))
  pub roles : (r.user_message.role ≡ user) × (r.assistant_message.role ≡ assistant)
  pub asked : r.user_message.content ≡ trim_space input.question
  pub answered : r.assistant_message.content ≡ trim_space r.completion.content
  pub model :
      (complete : ModelGateway) × (request : ChatCompletionRequest) × (models ≡ some complete)
      × (complete none request ≡ ok r.completion)
  pub order : r.user_message.created_at < r.assistant_message.created_at
  pub before : Conversation
  pub opened : IsOpened input conversation_id w.store before
  pub changed : r.conversation ≡ record before { updated_at = r.assistant_message.created_at }
  pub conversation :
      Map.get w'.store.conversations (conversation_key r.conversation) ≡ some r.conversation

module _ {O V : Type 0} (service : ConversationService V) where
  finish_ask-IsAnswered :
      (complete : ModelGateway) (input : AskInput) (conversation_id : ConversationId)
      (p : AskPreparation) (completion : ChatCompletion) (c : Conversation)
      (id asked_id : MessageId) (now : Time) (w0 w w' : World O V) (r : AskResult)
      → asked_id ≢ id
      → IsOpened input conversation_id w0.store c
      → IsAsked (trim_space input.question) c asked_id p w
      → complete none p.completion_input ≡ ok completion
      → finish_ask service none p completion id now w ≡ (ok r, w')
      → IsAnswered (some complete) input conversation_id asked_id id w0 w' r
  unfolding finish_ask new_message save_message save_conversation answer_time or_now
  finish_ask-IsAnswered complete input conversation_id p completion c id asked_id now w0 w w' r
        apart opened asked m h =
      let same : r.user_message ≡ p.user_message = ground (arith, h) in
      let messages : w'.store.messages
          ≡ Map.put w.store.messages (message_key r.assistant_message) r.assistant_message =
        ground (arith, h) in
      let conversations : w'.store.conversations
          ≡ Map.put w.store.conversations (conversation_key r.conversation) r.conversation =
        ground (arith, h) in
      let key : message_key r.assistant_message
          ≡ ((p.conversation.tenant_id, p.conversation.id), id) =
        ground (arith, h) in
      let content : p.user_message.content ≡ trim_space input.question =
        asked.content ∙ trim_space_idem input.question in
      record {
        question = rw same (
            ap (λ m. Map.get m (message_key p.user_message)) messages
            ∙ ground (
              arith,
              Map.get-put w.store.messages (message_key r.assistant_message)
                  (message_key p.user_message) r.assistant_message,
              long_key_Eq.same_iff (message_key r.assistant_message) (message_key p.user_message),
              key,
              asked.key,
              asked.place,
              asked.stored,
              apart,
            ));
        answer =
            ap (λ m. Map.get m (message_key r.assistant_message)) messages
            ∙ Map.get-put_same w.store.messages (message_key r.assistant_message)
                r.assistant_message;
        placed = (ground (arith, h, asked.key, asked.place), ground (arith, h));
        roles = ground (arith, h, asked.role);
        asked = rw same content;
        answered = ground (arith, h);
        model = (complete, p.completion_input, refl, ground (arith, h, m));
        order = ground (arith, h);
        before = c;
        opened = opened;
        changed = ground (arith, h, asked.place);
        conversation =
            ap (λ m. Map.get m (conversation_key r.conversation)) conversations
            ∙ Map.get-put_same w.store.conversations (conversation_key r.conversation)
                r.conversation;
      }

  ask_model-IsAnswered :
      (complete : ModelGateway) (input : AskInput) (conversation_id : ConversationId)
      (question_id answer_id : MessageId) (asked answered : Time) (w w' : World O V) (r : AskResult)
      → question_id ≢ answer_id
      → ask_model service
          (some complete)
          none
          input
          conversation_id
          question_id
          answer_id
          asked
          answered
          w
        ≡ (ok r, w')
      → IsAnswered (some complete) input conversation_id question_id answer_id w w' r
  ask_model-IsAnswered complete input conversation_id question_id answer_id asked answered w w' r
        apart h =
      let prepared = prepare_ask service none input conversation_id question_id asked w in
      elim (Result-cases prepared.0) [
        | inr (x, e) ↦ absurd (ground (arith, (rw e at h)))
        | inl (p, e) ↦ elim (Result-cases (complete none p.completion_input)) [
          | inr (x, m) ↦ absurd (ground (arith, (rw (e, m) at h)))
          | inl (completion, m) ↦
              let (c, opened, saved) =
                prepare_ask-IsAsked service input conversation_id question_id asked w prepared.1 p
                  (ap (λ q. (q, prepared.1)) e) in
              finish_ask-IsAnswered complete input conversation_id p completion c answer_id
                question_id answered w prepared.1 w' r apart opened saved m (rw (e, m) at h)
        ]
      ]

  -- Under a live context, where the identifiers of the two messages differ: if Ask returns an answer,
  -- the question and the answer are stored under the identifiers that were drawn for them, with the
  -- roles of user and assistant, the answer at a later time than the question whatever the clock
  -- says. The text of the question is that of the input, trimmed, and the text of the answer is what
  -- the model returned, trimmed. Both are in the conversation that the input names, as it was stored
  -- under the tenant of the input, or, where it names none, in a new conversation of that tenant and
  -- of the owner of the input under the identifier that was drawn for it. The conversation is stored
  -- with the time of the answer, and is otherwise as it was.
  pub ask-IsAnswered :
      (input : AskInput) (conversation_id : ConversationId) (question_id answer_id : MessageId)
      (asked answered : Time) (w w' : World O V) (r : AskResult)
      → question_id ≢ answer_id
      → ask service none input conversation_id question_id answer_id asked answered w ≡ (ok r, w')
      → IsAnswered service.models input conversation_id question_id answer_id w w' r
  unfolding ask
  ask-IsAnswered input conversation_id question_id answer_id asked answered w w' r apart h =
      elim (Option-cases service.models) [
        | inl e ↦ absurd (ground (arith, (rw e at h)))
        | inr (complete, e) ↦
            coe 0 1 (i. IsAnswered (sym e i) input conversation_id question_id answer_id w w' r) (
              ask_model-IsAnswered complete input conversation_id question_id answer_id asked
                answered w w' r apart
                (coe 0 1
                  (i.
                    ask_model service (e i) none input conversation_id question_id answer_id asked
                      answered w
                    ≡ (ok r, w'))
                  h))
      ]
