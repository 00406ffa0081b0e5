-- ===== src/App/Conversations/Asking/Questions.antt =====
-- app/conversations.go, prepareAsk: the conversation that is opened, and the question saved in it.
use nexus_local.Prelude.{
  ◌||◌, List, ◌≡◌, true, false, ◌⊎◌, ap, ◌∙◌, arith, none, some, inl, inr, Bool-cases,
}
use nexus_local.Result.{Result, ok, err, Result-cases}
use nexus_local.Action.{continue}
use nexus_local.Text.{Text, text_Eq, is_empty, trim_space}
use nexus_local.Clock.{Time}
use nexus_local.Map
use nexus_local.Domain.Ids.{ConversationId, MessageId, empty_id}
use nexus_local.Domain.Conversation.{Conversation, Message, user, new_conversation, new_message}
use nexus_local.Store.{Store, key_Eq, long_key_Eq, message_key}
use nexus_local.Store.Conversations.{
  save_conversation, get_conversation, save_message, list_messages, is_message_of,
}
use nexus_local.Providers.{VectorHit}
use nexus_local.World.{World}
use nexus_local.Store.Select.{select, oldest_first}
use nexus_local.App.Queries.{rewrite_retrieval_query}
use nexus_local.App.Search.{search}
use nexus_local.App.Conversations.{ConversationService, AskInput, AskPreparation}
use nexus_local.App.Conversations.Asking.{
  save_question, prepare_in, prepare_ask, open_conversation, start_conversation,
}

-- The conversation that a question is asked in: the one that the input names, as it is stored under
-- the tenant of the input, and a new one of the owner where it names none.
abbrev pub IsOpened : AskInput → ConversationId → Store → Conversation → Type 0
IsOpened input id s c =
    ((is_empty input.conversation_id ≡ false)
      × (Map.get s.conversations (input.tenant_id, input.conversation_id) ≡ some c))
    ⊎ ((is_empty input.conversation_id ≡ true)
        × (c.id ≡ id)
        × (c.tenant_id ≡ input.tenant_id)
        × (c.owner_id ≡ input.owner_id))

-- A question that has been saved in its conversation.
pub record IsAsked {O V : Type 0} (question : Text) (c : Conversation) (id : MessageId)
    (p : AskPreparation) (w : World O V) : Type 0 where
  pub stored : Map.get w.store.messages (message_key p.user_message) ≡ some p.user_message
  pub role : p.user_message.role ≡ user
  pub key : message_key p.user_message ≡ ((c.tenant_id, c.id), id)
  pub content : p.user_message.content ≡ trim_space question
  pub place : p.conversation ≡ c

module _ {V : Type 0} (service : ConversationService V) where
  start_conversation-IsOpened :
      (input : AskInput) (question : Text) (id : ConversationId) (now : Time) (s s' : Store)
      (c : Conversation)
      → start_conversation service none input question id now s ≡ (ok c, s')
      → (c.id ≡ id) × (c.tenant_id ≡ input.tenant_id) × (c.owner_id ≡ input.owner_id)
  unfolding start_conversation new_conversation save_conversation
  start_conversation-IsOpened input question id now s s' c h = ground (arith, h)

  open_conversation-IsOpened :
      (input : AskInput) (question : Text) (id : ConversationId) (now : Time) (s : Store)
      (c : Conversation)
      → (open_conversation service none input question id now s).0 ≡ ok c
      → IsOpened input id s c
  unfolding open_conversation get_conversation
  open_conversation-IsOpened input question id now s c h =
      elim (Bool-cases (is_empty input.conversation_id)) [
        | inl e ↦
            let x =
              start_conversation-IsOpened input question id now s
                (start_conversation service none input question id now s).1 c
                (ap (λ q. (q, (start_conversation service none input question id now s).1))
                  (rw e at h)) in
            inr (e, x.0, x.1, x.2)
        | inr e ↦ inl (e, ground (arith, (rw e at h)))
      ]

module _ {O V : Type 0} (service : ConversationService V) where
  save_question-IsAsked :
      (question : Text) (c : Conversation) (id : MessageId) (now : Time) (history : List Message)
      (query : Text) (hits : List VectorHit) (w w' : World O V) (p : AskPreparation)
      → save_question service none question c id now history query hits w ≡ (ok p, w')
      → IsAsked question c id p w'
  unfolding save_question new_message save_message
  save_question-IsAsked question c id now history query hits w w' p h =
      let saved : w'.store.messages
          ≡ Map.put w.store.messages (message_key p.user_message) p.user_message =
        ground (arith, h) in
      record {
        stored =
            ap (λ m. Map.get m (message_key p.user_message)) saved
            ∙ Map.get-put_same w.store.messages (message_key p.user_message) p.user_message;
        role = ground (arith, h);
        key = ground (arith, h);
        content = ground (arith, h);
        place = ground (arith, h);
      }

  of_search :
      (question : Text) (c : Conversation) (id : MessageId) (now : Time) (history : List Message)
      (query : Text) (found : Result (List VectorHit)) (w1 w' : World O V) (p : AskPreparation)
      → continue found (λ hits. save_question service none question c id now history query hits) w1
        ≡ (ok p, w')
      → IsAsked question c id p w'
  of_search question c id now history query (ok hits) w1 w' p e =
      save_question-IsAsked question c id now history query hits w1 w' p e
  of_search question c id now history query (err x) w1 w' p e = absurd (ground (arith, e))

  prepare_in-IsAsked :
      (input : AskInput) (question : Text) (c : Conversation) (id : MessageId) (now : Time)
      (w w' : World O V) (p : AskPreparation)
      → prepare_in service none input question c id now w ≡ (ok p, w')
      → IsAsked question c id p w'
  unfolding prepare_in list_messages
  prepare_in-IsAsked input question c id now w w' p h =
      let history =
        select (is_message_of c.tenant_id c.id) (oldest_first (λ m. m.created_at) (λ m. m.id))
          w.store.messages in
      let query = rewrite_retrieval_query service.search_service question history in
      let searched =
        search service.search_service none
          (record {
            tenant_id = input.tenant_id;
            document_id = input.document_id;
            query = query;
            limit = input.limit;
            filters = Map.empty;
            strategy = input.strategy;
          })
          w in
      of_search question c id now history query searched.0 searched.1 w' p h

  pub prepare_ask-IsAsked :
      (input : AskInput) (conversation_id : ConversationId) (id : MessageId) (now : Time)
      (w w' : World O V) (p : AskPreparation)
      → prepare_ask service none input conversation_id id now w ≡ (ok p, w')
      → (c : Conversation) × IsOpened input conversation_id w.store c
        × IsAsked (trim_space input.question) c id p w'
  unfolding prepare_ask
  prepare_ask-IsAsked input conversation_id id now w w' p h =
      let question = trim_space input.question in
      elim (Bool-cases (empty_id input.tenant_id || empty_id input.owner_id || is_empty question)) [
        | inl e ↦ absurd (ground (arith, (rw e at h)))
        | inr e ↦
            elim (Result-cases
              (open_conversation service none input question conversation_id now w.store).0) [
                | inr (x, o) ↦ absurd (ground (arith, (rw (e, o) at h)))
                | inl (c, o) ↦ (
                  c,
                  open_conversation-IsOpened service input question conversation_id now w.store c o,
                  prepare_in-IsAsked input question c id now
                      (record w {
                        store =
                            (open_conversation service none input question conversation_id now
                              w.store).1;
                      })
                      w' p (rw (e, o) at h),
                )
              ]
      ]
