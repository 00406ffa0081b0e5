-- ===== src/Tests/Questions.antt =====
-- app/conversations.go at fixed inputs: one question and its answer.
use nexus_local.Prelude.{ℕ, pos, [], ◌∷◌, ◌≡◌, refl, none, some, true, false, leb, ◌&&◌, arith}
use nexus_local.Result.{ok}
use nexus_local.App.Queries.{rewrite_retrieval_query}
use nexus_local.Store.Conversations.{save_conversation, save_message, list_messages}
use nexus_local.Store.Select.{cut}
use nexus_local.Sort.{sort}
use nexus_local.Clock.{or_now}
use nexus_local.Domain.Ids.{empty_id}
use nexus_local.Text.Tokens.{fields_func, has_word}
use nexus_local.Text.{
  text, text_eq, is_space, trim_space, fields, join, contains, byte_len, to_lower,
}
use nexus_local.Map
use nexus_local.Domain.Conversation.{
  Conversation, Message, user, assistant, new_conversation, new_message,
}
use nexus_local.Store.{new_store, key_Eq, long_key_Eq}
use nexus_local.Providers.{Float}
use nexus_local.Providers.Vectors.{Vectors, memory_vectors}
use nexus_local.World.{World}
use nexus_local.App.Search.{Arithmetic, by_vector, search}
use nexus_local.App.Conversations.{ChatCompletion, ConversationService, AskInput, AskResult}
use nexus_local.App.Conversations.Asking.{ask}
use nexus_local.App.Conversations.Asking.Answers.{IsAnswered, ask-IsAnswered}

abbrev arithmetic : Arithmetic
arithmetic = record {
  plus = λ a b. a;
  times = λ a b. a;
  ratio = λ a b. a;
  less = λ a b. false;
  same = λ a b. true;
  nought = 0;
  one = 1;
  lexical_weight = 2;
  vector_weight = 3;
  phrase_bonus = 4;
  temperature = 5;
  format = λ a. [];
  format_short = λ a. [];
}

abbrev completion : ChatCompletion
completion = record {
  model = text "m";
  content = text "Yes.";
  finish_reason = [];
  metadata = Map.empty;
}

abbrev service : ConversationService Vectors
service = record {
  search_service = record {
    embedder = some (λ ctx texts. ok ((0 ∷ []) ∷ []));
    vectors = some (memory_vectors (λ a b. 0) (λ a b. false));
    arithmetic = arithmetic;
    case_table = λ r. r;
    is_letter = λ r. leb 97 r && leb r 122;
    is_digit = λ r. false;
  };
  models = some (λ ctx request. ok completion);
  wall = 9;
}

abbrev input : AskInput
input = record {
  tenant_id = text "acme";
  owner_id = text "ann";
  conversation_id = [];
  document_id = [];
  model_target = [];
  question = text "Up?";
  limit = pos 0;
  strategy = by_vector;
}

abbrev world : World Unit Vectors
world = record { store = new_store; objects = tt; vectors = Map.empty }

abbrev question : Message
question = record {
  id = text "q";
  tenant_id = text "acme";
  conversation_id = text "c";
  role = user;
  content = text "Up?";
  created_at = 3;
}

abbrev answer : Message
answer = record {
  id = text "a";
  tenant_id = text "acme";
  conversation_id = text "c";
  role = assistant;
  content = text "Yes.";
  created_at = 4;
}

abbrev conversation : ℕ → Conversation
conversation updated = record {
  id = text "c";
  tenant_id = text "acme";
  owner_id = text "ann";
  title = text "Up?";
  model_target = text "general";
  created_at = 3;
  updated_at = updated;
}

abbrev result : AskResult
result = record {
  conversation = conversation 4;
  user_message = question;
  assistant_message = answer;
  hits = [];
  completion = completion;
}

abbrev after : World Unit Vectors
after = record world {
  store = record new_store {
    conversations = Map.put Map.empty (text "acme", text "c") (conversation 4);
    messages =
        Map.put (Map.put Map.empty ((text "acme", text "c"), text "q") question)
          ((text "acme", text "c"), text "a") answer;
  };
}

-- The clock stands still.
asked : ask service none input (text "c") (text "q") (text "a") 3 3 world ≡ (ok result, after)
unfolding ask search rewrite_retrieval_query save_conversation save_message list_messages cut sort
    Map.empty Map.values Map.without Map.put text_eq is_space trim_space fields join contains
    byte_len to_lower new_conversation new_message or_now new_store
    nexus_local.Providers.Vectors.search memory_vectors empty_id fields_func has_word
asked = refl

ask-IsAnswered_example :
    IsAnswered service.models input (text "c") (text "q") (text "a") world after result
ask-IsAnswered_example =
    ask-IsAnswered service input (text "c") (text "q") (text "a") 3 3 world after result
      (λ p. ground (arith, p)) asked
