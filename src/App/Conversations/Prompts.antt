-- ===== src/App/Conversations/Prompts.antt =====
-- app/conversations.go: what the model is shown.
use nexus_local.Prelude.{
  ℕ, ◌+◌, ◌-◌, List, [], ◌∷◌, ◌++◌, leb, Option, none, some, if◌then◌else◌, length, drop,
}
use nexus_local.Text.{Text, text, text_Eq, is_empty, trim_space, fields, join, byte_len}
use nexus_local.Text.Bytes.{first_bytes}
use nexus_local.Text.Decimal.{decimal}
use nexus_local.Map
use nexus_local.Map.{Map}
use nexus_local.Domain.Conversation.{Message, MessageRole, user, assistant}
use nexus_local.Providers.{VectorHit}
use nexus_local.App.Conversations.{ChatMessage, ConversationService}

-- On a text of whole runes.
unfoldable pub title_from_question : Text → Text
title_from_question question =
    let title = join (fields question) (text " ") in
    if leb (byte_len title) 80 then title else trim_space (first_bytes 80 title)

-- metadata[key], trimmed, or what stands in for it
unfoldable pub named_or : VectorHit → Text → Text → Text
named_or hit name other = elim (Map.get hit.metadata name) [
  | none ↦ other
  | some value ↦ if is_empty (trim_space value) then other else trim_space value
]

unfoldable pub source_name : VectorHit → Text
unfolding named_or
source_name hit = named_or hit (text "document_name") hit.document_id

unfoldable pub source_chunk : VectorHit → Text
unfolding named_or
source_chunk hit = named_or hit (text "chunk_index") hit.chunk_id

-- A line feed.
abbrev pub newline : Text
newline = 10 ∷ []

-- The role of a message of the history that is shown to the model.
abbrev pub shown_role : MessageRole → Option Text
shown_role user = some (text "user")
shown_role assistant = some (text "assistant")
shown_role _ = none

abbrev pub shown_message : Option Text → Message → List ChatMessage → List ChatMessage
shown_message none m rest = rest
shown_message (some role) m rest = record { role = role; content = m.content } ∷ rest

unfoldable pub history_messages : List Message → List ChatMessage
history_messages [] = []
history_messages (m ∷ rest) = shown_message (shown_role m.role) m (history_messages rest)

unfoldable pub ask_system_prompt : Text
ask_system_prompt =
    text
      "You are Nexus Local, an enterprise knowledge-base assistant. Answer primarily from the retrieved context and cite source-supported claims with bracketed citations like [1] or [2]. If the retrieved context is empty or does not contain enough evidence, say the knowledge base does not have enough context and ask for the missing documents or details. Do not invent customer-specific facts, policies, account status, credentials, security posture, or PII. You may give brief general guidance only when it is clearly labeled as general guidance and not presented as a sourced Nexus Local answer."

module _ {V : Type 0} (service : ConversationService V) where
  -- The loop over the hits; `index` counts from 0.
  unfoldable pub hit_lines : ℕ → List VectorHit → Text
  unfolding source_name source_chunk
  hit_lines index [] = []
  hit_lines index (hit ∷ hits) =
      text "["
      ++ (decimal (index + 1)
          ++ (text "] source="
              ++ (source_name hit
                  ++ (text " document_id="
                      ++ (hit.document_id
                          ++ (text " chunk="
                              ++ (source_chunk hit
                                  ++ (text " score="
                                      ++ (service.search_service.arithmetic.format_short hit.score
                                          ++ (newline
                                              ++ (hit.text
                                                  ++ (newline
                                                      ++ (newline
                                                          ++ hit_lines (index + 1) hits)))))))))))))

  unfoldable pub question_with_context : Text → List VectorHit → Text
  unfolding hit_lines
  question_with_context question [] =
      text "Question:"
      ++ (newline
          ++ (question
              ++ (newline
                  ++ (newline
                      ++ (text "Retrieved context:"
                          ++ (newline
                              ++ text
                                  "No relevant document chunks were retrieved. Do not answer as if customer or workspace context exists; explain that the knowledge base does not contain enough context."))))))
  question_with_context question (hit ∷ hits) = trim_space (
      text "Question:"
      ++ (newline
          ++ (question
              ++ (newline
                  ++ (newline
                      ++ (text "Retrieved context:" ++ (newline ++ hit_lines 0 (hit ∷ hits))))))))

  unfoldable pub prompt_messages : List Message → Text → List VectorHit → List ChatMessage
  unfolding history_messages question_with_context ask_system_prompt
  prompt_messages history question hits =
      record { role = text "system"; content = ask_system_prompt }
      ∷ (history_messages (drop (length history - 12) history)
          ++ record { role = text "user"; content = question_with_context question hits } ∷ [])
