-- ===== src/App/Queries.antt =====
-- app/query_rewrite.go: a question that follows up on earlier ones is searched for together with them.
use nexus_local.Prelude.{
  ℕ, zero, suc, List, [], ◌∷◌, ◌++◌, Bool, true, false, not, ◌&&◌, ◌||◌, leb, length, if◌then◌else◌,
  map,
}
use nexus_local.Text.{Text, text, is_empty, trim_space, to_lower, fields, join, contains, byte_len}
use nexus_local.Text.Bytes.{first_bytes}
use nexus_local.Text.Tokens.{fields_func, has_word}
use nexus_local.Domain.Conversation.{Message, MessageRole, user}
use nexus_local.App.Search.{SearchService, tokenize}

unfoldable pub follow_up_phrases : List Text
follow_up_phrases = map text (
    "what about" ∷ "how about" ∷ "what should i do" ∷ "why is it" ∷ "why does it" ∷ "why did it"
    ∷ "what does that mean" ∷ "what next" ∷ "next step" ∷ "next steps" ∷ "fix it" ∷ "solve it"
    ∷ "troubleshoot it" ∷ [])

unfoldable pub ambiguous_follow_up_words : List Text
ambiguous_follow_up_words = map text (
    "it" ∷ "that" ∷ "this" ∷ "they" ∷ "them" ∷ "these" ∷ "those" ∷ "issue" ∷ "problem" ∷ "thing"
    ∷ [])

unfoldable pub generic_follow_up_terms : List Text
generic_follow_up_terms = map text (
    "about" ∷ "can" ∷ "check" ∷ "do" ∷ "explain" ∷ "fix" ∷ "help" ∷ "mean" ∷ "means" ∷ "next"
    ∷ "step" ∷ "steps" ∷ "tell" ∷ "work" ∷ "working" ∷ "you" ∷ [])

-- On a text of whole runes.
unfoldable pub compact_retrieval_query : Text → Text
compact_retrieval_query query =
    let joined = join (fields query) (text " ") in
    if leb (byte_len joined) 360 then joined else trim_space (first_bytes 360 joined)

-- message.Role == MessageRoleUser
abbrev pub is_user : MessageRole → Bool
is_user user = true
is_user _ = false

-- The loop of recentUserContext, from the last message on, for at most as many messages as the number
-- says; what it selects is put back into the order of the history.
unfoldable pub select_recent : ℕ → List Message → List Text → List Text
select_recent zero messages selected = selected
select_recent (suc n) [] selected = selected
select_recent (suc n) (m ∷ earlier) selected =
    let with = select_recent n earlier (trim_space m.content ∷ selected) in
    let passed = select_recent (suc n) earlier selected in
    if not (is_user m.role) || is_empty (trim_space m.content) then passed else with

abbrev pub backwards : {A : Type 0} → List A → List A → List A
backwards [] done = done
backwards (x ∷ xs) done = backwards xs (x ∷ done)

unfoldable pub recent_user_context : List Message → Text
unfolding select_recent compact_retrieval_query
recent_user_context history =
    compact_retrieval_query (join (select_recent 2 (backwards history []) []) (text " "))

unfoldable pub has_phrase : Text → List Text → Bool
has_phrase lower [] = false
has_phrase lower (phrase ∷ rest) = contains lower phrase || has_phrase lower rest

-- (r < 'a' || r > 'z') && (r < '0' || r > '9')
abbrev pub is_between_words : ℕ → Bool
is_between_words r = not (leb b'a' r && leb r b'z') && not (leb b'0' r && leb r b'9')

unfoldable pub some_word : List Text → List Text → Bool
some_word words [] = false
some_word words (w ∷ rest) = has_word w words || some_word words rest

unfoldable pub without_words : List Text → List Text → List Text
without_words words [] = []
without_words words (w ∷ rest) =
    let later = without_words words rest in if has_word w words then later else w ∷ later

module _ {V : Type 0} (service : SearchService V) where
  unfoldable pub raw_words : Text → List Text
  raw_words t = fields_func is_between_words (to_lower service.case_table t)

  unfoldable pub topical_query_terms : Text → List Text
  unfolding without_words generic_follow_up_terms
  topical_query_terms question = without_words generic_follow_up_terms (tokenize service question)

  unfoldable pub should_rewrite_retrieval_query : Text → Bool
  unfolding has_phrase follow_up_phrases some_word ambiguous_follow_up_words raw_words
      topical_query_terms
  should_rewrite_retrieval_query question =
      let lower = to_lower service.case_table (trim_space question) in
      if is_empty lower
      then false
      else if has_phrase lower follow_up_phrases
      then true
      else some_word ambiguous_follow_up_words (raw_words lower)
        && leb (length (topical_query_terms question)) 4

  unfoldable pub rewrite_retrieval_query : Text → List Message → Text
  unfolding should_rewrite_retrieval_query recent_user_context
  rewrite_retrieval_query question history =
      let asked = trim_space question in
      let before = recent_user_context history in
      if is_empty asked || not (should_rewrite_retrieval_query asked)
      then asked
      else if is_empty before
      then asked
      else compact_retrieval_query (before ++ (b' ' ∷ asked))
