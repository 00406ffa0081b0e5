-- ===== src/App/Search.antt =====
-- app/search.go: a search by vectors, and its second ranking by words. Floating-point arithmetic is a
-- parameter, and so are unicode.IsLetter and unicode.IsDigit.
use nexus_local.Prelude.{
  ℕ, ◌+◌, List, [], ◌∷◌, ◌++◌, Bool, true, false, not, ◌&&◌, ◌||◌, ltb, leb, eqb, Option, none,
  some, if◌then◌else◌, ℤ, pos, is_nonpositive, magnitude, length, take, map,
}
use nexus_local.Result.{Result, ok, err, invalid_entity, other_error, reject_if}
use nexus_local.Action.{Action, Context, live, pure, raise, lift, ◌>>=◌}
use nexus_local.Text.{Text, text, text_Eq, text_eq, is_empty, trim_space, to_lower, join, contains}
use nexus_local.Text.Tokens.{fields_func, has_word}
use nexus_local.Map
use nexus_local.Map.{Map}
use nexus_local.Sort.{sort}
use nexus_local.Domain.Ids.{TenantId, DocumentId, empty_id}
use nexus_local.Providers.{Float, VectorHit, VectorIndex, Embedder}
use nexus_local.World.{World, in_vectors}

pub record Arithmetic : Type 0 where
  pub plus : Float → Float → Float
  pub times : Float → Float → Float
  pub ratio : ℕ → ℕ → Float
  pub less : Float → Float → Bool
  pub same : Float → Float → Bool
  -- 0, 1, 0.55, 0.45, 0.15 and 0.2
  pub nought : Float
  pub one : Float
  pub lexical_weight : Float
  pub vector_weight : Float
  pub phrase_bonus : Float
  pub temperature : Float
  -- strconv.FormatFloat with four digits, and "%.3f"
  pub format : Float → Text
  pub format_short : Float → Text

-- `SearchStrategy` is a string type; "" and what is none of the constants are an `other_strategy`.
pub data SearchStrategy : Type 0 where
  by_vector : SearchStrategy
  by_hybrid : SearchStrategy
  other_strategy : Text → SearchStrategy

unfoldable pub strategy_name : SearchStrategy → Text
strategy_name by_vector = text "vector"
strategy_name by_hybrid = text "hybrid"
strategy_name (other_strategy t) = t

pub record SearchService (V : Type 0) : Type 0 where
  pub embedder : Option Embedder
  pub vectors : Option (VectorIndex V)
  pub arithmetic : Arithmetic
  pub case_table : ℕ → ℕ
  pub is_letter : ℕ → Bool
  pub is_digit : ℕ → Bool

pub record SearchInput : Type 0 where
  pub tenant_id : TenantId
  pub document_id : DocumentId
  pub query : Text
  pub limit : ℤ
  pub filters : Map Text Text
  pub strategy : SearchStrategy

unfoldable pub search_stop_words : List Text
search_stop_words = map text (
    "a" ∷ "an" ∷ "and" ∷ "are" ∷ "as" ∷ "at" ∷ "be" ∷ "by" ∷ "for" ∷ "from" ∷ "how" ∷ "i" ∷ "in"
    ∷ "into" ∷ "is" ∷ "it" ∷ "of" ∷ "on" ∷ "or" ∷ "that" ∷ "the" ∷ "this" ∷ "to" ∷ "what" ∷ "when"
    ∷ "where" ∷ "with" ∷ [])

unfoldable pub search_limit : ℤ → ℕ
search_limit limit =
    if is_nonpositive limit then 5 else if ltb 20 (magnitude limit) then 20 else magnitude limit

abbrev pub is_hybrid : SearchStrategy → Bool
is_hybrid by_hybrid = true
is_hybrid _ = false

-- For a limit of at least 1, `limit * 4` is not below it.
unfoldable pub search_candidate_limit : ℕ → SearchStrategy → ℕ
search_candidate_limit limit strategy =
    if not (is_hybrid strategy)
    then limit
    else if ltb 20 (limit + limit + limit + limit)
    then 20
    else limit + limit + limit + limit

abbrev pub or_nought : Option ℕ → ℕ
or_nought none = 0
or_nought (some n) = n

-- counts[token]++
unfoldable pub count_tokens : List Text → Map Text ℕ → Map Text ℕ
count_tokens [] counts = counts
count_tokens (t ∷ ts) counts = count_tokens ts (Map.put counts t (or_nought (Map.get counts t) + 1))

-- The two sums of lexicalScore: the matches, and all terms of the query.
unfoldable pub matched_terms : Map Text ℕ → List (Text × ℕ) → ℕ × ℕ
matched_terms have [] = (0, 0)
matched_terms have ((term, count) ∷ rest) =
    let (matched, total) = matched_terms have rest in
    let there = or_nought (Map.get have term) in
    ((if leb count there then count else there) + matched, count + total)

-- text += " " + value, in the order of one iteration
unfoldable pub with_values : Text → List (Text × Text) → Text
with_values t [] = t
with_values t ((k, value) ∷ rest) = with_values (t ++ (b' ' ∷ value)) rest

pub record HybridCandidate : Type 0 where
  pub hit : VectorHit
  pub vector_score : Float
  pub lexical : Float
  pub score : Float
  pub index : ℕ

module _ {V : Type 0} (service : SearchService V) where
  unfoldable pub normalize_search_strategy : SearchStrategy → Result SearchStrategy
  unfolding strategy_name
  normalize_search_strategy strategy =
      let name = to_lower service.case_table (trim_space (strategy_name strategy)) in
      if is_empty name || text_eq name (text "vector")
      then ok by_vector
      else if text_eq name (text "hybrid")
      then ok by_hybrid
      else err invalid_entity

  unfoldable pub keep_tokens : List Text → List Text
  unfolding search_stop_words
  keep_tokens [] = []
  keep_tokens (field ∷ rest) =
      let later = keep_tokens rest in
      if is_empty (trim_space field) || has_word (trim_space field) search_stop_words
      then later
      else trim_space field ∷ later

  unfoldable pub tokenize : Text → List Text
  unfolding keep_tokens
  tokenize t = keep_tokens (
      fields_func (λ r. not (service.is_letter r) && not (service.is_digit r))
        (to_lower service.case_table t))

  unfoldable pub term_counts : Text → Map Text ℕ
  unfolding tokenize count_tokens
  term_counts t = count_tokens (tokenize t) Map.empty

  -- if score > 1 { return 1 }
  abbrev pub at_most_one : Float → Float
  at_most_one score =
      if service.arithmetic.less service.arithmetic.one score then service.arithmetic.one else score

  unfoldable pub normalize_vector_score : Float → Float
  normalize_vector_score score =
      if service.arithmetic.less score service.arithmetic.nought
      then service.arithmetic.nought
      else at_most_one score

  -- The bonus for the query as a phrase of the text.
  unfoldable pub with_bonus : Text → Text → Float → Float
  unfolding tokenize
  with_bonus query t score =
      let phrase = join (tokenize query) (text " ") in
      if not (is_empty phrase) && contains (join (tokenize t) (text " ")) phrase
      then service.arithmetic.plus score service.arithmetic.phrase_bonus
      else score

  unfoldable pub lexical_score : Text → VectorHit → Float
  unfolding with_bonus term_counts with_values matched_terms
  lexical_score query hit =
      let terms = term_counts query in
      let t = with_values hit.text hit.metadata.entries in
      let (matched, total) = matched_terms (term_counts t) terms.entries in
      if eqb (Map.size terms) 0 || eqb total 0
      then service.arithmetic.nought
      else at_most_one (with_bonus query t (service.arithmetic.ratio matched total))

  -- (0.55 * lexical) + (0.45 * vectorScore)
  abbrev pub blend : Float → Float → Float
  blend lexical vector_score =
      service.arithmetic.plus (service.arithmetic.times service.arithmetic.lexical_weight lexical)
        (service.arithmetic.times service.arithmetic.vector_weight vector_score)

  -- What both loops do with a hit.
  unfoldable pub mark_hybrid_hit : Text → VectorHit → VectorHit
  unfolding lexical_score normalize_vector_score
  mark_hybrid_hit query hit = record hit {
    score = blend (lexical_score query hit) (normalize_vector_score hit.score);
    metadata =
        Map.put
          (Map.put (Map.put hit.metadata (text "retrieval_strategy") (text "hybrid"))
            (text "vector_score") (service.arithmetic.format hit.score))
          (text "lexical_score") (service.arithmetic.format (lexical_score query hit));
  }

  unfoldable pub candidates : Text → ℕ → List VectorHit → List HybridCandidate
  unfolding mark_hybrid_hit
  candidates query index [] = []
  candidates query index (hit ∷ hits) =
      record {
        hit = mark_hybrid_hit query hit;
        vector_score = normalize_vector_score hit.score;
        lexical = lexical_score query hit;
        score = blend (lexical_score query hit) (normalize_vector_score hit.score);
        index = index;
      }
      ∷ candidates query (index + 1) hits

  unfoldable pub ranks_before : HybridCandidate → HybridCandidate → Bool
  ranks_before left right =
      let a = service.arithmetic in
      if not (a.same left.score right.score)
      then a.less right.score left.score
      else if not (a.same left.lexical right.lexical)
      then a.less right.lexical left.lexical
      else if not (a.same left.vector_score right.vector_score)
      then a.less right.vector_score left.vector_score
      else ltb left.index right.index

  unfoldable pub rerank_hybrid : Text → List VectorHit → List VectorHit
  unfolding candidates ranks_before
  rerank_hybrid query hits =
      if leb (length hits) 1
      then map (mark_hybrid_hit query) hits
      else map (λ c. c.hit) (sort ranks_before (candidates query 0 hits))

  -- The query vector, if there is one and no other.
  abbrev pub only_one : List (List Float) → Result (List Float)
  only_one (v ∷ []) = ok v
  only_one _ = err other_error

  abbrev pub search_with :
      {O : Type 0}
      → Option Embedder
      → Option (VectorIndex V)
      → Context
      → SearchInput
      → Action (World O V) (List VectorHit)
  search_with (some embedder) (some vectors) ctx input = do
    _ ←
        lift
          (reject_if (empty_id input.tenant_id || is_empty (trim_space input.query)) invalid_entity)
    strategy ← lift (normalize_search_strategy input.strategy)
    embedded ← lift (embedder ctx (trim_space input.query ∷ []))
    query ← lift (only_one embedded)
    hits ← in_vectors (
        vectors.search ctx (record {
          tenant_id = input.tenant_id;
          document_id = input.document_id;
          query = query;
          limit = pos (search_candidate_limit (search_limit input.limit) strategy);
          filters = input.filters;
        }))
    let ranked = if is_hybrid strategy then rerank_hybrid (trim_space input.query) hits else hits
    pure (take (search_limit input.limit) ranked)
  search_with _ _ ctx input = raise other_error

  unfoldable pub search : {O : Type 0} → Context → SearchInput → Action (World O V) (List VectorHit)
  unfolding normalize_search_strategy rerank_hybrid search_candidate_limit search_limit
  search ctx input = live ctx (search_with service.embedder service.vectors ctx input)
