-- ===== src/Domain/Patterns.antt =====
-- data_source.go: the include and exclude patterns of a source.
pub mod Laws
use nexus_local.Prelude.{
  ℕ, ◌+◌, List, [], ◌∷◌, ◌++◌, Bool, true, false, ◌||◌, ltb, length, eqb, if◌then◌else◌,
}
use nexus_local.Result.{Result, ok, err, invalid_entity}
use nexus_local.Text.{
  Text, text, text_eq, is_empty, trim_space, replace_rune, has_prefix, contains, split, byte_len,
}

abbrev pub max_data_source_patterns : ℕ
max_data_source_patterns = 100

abbrev pub max_data_source_pattern_length : ℕ
max_data_source_pattern_length = 240

-- strings.TrimPrefix(pattern, "/")
unfoldable pub trim_slash : Text → Text
trim_slash [] = []
trim_slash (c ∷ s) = if eqb c b'/' then s else c ∷ s

unfoldable pub clean_pattern : Text → Text
unfolding trim_slash
clean_pattern pattern = trim_slash (trim_space (replace_rune b'\\' b'/' pattern))

unfoldable pub some_parent : List Text → Bool
some_parent [] = false
some_parent (segment ∷ rest) = text_eq segment (text "..") || some_parent rest

unfoldable pub has_parent_path_segment : Text → Bool
unfolding some_parent
has_parent_path_segment pattern = some_parent (split pattern b'/')

-- seen[pattern]
unfoldable pub member : Text → List Text → Bool
member p [] = false
member p (q ∷ qs) = text_eq p q || member p qs

-- The loop of `NormalizeDataSourcePatterns`.
unfoldable pub normalize_from : List Text → List Text → List Text → Result (List Text)
normalize_from seen normalized [] = ok normalized
normalize_from seen normalized (p ∷ ps) =
    let pattern = clean_pattern p in
    let skip = normalize_from seen normalized ps in
    let take_it = normalize_from (pattern ∷ seen) (normalized ++ pattern ∷ []) ps in
    if is_empty pattern || has_prefix pattern (text "#")
    then skip
    else if ltb max_data_source_pattern_length (byte_len pattern)
    then err invalid_entity
    else if contains pattern (0 ∷ []) || has_parent_path_segment pattern
    then err invalid_entity
    else if member pattern seen
    then skip
    else if ltb max_data_source_patterns (length (normalized ++ pattern ∷ []))
    then err invalid_entity
    else take_it

unfoldable pub normalize_data_source_patterns : List Text → Result (List Text)
unfolding normalize_from
normalize_data_source_patterns patterns = normalize_from [] [] patterns
