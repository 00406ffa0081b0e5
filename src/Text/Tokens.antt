-- ===== src/Text/Tokens.antt =====
-- strings.FieldsFunc, and the words of a search.
use nexus_local.Prelude.{ℕ, List, [], ◌∷◌, ◌++◌, Bool, false, ◌||◌, if◌then◌else◌}
use nexus_local.Text.{Text, is_empty, text_eq}

-- `word` is the field that is being read.
unfoldable pub fields_func_from : (ℕ → Bool) → Text → Text → List Text
fields_func_from between word [] = if is_empty word then [] else word ∷ []
fields_func_from between word (c ∷ s) =
    let broken = fields_func_from between [] s in
    let longer = fields_func_from between (word ++ c ∷ []) s in
    if between c then (if is_empty word then broken else word ∷ broken) else longer

unfoldable pub fields_func : (ℕ → Bool) → Text → List Text
unfolding fields_func_from
fields_func between s = fields_func_from between [] s

-- A set of words, as a map from words to true is used.
unfoldable pub has_word : Text → List Text → Bool
has_word w [] = false
has_word w (v ∷ vs) = text_eq v w || has_word w vs
