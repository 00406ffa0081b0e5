-- ===== src/Worker/Policy.antt =====
-- source_scan.go: which entries of a source a scan takes. `path.Match`, `regexp.MatchString`,
-- `regexp.QuoteMeta` and `mime.TypeByExtension` are parameters.
use nexus_local.Prelude.{
  ℕ, ℤ, pos, int_eq, List, [], ◌∷◌, ◌++◌, Bool, true, false, not, ◌&&◌, ◌||◌, eqb, Option, none,
  some, if◌then◌else◌,
}
use nexus_local.Text.{
  Text, text, text_Eq, text_eq, is_empty, trim_space, to_lower, has_prefix, contains, replace_rune,
}
use nexus_local.Text.Bytes.{encode_rune}
use nexus_local.Text.Paths.{base, ext}
use nexus_local.Map
use nexus_local.Map.{Map}

pub record SourceScanPolicy : Type 0 where
  pub max_file_bytes : ℤ
  pub skip_hidden_names : Bool
  pub skip_directory_name : Map Text Bool

-- The functions of Go's library: `none` of a match is an error.
pub record Library : Type 0 where
  pub path_match : Text → Text → Option Bool
  pub regex_match : Text → Text → Option Bool
  pub quote_meta : Text → Text
  pub type_by_extension : Text → Text
  pub case_table : ℕ → ℕ

unfoldable pub default_skipped_names : Map Text Bool
default_skipped_names = record {
  entries =
      (text "node_modules", true)
      ∷ (text ".git", true)
      ∷ (text ".hg", true)
      ∷ (text ".svn", true)
      ∷ (text ".cache", true)
      ∷ (text "__pycache__", true)
      ∷ (text ".pytest_cache", true)
      ∷ (text ".mypy_cache", true)
      ∷ (text ".next", true)
      ∷ (text "dist", true)
      ∷ (text "build", true)
      ∷ (text "target", true)
      ∷ (text "tmp", true)
      ∷ (text "temp", true)
      ∷ (text ".venv", true)
      ∷ (text "venv", true)
      ∷ (text "$recycle.bin", true)
      ∷ (text "system volume information", true)
      ∷ [];
}

unfoldable pub default_source_scan_policy : SourceScanPolicy
unfolding default_skipped_names
default_source_scan_policy = record {
  max_file_bytes = pos 10_485_760;
  skip_hidden_names = true;
  skip_directory_name = default_skipped_names;
}

-- strings.TrimSuffix(s, "/")
unfoldable pub without_slash : Text → Text
without_slash [] = []
without_slash (c ∷ []) = if eqb c b'/' then [] else c ∷ []
without_slash (c ∷ d ∷ s) = c ∷ without_slash (d ∷ s)

unfoldable pub strip_left : Text → Text
strip_left [] = []
strip_left (c ∷ s) = let rest = strip_left s in if eqb c b'/' then rest else c ∷ s

abbrev pub reversed : Text → Text → Text
reversed [] done = done
reversed (c ∷ s) done = reversed s (c ∷ done)

-- strings.Trim(s, "/")
unfoldable pub trim_slashes : Text → Text
unfolding strip_left
trim_slashes s = reversed (strip_left (reversed (strip_left s) [])) []

-- strings.HasSuffix
unfoldable pub has_suffix : Text → Text → Bool
has_suffix s suffix = has_prefix (reversed s []) (reversed suffix [])

-- strings.TrimSuffix(s, "/**") of a text that ends so
unfoldable pub without_stars : Text → Text
without_stars s = elim (reversed s []) [
  | [] ↦ []
  | a ∷ r ↦ elim r [ [] ↦ [] | b ∷ t ↦ elim t [ [] ↦ [] | c ∷ front ↦ reversed front [] ] ]
]

-- strings.TrimPrefix(s, "/")
unfoldable pub without_first_slash : Text → Text
without_first_slash [] = []
without_first_slash (c ∷ s) = if eqb c b'/' then s else c ∷ s

-- The bytes of a text, each as the rune that `string` of a byte is.
unfoldable pub byte_runes : Text → Text
byte_runes [] = []
byte_runes (r ∷ s) = encode_rune r ++ byte_runes s

abbrev pub is_match : Option Bool → Bool
is_match none = false
is_match (some b) = b

abbrev pub or_false : Option Bool → Bool
or_false none = false
or_false (some b) = b

module _ (library : Library) where
  -- The loop of globPatternToRegex over the bytes of the pattern.
  unfoldable pub glob_bytes_to_regex : Text → Text
  glob_bytes_to_regex [] = []
  glob_bytes_to_regex (a ∷ []) =
      if eqb a b'*'
      then text "[^/]*"
      else if eqb a b'?'
      then text "[^/]"
      else library.quote_meta (a ∷ [])
  glob_bytes_to_regex (a ∷ b ∷ []) =
      let one = glob_bytes_to_regex (b ∷ []) in
      if eqb a b'*'
      then (if eqb b b'*' then text ".*" else text "[^/]*" ++ one)
      else (if eqb a b'?' then text "[^/]" ++ one else library.quote_meta (a ∷ []) ++ one)
  glob_bytes_to_regex (a ∷ b ∷ c ∷ s) =
      let one = glob_bytes_to_regex (b ∷ c ∷ s) in
      let two = glob_bytes_to_regex (c ∷ s) in
      let three = glob_bytes_to_regex s in
      if eqb a b'*'
      then (if eqb b b'*'
          then (if eqb c b'/' then text "(?:.*/)?" ++ three else text ".*" ++ two)
          else text "[^/]*" ++ one)
      else (if eqb a b'?' then text "[^/]" ++ one else library.quote_meta (a ∷ []) ++ one)

  unfoldable pub glob_pattern_to_regex : Text → Text
  unfolding byte_runes glob_bytes_to_regex
  glob_pattern_to_regex pattern = glob_bytes_to_regex (byte_runes pattern)

  -- The last two ways to match, for a pattern that has not a slash at its end.
  unfoldable pub matches_glob : Text → Text → Bool → Bool
  unfolding glob_pattern_to_regex without_slash
  matches_glob pattern path directory =
      if not (contains pattern (text "/"))
      then is_match (library.path_match pattern (base (without_slash path)))
        || text_eq pattern (base (without_slash path))
      else is_match (
          library.regex_match
            (text "^"
              ++ (if directory
                  then glob_pattern_to_regex (without_slash pattern) ++ text "/?$"
                  else glob_pattern_to_regex pattern ++ text "$"))
            (without_slash path))

  unfoldable pub source_pattern_matches_one : Text → Text → Bool → Bool
  unfolding has_suffix without_stars without_first_slash matches_glob without_slash
  source_pattern_matches_one given path directory =
      let pattern = without_first_slash (trim_space (replace_rune b'\\' b'/' given)) in
      if is_empty pattern || is_empty path
      then false
      else if has_suffix pattern (text "/**")
      then text_eq (without_slash path) (without_stars pattern)
        || has_prefix (without_slash path) (without_stars pattern ++ text "/")
      else if has_suffix pattern (text "/")
      then has_prefix path pattern
      else matches_glob pattern path directory

  unfoldable pub some_pattern_matches : List Text → Text → Bool → Bool
  unfolding source_pattern_matches_one
  some_pattern_matches [] path directory = false
  some_pattern_matches (pattern ∷ rest) path directory =
      source_pattern_matches_one pattern path directory || some_pattern_matches rest path directory

  unfoldable pub source_pattern_matches : List Text → Text → Bool → Bool
  unfolding some_pattern_matches trim_slashes
  source_pattern_matches patterns relative directory =
      let path = trim_slashes (replace_rune b'\\' b'/' relative) in
      some_pattern_matches patterns
        (if directory && not (is_empty path) then path ++ text "/" else path) directory

  -- The loop of `normalized`, in the order of one iteration.
  unfoldable pub normalize_names : List (Text × Bool) → Map Text Bool → Map Text Bool
  normalize_names [] names = names
  normalize_names ((name, skip) ∷ rest) names =
      normalize_names rest (Map.put names (to_lower library.case_table (trim_space name)) skip)

  unfoldable pub normalized : SourceScanPolicy → SourceScanPolicy
  unfolding normalize_names
  normalized p = record p {
    max_file_bytes = if int_eq p.max_file_bytes (pos 0) then pos 10_485_760 else p.max_file_bytes;
    skip_directory_name = normalize_names p.skip_directory_name.entries Map.empty;
  }

  unfoldable pub should_skip_directory : SourceScanPolicy → Text → Bool
  should_skip_directory p name =
      or_false (Map.get p.skip_directory_name (to_lower library.case_table (trim_space name)))

  unfoldable pub content_type_for_path : Text → Text
  content_type_for_path path =
      let content_type = trim_space (library.type_by_extension (ext path)) in
      if is_empty content_type then text "application/octet-stream" else content_type

unfoldable pub should_skip_name : SourceScanPolicy → Text → Bool
should_skip_name p name = p.skip_hidden_names && has_prefix name (text ".")
