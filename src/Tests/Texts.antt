-- ===== src/Tests/Texts.antt =====
-- Go's library functions on texts, file names and patterns at fixed inputs.
use nexus_local.Prelude.{◌≡◌, refl, [], ◌∷◌, true, none}
use nexus_local.Text.{has_prefix, rune_len, text, replace_rune, trim_space, text_eq, is_space}
use nexus_local.Text.Paths.{base, ext}
use nexus_local.Text.Decimal.{decimal}
use nexus_local.Text.Bytes.{encode_rune, first_bytes}
use nexus_local.App.Documents.{safe_file_name}
use nexus_local.Worker.Policy.{Library, glob_pattern_to_regex, source_pattern_matches_one}

decimal_digits : decimal 1203 ≡ text "1203"
unfolding decimal
decimal_digits = refl

base_of_path : base (text "a/b.txt/") ≡ text "b.txt"
unfolding base
base_of_path = refl

ext_of_path : ext (text "a.b/c.tar.gz") ≡ text ".gz"
unfolding ext
ext_of_path = refl

-- The second byte of "é" is cut off.
cut_rune : first_bytes 2 (97 ∷ 0xe9 ∷ []) ≡ 97 ∷ 0x1100c3 ∷ []
unfolding first_bytes rune_len
cut_rune = refl

windows_path : safe_file_name (text " C:\\docs\\plan.pdf ") ≡ text "plan.pdf"
unfolding safe_file_name text_eq base replace_rune trim_space is_space
windows_path = refl

-- A name whose last element ends in a space keeps it.
trailing_space : safe_file_name (text "report /") ≡ text "report "
unfolding safe_file_name text_eq base replace_rune trim_space is_space
trailing_space = refl

abbrev library : Library
library = record {
  path_match = λ p s. none;
  regex_match = λ p s. none;
  quote_meta = λ s. s;
  type_by_extension = λ s. [];
  case_table = λ r. r;
}

stars : glob_pattern_to_regex library (text "a/**/b?*.md") ≡ text "a/(?:.*/)?b[^/][^/]*.md"
unfolding glob_pattern_to_regex encode_rune
stars = refl

-- A rune beyond ASCII becomes the runes of its two bytes.
not_ascii : glob_pattern_to_regex library (0xe9 ∷ []) ≡ 0xc3 ∷ 0xa9 ∷ []
unfolding glob_pattern_to_regex encode_rune
not_ascii = refl

below_directory :
    source_pattern_matches_one library (text "/docs/**") (text "docs/a/b.md") true ≡ true
unfolding source_pattern_matches_one trim_space replace_rune is_space has_prefix text_eq
below_directory = refl
