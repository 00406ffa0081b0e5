-- ===== src/Tests/Chunks.antt =====
-- ingest/chunker.go at fixed inputs: texts cut into chunks.
use nexus_local.Prelude.{
  ℕ, zero, suc, ◌+◌, ◌≤◌, ◌<◌, ◌%◌, List, [], ◌∷◌, false, ◌≡◌, ◌↔◌, refl, arith, none, some, pos,
  negsuc, length,
}
use nexus_local.Text.{Text, text, fields, join, is_space, trim_space}
use nexus_local.Ingest.Chunker.{
  Chunk, Chunker, new_chunker, chunk, chunk_loop, chunk_id, clean, rune_at, slice, is_break,
  window_end, next_start, add_chunk,
}
use nexus_local.Ingest.Chunker.Window.{IsChunker, new_chunker-IsChunker}
use nexus_local.Ingest.Chunker.Output.{AreChunks, chunk-AreChunks}
use nexus_local.Ingest.Chunker.Coverage.{HasText, chunk_covers}
use nexus_local.Ingest.Chunker.Progress.{HasBreaks, IsTrap, chunk_total, chunk_diverges}
use nexus_local.Ingest.Chunker.Ids.{chunk_id-eq_iff}

abbrev small : Chunker
small = record { max_runes = 6; overlap_runes = 2 }

small-IsChunker : IsChunker small
small-IsChunker = record { positive = omega arith; smaller = omega arith }

abbrev plain : Chunker
plain = record { max_runes = 6; overlap_runes = 0 }

plain-IsChunker : IsChunker plain
plain-IsChunker = record { positive = omega arith; smaller = omega arith }

abbrev words : Text
words = text " one  two three"

abbrev cut_words : List Chunk
cut_words =
    record { id = text "chunk_0000"; index = 0; text = text "one" }
    ∷ record { id = text "chunk_0001"; index = 1; text = text "two" }
    ∷ record { id = text "chunk_0002"; index = 2; text = text "three" }
    ∷ []

cleaned : clean words ≡ text "one two three"
unfolding clean fields join is_space
cleaned = refl

cut : chunk 14 plain words ≡ some cut_words
unfolding chunk chunk_loop clean fields join is_space window_end next_start add_chunk slice
    trim_space
cut = refl

new_chunker-IsChunker_example : IsChunker (new_chunker (negsuc 0) (pos 2000))
new_chunker-IsChunker_example = new_chunker-IsChunker (negsuc 0) (pos 2000)

chunk-AreChunks_example : AreChunks plain 0 cut_words
chunk-AreChunks_example = chunk-AreChunks 14 plain words cut_words plain-IsChunker cut

fifth_inside : 4 < length (clean words)
unfolding clean fields join is_space
fifth_inside = omega arith

fifth_solid : is_space (rune_at (clean words) 4) ≡ false
unfolding clean fields join is_space rune_at
fifth_solid = refl

chunk_covers_example :
    (s e : ℕ) × (s ≤ 4)
    × (4 < e)
    × (e ≤ length (clean words))
    × HasText (trim_space (slice (clean words) s e)) cut_words
chunk_covers_example =
    chunk_covers 14 plain words cut_words 4 plain-IsChunker cut fifth_inside fifth_solid

-- A break at every other rune: no window is without one.
abbrev letters : Text
letters = text "a b c d"

letters-HasBreaks : HasBreaks small (clean letters)
unfolding clean fields join is_space rune_at
letters-HasBreaks = record {
  break_at = λ start whole. 3;
  behind = λ start whole. omega (arith, whole);
  within = λ start whole. omega arith;
  is_one = λ start whole. refl;
}

chunk_total_example :
    (ks : List Chunk) × (chunk (length (clean letters) + 1) small letters ≡ some ks)
chunk_total_example = chunk_total small letters small-IsChunker letters-HasBreaks

-- A short word in front of a long one.
abbrev long_word : Text
long_word = text "a bbbbbbb"

long_word-IsTrap : IsTrap small (clean long_word)
unfolding clean fields join is_space rune_at
long_word-IsTrap = record {
  long = omega arith;
  last = 1;
  early = omega arith;
  is_one = refl;
  none_behind = solid;
}
  where
    solid : (i : ℕ) → 1 < i → i < 6 → is_break (rune_at (text "a bbbbbbb") i) ≡ false
    solid zero h k = absurd (omega arith)
    solid (suc zero) h k = absurd (omega arith)
    solid (suc (suc zero)) h k = refl
    solid (suc (suc (suc zero))) h k = refl
    solid (suc (suc (suc (suc zero)))) h k = refl
    solid (suc (suc (suc (suc (suc zero))))) h k = refl
    solid (suc (suc (suc (suc (suc (suc i)))))) h k = absurd (omega arith)

chunk_diverges_example : chunk 1000 small long_word ≡ none
chunk_diverges_example = chunk_diverges 1000 small long_word small-IsChunker long_word-IsTrap

chunk_id-eq_iff_example : (chunk_id 0 ≡ chunk_id 10000) ↔ (0 % 10000 ≡ 10000 % 10000)
chunk_id-eq_iff_example = chunk_id-eq_iff 0 10000
