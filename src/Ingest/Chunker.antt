-- ===== src/Ingest/Chunker.antt =====
-- chunker.go. Positions are native numbers; a start that would fall below 0 is set to 0 by the source,
-- as truncated subtraction does.
pub mod Ids
pub mod Window
pub mod Spans
pub mod Output
pub mod Coverage
pub mod Progress
use nexus_local.Prelude.{
  ℕ, zero, suc, ◌+◌, ◌-◌, ◌/◌, ◌%◌, List, [], ◌∷◌, ◌++◌, Bool, true, false, not, ◌||◌, Option, none,
  some, ltb, leb, eqb, if◌then◌else◌, ℤ, is_nonpositive, is_negative, magnitude, length, take, drop,
}
use nexus_local.Text.{Text, text, is_empty, trim_space, fields, join}

pub record Chunk : Type 0 where
  pub id : Text
  pub index : ℕ
  pub text : Text

pub record Chunker : Type 0 where
  pub max_runes : ℕ
  pub overlap_runes : ℕ

-- `if maxRunes <= 0 { maxRunes = 1200 }`
abbrev runes_or_default : ℤ → ℕ
runes_or_default n = if is_nonpositive n then 1200 else magnitude n

unfoldable pub new_chunker : ℤ → ℤ → Chunker
new_chunker max_runes overlap_runes =
    let most = runes_or_default max_runes in
    let overlap = if is_negative overlap_runes then 0 else magnitude overlap_runes in
    record { max_runes = most; overlap_runes = if leb most overlap then most / 5 else overlap }

-- runes[i]
unfoldable pub rune_at : Text → ℕ → ℕ
rune_at [] i = 0
rune_at (r ∷ s) zero = r
rune_at (r ∷ s) (suc i) = rune_at s i

-- runes[i-1] == ' ' || runes[i-1] == '\n' || runes[i-1] == '\t'
abbrev pub is_break : ℕ → Bool
is_break r = eqb r b' ' || eqb r 10 || eqb r 9

-- The loop of `boundaryBefore`, which has `k` positions above `floor` left to look at.
unfoldable pub boundary_from : Text → ℕ → ℕ → ℕ → ℕ
unfolding rune_at
boundary_from runes desired floor zero = desired
boundary_from runes desired floor (suc k) =
    let further = boundary_from runes desired floor k in
    if is_break (rune_at runes (floor + k)) then floor + k + 1 else further

unfoldable pub boundary_before : Text → ℕ → ℕ → ℕ
unfolding boundary_from
boundary_before runes desired floor = boundary_from runes desired floor (desired - floor)

-- The decimal digits of `value` in `n` places, the last one last: the loop of `chunkID`.
unfoldable pub write_digits : ℕ → ℕ → Text → Text
write_digits zero value buf = buf
write_digits (suc n) value buf = write_digits n (value / 10) ((b'0' + value % 10) ∷ buf)

unfoldable pub chunk_id : ℕ → Text
unfolding write_digits
chunk_id index = text "chunk_" ++ write_digits 4 index []

-- runes[start:end]
unfoldable pub slice : Text → ℕ → ℕ → Text
slice runes start end = take (end - start) (drop start runes)

-- `end` of one round
unfoldable pub window_end : Chunker → Text → ℕ → ℕ
unfolding boundary_before
window_end c runes start =
    if ltb (length runes) (start + c.max_runes)
    then length runes
    else boundary_before runes (start + c.max_runes) start

-- `start` of the next round
unfoldable pub next_start : Chunker → ℕ → ℕ
next_start c end = if leb end (end - c.overlap_runes) then end else end - c.overlap_runes

-- `chunks = append(chunks, …)`, unless the text is blank
unfoldable pub add_chunk : Text → List Chunk → List Chunk
unfolding chunk_id
add_chunk chunk_text chunks =
    if is_empty chunk_text
    then chunks
    else chunks
      ++ record { id = chunk_id (length chunks); index = length chunks; text = chunk_text } ∷ []

-- The loop of `Chunk`. With no fuel left the loop has not ended: `none`.
unfoldable pub chunk_loop : ℕ → Chunker → Text → ℕ → List Chunk → Option (List Chunk)
chunk_loop zero c runes start chunks = none
chunk_loop (suc fuel) c runes start chunks =
    let end = window_end c runes start in
    let chunks' = add_chunk (trim_space (slice runes start end)) chunks in
    let rest = chunk_loop fuel c runes (next_start c end) chunks' in
    if not (ltb start (length runes))
    then some chunks
    else if eqb end (length runes)
    then some chunks'
    else rest

-- strings.Join(strings.Fields(text), " ")
unfoldable pub clean : Text → Text
clean t = join (fields t) (b' ' ∷ [])

unfoldable pub chunk : ℕ → Chunker → Text → Option (List Chunk)
chunk fuel c t =
    let cleaned = clean t in
    let looped = chunk_loop fuel c cleaned 0 [] in
    if is_empty cleaned
    then some []
    else if leb (length cleaned) c.max_runes
    then some (record { id = text "chunk_0000"; index = 0; text = cleaned } ∷ [])
    else looped
