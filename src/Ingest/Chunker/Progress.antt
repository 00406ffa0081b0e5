-- ===== src/Ingest/Chunker/Progress.antt =====
-- chunker.go: when the loop of `Chunk` ends.
use nexus_local.Prelude.{
  ℕ, zero, suc, ◌+◌, ◌-◌, ◌≤◌, ◌<◌, List, [], ◌∷◌, true, false, ◌≡◌, ◌⊎◌, inl, inr, refl, arith,
  none, some, length, Bool-cases, leb,
}
use native.Mathlib.Decide.{dec_lt}
use nexus_local.Text.{Text, text, trim_space, is_empty}
use nexus_local.Ingest.Chunker.{
  Chunk, Chunker, is_break, rune_at, slice, add_chunk, chunk_loop, clean, chunk, window_end,
  next_start,
}
use nexus_local.Ingest.Chunker.Window.{
  IsChunker, window_bounds, window_after_break, window_at_last_break,
}

-- One round of the loop that goes on.
round_on :
    (fuel : ℕ) (c : Chunker) (runes : Text) (start : ℕ) (ks : List Chunk)
    → start < length runes
    → window_end c runes start < length runes
    → chunk_loop (suc fuel) c runes start ks
      ≡ chunk_loop fuel c runes
          (next_start c (window_end c runes start))
          (add_chunk (trim_space (slice runes start (window_end c runes start))) ks)
unfolding chunk_loop
round_on fuel c runes start ks h l = ground arith

round_last :
    (fuel : ℕ) (c : Chunker) (runes : Text) (start : ℕ) (ks : List Chunk)
    → (length runes ≤ start) ⊎ (window_end c runes start ≡ length runes)
    → (js : List Chunk) × (chunk_loop (suc fuel) c runes start ks ≡ some js)
unfolding chunk_loop
round_last fuel c runes start ks (inl h) = (ks, ground arith)
round_last fuel c runes start ks (inr h) = elim (dec_lt start (length runes)) [
  | yes inside ↦
      (add_chunk (trim_space (slice runes start (window_end c runes start))) ks, ground arith)
  | no past ↦ (ks, ground arith)
]

-- Each whole window has a break that the next window does not reach back to: no word is as long as a
-- window less the overlap.
pub record HasBreaks (c : Chunker) (runes : Text) : Type 0 where
  pub break_at : (start : ℕ) → start + c.max_runes ≤ length runes → ℕ
  pub behind :
      (start : ℕ) (whole : start + c.max_runes ≤ length runes)
      → start + c.overlap_runes ≤ break_at start whole
  pub within :
      (start : ℕ) (whole : start + c.max_runes ≤ length runes)
      → break_at start whole < start + c.max_runes
  pub is_one :
      (start : ℕ) (whole : start + c.max_runes ≤ length runes)
      → is_break (rune_at runes (break_at start whole)) ≡ true

-- The loop makes progress: the next window starts behind this one's start.
abbrev Advances : Chunker → Text → Type 0
Advances c runes =
    (start : ℕ)
    → start < length runes
    → window_end c runes start < length runes
    → start < next_start c (window_end c runes start)

not_whole :
    (c : Chunker) (runes : Text) (start : ℕ)
    → window_end c runes start < length runes
    → start + c.max_runes ≤ length runes
unfolding window_end
not_whole c runes start h = ground arith

HasBreaks-Advances :
    (c : Chunker) (runes : Text) → IsChunker c → HasBreaks c runes → Advances c runes
unfolding next_start
HasBreaks-Advances c runes good b start h l =
    let whole = not_whole c runes start l in
    let far =
      window_after_break c good runes start (b.break_at start whole) whole
        (omega (arith, b.behind start whole)) (b.within start whole) (b.is_one start whole) in
    ground (arith, far, b.behind start whole)

no_overlap-Advances :
    (c : Chunker) (runes : Text) → IsChunker c → c.overlap_runes ≡ 0 → Advances c runes
unfolding next_start
no_overlap-Advances c runes good z start h l = ground (arith, window_bounds c good runes start h)

loop_ends :
    (fuel : ℕ) (c : Chunker) (runes : Text) (start : ℕ) (ks : List Chunk)
    → IsChunker c
    → Advances c runes
    → length runes - start < fuel
    → (js : List Chunk) × (chunk_loop fuel c runes start ks ≡ some js)
loop_ends zero c runes start ks good a h = absurd (omega arith)
loop_ends (suc fuel) c runes start ks good a h = elim (dec_lt start (length runes)) [
  | no past ↦ round_last fuel c runes start ks (inl (omega arith))
  | yes inside ↦ elim (dec_lt (window_end c runes start) (length runes)) [
    | no last ↦
        round_last fuel c runes start ks
          (inr (omega (arith, window_bounds c good runes start inside)))
    | yes on ↦ rw (round_on fuel c runes start ks inside on) (
        loop_ends fuel c runes (next_start c (window_end c runes start)) _ good a
          (omega (arith, a start inside on)))
  ]
]

-- Where the loop ends, `Chunk` returns.
returns :
    (fuel : ℕ) (c : Chunker) (t : Text)
    → (js : List Chunk) × (chunk_loop fuel c (clean t) 0 [] ≡ some js)
    → (ks : List Chunk) × (chunk fuel c t ≡ some ks)
unfolding chunk
returns fuel c t (js, e) = elim (Bool-cases (is_empty (clean t))) [
  | inl blank ↦ ([], ground (arith, blank))
  | inr kept ↦ elim (Bool-cases (leb (length (clean t)) c.max_runes)) [
    | inl fits ↦ (
      record { id = text "chunk_0000"; index = 0; text = clean t } ∷ [],
      ground (arith, kept, fits),
    )
    | inr longer ↦ (js, ground (arith, kept, longer, e))
  ]
]

not_empty : (t : Text) (n : ℕ) → n < length t → is_empty t ≡ false
not_empty [] n h = absurd (omega arith)
not_empty (r ∷ t) n h = refl

-- One round for each rune, and one more, are enough.
pub chunk_returns :
    (fuel : ℕ) (c : Chunker) (t : Text)
    → IsChunker c
    → HasBreaks c (clean t)
    → length (clean t) < fuel
    → (ks : List Chunk) × (chunk fuel c t ≡ some ks)
chunk_returns fuel c t good b enough = returns fuel c t (
    loop_ends fuel c (clean t) 0 [] good (HasBreaks-Advances c (clean t) good b)
      (omega (arith, enough)))

-- For a chunker as NewChunker builds it, `Chunk` returns on every text whose cleaned form has, in
-- each stretch of MaxRunes runes, a break behind the first OverlapRunes of them; one round for each
-- rune, and one more, are enough.
pub chunk_total :
    (c : Chunker) (t : Text)
    → IsChunker c
    → HasBreaks c (clean t)
    → (ks : List Chunk) × (chunk (length (clean t) + 1) c t ≡ some ks)
chunk_total c t good b = returns (length (clean t) + 1) c t (
    loop_ends (length (clean t) + 1) c (clean t) 0 [] good (HasBreaks-Advances c (clean t) good b)
      (omega arith))

-- With windows of at least one rune and no overlap, `Chunk` returns on every text.
pub chunk_total_without_overlap :
    (c : Chunker) (t : Text)
    → IsChunker c
    → c.overlap_runes ≡ 0
    → (ks : List Chunk) × (chunk (length (clean t) + 1) c t ≡ some ks)
chunk_total_without_overlap c t good z = returns (length (clean t) + 1) c t (
    loop_ends (length (clean t) + 1) c (clean t) 0 [] good (no_overlap-Advances c (clean t) good z)
      (omega arith))

-- A text that is longer than a window, whose first window has its last break among the first
-- OverlapRunes runes: a short word, and then one that fills the rest of the window.
pub record IsTrap (c : Chunker) (runes : Text) : Type 0 where
  pub long : c.max_runes < length runes
  pub last : ℕ
  pub early : last < c.overlap_runes
  pub is_one : is_break (rune_at runes last) ≡ true
  pub none_behind : (i : ℕ) → last < i → i < c.max_runes → is_break (rune_at runes i) ≡ false

trap_window :
    (c : Chunker) (runes : Text) (good : IsChunker c) (trap : IsTrap c runes)
    → window_end c runes 0 ≡ trap.last + 1
trap_window c runes good trap =
    window_at_last_break c good runes 0 trap.last (omega (arith, trap.long)) (omega arith)
      (omega (arith, trap.early, good.smaller)) trap.is_one
      (λ i q r. trap.none_behind i q (omega (arith, r)))

trap_again : (c : Chunker) (runes : Text) (trap : IsTrap c runes) → next_start c (trap.last + 1) ≡ 0
unfolding next_start
trap_again c runes trap = ground (arith, trap.early)

trap_round :
    (fuel : ℕ) (c : Chunker) (runes : Text) (ks : List Chunk)
    → IsChunker c
    → IsTrap c runes
    → chunk_loop fuel c runes 0 ks ≡ none
trap_round zero c runes ks good trap = unfold chunk_loop in refl
trap_round (suc fuel) c runes ks good trap =
    let e = trap_window c runes good trap in
    rw
      (round_on fuel c runes 0 ks (omega (arith, trap.long))
        (omega (arith, e, trap.early, good.smaller, trap.long)))
      (rw (e, trap_again c runes trap)
        (trap_round fuel c runes (add_chunk (trim_space (slice runes 0 (trap.last + 1))) ks) good
          trap))

-- For a chunker as NewChunker builds it, and a text whose cleaned form is longer than a window and has
-- the last break of its first MaxRunes runes among the first OverlapRunes, `Chunk` never returns:
-- whatever the number of rounds, it has not ended.
pub chunk_diverges :
    (fuel : ℕ) (c : Chunker) (t : Text) → IsChunker c → IsTrap c (clean t) → chunk fuel c t ≡ none
unfolding chunk
chunk_diverges fuel c t good trap =
    ground
      (arith, trap.long, trap_round fuel c (clean t) [] good trap, not_empty (clean t) c.max_runes)
