-- ===== src/Ingest/Chunker/Spans.antt =====
-- chunker.go: the windows that the loop of `Chunk` goes through.
use nexus_local.Prelude.{
  ℕ, zero, suc, ◌+◌, ◌≤◌, ◌<◌, List, [], ◌∷◌, not, ◌≡◌, ◌⊎◌, inl, inr, refl, arith, Option, none,
  some, length, Option-cases, ltb, eqb, if◌then◌else◌, All,
}
use native.Mathlib.Decide.{dec_lt, ℕ_discrete}
use mathlib.Core.Option
use nexus_local.Text.{Text, trim_space}
use nexus_local.Ingest.Chunker.{
  Chunk, Chunker, window_end, next_start, slice, add_chunk, chunk_loop,
}
use nexus_local.Ingest.Chunker.Window.{IsChunker, window_bounds, next_start_bounds}

-- A window: its start and its end.
abbrev pub Span : Type 0
Span = ℕ × ℕ

-- The windows of the loop, in order; `none` where the fuel runs out.
unfoldable pub spans : ℕ → Chunker → Text → ℕ → Option (List Span)
spans zero c runes start = none
spans (suc fuel) c runes start =
    let end = window_end c runes start in
    let rest = spans fuel c runes (next_start c end) in
    if not (ltb start (length runes))
    then some []
    else if eqb end (length runes)
    then some ((start, end) ∷ [])
    else Option.map (λ ss. (start, end) ∷ ss) rest

-- The chunks of a list of windows.
unfoldable pub collect : Text → List Chunk → List Span → List Chunk
collect runes chunks [] = chunks
collect runes chunks ((start, end) ∷ rest) =
    collect runes (add_chunk (trim_space (slice runes start end)) chunks) rest

-- The loop returns the chunks of its windows.
pub chunk_loop-spans :
    (fuel : ℕ) (c : Chunker) (runes : Text) (start : ℕ) (chunks : List Chunk)
    → chunk_loop fuel c runes start chunks
      ≡ Option.map (λ ss. collect runes chunks ss) (spans fuel c runes start)
unfolding chunk_loop spans collect
chunk_loop-spans zero c runes start chunks = refl
chunk_loop-spans (suc fuel) c runes start chunks = ground (
  arith,
  chunk_loop-spans fuel c runes (next_start c (window_end c runes start))
      (add_chunk (trim_space (slice runes start (window_end c runes start))) chunks),
)

-- A position lies in one of the windows.
abbrev pub Covered : ℕ → List Span → Type 0
Covered p [] = ⊥
Covered p ((s, e) ∷ rest) = ((s ≤ p) × (p < e)) ⊎ Covered p rest

-- Every window is a part of the text, and has at most `max_runes` runes.
abbrev pub Fits : Chunker → Text → List Span → Type 0
Fits c runes = All (λ s. (s.0 < s.1) × (s.1 ≤ length runes) × (s.1 ≤ s.0 + c.max_runes))

-- What one round adds to the windows.
round :
    (fuel : ℕ) (c : Chunker) (runes : Text) (start : ℕ) (ss : List Span)
    → spans (suc fuel) c runes start ≡ some ss
    → ((length runes ≤ start) × (ss ≡ []))
      ⊎ (((start < length runes)
            × (window_end c runes start ≡ length runes)
            × (ss ≡ (start, window_end c runes start) ∷ []))
          ⊎ ((rest : List Span) × (start < length runes)
              × (spans fuel c runes (next_start c (window_end c runes start)) ≡ some rest)
              × (ss ≡ (start, window_end c runes start) ∷ rest)))
unfolding spans
round fuel c runes start ss e =
    elim (Option-cases (spans fuel c runes (next_start c (window_end c runes start)))) [
      | inl out ↦ elim (dec_lt start (length runes)) [
        | yes inside ↦
            inr (inl (inside, ground (arith, e, out, inside), ground (arith, e, out, inside)))
        | no past ↦ inl (omega arith, ground (arith, e, past))
      ]
      | inr (rest, more) ↦ elim (dec_lt start (length runes)) [
        | yes inside ↦ elim (ℕ_discrete (window_end c runes start) (length runes)) [
          | yes last ↦ inr (inl (inside, last, ground (arith, e, inside, last)))
          | no on ↦ inr (inr (rest, inside, more, ground (arith, e, more, inside, on)))
        ]
        | no past ↦ inl (omega arith, ground (arith, e, past))
      ]
    ]

-- The windows cover the text from the start of the first one to its end.
pub spans-Covered :
    (fuel : ℕ) (c : Chunker) (runes : Text) (start p : ℕ) (ss : List Span)
    → start ≤ p
    → p < length runes
    → spans fuel c runes start ≡ some ss
    → Covered p ss
spans-Covered zero c runes start p ss l h e = unfold spans in cc
spans-Covered (suc fuel) c runes start p ss l h e = elim (round fuel c runes start ss e) [
  | inl (past, q) ↦ absurd (omega arith)
  | inr (inl (inside, last, q)) ↦ rw q (inl (l, omega arith))
  | inr (inr (rest, inside, more, q)) ↦ rw q (elim (dec_lt p (window_end c runes start)) [
    | yes here ↦ inl (l, here)
    | no later ↦ inr (
        spans-Covered fuel c runes (next_start c (window_end c runes start)) p rest
          (omega (arith, next_start_bounds c (window_end c runes start))) h more)
  ])
]

pub spans-Fits :
    (fuel : ℕ) (c : Chunker) (good : IsChunker c) (runes : Text) (start : ℕ) (ss : List Span)
    → spans fuel c runes start ≡ some ss
    → Fits c runes ss
spans-Fits zero c good runes start ss e = unfold spans in cc
spans-Fits (suc fuel) c good runes start ss e = elim (round fuel c runes start ss e) [
  | inl (past, q) ↦ rw q tt
  | inr (inl (inside, last, q)) ↦ rw q (window_bounds c good runes start inside, tt)
  | inr (inr (rest, inside, more, q)) ↦ rw q (
    window_bounds c good runes start inside,
    spans-Fits fuel c good runes (next_start c (window_end c runes start)) rest more,
  )
]
