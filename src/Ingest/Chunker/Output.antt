-- ===== src/Ingest/Chunker/Output.antt =====
-- chunker.go: the list of chunks that `Chunk` returns.
use nexus_local.Prelude.{
  ℕ, suc, ◌+◌, ◌-◌, ◌≤◌, ◌<◌, List, [], ◌∷◌, ◌++◌, true, false, ◌≡◌, ◌⊎◌, inl, inr, refl, sym,
  arith, some, length, drop, length-take, Bool-cases, Option-cases,
}
use nexus_local.Text.{Text, text, trim_space, is_empty}
use nexus_local.Text.Trim.{trim_space_idem, length-trim_space}
use nexus_local.Text.Words.{trim_space-join-fields}
use nexus_local.Ingest.Chunker.{
  Chunk, Chunker, slice, add_chunk, chunk_id, chunk_loop, clean, chunk,
}
use nexus_local.Ingest.Chunker.Window.{IsChunker}
use nexus_local.Ingest.Chunker.Spans.{Span, spans, collect, chunk_loop-spans, Fits, spans-Fits}

-- A chunk at its place in the result.
pub record IsChunk (c : Chunker) (index : ℕ) (k : Chunk) : Type 0 where
  pub indexed : k.index ≡ index
  pub identified : k.id ≡ chunk_id index
  pub some_text : is_empty k.text ≡ false
  pub trimmed : trim_space k.text ≡ k.text
  pub bounded : length k.text ≤ c.max_runes

abbrev pub AreChunks : Chunker → ℕ → List Chunk → Type 0
AreChunks c n [] = Unit
AreChunks c n (k ∷ ks) = IsChunk c n k × AreChunks c (suc n) ks

AreChunks-append :
    (c : Chunker) (n : ℕ) (ks : List Chunk) (k : Chunk)
    → AreChunks c n ks
    → IsChunk c (n + length ks) k
    → AreChunks c n (ks ++ k ∷ [])
AreChunks-append c n [] k h i = let e : n + 0 ≡ n = omega arith in (rw e at i, tt)
AreChunks-append c n (j ∷ ks) k h i =
    let e : n + suc (length ks) ≡ suc n + length ks = omega arith in
    (h.0, AreChunks-append c (suc n) ks k h.1 (rw e at i))

length-slice : (runes : Text) (s e : ℕ) → length (slice runes s e) ≤ e - s
unfolding slice
length-slice runes s e = omega (arith, length-take (e - s) (drop s runes))

add_chunk-AreChunks :
    (c : Chunker) (runes : Text) (s e : ℕ) (ks : List Chunk)
    → e ≤ s + c.max_runes
    → AreChunks c 0 ks
    → AreChunks c 0 (add_chunk (trim_space (slice runes s e)) ks)
unfolding add_chunk
add_chunk-AreChunks c runes s e ks h a =
    let t = trim_space (slice runes s e) in
    elim (Bool-cases (is_empty t)) [
      | inl blank ↦ rw blank a
      | inr kept ↦ rw kept (
          AreChunks-append c 0 ks _ a (
            let z : 0 + length ks ≡ length ks = omega arith in
            rw z (record {
              indexed = refl;
              identified = refl;
              some_text = kept;
              trimmed = trim_space_idem (slice runes s e);
              bounded = omega (arith, length-trim_space (slice runes s e), length-slice runes s e);
            })))
    ]

collect-AreChunks :
    (c : Chunker) (runes : Text) (ks : List Chunk) (ss : List Span)
    → Fits c runes ss
    → AreChunks c 0 ks
    → AreChunks c 0 (collect runes ks ss)
unfolding collect
collect-AreChunks c runes ks [] f a = a
collect-AreChunks c runes ks ((s, e) ∷ ss) f a =
    collect-AreChunks c runes (add_chunk (trim_space (slice runes s e)) ks) ss f.1
      (add_chunk-AreChunks c runes s e ks f.0.2 a)

-- The three ways in which `Chunk` returns.
pub chunk-cases :
    (fuel : ℕ) (c : Chunker) (t : Text) (ks : List Chunk)
    → chunk fuel c t ≡ some ks
    → ((is_empty (clean t) ≡ true) × (ks ≡ []))
      ⊎ (((is_empty (clean t) ≡ false)
            × (length (clean t) ≤ c.max_runes)
            × (ks ≡ record { id = text "chunk_0000"; index = 0; text = clean t } ∷ []))
          ⊎ ((is_empty (clean t) ≡ false)
              × (c.max_runes < length (clean t))
              × (chunk_loop fuel c (clean t) 0 [] ≡ some ks)))
unfolding chunk
chunk-cases fuel c t ks h = ground (arith, h)

pub trim_space-clean : (t : Text) → trim_space (clean t) ≡ clean t
unfolding clean
trim_space-clean t = trim_space-join-fields t

first_id : chunk_id 0 ≡ text "chunk_0000"
unfolding chunk_id
first_id = refl

-- The windows of a run of the loop that ended.
pub loop_spans :
    (fuel : ℕ) (c : Chunker) (runes : Text) (ks : List Chunk)
    → chunk_loop fuel c runes 0 [] ≡ some ks
    → (ss : List Span) × (spans fuel c runes 0 ≡ some ss) × (collect runes [] ss ≡ ks)
loop_spans fuel c runes ks h = elim (Option-cases (spans fuel c runes 0)) [
  | inl out ↦ absurd (ground (arith, h, out, chunk_loop-spans fuel c runes 0 []))
  | inr (ss, e) ↦ (ss, e, ground (arith, h, e, chunk_loop-spans fuel c runes 0 []))
]

-- For a chunker as NewChunker builds it, every chunk that `Chunk` returns has its place as its
-- index and the identifier of that index, and a text that is not empty, has no white space at its
-- ends, and has at most MaxRunes runes.
pub chunk-AreChunks :
    (fuel : ℕ) (c : Chunker) (t : Text) (ks : List Chunk)
    → IsChunker c
    → chunk fuel c t ≡ some ks
    → AreChunks c 0 ks
chunk-AreChunks fuel c t ks good h = elim (chunk-cases fuel c t ks h) [
  | inl (blank, e) ↦ rw e tt
  | inr (inl (kept, fits, e)) ↦ rw e (
    record {
      indexed = refl;
      identified = sym first_id;
      some_text = kept;
      trimmed = trim_space-clean t;
      bounded = fits;
    },
    tt,
  )
  | inr (inr (kept, long, e)) ↦
      let (ss, f, g) = loop_spans fuel c (clean t) ks e in
      rw (← g) (collect-AreChunks c (clean t) [] ss (spans-Fits fuel c good (clean t) 0 ss f) tt)
]
