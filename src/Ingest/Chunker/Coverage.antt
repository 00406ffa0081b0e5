-- ===== src/Ingest/Chunker/Coverage.antt =====
-- chunker.go: where the runes of the text stand in the chunks.
use nexus_local.Prelude.{
  ℕ, zero, suc, ◌+◌, ◌-◌, ◌≤◌, ◌<◌, List, [], ◌∷◌, ◌++◌, true, false, ◌≡◌, ◌⊎◌, inl, inr, refl, ap,
  arith, some, length, take, drop, length-take, length-drop, Bool-cases,
}
use nexus_local.Text.{Text, trim_space, trim_left, trim_right, is_empty, is_space}
use nexus_local.Ingest.Chunker.{Chunk, Chunker, rune_at, slice, add_chunk, clean, chunk}
use nexus_local.Ingest.Chunker.Window.{IsChunker}
use nexus_local.Ingest.Chunker.Spans.{Span, collect, Covered, Fits, spans-Covered, spans-Fits}
use nexus_local.Ingest.Chunker.Output.{chunk-cases, loop_spans, trim_space-clean}

-- A rune of the text that is no white space keeps the text from being blank.
trim_left-ne-nil :
    (t : Text) (i : ℕ)
    → i < length t
    → is_space (rune_at t i) ≡ false
    → is_empty (trim_left t) ≡ false
unfolding trim_left rune_at
trim_left-ne-nil [] i h n = absurd (omega arith)
trim_left-ne-nil (r ∷ t) zero h n = ground arith
trim_left-ne-nil (r ∷ t) (suc i) h n = ground (arith, trim_left-ne-nil t i)

rune_at-trim_right :
    (t : Text) (i : ℕ)
    → i < length t
    → is_space (rune_at t i) ≡ false
    → (i < length (trim_right t)) × (rune_at (trim_right t) i ≡ rune_at t i)
unfolding trim_right rune_at
rune_at-trim_right [] i h n = absurd (omega arith)
rune_at-trim_right (r ∷ t) zero h n = ground arith
rune_at-trim_right (r ∷ t) (suc i) h n = ground (arith, rune_at-trim_right t i)

trim_space-not-blank :
    (t : Text) (i : ℕ)
    → i < length t
    → is_space (rune_at t i) ≡ false
    → is_empty (trim_space t) ≡ false
unfolding trim_space
trim_space-not-blank t i h n =
    trim_left-ne-nil (trim_right t) i (rune_at-trim_right t i h n).0
      (ground (arith, n, rune_at-trim_right t i h n))

rune_at-drop : (t : Text) (s i : ℕ) → rune_at (drop s t) i ≡ rune_at t (s + i)
unfolding rune_at
rune_at-drop t zero i = let e : 0 + i ≡ i = omega arith in rw e
rune_at-drop [] (suc s) i = refl
rune_at-drop (r ∷ t) (suc s) i =
    let e : suc s + i ≡ suc (s + i) = omega arith in rw e (rune_at-drop t s i)

rune_at-take : (t : Text) (n i : ℕ) → i < n → rune_at (take n t) i ≡ rune_at t i
unfolding rune_at
rune_at-take t zero i h = absurd (omega arith)
rune_at-take [] (suc n) i h = refl
rune_at-take (r ∷ t) (suc n) zero h = refl
rune_at-take (r ∷ t) (suc n) (suc i) h = rune_at-take t n i (omega arith)

slice-not-blank :
    (t : Text) (s e p : ℕ)
    → s ≤ p
    → p < e
    → e ≤ length t
    → is_space (rune_at t p) ≡ false
    → is_empty (trim_space (slice t s e)) ≡ false
unfolding slice
slice-not-blank t s e p l h b n =
    let at : s + (p - s) ≡ p = omega arith in
    trim_space-not-blank (slice t s e) (p - s)
      (omega (arith, length-take (e - s) (drop s t), length-drop s t))
      (rw (rune_at-take (drop s t) (e - s) (p - s) (omega arith), rune_at-drop t s (p - s), at) n)

-- A text is that of one of the chunks.
abbrev pub HasText : Text → List Chunk → Type 0
HasText t [] = ⊥
HasText t (k ∷ ks) = (k.text ≡ t) ⊎ HasText t ks

HasText-append : (t : Text) (ks js : List Chunk) → HasText t ks → HasText t (ks ++ js)
HasText-append t [] js h = elim h [ ]
HasText-append t (k ∷ ks) js (inl e) = inl e
HasText-append t (k ∷ ks) js (inr h) = inr (HasText-append t ks js h)

HasText-last : (t : Text) (ks : List Chunk) (k : Chunk) → k.text ≡ t → HasText t (ks ++ k ∷ [])
HasText-last t [] k e = inl e
HasText-last t (j ∷ ks) k e = inr (HasText-last t ks k e)

add_chunk-HasText : (t u : Text) (ks : List Chunk) → HasText t ks → HasText t (add_chunk u ks)
unfolding add_chunk
add_chunk-HasText t u ks h = elim (Bool-cases (is_empty u)) [
  | inl blank ↦ rw blank h
  | inr kept ↦ rw kept (HasText-append t ks _ h)
]

collect-HasText :
    (runes t : Text) (ks : List Chunk) (ss : List Span)
    → HasText t ks
    → HasText t (collect runes ks ss)
unfolding collect
collect-HasText runes t ks [] h = h
collect-HasText runes t ks ((s, e) ∷ ss) h =
    collect-HasText runes t (add_chunk (trim_space (slice runes s e)) ks) ss
      (add_chunk-HasText t (trim_space (slice runes s e)) ks h)

add_chunk-HasText_self :
    (t : Text) (ks : List Chunk) → is_empty t ≡ false → HasText t (add_chunk t ks)
unfolding add_chunk
add_chunk-HasText_self t ks h = rw h (HasText-last t ks _ refl)

take-length : (t : Text) → take (length t) t ≡ t
take-length [] = refl
take-length (r ∷ t) = ap (λ s. r ∷ s) (take-length t)

not_below : (t : Text) (p : ℕ) → is_empty t ≡ true → p < length t → ⊥
not_below [] p h l = omega arith
not_below (r ∷ t) p h l = cc

collect-Covered :
    (c : Chunker) (runes : Text) (p : ℕ) (ks : List Chunk) (ss : List Span)
    → Fits c runes ss
    → Covered p ss
    → is_space (rune_at runes p) ≡ false
    → (s e : ℕ) × (s ≤ p)
      × (p < e)
      × (e ≤ length runes)
      × HasText (trim_space (slice runes s e)) (collect runes ks ss)
unfolding collect
collect-Covered c runes p ks [] f h n = elim h [ ]
collect-Covered c runes p ks ((s, e) ∷ ss) f (inl (l, r)) n =
    let u = trim_space (slice runes s e) in
    (
      s,
      e,
      l,
      r,
      f.0.1,
      collect-HasText runes u (add_chunk u ks) ss
          (add_chunk-HasText_self u ks (slice-not-blank runes s e p l r f.0.1 n)),
    )
collect-Covered c runes p ks ((s, e) ∷ ss) f (inr h) n =
    collect-Covered c runes p (add_chunk (trim_space (slice runes s e)) ks) ss f.1 h n

slice_all : (t : Text) → slice t 0 (length t) ≡ t
unfolding slice
slice_all t = let e : length t - 0 ≡ length t = omega arith in rw e (take-length t)

-- Where `Chunk` returns, for a chunker as NewChunker builds it, every rune of the cleaned text that
-- is no white space stands in a chunk: there is a stretch of that text around it whose trimmed text
-- is the text of a chunk that `Chunk` returns.
pub chunk_covers :
    (fuel : ℕ) (c : Chunker) (t : Text) (ks : List Chunk) (p : ℕ)
    → IsChunker c
    → chunk fuel c t ≡ some ks
    → p < length (clean t)
    → is_space (rune_at (clean t) p) ≡ false
    → (s e : ℕ) × (s ≤ p)
      × (p < e)
      × (e ≤ length (clean t))
      × HasText (trim_space (slice (clean t) s e)) ks
chunk_covers fuel c t ks p good h l n = elim (chunk-cases fuel c t ks h) [
  | inl (blank, e) ↦ absurd (not_below (clean t) p blank l)
  | inr (inl (kept, fits, e)) ↦ (
    0,
    length (clean t),
    omega arith,
    l,
    omega arith,
    rw (e, slice_all (clean t), trim_space-clean t) (inl refl),
  )
  | inr (inr (kept, long, e)) ↦
      let (ss, f, g) = loop_spans fuel c (clean t) ks e in
      rw (← g) (
        collect-Covered c (clean t) p [] ss (spans-Fits fuel c good (clean t) 0 ss f)
          (spans-Covered fuel c (clean t) 0 p ss (omega arith) l f) n)
]
