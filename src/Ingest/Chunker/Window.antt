-- ===== src/Ingest/Chunker/Window.antt =====
-- chunker.go: where a window of the text ends.
use nexus_local.Prelude.{
  ℕ, zero, suc, ◌+◌, ◌-◌, ◌≤◌, ◌<◌, true, false, ◌≡◌, ◌≢◌, ap, inl, inr, arith, length, Bool-cases,
  ℤ,
}
use native.Mathlib.Decide.{dec_lt}
use nexus_local.Text.{Text}
use nexus_local.Ingest.Chunker.{
  Chunker, new_chunker, is_break, rune_at, boundary_from, window_end, next_start,
}

-- A chunker as NewChunker builds it.
pub record IsChunker (c : Chunker) : Type 0 where
  pub positive : 0 < c.max_runes
  pub smaller : c.overlap_runes < c.max_runes

-- Whatever the arguments of NewChunker, a window holds at least one rune and the overlap of two
-- windows is smaller than a window.
pub new_chunker-IsChunker : (m o : ℤ) → IsChunker (new_chunker m o)
unfolding new_chunker
new_chunker-IsChunker m o = record { positive = ground arith; smaller = ground arith }

boundary_from_bounds :
    (runes : Text) (desired floor k : ℕ)
    → floor < desired
    → floor + k ≤ desired
    → (floor < boundary_from runes desired floor k)
      × (boundary_from runes desired floor k ≤ desired)
unfolding boundary_from
boundary_from_bounds runes desired floor zero h l = omega arith
boundary_from_bounds runes desired floor (suc k) h l =
    ground (arith, boundary_from_bounds runes desired floor k)

module _ (c : Chunker) (good : IsChunker c) (runes : Text) (start : ℕ) where
  -- The window is not empty, has at most `max_runes` runes, and lies in the text.
  pub window_bounds :
      start < length runes
      → (start < window_end c runes start)
        × (window_end c runes start ≤ length runes)
        × (window_end c runes start ≤ start + c.max_runes)
  unfolding window_end
  window_bounds h = ground (
    arith,
    good,
    boundary_from_bounds runes (start + c.max_runes) start (start + c.max_runes - start),
  )

pub next_start_bounds : (c : Chunker) (end : ℕ) → next_start c end ≤ end
unfolding next_start
next_start_bounds c end = ground arith

-- Where one rune is a break and another is none, their positions differ.
break_ne :
    (runes : Text) (i j : ℕ)
    → is_break (rune_at runes i) ≡ true
    → is_break (rune_at runes j) ≡ false
    → i ≢ j
break_ne runes i j b n e = cc (b, n, ap (λ t. is_break (rune_at runes t)) e)

-- With a break at a position of the window at or behind `from`, the window ends behind it.
boundary_from_break :
    (runes : Text) (desired floor i k : ℕ)
    → floor ≤ i
    → i < floor + k
    → is_break (rune_at runes i) ≡ true
    → i < boundary_from runes desired floor k
unfolding boundary_from
boundary_from_break runes desired floor i zero l h b = absurd (omega arith)
boundary_from_break runes desired floor i (suc k) l h b =
    elim (Bool-cases (is_break (rune_at runes (floor + k)))) [
      | inl here ↦ rw here (omega arith)
      | inr more ↦ rw more (
          boundary_from_break runes desired floor i k l
            (omega (arith, break_ne runes i (floor + k) b more)) b)
    ]

-- Where the last break of the window is.
boundary_from_last :
    (runes : Text) (desired floor p k : ℕ)
    → floor ≤ p
    → p < floor + k
    → is_break (rune_at runes p) ≡ true
    → ((i : ℕ) → p < i → i < floor + k → is_break (rune_at runes i) ≡ false)
    → boundary_from runes desired floor k ≡ p + 1
unfolding boundary_from
boundary_from_last runes desired floor p zero l h b n = absurd (omega arith)
boundary_from_last runes desired floor p (suc k) l h b n = elim (dec_lt p (floor + k)) [
  | yes below ↦
      rw (n (floor + k) below (omega arith))
        (boundary_from_last runes desired floor p k l below b (λ i q r. n i q (omega arith)))
  | no last ↦
      let e : p ≡ floor + k = omega arith in
      let f : is_break (rune_at runes (floor + k)) ≡ true = rw (← e) b in rw f (omega arith)
]

module _ (c : Chunker) (good : IsChunker c) (runes : Text) (start : ℕ) where
  -- A whole window that has a break at or behind `i` ends behind `i`.
  pub window_after_break :
      (i : ℕ)
      → start + c.max_runes ≤ length runes
      → start ≤ i
      → i < start + c.max_runes
      → is_break (rune_at runes i) ≡ true
      → i < window_end c runes start
  unfolding window_end
  window_after_break i whole l h b = ground (
    arith,
    boundary_from_break runes (start + c.max_runes) start i (start + c.max_runes - start) l
        (omega arith) b,
  )

  -- A whole window ends behind its last break.
  pub window_at_last_break :
      (p : ℕ)
      → start + c.max_runes ≤ length runes
      → start ≤ p
      → p < start + c.max_runes
      → is_break (rune_at runes p) ≡ true
      → ((i : ℕ) → p < i → i < start + c.max_runes → is_break (rune_at runes i) ≡ false)
      → window_end c runes start ≡ p + 1
  unfolding window_end
  window_at_last_break p whole l h b n = ground (
    arith,
    boundary_from_last runes (start + c.max_runes) start p (start + c.max_runes - start) l
        (omega arith) b (λ i q r. n i q (omega arith)),
  )
