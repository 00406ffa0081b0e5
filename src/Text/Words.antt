-- ===== src/Text/Words.antt =====
-- strings.Fields and strings.Join: words without white space, and their line.
use nexus_local.Prelude.{
  ℕ, List, [], ◌∷◌, ◌++◌, false, ◌≡◌, ◌≢◌, refl, arith, All, All-append, Bool-cases, inl, inr,
  append-nil, if◌then◌else◌,
}
use nexus_local.Text.{
  Text, is_space, is_empty, trim_left, trim_right, cons_trimmed, trim_space, fields_from, fields,
  join,
}

-- A word is not empty and has no white space.
pub record IsWord (w : Text) : Type 0 where
  pub some_text : is_empty w ≡ false
  pub no_space : All (λ c. is_space c ≡ false) w

abbrev NoSpace : Text → Type 0
NoSpace w = All (λ c. is_space c ≡ false) w

after-IsWord :
    (w : Text) (rest : List Text)
    → NoSpace w
    → All IsWord rest
    → All IsWord (if is_empty w then rest else w ∷ rest)
after-IsWord [] rest n h = h
after-IsWord (d ∷ w) rest n h = (record { some_text = refl; no_space = n }, h)

fields_from-IsWord : (word s : Text) → NoSpace word → All IsWord (fields_from word s)
unfolding fields_from
fields_from-IsWord word [] h = after-IsWord word [] h tt
fields_from-IsWord word (c ∷ s) h = elim (Bool-cases (is_space c)) [
  | inl blank ↦ rw blank (after-IsWord word (fields_from [] s) h (fields_from-IsWord [] s tt))
  | inr kept ↦
      rw kept (fields_from-IsWord (word ++ c ∷ []) s (All-append _ word (c ∷ []) h (kept, tt)))
]

-- strings.Fields returns words.
pub fields-IsWord : (s : Text) → All IsWord (fields s)
unfolding fields
fields-IsWord s = fields_from-IsWord [] s tt

trim_right-word : (w : Text) → NoSpace w → trim_right w ≡ w
unfolding trim_right
trim_right-word [] h = refl
trim_right-word (c ∷ w) h = ground (arith, trim_right-word w h.1, h.0)

cons_trimmed-ne-nil : (c : ℕ) (t : Text) → t ≢ [] → cons_trimmed c t ≡ c ∷ t
unfolding cons_trimmed
cons_trimmed-ne-nil c [] n = absurd (n refl)
cons_trimmed-ne-nil c (d ∷ t) n = refl

append-ne-nil : (s t : Text) → t ≢ [] → s ++ t ≢ []
append-ne-nil [] t n = n
append-ne-nil (c ∷ s) t n = λ e. cc

trim_right-append : (s t : Text) → t ≢ [] → trim_right t ≡ t → trim_right (s ++ t) ≡ s ++ t
unfolding trim_right
trim_right-append [] t n h = h
trim_right-append (c ∷ s) t n h =
    rw (trim_right-append s t n h) (cons_trimmed-ne-nil c (s ++ t) (append-ne-nil s t n))

-- A line of words does not begin with white space.
trim_left-word : (w t : Text) → IsWord w → trim_left (w ++ t) ≡ w ++ t
unfolding trim_left
trim_left-word [] t h = absurd (cc (h.some_text))
trim_left-word (c ∷ w) t h = ground (arith, h.no_space.0)

join-ne-nil : (w : Text) (ws : List Text) → IsWord w → join (w ∷ ws) (b' ' ∷ []) ≢ []
unfolding join
join-ne-nil [] ws h = absurd (cc (h.some_text))
join-ne-nil (c ∷ w) [] h = λ e. cc
join-ne-nil (c ∷ w) (v ∷ ws) h = λ e. cc

trim_right-cons : (c : ℕ) (t : Text) → t ≢ [] → trim_right t ≡ t → trim_right (c ∷ t) ≡ c ∷ t
unfolding trim_right
trim_right-cons c t n h = rw h (cons_trimmed-ne-nil c t n)

trim_right-join :
    (ws : List Text) → All IsWord ws → trim_right (join ws (b' ' ∷ [])) ≡ join ws (b' ' ∷ [])
unfolding join
trim_right-join [] h = unfold trim_right in refl
trim_right-join (w ∷ []) h = trim_right-word w h.0.no_space
trim_right-join (w ∷ v ∷ ws) h =
    trim_right-append w (b' ' ∷ join (v ∷ ws) (b' ' ∷ [])) (λ e. cc e)
      (trim_right-cons b' ' _ (join-ne-nil v ws h.1.0) (trim_right-join (v ∷ ws) h.1))

trim_left-join :
    (ws : List Text) → All IsWord ws → trim_left (join ws (b' ' ∷ [])) ≡ join ws (b' ' ∷ [])
unfolding join
trim_left-join [] h = unfold trim_left in refl
trim_left-join (w ∷ []) h = rw (← append-nil w) (trim_left-word w [] h.0)
trim_left-join (w ∷ v ∷ ws) h = trim_left-word w _ h.0

-- The words of a text on one line: there is no white space at either end.
pub trim_space-join-fields :
    (s : Text) → trim_space (join (fields s) (b' ' ∷ [])) ≡ join (fields s) (b' ' ∷ [])
unfolding trim_space
trim_space-join-fields s =
    rw (trim_right-join (fields s) (fields-IsWord s)) (trim_left-join (fields s) (fields-IsWord s))
