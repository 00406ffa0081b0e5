-- ===== src/Text/Trim.antt =====
-- What strings.TrimSpace leaves: no white space at either end, and the same text when called again.
use nexus_local.Prelude.{ℕ, [], ◌∷◌, false, ◌≡◌, ◌≢◌, refl, arith, length, ◌≤◌}
use nexus_local.Text.{Text, is_space, trim_left, trim_right, trim_space}

trim_right_idem : (s : Text) → trim_right (trim_right s) ≡ trim_right s
unfolding trim_right
trim_right_idem [] = refl
trim_right_idem (c ∷ s) = ground (arith, trim_right_idem s)

trim_right-cons : (c : ℕ) (s : Text) → trim_right (c ∷ s) ≡ c ∷ s → trim_right s ≡ s
unfolding trim_right
trim_right-cons c s h = ground arith

-- Taking white space from the left keeps a text trimmed on the right.
trim_right-trim_left : (s : Text) → trim_right s ≡ s → trim_right (trim_left s) ≡ trim_left s
unfolding trim_left
trim_right-trim_left [] h = h
trim_right-trim_left (c ∷ s) h = ground (arith, h, trim_right-trim_left s, trim_right-cons c s)

trim_left_idem : (s : Text) → trim_left (trim_left s) ≡ trim_left s
unfolding trim_left
trim_left_idem [] = refl
trim_left_idem (c ∷ s) = ground (arith, trim_left_idem s)

pub trim_space_idem : (s : Text) → trim_space (trim_space s) ≡ trim_space s
unfolding trim_space
trim_space_idem s =
    rw (trim_right-trim_left (trim_right s) (trim_right_idem s)) (trim_left_idem (trim_right s))

length-trim_left : (s : Text) → length (trim_left s) ≤ length s
unfolding trim_left
length-trim_left [] = omega arith
length-trim_left (c ∷ s) = ground (arith, length-trim_left s)

length-trim_right : (s : Text) → length (trim_right s) ≤ length s
unfolding trim_right
length-trim_right [] = omega arith
length-trim_right (c ∷ s) = ground (arith, length-trim_right s)

pub length-trim_space : (s : Text) → length (trim_space s) ≤ length s
unfolding trim_space
length-trim_space s = omega (arith, length-trim_left (trim_right s), length-trim_right s)

-- A text that begins with a rune that is no space is not blank.
pub trim_space-ne-nil : (c : ℕ) (s : Text) → is_space c ≡ false → trim_space (c ∷ s) ≢ []
unfolding trim_space
trim_space-ne-nil c s h = ground arith
