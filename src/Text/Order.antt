-- ===== src/Text/Order.antt =====
-- The order of texts is a strict total order.
use nexus_local.Prelude.{[], ◌∷◌, true, false, ◌≡◌, ◌⊎◌, inl, inr, refl, arith}
use nexus_local.Text.{Text, text_ltb}

pub text_ltb_irrefl : (s : Text) → text_ltb s s ≡ false
unfolding text_ltb
text_ltb_irrefl [] = refl
text_ltb_irrefl (a ∷ s) = ground (arith, text_ltb_irrefl s)

pub text_ltb_trans :
    (s t u : Text) → text_ltb s t ≡ true → text_ltb t u ≡ true → text_ltb s u ≡ true
unfolding text_ltb
text_ltb_trans [] [] u h k = cc
text_ltb_trans [] (b ∷ t) [] h k = cc
text_ltb_trans [] (b ∷ t) (c ∷ u) h k = refl
text_ltb_trans (a ∷ s) [] u h k = cc
text_ltb_trans (a ∷ s) (b ∷ t) [] h k = cc
text_ltb_trans (a ∷ s) (b ∷ t) (c ∷ u) h k = ground (arith, text_ltb_trans s t u)

pub text_ltb_total : (s t : Text) → (s ≡ t) ⊎ ((text_ltb s t ≡ true) ⊎ (text_ltb t s ≡ true))
unfolding text_ltb
text_ltb_total [] [] = inl refl
text_ltb_total [] (b ∷ t) = inr (inl refl)
text_ltb_total (a ∷ s) [] = inr (inr refl)
text_ltb_total (a ∷ s) (b ∷ t) = ground (arith, text_ltb_total s t)

-- Whatever lies between two texts in order is apart from one of them.
pub text_ltb_cotrans :
    (s t u : Text) → text_ltb s u ≡ true → (text_ltb s t ≡ true) ⊎ (text_ltb t u ≡ true)
unfolding text_ltb
text_ltb_cotrans [] [] [] h = cc
text_ltb_cotrans [] [] (c ∷ u) h = inr refl
text_ltb_cotrans [] (b ∷ t) u h = inl refl
text_ltb_cotrans (a ∷ s) t [] h = cc
text_ltb_cotrans (a ∷ s) [] (c ∷ u) h = inr refl
text_ltb_cotrans (a ∷ s) (b ∷ t) (c ∷ u) h = ground (arith, text_ltb_cotrans s t u)
