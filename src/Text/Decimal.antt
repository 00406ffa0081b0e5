-- ===== src/Text/Decimal.antt =====
-- fmt.Sprintf("%d", n) for an integer that is not negative.
use nexus_local.Prelude.{ℕ, zero, suc, ◌+◌, ◌/◌, ◌%◌, ltb, true, false, [], ◌∷◌}
use nexus_local.Text.{Text}

-- On fuel; each division by 10 makes a number that is not zero smaller, so `suc n` is enough.
unfoldable pub digits : ℕ → ℕ → Text → Text
digits zero n rest = rest
digits (suc fuel) n rest = elim (ltb n 10) [
  | true ↦ (b'0' + n) ∷ rest
  | false ↦ digits fuel (n / 10) ((b'0' + n % 10) ∷ rest)
]

unfoldable pub decimal : ℕ → Text
unfolding digits
decimal n = digits (suc n) n []
