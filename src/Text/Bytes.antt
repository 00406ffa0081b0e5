-- ===== src/Text/Bytes.antt =====
-- s[:n] of Go, which counts bytes. A byte that is cut off from its rune is the number 0x110000 above it.
use nexus_local.Prelude.{ℕ, ◌+◌, ◌-◌, ◌/◌, ◌%◌, List, [], ◌∷◌, leb, ltb, if◌then◌else◌, take, map}
use nexus_local.Text.{Text, rune_len}

-- The bytes of a rune in UTF-8.
unfoldable pub encode_rune : ℕ → List ℕ
encode_rune r =
    if ltb r 0x80
    then r ∷ []
    else if ltb r 0x800
    then (0xc0 + r / 0x40) ∷ (0x80 + r % 0x40) ∷ []
    else if ltb r 0x10000
    then (0xe0 + r / 0x1000) ∷ (0x80 + r / 0x40 % 0x40) ∷ (0x80 + r % 0x40) ∷ []
    else (0xf0 + r / 0x40000)
      ∷ (0x80 + r / 0x1000 % 0x40)
      ∷ (0x80 + r / 0x40 % 0x40)
      ∷ (0x80 + r % 0x40)
      ∷ []

-- On a text of whole runes.
unfoldable pub first_bytes : ℕ → Text → Text
unfolding encode_rune
first_bytes n [] = []
first_bytes n (r ∷ s) =
    let rest = first_bytes (n - rune_len r) s in
    if leb (rune_len r) n then r ∷ rest else map (λ b. 0x110000 + b) (take n (encode_rune r))
