-- ===== src/Text.antt =====
-- Go strings as lists of code points, with the functions of `strings`, `unicode` and `utf8` that
-- the source calls. Every string of the model is valid UTF-8; `byte_len` is Go's `len`.
pub mod Order
pub mod Trim
pub mod Words
pub mod Paths
pub mod Decimal
pub mod Bytes
pub mod Tokens
use Prim.Native.Char.{code}
use Prim.Native.String.{String}
use nexus_local.Prelude.{
  ℕ, ◌+◌, List, [], ◌∷◌, ◌++◌, Bool, true, false, not, ◌&&◌, ◌||◌, ltb, leb, eqb, if◌then◌else◌,
  map, ◌≡◌, refl, arith, Eq, ◌↔◌,
}

abbrev pub Text : Type 0
Text = List ℕ

-- A literal of the source.
abbrev pub text : String → Text
text String.[] = []
text (String.◌∷◌ c s) = code c ∷ text s

-- a == b
unfoldable pub text_eq : Text → Text → Bool
text_eq [] [] = true
text_eq [] (b ∷ t) = false
text_eq (a ∷ s) [] = false
text_eq (a ∷ s) (b ∷ t) = eqb a b && text_eq s t

pub text_eq_iff : (s t : Text) → (text_eq s t ≡ true) ↔ (s ≡ t)
unfolding text_eq
text_eq_iff [] [] = (λ h. refl, λ h. refl)
text_eq_iff [] (b ∷ t) = (λ h. ground arith, λ h. ground arith)
text_eq_iff (a ∷ s) [] = (λ h. ground arith, λ h. ground arith)
text_eq_iff (a ∷ s) (b ∷ t) =
    (λ h. ground (arith, text_eq_iff s t), λ h. ground (arith, text_eq_iff s t, h))

instance abbrev pub text_Eq : Eq Text
text_Eq = record { same = text_eq; same_iff = text_eq_iff }

-- s == ""
abbrev pub is_empty : Text → Bool
is_empty [] = true
is_empty (c ∷ s) = false

-- a < b: the order of the bytes of UTF-8 is the order of the code points.
unfoldable pub text_ltb : Text → Text → Bool
text_ltb [] [] = false
text_ltb [] (b ∷ t) = true
text_ltb (a ∷ s) [] = false
text_ltb (a ∷ s) (b ∷ t) = ltb a b || (eqb a b && text_ltb s t)

-- unicode.IsSpace
unfoldable pub is_space : ℕ → Bool
is_space r =
    (leb 9 r && leb r 13)
    || eqb r 32
    || eqb r 0x85
    || eqb r 0xa0
    || eqb r 0x1680
    || (leb 0x2000 r && leb r 0x200a)
    || eqb r 0x2028
    || eqb r 0x2029
    || eqb r 0x202f
    || eqb r 0x205f
    || eqb r 0x3000

unfoldable pub trim_left : Text → Text
trim_left [] = []
trim_left (c ∷ s) = let rest = trim_left s in if is_space c then rest else c ∷ s

-- `c` in front of a text that is trimmed on the right
unfoldable pub cons_trimmed : ℕ → Text → Text
cons_trimmed c [] = if is_space c then [] else c ∷ []
cons_trimmed c (d ∷ s) = c ∷ d ∷ s

unfoldable pub trim_right : Text → Text
unfolding cons_trimmed
trim_right [] = []
trim_right (c ∷ s) = cons_trimmed c (trim_right s)

-- strings.TrimSpace
unfoldable pub trim_space : Text → Text
unfolding trim_left trim_right
trim_space s = trim_left (trim_right s)

-- The loop of strings.Fields: `word` is the field that is being read.
unfoldable pub fields_from : Text → Text → List Text
fields_from word [] = if is_empty word then [] else word ∷ []
fields_from word (c ∷ s) =
    let broken = fields_from [] s in
    let longer = fields_from (word ++ c ∷ []) s in
    if is_space c then (if is_empty word then broken else word ∷ broken) else longer

-- strings.Fields
unfoldable pub fields : Text → List Text
unfolding fields_from
fields s = fields_from [] s

-- strings.Join
unfoldable pub join : List Text → Text → Text
join [] sep = []
join (w ∷ []) sep = w
join (w ∷ v ∷ ws) sep = w ++ (sep ++ join (v ∷ ws) sep)

-- The loop of strings.Split at a separator of one rune.
unfoldable pub split_from : ℕ → Text → Text → List Text
split_from sep part [] = part ∷ []
split_from sep part (c ∷ s) =
    let cut = part ∷ split_from sep [] s in
    let longer = split_from sep (part ++ c ∷ []) s in if eqb c sep then cut else longer

-- strings.Split(s, sep)
unfoldable pub split : Text → ℕ → List Text
unfolding split_from
split s sep = split_from sep [] s

-- strings.HasPrefix
unfoldable pub has_prefix : Text → Text → Bool
has_prefix s [] = true
has_prefix [] (p ∷ ps) = false
has_prefix (c ∷ s) (p ∷ ps) = eqb c p && has_prefix s ps

-- strings.Contains
unfoldable pub contains : Text → Text → Bool
unfolding has_prefix
contains [] t = is_empty t
contains (c ∷ s) t = has_prefix (c ∷ s) t || contains s t

-- strings.ReplaceAll of one rune by another
unfoldable pub replace_rune : ℕ → ℕ → Text → Text
replace_rune old new [] = []
replace_rune old new (c ∷ s) = (if eqb c old then new else c) ∷ replace_rune old new s

-- utf8.RuneLen
unfoldable pub rune_len : ℕ → ℕ
rune_len r = if ltb r 0x80 then 1 else if ltb r 0x800 then 2 else if ltb r 0x10000 then 3 else 4

-- len(s)
unfoldable pub byte_len : Text → ℕ
unfolding rune_len
byte_len [] = 0
byte_len (c ∷ s) = rune_len c + byte_len s

-- strings.ToLower. The case table of `unicode` beyond ASCII is a parameter.
unfoldable pub to_lower : (ℕ → ℕ) → Text → Text
to_lower table [] = []
to_lower table (c ∷ s) =
    (if leb b'A' c && leb c b'Z' then c + 32 else if ltb c 0x80 then c else table c)
    ∷ to_lower table s
