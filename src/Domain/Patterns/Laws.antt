-- ===== src/Domain/Patterns/Laws.antt =====
-- data_source.go: the result of NormalizeDataSourcePatterns.
use nexus_local.Prelude.{
  ◌≤◌, List, [], ◌∷◌, ◌++◌, true, false, ◌||◌, ◌≡◌, ◌⊎◌, inl, inr, refl, arith, length, All,
  All-append, ltb,
}
use nexus_local.Result.{ok}
use nexus_local.Text.{Text, text, text_eq, text_eq_iff, is_empty, has_prefix, contains, byte_len}
use nexus_local.Domain.Patterns.{
  max_data_source_patterns, max_data_source_pattern_length, clean_pattern, has_parent_path_segment,
  member, normalize_from, normalize_data_source_patterns,
}

-- A pattern that a source may hold.
pub record IsPattern (p : Text) : Type 0 where
  pub some_text : is_empty p ≡ false
  pub no_comment : has_prefix p (text "#") ≡ false
  pub short : byte_len p ≤ max_data_source_pattern_length
  pub no_nul : contains p (0 ∷ []) ≡ false
  pub inside : has_parent_path_segment p ≡ false

abbrev pub IsDistinct : List Text → Type 0
IsDistinct [] = Unit
IsDistinct (x ∷ xs) = (member x xs ≡ false) × IsDistinct xs

pub record IsNormal (ps : List Text) : Type 0 where
  pub valid : All IsPattern ps
  pub distinct : IsDistinct ps
  pub few : length ps ≤ max_data_source_patterns

member-append :
    (p q : Text) (xs : List Text) → member p (xs ++ q ∷ []) ≡ (member p xs || text_eq p q)
unfolding member
member-append p q [] = ground arith
member-append p q (x ∷ xs) = ground (arith, member-append p q xs)

text_eq_comm : (p q : Text) → text_eq p q ≡ text_eq q p
text_eq_comm p q = ground (arith, text_eq_iff p q, text_eq_iff q p)

IsDistinct-append :
    (p : Text) (xs : List Text) → member p xs ≡ false → IsDistinct xs → IsDistinct (xs ++ p ∷ [])
unfolding member
IsDistinct-append p [] h d = (refl, tt)
IsDistinct-append p (x ∷ xs) h d = (
  ground (arith, member-append x p xs, text_eq_comm x p, d.0),
  IsDistinct-append p xs (ground (arith, h)) d.1,
)

-- The tests of one round that a pattern has passed when it is kept.
IsPattern-kept :
    (p : Text)
    → (is_empty p || has_prefix p (text "#")) ≡ false
    → ltb max_data_source_pattern_length (byte_len p) ≡ false
    → (contains p (0 ∷ []) || has_parent_path_segment p) ≡ false
    → IsPattern p
IsPattern-kept p a b c = record {
  some_text = ground arith;
  no_comment = ground arith;
  short = ground arith;
  no_nul = ground arith;
  inside = ground arith;
}

-- `seen` holds the patterns of `normalized`.
abbrev Agree : List Text → List Text → Type 0
Agree seen normalized = (p : Text) → member p seen ≡ member p normalized

Agree-cons :
    (seen normalized : List Text) (q : Text)
    → Agree seen normalized
    → Agree (q ∷ seen) (normalized ++ q ∷ [])
unfolding member
Agree-cons seen normalized q h p = ground (arith, h p, member-append p q normalized)

IsNormal-append :
    (p : Text) (xs : List Text)
    → IsPattern p
    → member p xs ≡ false
    → ltb max_data_source_patterns (length (xs ++ p ∷ [])) ≡ false
    → IsNormal xs
    → IsNormal (xs ++ p ∷ [])
IsNormal-append p xs v h l n = record {
  valid = All-append IsPattern xs (p ∷ []) n.valid (v, tt);
  distinct = IsDistinct-append p xs h n.distinct;
  few = ground arith;
}

-- A round that goes on has skipped the pattern or has kept it.
round :
    (seen normalized : List Text) (p : Text) (ps ns : List Text)
    → normalize_from seen normalized (p ∷ ps) ≡ ok ns
    → (normalize_from seen normalized ps ≡ ok ns)
      ⊎ (((is_empty (clean_pattern p) || has_prefix (clean_pattern p) (text "#")) ≡ false)
          × (ltb max_data_source_pattern_length (byte_len (clean_pattern p)) ≡ false)
          × ((contains (clean_pattern p) (0 ∷ []) || has_parent_path_segment (clean_pattern p))
              ≡ false)
          × (member (clean_pattern p) seen ≡ false)
          × (ltb max_data_source_patterns (length (normalized ++ clean_pattern p ∷ [])) ≡ false)
          × (normalize_from (clean_pattern p ∷ seen) (normalized ++ clean_pattern p ∷ []) ps
              ≡ ok ns))
unfolding normalize_from
round seen normalized p ps ns h = ground (arith, h)

normalize_from-IsNormal :
    (seen normalized ps ns : List Text)
    → Agree seen normalized
    → IsNormal normalized
    → normalize_from seen normalized ps ≡ ok ns
    → IsNormal ns
normalize_from-IsNormal seen normalized [] ns a n h =
    let e : normalized ≡ ns = unfold normalize_from in ground (arith, h) in rw (← e) n
normalize_from-IsNormal seen normalized (p ∷ ps) ns a n h = elim (round seen normalized p ps ns h) [
  | inl skipped ↦ normalize_from-IsNormal seen normalized ps ns a n skipped
  | inr (b, l, c, m, k, rest) ↦
      normalize_from-IsNormal (clean_pattern p ∷ seen) (normalized ++ clean_pattern p ∷ []) ps ns
        (Agree-cons seen normalized (clean_pattern p) a)
        (IsNormal-append (clean_pattern p) normalized (IsPattern-kept (clean_pattern p) b l c)
          (ground (arith, a (clean_pattern p), m)) k n)
        rest
]

-- The patterns that NormalizeDataSourcePatterns returns are at most 100, no two are equal, and each
-- of them is not empty, begins with no '#', has at most 240 bytes, no NUL and no segment "..".
pub normalize-IsNormal :
    (ps ns : List Text) → normalize_data_source_patterns ps ≡ ok ns → IsNormal ns
unfolding normalize_data_source_patterns
normalize-IsNormal ps ns h =
    normalize_from-IsNormal [] [] ps ns (λ p. refl)
      (record { valid = tt; distinct = tt; few = omega arith }) h

normalize_from-keeps :
    (seen normalized ps ns : List Text) (q : Text)
    → member q normalized ≡ true
    → normalize_from seen normalized ps ≡ ok ns
    → member q ns ≡ true
normalize_from-keeps seen normalized [] ns q m h =
    let e : normalized ≡ ns = unfold normalize_from in ground (arith, h) in rw (← e) m
normalize_from-keeps seen normalized (p ∷ ps) ns q m h = elim (round seen normalized p ps ns h) [
  | inl skipped ↦ normalize_from-keeps seen normalized ps ns q m skipped
  | inr (b, l, c, k, o, rest) ↦
      normalize_from-keeps (clean_pattern p ∷ seen) (normalized ++ clean_pattern p ∷ []) ps ns q
        (ground (arith, member-append q (clean_pattern p) normalized)) rest
]
