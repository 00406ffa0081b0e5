-- ===== src/Map/Count.antt =====
-- How many values of a map pass a test.
use nexus_local.Prelude.{
  ℕ, ◌+◌, ◌≤◌, List, [], ◌∷◌, map, Bool, true, ◌&&◌, ◌≡◌, ◌≢◌, inl, inr, refl, arith, none, Eq,
  ◌==◌, if◌then◌else◌, In, keep, Bool-cases,
}
use nexus_local.Map.{lookup}
use nexus_local.Map.Keyed.{IsKeyedList}
use nexus_local.Sort.{insert, sort}

module _ {A : Type 0} (p : A → Bool) where
  unfoldable pub count : List A → ℕ
  count [] = 0
  count (x ∷ xs) = let rest = count xs in if p x then rest + 1 else rest

  count-insert :
      (less : A → A → Bool) (x : A) (xs : List A) → count (insert less x xs) ≡ count (x ∷ xs)
  unfolding count insert
  count-insert less x [] = refl
  count-insert less x (y ∷ ys) = ground (arith, count-insert less x ys)

  pub count-sort : (less : A → A → Bool) (xs : List A) → count (sort less xs) ≡ count xs
  unfolding count sort
  count-sort less [] = refl
  count-sort less (x ∷ xs) = ground (arith, count-insert less x (sort less xs), count-sort less xs)

pub count-keep :
    {A : Type 0} (p q : A → Bool) (xs : List A) → count p (keep q xs) ≡ count (λ x. q x && p x) xs
unfolding count
count-keep p q [] = refl
count-keep p q (x ∷ xs) = ground (arith, count-keep p q xs)

-- A value of the map that passes the test and stands under another key.
pub record HasOther {K V : Type 0} (key : V → K) (p : V → Bool) (k : K) (vs : List V) : Type 0 where
  pub value : V
  pub inside : In value vs
  pub passes : p value ≡ true
  pub apart : key value ≢ k

module _ {K V : Type 0} ⦃e : Eq K⦄ (key : V → K) (p : V → Bool) where
  HasOther-cons : (k : K) (v : V) (vs : List V) → HasOther key p k vs → HasOther key p k (v ∷ vs)
  HasOther-cons k v vs h = record {
    value = h.value;
    inside = inr h.inside;
    passes = h.passes;
    apart = h.apart;
  }

  other_of_absent :
      (k : K) (m : List (K × V))
      → IsKeyedList key m
      → lookup k m ≡ none
      → 1 ≤ count p (map (λ t. t.1) m)
      → HasOther key p k (map (λ t. t.1) m)
  unfolding count lookup
  other_of_absent k [] h a c = let no : ⊥ = omega (arith, c) in elim no [ ]
  other_of_absent k ((j, v) ∷ m) h a c = elim (Bool-cases (j == k)) [
    | inl same ↦ ground (arith, same, a)
    | inr apart ↦ elim (Bool-cases (p v)) [
      | inl passes ↦ record {
        value = v;
        inside = inl refl;
        passes = passes;
        apart = λ q. ground (arith, e.same_iff j k, h.0, q, apart);
      }
      | inr fails ↦
          HasOther-cons k v _ (other_of_absent k m h.2 (rw apart at a) (ground (arith, fails, c)))
    ]
  ]

  -- Of two values that pass, one stands under another key.
  pub other_of_two :
      (k : K) (m : List (K × V))
      → IsKeyedList key m
      → 2 ≤ count p (map (λ t. t.1) m)
      → HasOther key p k (map (λ t. t.1) m)
  unfolding count
  other_of_two k [] h c = let no : ⊥ = omega (arith, c) in elim no [ ]
  other_of_two k ((j, v) ∷ m) h c = elim (Bool-cases (p v)) [
    | inr fails ↦ HasOther-cons k v _ (other_of_two k m h.2 (ground (arith, fails, c)))
    | inl passes ↦ elim (Bool-cases (j == k)) [
      | inl same ↦ HasOther-cons k v _ (
          other_of_absent k m h.2 (rw ((e.same_iff j k).0 same) at h.1) (ground (arith, passes, c)))
      | inr apart ↦ record {
        value = v;
        inside = inl refl;
        passes = passes;
        apart = λ q. ground (arith, e.same_iff j k, h.0, q, apart);
      }
    ]
  ]
