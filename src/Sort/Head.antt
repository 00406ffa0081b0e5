-- ===== src/Sort/Head.antt =====
-- The first item of a sorted list: nothing is less than it, even where items tie.
use nexus_local.Prelude.{
  List, [], ◌∷◌, Bool, true, false, ◌≡◌, ◌⊎◌, inl, inr, refl, arith, In, All, Bool-cases,
}
use nexus_local.Sort.{insert, sort, In-sort}

module _ {A : Type 0} (less : A → A → Bool) (irrefl : (a : A) → less a a ≡ false)
    (asym : (a b : A) → less b a ≡ true → less a b ≡ false)
    (cotrans : (a b c : A) → less a c ≡ true → (less a b ≡ true) ⊎ (less b c ≡ true)) where
  -- Nothing in the list is less than `x`.
  abbrev IsLeast : A → List A → Type 0
  IsLeast x = All (λ y. less y x ≡ false)

  abbrev HasLeastHead : List A → Type 0
  HasLeastHead [] = Unit
  HasLeastHead (x ∷ xs) = IsLeast x xs × HasLeastHead xs

  below : (x y z : A) → less y x ≡ false → less z y ≡ false → less z x ≡ false
  below x y z h k = elim (Bool-cases (less z x)) [
    | inr no_less ↦ no_less
    | inl lt ↦ elim (cotrans z y x lt) [ inl p ↦ cc (p, k) | inr p ↦ cc (p, h) ]
  ]

  IsLeast-below : (x y : A) (ys : List A) → less y x ≡ false → IsLeast y ys → IsLeast x ys
  IsLeast-below x y [] h k = tt
  IsLeast-below x y (z ∷ zs) h k = (below x y z h k.0, IsLeast-below x y zs h k.1)

  IsLeast-insert :
      (x y : A) (ys : List A) → less y x ≡ false → IsLeast x ys → IsLeast x (insert less y ys)
  unfolding insert
  IsLeast-insert x y [] h k = (h, tt)
  IsLeast-insert x y (z ∷ zs) h k = ground (arith, IsLeast-insert x y zs h k.1)

  insert-HasLeastHead : (x : A) (xs : List A) → HasLeastHead xs → HasLeastHead (insert less x xs)
  unfolding insert
  insert-HasLeastHead x [] h = (tt, tt)
  insert-HasLeastHead x (y ∷ ys) h = elim (Bool-cases (less y x)) [
    | inl later ↦
        rw later (IsLeast-insert y x ys (asym x y later) h.0, insert-HasLeastHead x ys h.1)
    | inr first ↦ rw first ((first, IsLeast-below x y ys first h.0), h)
  ]

  sort-HasLeastHead : (xs : List A) → HasLeastHead (sort less xs)
  unfolding sort
  sort-HasLeastHead [] = tt
  sort-HasLeastHead (x ∷ xs) = insert-HasLeastHead x (sort less xs) (sort-HasLeastHead xs)

  least_of_In : (x y : A) (xs : List A) → IsLeast x xs → In y xs → less y x ≡ false
  least_of_In x y [] h i = elim i [ ]
  least_of_In x y (z ∷ zs) h (inl p) = rw p h.0
  least_of_In x y (z ∷ zs) h (inr q) = least_of_In x y zs h.1 q

  -- The first item of the sorted list is an item, and no item is less than it.
  pub sort_head :
      (x : A) (xs rest : List A)
      → sort less xs ≡ x ∷ rest
      → In x xs × ((y : A) → In y xs → less y x ≡ false)
  sort_head x xs rest e =
      ((In-sort less x xs).0 (rw e (inl refl)), λ y i. go y (rw e at ((In-sort less y xs).1 i)))
    where
      least : IsLeast x rest
      least = let h : HasLeastHead (x ∷ rest) = rw e at (sort-HasLeastHead xs) in h.0

      go : (y : A) → In y (x ∷ rest) → less y x ≡ false
      go y (inl p) = rw p (irrefl x)
      go y (inr q) = least_of_In x y rest least q
