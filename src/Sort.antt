-- ===== src/Sort.antt =====
-- sort.Slice by insertion. Where the comparison is a strict total order on what is sorted, the
-- result does not depend on the order in which the items came, so it is that of Go's own sort.
pub mod Head
use mathlib.Core.Path.{ap₂}
use nexus_local.Prelude.{
  ℕ, List, [], ◌∷◌, Bool, true, false, ◌≡◌, ◌↔◌, ◌⊎◌, inl, inr, refl, sym, ap, arith, if◌then◌else◌,
  In, All, ◌∙◌, Bool-cases, false,
}

module _ {A : Type 0} where
  unfoldable pub insert : (A → A → Bool) → A → List A → List A
  insert less x [] = x ∷ []
  insert less x (y ∷ ys) =
      let later = y ∷ insert less x ys in if less y x then later else x ∷ y ∷ ys

  unfoldable pub sort : (A → A → Bool) → List A → List A
  sort less [] = []
  sort less (x ∷ xs) = insert less x (sort less xs)

  In-insert :
      (less : A → A → Bool) (a x : A) (xs : List A) → In a (insert less x xs) ↔ In a (x ∷ xs)
  unfolding insert
  In-insert less a x [] = (λ h. h, λ h. h)
  In-insert less a x (y ∷ ys) =
      (λ h. ground (arith, In-insert less a x ys, h), λ h. ground (arith, In-insert less a x ys, h))

  pub In-sort : (less : A → A → Bool) (a : A) (xs : List A) → In a (sort less xs) ↔ In a xs
  unfolding sort
  In-sort less a [] = (λ h. h, λ h. h)
  In-sort less a (x ∷ xs) = (
    λ h. ground (arith, In-insert less a x (sort less xs), In-sort less a xs, h),
    λ h. ground (arith, In-insert less a x (sort less xs), In-sort less a xs, h),
  )

-- `less` is a strict order, and two items that it does not order have one key.
pub record IsOrder {A K : Type 0} (less : A → A → Bool) (key : A → K) : Type 0 where
  pub irrefl : (a : A) → less a a ≡ false
  pub trans : (a b c : A) → less a b ≡ true → less b c ≡ true → less a c ≡ true
  pub total : (a b : A) → (key a ≡ key b) ⊎ ((less a b ≡ true) ⊎ (less b a ≡ true))

module _ {A K : Type 0} (less : A → A → Bool) (key : A → K) (order : IsOrder less key) where
  abbrev pub IsSorted : List A → Type 0
  IsSorted [] = Unit
  IsSorted (x ∷ xs) = All (λ y. less x y ≡ true) xs × IsSorted xs

  -- No two items have one key.
  abbrev pub IsDistinct : List A → Type 0
  IsDistinct [] = Unit
  IsDistinct (x ∷ xs) = All (λ y. ¬ (key x ≡ key y)) xs × IsDistinct xs

  All-insert : (P : A → Type 0) (x : A) (xs : List A) → P x → All P xs → All P (insert less x xs)
  unfolding insert
  All-insert P x [] p h = (p, tt)
  All-insert P x (y ∷ ys) p h = ground (arith, All-insert P x ys p h.1)

  All-trans :
      (x y : A) (ys : List A)
      → less x y ≡ true
      → All (λ z. less y z ≡ true) ys
      → All (λ z. less x z ≡ true) ys
  All-trans x y [] h a = tt
  All-trans x y (z ∷ zs) h a = (order.trans x y z h a.0, All-trans x y zs h a.1)

  insert-IsSorted :
      (x : A) (xs : List A)
      → All (λ y. ¬ (key x ≡ key y)) xs
      → IsSorted xs
      → IsSorted (insert less x xs)
  unfolding insert
  insert-IsSorted x [] d h = (tt, tt)
  insert-IsSorted x (y ∷ ys) d h = elim (Bool-cases (less y x)) [
    | inl later ↦
        rw later (All-insert (λ z. less y z ≡ true) x ys later h.0, insert-IsSorted x ys d.1 h.1)
    | inr first ↦ rw first (elim (order.total x y) [
      | inl same ↦ absurd (d.0 same)
      | inr (inl lt) ↦ ((lt, All-trans x y ys lt h.0), h)
      | inr (inr gt) ↦ absurd (cc (gt, first))
    ])
  ]

  All-sort : (P : A → Type 0) (xs : List A) → All P xs → All P (sort less xs)
  unfolding sort
  All-sort P [] h = h
  All-sort P (x ∷ xs) h = All-insert P x (sort less xs) h.0 (All-sort P xs h.1)

  pub sort-IsSorted : (xs : List A) → IsDistinct xs → IsSorted (sort less xs)
  unfolding sort
  sort-IsSorted [] d = tt
  sort-IsSorted (x ∷ xs) d =
      insert-IsSorted x (sort less xs) (All-sort _ xs d.0) (sort-IsSorted xs d.1)

  less_of_In : (x a : A) (xs : List A) → All (λ y. less x y ≡ true) xs → In a xs → less x a ≡ true
  less_of_In x a [] h i = elim i [ ]
  less_of_In x a (y ∷ ys) h (inl p) = rw p h.0
  less_of_In x a (y ∷ ys) h (inr q) = less_of_In x a ys h.1 q

  cycle : (x y : A) → less x y ≡ true → less y x ≡ true → ⊥
  cycle x y h k = cc (order.trans x y x h k, order.irrefl x)

  same_head :
      (x y : A) (xs ys : List A)
      → IsSorted (x ∷ xs)
      → IsSorted (y ∷ ys)
      → In x (y ∷ ys)
      → In y (x ∷ xs)
      → x ≡ y
  same_head x y xs ys h k (inl p) j = p
  same_head x y xs ys h k (inr q) (inl p) = sym p
  same_head x y xs ys h k (inr q) (inr r) =
      absurd (cycle x y (less_of_In x y xs h.0 r) (less_of_In y x ys k.0 q))

  tail-In :
      (x a : A) (xs ys : List A) → All (λ z. less x z ≡ true) xs → In a xs → In a (x ∷ ys) → In a ys
  tail-In x a xs ys h i (inl p) = absurd (cc (order.irrefl x, less_of_In x a xs h i, p))
  tail-In x a xs ys h i (inr q) = q

  -- Two sorted lists with the same items are one list.
  pub IsSorted-unique :
      (xs ys : List A)
      → IsSorted xs
      → IsSorted ys
      → ((a : A) → In a xs → In a ys)
      → ((a : A) → In a ys → In a xs)
      → xs ≡ ys
  IsSorted-unique [] [] h k f g = refl
  IsSorted-unique [] (y ∷ ys) h k f g = absurd (g y (inl refl))
  IsSorted-unique (x ∷ xs) [] h k f g = absurd (f x (inl refl))
  IsSorted-unique (x ∷ xs) (y ∷ ys) h k f g =
      let p = same_head x y xs ys h k (f x (inl refl)) (g y (inl refl)) in
      let rest =
        IsSorted-unique xs ys h.1 k.1 (λ a i. tail-In x a xs ys h.0 i (rw p (f a (inr i))))
          (λ a i. tail-In y a ys xs k.0 i (rw (sym p) (g a (inr i)))) in
      ap₂ (λ a r. a ∷ r) p rest

  -- The order in which the items come does not matter.
  pub sort_of_same_items :
      (xs ys : List A)
      → IsDistinct xs
      → IsDistinct ys
      → ((a : A) → In a xs ↔ In a ys)
      → sort less xs ≡ sort less ys
  sort_of_same_items xs ys h k f =
      IsSorted-unique (sort less xs) (sort less ys) (sort-IsSorted xs h) (sort-IsSorted ys k)
        (λ a i. (In-sort less a ys).1 ((f a).0 ((In-sort less a xs).0 i)))
        (λ a i. (In-sort less a xs).1 ((f a).1 ((In-sort less a ys).0 i)))
