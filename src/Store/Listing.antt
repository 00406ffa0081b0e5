-- ===== src/Store/Listing.antt =====
-- memory/store.go: what a listing of a map holds.
use nexus_local.Prelude.{
  List, [], ◌∷◌, Bool, true, ◌≡◌, ◌↔◌, inl, inr, refl, sym, ◌∙◌, arith, some, keep, In, All, Eq,
  Bool-cases, map,
}
use nexus_local.Map
use nexus_local.Map.{Map}
use nexus_local.Map.Keyed.{IsKeyed, IsKeyedList, In-values_iff, lookup_of_In}
use nexus_local.Sort.{In-sort, IsOrder, IsDistinct, sort_of_same_items}
use nexus_local.Store.Select.{select}

pub In-keep_iff :
    {A : Type 0} (p : A → Bool) (a : A) (xs : List A) → In a (keep p xs) ↔ (In a xs × (p a ≡ true))
In-keep_iff p a [] = (λ h. elim h [ ], λ h. elim h.0 [ ])
In-keep_iff p a (x ∷ xs) =
    (λ h. ground (arith, In-keep_iff p a xs, h), λ h. ground (arith, In-keep_iff p a xs, h))

module _ {K V : Type 0} ⦃e : Eq K⦄ (key : V → K) where
  -- What a listing of a map holds.
  pub In-select :
      (p : V → Bool) (less : V → V → Bool) (m : Map K V) (v : V)
      → IsKeyed key m
      → In v (select p less m) ↔ ((Map.get m (key v) ≡ some v) × (p v ≡ true))
  unfolding select
  In-select p less m v h = (
    λ i.
        let (j, q) =
          (In-keep_iff p v (Map.values m)).0 ((In-sort less v (keep p (Map.values m))).0 i) in
        ((In-values_iff key m v h).0 j, q),
    λ g.
        (In-sort less v (keep p (Map.values m))).1
          ((In-keep_iff p v (Map.values m)).1 ((In-values_iff key m v h).1 g.0, g.1)),
  )

All-of_In : {A : Type 0} (P : A → Type 0) (xs : List A) → ((a : A) → In a xs → P a) → All P xs
All-of_In P [] h = tt
All-of_In P (x ∷ xs) h = (h x (inl refl), All-of_In P xs (λ a i. h a (inr i)))

module _ {K V : Type 0} ⦃e : Eq K⦄ (key : V → K) {I : Type 0} (id : V → I) (p : V → Bool)
    (less : V → V → Bool) (order : IsOrder less id)
    (same_key : (v w : V) → p v ≡ true → p w ≡ true → id v ≡ id w → key v ≡ key w) where
  keep-IsDistinct :
      (m : List (K × V)) → IsKeyedList key m → IsDistinct less id order (keep p (map (λ t. t.1) m))
  keep-IsDistinct [] h = tt
  keep-IsDistinct ((k, v) ∷ m) h = elim (Bool-cases (p v)) [
    | inr out ↦ rw out (keep-IsDistinct m h.2)
    | inl kept ↦ rw kept (All-of_In _ _ (apart kept), keep-IsDistinct m h.2)
  ]
    where
      apart : p v ≡ true → (w : V) → In w (keep p (map (λ t. t.1) m)) → ¬ (id v ≡ id w)
      apart kept w i q =
          let (j, r) = (In-keep_iff p w (map (λ (t : K × V). t.1) m)).0 i in
          let same = same_key v w kept r q in cc (lookup_of_In key w m h.2 j, h.1, h.0, same)

  -- Two maps with the same contents are listed alike, whatever the order of their entries.
  pub select_of_same :
      (m n : Map K V)
      → IsKeyed key m
      → IsKeyed key n
      → ((k : K) → Map.get m k ≡ Map.get n k)
      → select p less m ≡ select p less n
  unfolding select Map.values
  select_of_same m n hm hn f =
      sort_of_same_items less id order (keep p (Map.values m)) (keep p (Map.values n))
        (keep-IsDistinct m.entries hm.keyed) (keep-IsDistinct n.entries hn.keyed)
        λ a. (
          λ i.
              (In-keep_iff p a (Map.values n)).1
                (across m n hm hn (λ k. f k) a ((In-keep_iff p a (Map.values m)).0 i)),
          λ i.
              (In-keep_iff p a (Map.values m)).1
                (across n m hn hm (λ k. sym (f k)) a ((In-keep_iff p a (Map.values n)).0 i)),
        )
    where
      across :
          (x y : Map K V)
          → IsKeyed key x
          → IsKeyed key y
          → ((k : K) → Map.get x k ≡ Map.get y k)
          → (a : V) → In a (Map.values x) × (p a ≡ true)
          → In a (Map.values y) × (p a ≡ true)
      across x y hx hy g a i =
          ((In-values_iff key y a hy).1 (sym (g (key a)) ∙ (In-values_iff key x a hx).0 i.0), i.1)
