-- ===== src/Map/Keyed.antt =====
-- Maps that hold each value under its own key, as every map of the memory store does.
use nexus_local.Prelude.{
  List, [], ◌∷◌, map, Bool, ◌≡◌, ◌↔◌, inl, inr, refl, ap, none, some, arith, Eq, if◌then◌else◌, In,
}
use nexus_local.Map.{
  Map, empty, lookup, without, drop_entries, get, put, remove, delete_if, values, lookup-without,
}

module _ {K V : Type 0} ⦃e : Eq K⦄ (key : V → K) where
  -- No key occurs twice, and each value stands under its key.
  abbrev pub IsKeyedList : List (K × V) → Type 0
  IsKeyedList [] = Unit
  IsKeyedList ((k, v) ∷ m) = (k ≡ key v) × (lookup k m ≡ none) × IsKeyedList m

  pub record IsKeyed (m : Map K V) : Type 0 where
    pub keyed : IsKeyedList m.entries

  without-IsKeyedList : (k : K) (m : List (K × V)) → IsKeyedList m → IsKeyedList (without k m)
  unfolding without
  without-IsKeyedList k [] h = h
  without-IsKeyedList k ((j, v) ∷ m) h =
      ground (arith, without-IsKeyedList k m h.2, lookup-without k j m)

  pub lookup-without_self : (k : K) (m : List (K × V)) → lookup k (without k m) ≡ none
  lookup-without_self k m = ground (arith, lookup-without k k m, e.same_iff k k)

  lookup-drop_entries-none :
      (p : K → V → Bool) (k : K) (m : List (K × V))
      → lookup k m ≡ none
      → lookup k (drop_entries p m) ≡ none
  unfolding lookup drop_entries
  lookup-drop_entries-none p k [] h = h
  lookup-drop_entries-none p k ((j, v) ∷ m) h = ground (arith, lookup-drop_entries-none p k m)

  drop_entries-IsKeyedList :
      (p : K → V → Bool) (m : List (K × V)) → IsKeyedList m → IsKeyedList (drop_entries p m)
  unfolding drop_entries
  drop_entries-IsKeyedList p [] h = h
  drop_entries-IsKeyedList p ((k, v) ∷ m) h =
      ground (arith, drop_entries-IsKeyedList p m h.2, lookup-drop_entries-none p k m h.1)

  pub empty-IsKeyed : IsKeyed empty
  unfolding empty
  empty-IsKeyed = record { keyed = tt }

  -- m[key(v)] = v
  pub put-IsKeyed : (m : Map K V) (v : V) → IsKeyed m → IsKeyed (put m (key v) v)
  unfolding put
  put-IsKeyed m v h = record {
    keyed = (
      refl,
      lookup-without_self (key v) m.entries,
      without-IsKeyedList (key v) m.entries h.keyed,
    );
  }

  pub remove-IsKeyed : (m : Map K V) (k : K) → IsKeyed m → IsKeyed (remove m k)
  unfolding remove
  remove-IsKeyed m k h = record { keyed = without-IsKeyedList k m.entries h.keyed }

  pub delete_if-IsKeyed : (p : K → V → Bool) (m : Map K V) → IsKeyed m → IsKeyed (delete_if p m)
  unfolding delete_if
  delete_if-IsKeyed p m h = record { keyed = drop_entries-IsKeyedList p m.entries h.keyed }

  lookup-key : (k : K) (v : V) (m : List (K × V)) → IsKeyedList m → lookup k m ≡ some v → k ≡ key v
  unfolding lookup
  lookup-key k v [] h g = cc
  lookup-key k v ((j, w) ∷ m) h g = ground (arith, lookup-key k v m h.2, e.same_iff j k)

  pub get-key : (m : Map K V) (k : K) (v : V) → IsKeyed m → get m k ≡ some v → k ≡ key v
  unfolding get
  get-key m k v h g = lookup-key k v m.entries h.keyed g

  In-of_lookup : (k : K) (v : V) (m : List (K × V)) → lookup k m ≡ some v → In v (map (λ t. t.1) m)
  unfolding lookup
  In-of_lookup k v [] g = cc
  In-of_lookup k v ((j, w) ∷ m) g = ground (arith, In-of_lookup k v m)

  pub lookup_of_In :
      (v : V) (m : List (K × V))
      → IsKeyedList m
      → In v (map (λ t. t.1) m)
      → lookup (key v) m ≡ some v
  unfolding lookup
  lookup_of_In v [] h g = elim g [ ]
  lookup_of_In v ((j, w) ∷ m) h (inl p) = ground (arith, e.same_iff j (key v), h.0, ap key p, p)
  lookup_of_In v ((j, w) ∷ m) h (inr q) =
      ground (arith, e.same_iff j (key v), h.1, lookup_of_In v m h.2 q)

  -- The values that a range over the map meets are those that `get` finds under their keys.
  pub In-values_iff : (m : Map K V) (v : V) → IsKeyed m → In v (values m) ↔ (get m (key v) ≡ some v)
  unfolding get values
  In-values_iff m v h = (lookup_of_In v m.entries h.keyed, In-of_lookup (key v) v m.entries)

  lookup-drop_entries-value :
      (p : K → V → Bool) (k : K) (m : List (K × V))
      → IsKeyedList m
      → lookup k (drop_entries p m)
        ≡ elim (lookup k m) [ none ↦ none | some v ↦ if p k v then none else some v ]
  unfolding lookup drop_entries
  lookup-drop_entries-value p k [] h = refl
  lookup-drop_entries-value p k ((j, v) ∷ m) h =
      ground (arith, lookup-drop_entries-value p k m h.2, e.same_iff j k, h.1)

  -- A deletion that looks at the values too.
  pub get-delete_if_value :
      (p : K → V → Bool) (m : Map K V) (k : K)
      → IsKeyed m
      → get (delete_if p m) k
        ≡ elim (get m k) [ none ↦ none | some v ↦ if p k v then none else some v ]
  unfolding get delete_if
  get-delete_if_value p m k h = lookup-drop_entries-value p k m.entries h.keyed
