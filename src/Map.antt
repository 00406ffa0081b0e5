-- ===== src/Map.antt =====
-- Go's `map`: a finite map that can also be ranged over. The order of `entries` stands for the order
-- of one iteration, which Go leaves open; `Sort` shows where it does not matter.
pub mod Keyed
pub mod Count
use nexus_local.Prelude.{
  ℕ, List, [], ◌∷◌, map, Bool, true, false, ◌≡◌, refl, Option, none, some, arith, Eq, ◌==◌,
  if◌then◌else◌, length,
}

pub record Map (K V : Type 0) : Type 0 where
  pub entries : List (K × V)

unfoldable pub empty : {K V : Type 0} → Map K V
empty = record { entries = [] }

-- len(m)
unfoldable pub size : {K V : Type 0} → Map K V → ℕ
size m = length m.entries

unfoldable pub values : {K V : Type 0} → Map K V → List V
values m = map (λ e. e.1) m.entries

module _ {K V : Type 0} where
  -- `for k, v := range m { if p(k, v) { delete(m, k) } }`, on the entries
  unfoldable pub drop_entries : (K → V → Bool) → List (K × V) → List (K × V)
  drop_entries p [] = []
  drop_entries p ((k, v) ∷ m) = let rest = drop_entries p m in if p k v then rest else (k, v) ∷ rest

  -- `for k, v := range m { if p(k, v) { delete(m, k) } }`
  unfoldable pub delete_if : (K → V → Bool) → Map K V → Map K V
  delete_if p m = record { entries = drop_entries p m.entries }

module _ {K V : Type 0} ⦃e : Eq K⦄ where
  unfoldable pub lookup : K → List (K × V) → Option V
  lookup k [] = none
  lookup k ((j, v) ∷ m) = if j == k then some v else lookup k m

  unfoldable pub without : K → List (K × V) → List (K × V)
  without k [] = []
  without k ((j, v) ∷ m) = let rest = without k m in if j == k then rest else (j, v) ∷ rest

  -- v, ok := m[k]
  unfoldable pub get : Map K V → K → Option V
  get m k = lookup k m.entries

  -- m[k] = v
  unfoldable pub put : Map K V → K → V → Map K V
  put m k v = record { entries = (k, v) ∷ without k m.entries }

  -- delete(m, k)
  unfoldable pub remove : Map K V → K → Map K V
  remove m k = record { entries = without k m.entries }

  pub lookup-without :
      (k j : K) (m : List (K × V)) → lookup j (without k m) ≡ (if k == j then none else lookup j m)
  unfolding lookup without
  lookup-without k j [] = ground arith
  lookup-without k j ((i, v) ∷ m) =
      ground (arith, lookup-without k j m, e.same_iff i k, e.same_iff i j, e.same_iff k j)

  pub get-put :
      (m : Map K V) (k j : K) (v : V) → get (put m k v) j ≡ (if k == j then some v else get m j)
  unfolding get put lookup
  get-put m k j v = ground (arith, lookup-without k j m.entries)

  pub get-put_same : (m : Map K V) (k : K) (v : V) → get (put m k v) k ≡ some v
  get-put_same m k v = ground (arith, get-put m k k v, e.same_iff k k)

  pub get-remove : (m : Map K V) (k j : K) → get (remove m k) j ≡ (if k == j then none else get m j)
  unfolding get remove
  get-remove m k j = lookup-without k j m.entries

  pub lookup-drop_entries :
      (p : K → Bool) (j : K) (m : List (K × V))
      → lookup j (drop_entries (λ k v. p k) m) ≡ (if p j then none else lookup j m)
  unfolding lookup drop_entries
  lookup-drop_entries p j [] = ground arith
  lookup-drop_entries p j ((i, v) ∷ m) = ground (arith, lookup-drop_entries p j m, e.same_iff i j)

  -- A deletion that looks at the keys alone.
  pub get-delete_if :
      (p : K → Bool) (m : Map K V) (j : K)
      → get (delete_if (λ k v. p k) m) j ≡ (if p j then none else get m j)
  unfolding get delete_if
  get-delete_if p m j = lookup-drop_entries p j m.entries

pub get-empty : {K V : Type 0} ⦃e : Eq K⦄ (k : K) → get (empty {K = K} {V = V}) k ≡ none
unfolding get lookup empty
get-empty k = refl
