-- ===== src/Providers/Vectors/Hits.antt =====
-- memory/index.go: what a search finds, and what is left behind a deletion.
use nexus_local.Prelude.{
  ℕ, zero, suc, ℤ, magnitude, keep, List, [], ◌∷◌, Bool, true, false, ◌≡◌, ◌≢◌, refl, arith, none,
  some, In, inl, inr, map, take,
}
use nexus_local.Result.{Result, ok, err}
use nexus_local.Text.{text_Eq, is_empty}
use nexus_local.Map
use nexus_local.Map.{Map}
use nexus_local.Map.Keyed.{
  IsKeyed, put-IsKeyed, In-values_iff, delete_if-IsKeyed, get-delete_if_value,
}
use nexus_local.Sort.{sort, In-sort}
use nexus_local.Store.{long_key_Eq}
use nexus_local.Store.Select.{cut}
use nexus_local.Store.Listing.{In-keep_iff}
use nexus_local.Domain.Ids.{TenantId, DocumentId}
use nexus_local.Providers.{Float, Vector, VectorSearch, VectorHit}
use nexus_local.Providers.Vectors.{
  Vectors, vector_key, insert_vectors, is_candidate, matches_filters, hit_of, search, of_document,
  delete_document,
}

In-take : {A : Type 0} (a : A) (n : ℕ) (xs : List A) → In a (take n xs) → In a xs
In-take a zero xs i = elim i [ ]
In-take a (suc n) [] i = elim i [ ]
In-take a (suc n) (x ∷ xs) (inl p) = inl p
In-take a (suc n) (x ∷ xs) (inr i) = inr (In-take a n xs i)

In-cut : {A : Type 0} (a : A) (limit : ℤ) (xs : List A) → In a (cut limit xs) → In a xs
unfolding cut
In-cut a limit xs i = ground (arith, i, In-take a (magnitude limit) xs)

In-map :
    {A B : Type 0} (f : A → B) (b : B) (xs : List A)
    → In b (map f xs)
    → (a : A) × In a xs × (b ≡ f a)
In-map f b [] i = elim i [ ]
In-map f b (x ∷ xs) (inl p) = (x, inl refl, p)
In-map f b (x ∷ xs) (inr i) = let (a, j, p) = In-map f b xs i in (a, inr j, p)

pub insert_vectors-IsKeyed :
    (vs : List Vector) (s : Vectors)
    → IsKeyed vector_key s
    → IsKeyed vector_key (insert_vectors vs s)
unfolding insert_vectors
insert_vectors-IsKeyed [] s h = h
insert_vectors-IsKeyed (v ∷ vs) s h =
    insert_vectors-IsKeyed vs (Map.put s (vector_key v) v) (put-IsKeyed vector_key s v h)

-- What a hit of a search stands for.
pub record IsHit (input : VectorSearch) (s : Vectors) (h : VectorHit) (v : Vector) : Type 0 where
  pub stored : Map.get s (vector_key v) ≡ some v
  pub tenant : v.tenant_id ≡ input.tenant_id
  pub document : is_empty input.document_id ≡ false → v.document_id ≡ input.document_id
  pub filters : matches_filters v.metadata input.filters ≡ true
  pub shown : (h.document_id ≡ v.document_id) × (h.chunk_id ≡ v.chunk_id) × (h.text ≡ v.text)

module _ (cosine : List Float → List Float → Float) (greater : Float → Float → Bool) where
  -- The vector behind a hit.
  hit_of-In-IsHit :
      (input : VectorSearch) (s : Vectors) (h : VectorHit)
      → IsKeyed vector_key s
      → In h (
          sort
            (λ a b. greater a.score b.score)
            (map (hit_of cosine greater input) (keep (is_candidate input) (Map.values s))))
      → (v : Vector) × IsHit input s h v
  unfolding hit_of is_candidate
  hit_of-In-IsHit input s h keyed i =
      let (v, j, shown) =
        In-map (hit_of cosine greater input) h (keep (is_candidate input) (Map.values s))
          ((In-sort (λ a b. greater a.score b.score) h _).0 i) in
      let (inside, fits) = (In-keep_iff (is_candidate input) v (Map.values s)).0 j in
      (
        v,
        record {
          stored = (In-values_iff vector_key s v keyed).0 inside;
          tenant = ground (arith, fits, text_Eq.same_iff v.tenant_id input.tenant_id);
          document = λ e. ground (arith, e, fits, text_Eq.same_iff v.document_id input.document_id);
          filters = ground (arith, fits);
          shown = ground (arith, shown);
        },
      )

  -- On a keyed index, every hit that Search returns, whatever the scores are and in whatever order
  -- they come, shows a vector that is stored, that belongs to the tenant of the search and, where
  -- the search names a document, to that document, and that carries every filter of the search.
  pub search-IsHit :
      (input : VectorSearch) (s : Vectors) (hits : List VectorHit) (h : VectorHit)
      → IsKeyed vector_key s
      → (search cosine greater none input s).0 ≡ ok hits
      → In h hits
      → (v : Vector) × IsHit input s h v
  unfolding search
  search-IsHit input s hits h keyed e i =
      hit_of-In-IsHit input s h keyed
        (In-cut h input.limit _ (coe 1 0 (j. In h (found_hits hits (e j))) i))
    where
      found_hits : List VectorHit → Result (List VectorHit) → List VectorHit
      found_hits other (ok hs) = hs
      found_hits other (err x) = other

  -- Once a document's vectors have been deleted from a keyed index, no search of that tenant finds
  -- the document.
  pub delete_document-gone :
      (tenant : TenantId) (document : DocumentId) (input : VectorSearch) (s : Vectors)
      (hits : List VectorHit) (h : VectorHit)
      → IsKeyed vector_key s
      → input.tenant_id ≡ tenant
      → (search cosine greater none input (delete_document none tenant document s).1).0 ≡ ok hits
      → In h hits
      → h.document_id ≢ document
  unfolding delete_document
  delete_document-gone tenant document input s hits h keyed t e i q =
      let (v, hit) = search-IsHit input _ hits h (delete_if-IsKeyed vector_key _ s keyed) e i in
      absurd (
        ground (
          arith,
          hit.stored,
          hit.tenant,
          t,
          q,
          hit.shown,
          get-delete_if_value vector_key (of_document tenant document) s (vector_key v) keyed,
          text_Eq.same_iff v.tenant_id tenant,
          text_Eq.same_iff v.document_id document,
        ))
