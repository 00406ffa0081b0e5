-- ===== src/Providers/Vectors.antt =====
-- providers/vector/memory/index.go: vectors in a map. The score of two vectors, which is floating-point
-- arithmetic, and the order of scores are parameters.
pub mod Hits
use nexus_local.Prelude.{
  ℕ, List, [], ◌∷◌, Bool, true, false, not, ◌&&◌, ◌||◌, ◌≡◌, Option, none, some, length, ◌==◌,
  if◌then◌else◌, ℤ, map, keep,
}
use nexus_local.Result.{Result, ok, err}
use nexus_local.Action.{Action, Context, live}
use nexus_local.Text.{Text, text_Eq, text_eq, is_empty}
use nexus_local.Map
use nexus_local.Map.{Map}
use nexus_local.Sort.{sort}
use nexus_local.Store.{LongKey, long_key_Eq}
use nexus_local.Store.Select.{cut}
use nexus_local.Domain.Ids.{TenantId, DocumentId}
use nexus_local.Providers.{Float, Vector, VectorSearch, VectorHit, VectorIndex}

abbrev pub Vectors : Type 0
Vectors = Map LongKey Vector

abbrev pub vector_key : Vector → LongKey
vector_key v = ((v.tenant_id, v.document_id), v.chunk_id)

-- The loop of Upsert
unfoldable pub insert_vectors : List Vector → Vectors → Vectors
insert_vectors [] vectors = vectors
insert_vectors (v ∷ vs) vectors = insert_vectors vs (Map.put vectors (vector_key v) v)

unfoldable pub upsert : Context → List Vector → Action Vectors (Unit {0})
unfolding insert_vectors
upsert ctx vs = live ctx λ s. (ok tt, insert_vectors vs s)

-- metadata[key], which is "" for a key that is missing
abbrev pub or_empty : Option Text → Text
or_empty none = []
or_empty (some value) = value

unfoldable pub matches_entries : Map Text Text → List (Text × Text) → Bool
matches_entries metadata [] = true
matches_entries metadata ((k, value) ∷ rest) =
    let later = matches_entries metadata rest in
    if text_eq (or_empty (Map.get metadata k)) value then later else false

unfoldable pub matches_filters : Map Text Text → Map Text Text → Bool
unfolding matches_entries
matches_filters metadata filters = matches_entries metadata filters.entries

-- What the loop of Search keeps.
unfoldable pub is_candidate : VectorSearch → Vector → Bool
is_candidate input v =
    text_eq v.tenant_id input.tenant_id
    && (is_empty input.document_id || text_eq v.document_id input.document_id)
    && matches_filters v.metadata input.filters

module _ (cosine : List Float → List Float → Float) (greater : Float → Float → Bool) where
  unfoldable pub hit_of : VectorSearch → Vector → VectorHit
  hit_of input v = record {
    document_id = v.document_id;
    chunk_id = v.chunk_id;
    text = v.text;
    score = cosine input.query v.values;
    metadata = v.metadata;
  }

  unfoldable pub search : Context → VectorSearch → Action Vectors (List VectorHit)
  unfolding hit_of
  search ctx input = live ctx λ s. (
    ok (
        cut input.limit (
          sort (λ a b. greater a.score b.score)
            (map (hit_of input) (keep (is_candidate input) (Map.values s))))),
    s,
  )

-- key.tenantID == tenantID && key.documentID == documentID
abbrev pub of_document : TenantId → DocumentId → LongKey → Vector → Bool
of_document tenant document k v = text_eq k.0.0 tenant && text_eq k.0.1 document

unfoldable pub delete_document : Context → TenantId → DocumentId → Action Vectors (Unit {0})
delete_document ctx tenant document =
    live ctx λ s. (ok tt, Map.delete_if (of_document tenant document) s)

-- The memory index as a vector index.
unfoldable pub memory_vectors :
    (List Float → List Float → Float) → (Float → Float → Bool) → VectorIndex Vectors
memory_vectors cosine greater = record {
  upsert = upsert;
  search = search cosine greater;
  delete_document = delete_document;
}
