-- ===== src/Worker/Indexing.antt =====
-- ingestion.go, ingestDocument: from the object of a document to the vectors of its chunks, in the three
-- parts before, in and behind the loop of the chunker.
pub mod Frame
pub mod Count
use nexus_local.Prelude.{ℕ, List, [], ◌∷◌, Option, none, some, length, map, eqb, not}
use nexus_local.Result.{Error, Result, ok, err, end_of_file, other_error, reject_if}
use nexus_local.Action.{Action, Context, pure, raise, lift, ◌>>=◌, continue}
use nexus_local.Action.Run.{Run, returns, follow, next}
use nexus_local.Text.{Text, text, text_Eq}
use nexus_local.Text.Decimal.{decimal}
use nexus_local.Clock.{Time}
use nexus_local.Map
use nexus_local.Map.{Map}
use nexus_local.Domain.Document.{Document}
use nexus_local.Ingest.Chunker.{Chunk, Chunker, chunk}
use nexus_local.Providers.{Bytes, Float, ObjectStore, Vector, VectorIndex, Embedder}
use nexus_local.World.{World, in_objects, in_vectors}

-- The three parts that WithPipeline sets, together.
pub record Pipeline (O V : Type 0) : Type 0 where
  pub objects : ObjectStore O
  pub embedder : Embedder
  pub vectors : VectorIndex V

-- `extract` is the extractor on a body, a name and a content type. `fuel` bounds the rounds of the
-- chunker. `describe` is the text of an error.
pub record DocumentIngestionWorker (O V : Type 0) : Type 0 where
  pub pipeline : Option (Pipeline O V)
  pub extract : Bytes → Text → Text → Result Text
  pub chunker : Chunker
  pub fuel : ℕ
  pub describe : Error → Text
  pub wall : Time

-- `none` is a text that ended before it began.
abbrev pub unless_eof : Result Text → Result (Option Text)
unless_eof (ok t) = ok (some t)
unless_eof (err end_of_file) = ok none
unless_eof (err e) = err e

unfoldable pub vector_of : Document → Chunk → List Float → Vector
vector_of d c values = record {
  tenant_id = d.tenant_id;
  document_id = d.id;
  chunk_id = c.id;
  values = values;
  text = c.text;
  metadata =
      Map.put
        (Map.put (Map.put Map.empty (text "document_name") d.name) (text "chunk_index")
          (decimal c.index))
        (text "storage_key") d.storage_key;
}

-- The loop that makes the vectors; it runs on lists of one length.
unfoldable pub vectors_of : Document → List Chunk → List (List Float) → List Vector
unfolding vector_of
vectors_of d (c ∷ chunks) (values ∷ more) = vector_of d c values ∷ vectors_of d chunks more
vectors_of d _ _ = []

module _ {O V : Type 0} (worker : DocumentIngestionWorker O V) where
  unfoldable pub extract_text : Pipeline O V → Context → Document → Action (World O V) (Option Text)
  extract_text pipeline ctx d = do
    object ← in_objects (pipeline.objects.get_object ctx d.tenant_id d.storage_key)
    lift (unless_eof (worker.extract object.0 d.name object.1.content_type))

  abbrev pub require_chunks : List Chunk → Result (Unit {0})
  require_chunks [] = err other_error
  require_chunks (c ∷ chunks) = ok tt

  unfoldable pub index_chunks :
      Pipeline O V → Context → Document → List Chunk → Action (World O V) ℕ
  unfolding vectors_of
  index_chunks pipeline ctx d chunks = do
    _ ← lift (require_chunks chunks)
    embedded ← lift (pipeline.embedder ctx (map (λ c. c.text) chunks))
    _ ← lift (reject_if (not (eqb (length embedded) (length chunks))) other_error)
    _ ← in_vectors (pipeline.vectors.delete_document ctx d.tenant_id d.id)
    _ ← in_vectors (pipeline.vectors.upsert ctx (vectors_of d chunks embedded))
    pure (length (vectors_of d chunks embedded))

  abbrev pub index_chunked :
      Pipeline O V → Context → Document → Option (List Chunk) → Run (World O V) ℕ
  index_chunked pipeline ctx d none w = none
  index_chunked pipeline ctx d (some chunks) w = some (index_chunks pipeline ctx d chunks w)

  -- What follows the extraction.
  abbrev pub index_text :
      Pipeline O V → Context → Document → Result (Option Text) → Run (World O V) ℕ
  index_text pipeline ctx d (err e) = returns (raise e)
  index_text pipeline ctx d (ok none) = returns (pure 0)
  index_text pipeline ctx d (ok (some t)) =
      index_chunked pipeline ctx d (chunk worker.fuel worker.chunker t)

  abbrev pub ingest_with : Option (Pipeline O V) → Context → Document → Run (World O V) ℕ
  ingest_with none ctx d = returns (raise other_error)
  ingest_with (some pipeline) ctx d =
      follow (returns (extract_text pipeline ctx d)) (index_text pipeline ctx d)

  unfoldable pub ingest_document : Context → Document → Run (World O V) ℕ
  unfolding extract_text index_chunks
  ingest_document ctx d = ingest_with worker.pipeline ctx d
