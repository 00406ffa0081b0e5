-- ===== src/Worker/Indexing/Count.antt =====
-- ingestion.go, ingestDocument: the count that it returns.
use nexus_local.Prelude.{
  ℕ, List, [], ◌∷◌, ◌≡◌, ◌⊎◌, inl, inr, refl, arith, Option, none, some, length, map, eqb,
  Bool-cases, Option-cases,
}
use nexus_local.Result.{Result, ok, err, Result-cases}
use nexus_local.Text.{Text}
use nexus_local.Domain.Document.{Document}
use nexus_local.Ingest.Chunker.{Chunk, chunk}
use nexus_local.Providers.{Float}
use nexus_local.World.{World}
use nexus_local.Worker.Indexing.{
  Pipeline, DocumentIngestionWorker, vectors_of, extract_text, index_chunks, index_text,
  ingest_with, ingest_document,
}
use nexus_local.Worker.Indexing.Frame.{IsTextOf}

-- The number of the chunks of the text of a document, and 0 where the object has no text.
abbrev pub IsChunkCount :
    {O V : Type 0} → DocumentIngestionWorker O V → Document → World O V → ℕ → Type 0
IsChunkCount worker d w n =
    (IsTextOf worker d w (ok none) × (n ≡ 0))
    ⊎ ((t : Text) × (cs : List Chunk) × IsTextOf worker d w (ok (some t))
        × (chunk worker.fuel worker.chunker t ≡ some cs)
        × (n ≡ length cs))

length-vectors_of :
    (d : Document) (cs : List Chunk) (vs : List (List Float))
    → length vs ≡ length cs
    → length (vectors_of d cs vs) ≡ length cs
unfolding vectors_of
length-vectors_of d [] vs h = refl
length-vectors_of d (c ∷ cs) [] h = absurd (ground (arith, h))
length-vectors_of d (c ∷ cs) (v ∷ vs) h = ground (arith, h, length-vectors_of d cs vs)

module _ {O V : Type 0} (worker : DocumentIngestionWorker O V) (d : Document) where
  index_chunks-length :
      (p : Pipeline O V) (cs : List Chunk) (w w' : World O V) (n : ℕ)
      → index_chunks worker p none d cs w ≡ (ok n, w')
      → n ≡ length cs
  unfolding index_chunks
  index_chunks-length p [] w w' n h = absurd (ground (arith, h))
  index_chunks-length p (c ∷ cs) w w' n h =
      elim (Result-cases (p.embedder none (map (λ k. k.text) (c ∷ cs)))) [
        | inr (e, q) ↦ absurd (ground (arith, (rw q at h)))
        | inl (vs, q) ↦ elim (Bool-cases (eqb (length vs) (length (c ∷ cs)))) [
          | inr b ↦ absurd (ground (arith, (rw (q, b) at h)))
          | inl b ↦ ground (arith, (rw (q, b) at h), length-vectors_of d (c ∷ cs) vs, b)
        ]
      ]

  index_text-count :
      (p : Pipeline O V) (r : Result (Option Text)) (w0 w w' : World O V) (n : ℕ)
      → worker.pipeline ≡ some p
      → (extract_text worker p none d w0).0 ≡ r
      → index_text worker p none d r w ≡ some (ok n, w')
      → IsChunkCount worker d w0 n
  index_text-count p (err e) w0 w w' n c x h = absurd (ground (arith, h))
  index_text-count p (ok none) w0 w w' n c x h = inl ((p, c, x), ground (arith, h))
  index_text-count p (ok (some t)) w0 w w' n c x h =
      elim (Option-cases (chunk worker.fuel worker.chunker t)) [
        | inl e ↦ absurd (ground (arith, (rw e at h)))
        | inr (cs, e) ↦
            inr (t, cs, (p, c, x), e, index_chunks-length p cs w w' n (ground (arith, (rw e at h))))
      ]

  ingest_with-count :
      (p : Option (Pipeline O V)) (w w' : World O V) (n : ℕ)
      → worker.pipeline ≡ p
      → ingest_with worker p none d w ≡ some (ok n, w')
      → IsChunkCount worker d w n
  ingest_with-count none w w' n c h = absurd (ground (arith, h))
  ingest_with-count (some p) w w' n c h =
      index_text-count p (extract_text worker p none d w).0 w (extract_text worker p none d w).1 w'
        n c refl h

  -- What ingestDocument counts are the chunks of the text of the document.
  pub ingest_document-count :
      (w w' : World O V) (n : ℕ)
      → ingest_document worker none d w ≡ some (ok n, w')
      → IsChunkCount worker d w n
  unfolding ingest_document
  ingest_document-count w w' n h = ingest_with-count worker.pipeline w w' n refl h
