-- ===== src/Worker/Indexing/Frame.antt =====
-- ingestion.go, ingestDocument: it changes vectors and objects, and returns if the chunker does.
use nexus_local.Prelude.{
  ℕ, ◌<◌, List, length, true, ◌≡◌, refl, ◌∙◌, arith, Option, none, some, is_some, inl, inr,
  Option-cases,
}
use nexus_local.Result.{Result, ok, err, Result-cases}
use nexus_local.Action.{Action, Context, ◌>>=◌, continue}
use nexus_local.Text.{Text}
use nexus_local.Domain.Document.{Document}
use nexus_local.Map
use nexus_local.Store.{Store, Key, key_Eq}
use nexus_local.Ingest.Chunker.{Chunk, clean, chunk}
use nexus_local.Ingest.Chunker.Progress.{HasBreaks}
use nexus_local.World.{World}
use nexus_local.Worker.Indexing.{
  Pipeline, DocumentIngestionWorker, extract_text, index_chunks, index_text, ingest_with,
  ingest_document,
}

module _ {O V A : Type 0} where
  abbrev pub KeepsStore : Action (World O V) A → Type 0
  KeepsStore m = (w : World O V) → (m w).1.store ≡ w.store

module _ {O V A B : Type 0} where
  continue-KeepsStore :
      (r : Result A) (f : A → Action (World O V) B) (w : World O V)
      → ((a : A) → KeepsStore (f a))
      → (continue r f w).1.store ≡ w.store
  continue-KeepsStore (ok a) f w h = h a w
  continue-KeepsStore (err e) f w h = refl

  bind-KeepsStore :
      (m : Action (World O V) A) (f : A → Action (World O V) B)
      → KeepsStore m
      → ((a : A) → KeepsStore (f a))
      → KeepsStore (m >>= f)
  bind-KeepsStore m f h k w = continue-KeepsStore (m w).0 f (m w).1 k ∙ h w

-- What the extractor returns for the object of a document.
abbrev pub IsTextOf :
    {O V : Type 0}
    → DocumentIngestionWorker O V
    → Document
    → World O V
    → Result (Option Text)
    → Type 0
IsTextOf {O} {V} worker d w t =
    (p : Pipeline O V) × (worker.pipeline ≡ some p) × ((extract_text worker p none d w).0 ≡ t)

-- The text of each stored document is shorter than the fuel and has breaks for the chunker.
abbrev pub ReadsBreaks : {O V : Type 0} → DocumentIngestionWorker O V → World O V → Type 0
ReadsBreaks worker w =
    (k : Key) (d : Document) (t : Text)
    → Map.get w.store.documents k ≡ some d
    → IsTextOf worker d w (ok (some t))
    → (length (clean t) < worker.fuel) × HasBreaks worker.chunker (clean t)

module _ {O V : Type 0} (worker : DocumentIngestionWorker O V) (ctx : Context) (d : Document) where
  extract_text-KeepsStore : (p : Pipeline O V) → KeepsStore (extract_text worker p ctx d)
  unfolding extract_text
  extract_text-KeepsStore p = bind-KeepsStore _ _ (λ w. refl) (λ a w. refl)

  index_chunks-KeepsStore :
      (p : Pipeline O V) (cs : List Chunk) → KeepsStore (index_chunks worker p ctx d cs)
  unfolding index_chunks
  index_chunks-KeepsStore p cs w = ground arith

  index_text-store :
      (p : Pipeline O V) (t : Result (Option Text)) (w w' : World O V) (r : Result ℕ)
      → index_text worker p ctx d t w ≡ some (r, w')
      → w'.store ≡ w.store
  index_text-store p (err e) w w' r h = ground (arith, h)
  index_text-store p (ok none) w w' r h = ground (arith, h)
  index_text-store p (ok (some t)) w w' r h =
      elim (Option-cases (chunk worker.fuel worker.chunker t)) [
        | inl e ↦ ground (arith, (rw e at h))
        | inr (cs, e) ↦ ground (arith, (rw e at h), index_chunks-KeepsStore p cs w)
      ]

  ingest_with-store :
      (p : Option (Pipeline O V)) (w w' : World O V) (r : Result ℕ)
      → ingest_with worker p ctx d w ≡ some (r, w')
      → w'.store ≡ w.store
  ingest_with-store none w w' r h = ground (arith, h)
  ingest_with-store (some p) w w' r h =
      index_text-store p (extract_text worker p ctx d w).0 (extract_text worker p ctx d w).1 w' r h
      ∙ extract_text-KeepsStore p w

  -- Ingestion leaves the repositories as they are.
  pub ingest_document-store :
      (w w' : World O V) (r : Result ℕ)
      → ingest_document worker ctx d w ≡ some (r, w')
      → w'.store ≡ w.store
  unfolding ingest_document
  ingest_document-store w w' r h = ingest_with-store worker.pipeline w w' r h

  index_text-returns :
      (p : Pipeline O V) (r : Result (Option Text)) (w : World O V)
      → ((t : Text) → r ≡ ok (some t) → is_some (chunk worker.fuel worker.chunker t) ≡ true)
      → is_some (index_text worker p ctx d r w) ≡ true
  index_text-returns p (err e) w h = refl
  index_text-returns p (ok none) w h = refl
  index_text-returns p (ok (some t)) w h = ground (arith, h t refl)

  ingest_with-returns :
      (p : Option (Pipeline O V)) (w : World O V)
      → ((q : Pipeline O V) (t : Text)
          → p ≡ some q
          → (extract_text worker q ctx d w).0 ≡ ok (some t)
          → is_some (chunk worker.fuel worker.chunker t) ≡ true)
      → is_some (ingest_with worker p ctx d w) ≡ true
  ingest_with-returns none w h = refl
  ingest_with-returns (some p) w h =
      index_text-returns p (extract_text worker p ctx d w).0 (extract_text worker p ctx d w).1
        (λ t q. h p t refl q)

module _ {O V : Type 0} (worker : DocumentIngestionWorker O V) (d : Document) where
  -- Ingestion returns if the chunker does on the text of the document.
  pub ingest_document-returns :
      (w : World O V)
      → ((t : Text)
          → IsTextOf worker d w (ok (some t))
          → is_some (chunk worker.fuel worker.chunker t) ≡ true)
      → is_some (ingest_document worker none d w) ≡ true
  unfolding ingest_document
  ingest_document-returns w h =
      ingest_with-returns worker none d worker.pipeline w (λ p t e q. h t (p, e, q))

  -- The text of a document does not depend on the repositories.
  pub IsTextOf-store :
      (w : World O V) (s : Store) (t : Result (Option Text))
      → IsTextOf worker d (record w { store = s }) t
      → IsTextOf worker d w t
  unfolding extract_text
  IsTextOf-store w s t (p, c, x) =
      elim (Result-cases (p.objects.get_object none d.tenant_id d.storage_key w.objects).0) [
        | inr (e, q) ↦ (p, c, rw q (rw q at x))
        | inl (object, q) ↦ (p, c, rw q (rw q at x))
      ]
