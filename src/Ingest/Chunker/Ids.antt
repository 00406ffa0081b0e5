-- ===== src/Ingest/Chunker/Ids.antt =====
-- chunker.go: the identifiers of the chunks of one document.
use nexus_local.Prelude.{ℕ, ◌%◌, ◌≡◌, ◌↔◌, arith}
use nexus_local.Ingest.Chunker.{chunk_id}

chunk_id-eq : (i j : ℕ) → chunk_id i ≡ chunk_id j → i % 10000 ≡ j % 10000
unfolding chunk_id
chunk_id-eq i j h = ground (arith, h)

chunk_id-mod : (i j : ℕ) → i % 10000 ≡ j % 10000 → chunk_id i ≡ chunk_id j
unfolding chunk_id
chunk_id-mod i j h = ground (arith, h)

-- Two chunks have the same identifier exactly when their indices agree modulo 10000: the identifiers
-- of a document of up to 10000 chunks are distinct, and the chunk after those takes the first again.
pub chunk_id-eq_iff : (i j : ℕ) → (chunk_id i ≡ chunk_id j) ↔ (i % 10000 ≡ j % 10000)
chunk_id-eq_iff i j = (chunk_id-eq i j, chunk_id-mod i j)
