-- ===== src/Worker/Batch.antt =====
-- ingestion_batch.go: the outcomes of processors that run at once, in the order in which they arrive on
-- the channel.
use nexus_local.Prelude.{ℕ, ◌+◌, List, [], ◌∷◌, ◌++◌, Option, none, some}
use nexus_local.Result.{Error, Result, ok, err, not_found}
use nexus_local.Worker.Ingestion.{ProcessResult}

pub record DocumentIngestionBatchResult : Type 0 where
  pub results : List ProcessResult
  pub processed : ℕ
  pub empty : ℕ
  pub failed : ℕ

pub record Batch : Type 0 where
  pub result : DocumentIngestionBatchResult
  pub first_error : Option Error

-- `if firstErr == nil { firstErr = outcome.err }`
abbrev pub or_first : Option Error → Error → Option Error
or_first none e = some e
or_first (some first) e = some first

-- One round of the loop over the outcomes.
unfoldable pub add_outcome : Batch → Result ProcessResult → Batch
add_outcome b (ok r) = record b {
  result = record b.result {
    processed = b.result.processed + 1;
    results = b.result.results ++ r ∷ [];
  };
}
add_outcome b (err not_found) = record b { result = record b.result { empty = b.result.empty + 1 } }
add_outcome b (err e) = record b {
  result = record b.result { failed = b.result.failed + 1 };
  first_error = or_first b.first_error e;
}

unfoldable pub add_outcomes : Batch → List (Result ProcessResult) → Batch
unfolding add_outcome
add_outcomes b [] = b
add_outcomes b (o ∷ rest) = add_outcomes (add_outcome b o) rest

-- What ProcessDocumentIngestionBatch returns once the outcomes have arrived.
unfoldable pub collect : List (Result ProcessResult) → Batch
unfolding add_outcomes
collect = add_outcomes (record {
  result = record { results = []; processed = 0; empty = 0; failed = 0 };
  first_error = none;
})
