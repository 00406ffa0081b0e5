-- ===== src/Tests/Documents.antt =====
-- domain/document.go at fixed inputs.
use nexus_local.Prelude.{ℕ, true, ◌≡◌, refl, pos}
use nexus_local.Result.{ok}
use nexus_local.Text.{text, trim_space, is_space}
use nexus_local.Clock.{or_now}
use nexus_local.Domain.Ids.{empty_id}
use nexus_local.Domain.Document.{
  Document, DocumentCreate, DocumentStatus, uploaded, processing, ready, deleted, new_document,
  can_transition, transition,
}
use nexus_local.Domain.Document.Life.{
  Reach, here, and, moved, was_processed, IsValid, life-IsValid, ready_was_processed,
  deleted_absorbs,
}

abbrev input : DocumentCreate
input = record {
  id = text "doc_123";
  tenant_id = text "tenant_123";
  owner_id = text "user_123";
  name = text " notes.md ";
  storage_key = text "tenant_123/notes.md";
  size_bytes = pos 12;
  now = 100;
}

abbrev document : DocumentStatus → ℕ → Document
document status updated = record {
  id = text "doc_123";
  tenant_id = text "tenant_123";
  owner_id = text "user_123";
  name = text "notes.md";
  storage_key = text "tenant_123/notes.md";
  size_bytes = pos 12;
  status = status;
  created_at = 100;
  updated_at = updated;
}

created : new_document 5 input ≡ ok (document uploaded 100)
unfolding new_document empty_id trim_space is_space or_now
created = refl

run : Reach (document uploaded 100) (document ready 20)
unfolding transition can_transition or_now
run = and (and here (moved processing 10 5 refl)) (moved ready 20 5 refl)

life-IsValid_example : IsValid (document ready 20)
life-IsValid_example = life-IsValid 5 input (document uploaded 100) (document ready 20) created run

ready_was_processed_example : was_processed run ≡ true
ready_was_processed_example =
    ready_was_processed 5 input (document uploaded 100) (document ready 20) run created refl

stay : Reach (document deleted 30) (document deleted 30)
stay = here

deleted_absorbs_example : document deleted 30 ≡ document deleted 30
deleted_absorbs_example = deleted_absorbs stay refl
