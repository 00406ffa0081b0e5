-- ===== src/Domain/Document/Life.antt =====
-- document.go: the life of a document, as a sequence of transitions.
use nexus_local.Prelude.{
  Bool, true, false, ◌≡◌, ◌≢◌, refl, ◌∙◌, ◌⊎◌, inl, inr, ap, arith, is_negative,
}
use nexus_local.Result.{ok}
use nexus_local.Text.{Text, is_empty, trim_space}
use nexus_local.Text.Trim.{trim_space_idem}
use nexus_local.Clock.{Time, or_now}
use nexus_local.Domain.Document.{
  Document, DocumentCreate, DocumentStatus, processing, ready, deleted, other_status,
  can_transition, is_deleted, new_document, transition,
}

pub data Step (d e : Document) : Type 0 where
  moved :
      (target : DocumentStatus) (now wall : Time) → transition d target now wall ≡ ok e → Step d e

pub data Reach (d : Document) : Document → Type 0 where
  here : Reach d d
  and : {e f : Document} → Reach d e → Step e f → Reach d f

-- Whether a document of this life has been in the state `processing`.
pub was_processed : {d e : Document} → Reach d e → Bool
was_processed here = false
was_processed (and r (moved processing now wall e)) = true
was_processed (and r (moved target now wall e)) = was_processed r

abbrev pub is_processed : DocumentStatus → Bool
is_processed processing = true
is_processed ready = true
is_processed _ = false

pub record IsValid (d : Document) : Type 0 where
  pub named : is_empty d.name ≡ false
  pub name_trimmed : trim_space d.name ≡ d.name
  pub stored : is_empty d.storage_key ≡ false
  pub key_trimmed : trim_space d.storage_key ≡ d.storage_key
  pub sized : is_negative d.size_bytes ≡ false
  pub known : (t : Text) → d.status ≢ other_status t

new_document-IsValid :
    (wall : Time) (input : DocumentCreate) (d : Document)
    → new_document wall input ≡ ok d
    → IsValid d
unfolding new_document
new_document-IsValid wall input d h = record {
  named = ground (arith, h);
  name_trimmed = ground (arith, h, trim_space_idem input.name);
  stored = ground (arith, h);
  key_trimmed = ground (arith, h, trim_space_idem input.storage_key);
  sized = ground (arith, h);
  known = λ t e. ground (arith, h);
}

transition-IsValid :
    (d e : Document) (target : DocumentStatus) (now wall : Time)
    → transition d target now wall ≡ ok e
    → IsValid d
    → IsValid e
unfolding transition
transition-IsValid d e target now wall h v = record {
  named = ground (arith, h, v.named);
  name_trimmed = ground (arith, h, v.name_trimmed);
  stored = ground (arith, h, v.stored);
  key_trimmed = ground (arith, h, v.key_trimmed);
  sized = ground (arith, h, v.sized);
  known = λ t p. ground (arith, h);
}

Reach-IsValid : {d e : Document} → Reach d e → IsValid d → IsValid e
Reach-IsValid here v = v
Reach-IsValid {d} {e} (and {e = m} r (moved target now wall h)) v =
    transition-IsValid m e target now wall h (Reach-IsValid r v)

-- Whatever transitions follow NewDocument, the document has a name and a storage key that are not
-- blank and are trimmed, a size that is not negative, and a declared status.
pub life-IsValid :
    (wall : Time) (input : DocumentCreate) (d e : Document)
    → new_document wall input ≡ ok d
    → Reach d e
    → IsValid e
life-IsValid wall input d e h r = Reach-IsValid r (new_document-IsValid wall input d h)

step_processed :
    (d e : Document) (target : DocumentStatus) (now wall : Time)
    → transition d target now wall ≡ ok e
    → is_processed e.status ≡ true
    → (target ≡ processing) ⊎ (is_processed d.status ≡ true)
unfolding transition
step_processed d e target now wall h p = ground (arith, h)

keeps_processed :
    {d e : Document} (r : Reach d e) (f : Document) (s : Step e f)
    → was_processed r ≡ true
    → was_processed (and r s) ≡ true
unfolding was_processed
keeps_processed r f (moved processing now wall h) p = refl
keeps_processed r f (moved _ now wall h) p = p

enters_processing :
    {d e : Document} (r : Reach d e) (f : Document) (target : DocumentStatus) (now wall : Time)
    (h : transition e target now wall ≡ ok f)
    → target ≡ processing
    → was_processed (and r (moved target now wall h)) ≡ true
unfolding was_processed
enters_processing r f processing now wall h p = refl
enters_processing r f _ now wall h p = absurd (cc)

processed_path :
    {d e : Document} (r : Reach d e)
    → is_processed d.status ≡ false
    → is_processed e.status ≡ true
    → was_processed r ≡ true
processed_path here n p = absurd (cc)
processed_path {d} {e} (and {e = m} r (moved target now wall h)) n p =
    elim (step_processed m e target now wall h p) [
      | inl q ↦ enters_processing r e target now wall h q
      | inr q ↦ keeps_processed r e (moved target now wall h) (processed_path r n q)
    ]

new_is_uploaded :
    (wall : Time) (input : DocumentCreate) (d : Document)
    → new_document wall input ≡ ok d
    → is_processed d.status ≡ false
unfolding new_document
new_is_uploaded wall input d h = ground (arith, h)

-- A new document becomes ready only by way of the status `processing`.
pub ready_was_processed :
    (wall : Time) (input : DocumentCreate) (d e : Document) (r : Reach d e)
    → new_document wall input ≡ ok d
    → e.status ≡ ready
    → was_processed r ≡ true
ready_was_processed wall input d e r h p =
    processed_path r (new_is_uploaded wall input d h) (ground (arith, p))

deleted_refuses :
    (d e : Document) (target : DocumentStatus) (now wall : Time)
    → d.status ≡ deleted
    → transition d target now wall ≡ ok e
    → ⊥
unfolding transition
deleted_refuses d e target now wall h k = ground (arith, h, k)

-- A deleted document is never changed again, by any sequence of transitions.
pub deleted_absorbs : {d e : Document} → Reach d e → d.status ≡ deleted → e ≡ d
deleted_absorbs here h = refl
deleted_absorbs {d} {e} (and {e = m} r (moved target now wall k)) h = absurd (
    deleted_refuses m e target now wall (ap (λ (x : Document). x.status) (deleted_absorbs r h) ∙ h)
      k)

Step-keeps :
    {d e : Document} → Step d e → e ≡ record d { status = e.status; updated_at = e.updated_at }
unfolding transition
Step-keeps (moved target now wall h) = ground (arith, h)

-- Nothing of a document but its status and the time of its last change is ever changed.
pub Reach-keeps :
    {d e : Document} → Reach d e → e ≡ record d { status = e.status; updated_at = e.updated_at }
Reach-keeps here = refl
Reach-keeps {d} {e} (and {e = m} r s) = ground (arith, Step-keeps s, Reach-keeps r)

deletable :
    (s : DocumentStatus)
    → is_deleted s ≡ false
    → ((t : Text) → s ≢ other_status t)
    → can_transition s deleted ≡ true
unfolding can_transition
deletable (other_status t) h k = absurd (k t refl)
deletable deleted h k = absurd (cc)
deletable _ h k = refl

-- A document of a declared status that is not deleted can always be deleted.
pub can_delete :
    (d : Document) (now wall : Time)
    → IsValid d
    → is_deleted d.status ≡ false
    → transition d deleted now wall
      ≡ ok (record d { status = deleted; updated_at = or_now wall now })
unfolding transition
can_delete d now wall v h = ground (arith, deletable d.status h v.known)
