-- ===== src/App/Audit.antt =====
-- internal/app/audit.go: recording and listing audit events.
use nexus_local.Prelude.{ℕ, List, Bool, false, not, ◌&&◌, ltb, ℤ, Option, none, some, if◌then◌else◌}
use nexus_local.Result.{invalid_entity, reject_if}
use nexus_local.Action.{Action, Context, live, lift, pure, ◌>>=◌}
use nexus_local.Text.{Text, text, text_eq, is_empty, trim_space}
use nexus_local.Clock.{Time}
use nexus_local.Domain.Ids.{TenantId, empty_id}
use nexus_local.Domain.Audit.{
  AuditEvent, AuditEventCreate, AuditOutcome, succeeded, failed, denied, other_outcome,
  valid_outcome, new_audit_event,
}
use nexus_local.Store.{Store}
use nexus_local.Store.Audit.{AuditEventFilter, outcome_name, save_audit_event, is_before}
use nexus_local.Store.Audit
use nexus_local.App.Jobs.{normalize_limit}

-- domain.AuditOutcome(s)
unfoldable pub outcome_of : Text → AuditOutcome
outcome_of t =
    if text_eq t (text "succeeded")
    then succeeded
    else if text_eq t (text "failed")
    then failed
    else if text_eq t (text "denied")
    then denied
    else other_outcome t

-- outcome == ""
abbrev pub is_no_outcome : AuditOutcome → Bool
is_no_outcome (other_outcome t) = is_empty t
is_no_outcome _ = false

-- input.From != nil && input.To != nil && input.From.After(*input.To)
abbrev pub is_reversed : Option Time → Option Time → Bool
is_reversed none to = false
is_reversed (some from) none = false
is_reversed (some from) (some to) = ltb to from

unfoldable pub normalize_audit_limit : ℤ → ℤ
normalize_audit_limit = normalize_limit 50 200

-- The argument has the fields of RecordAuditInput, the new identifier and the time. `configured` is
-- `s.repos != nil && s.ids != nil`.
unfoldable pub record_event : Time → Bool → Context → AuditEventCreate → Action Store AuditEvent
record_event wall configured ctx input = live ctx do
  _ ← lift (reject_if (not configured) invalid_entity)
  event ← lift (new_audit_event wall input)
  _ ← save_audit_event ctx event
  pure event

-- The argument has the fields of ListAuditEventsInput but the tenant. The first argument is the case
-- table of `unicode` beyond ASCII.
unfoldable pub list_audit_events :
    (ℕ → ℕ) → Context → TenantId → AuditEventFilter → Action Store (List AuditEvent)
unfolding outcome_of
list_audit_events table ctx tenant input = live ctx do
  _ ← lift (reject_if (empty_id tenant) invalid_entity)
  let outcome = outcome_of (trim_space (outcome_name input.outcome))
  _ ← lift (reject_if (not (is_no_outcome outcome) && not (valid_outcome outcome)) invalid_entity)
  _ ← lift (reject_if (is_reversed input.from input.to) invalid_entity)
  Audit.list_audit_events table ctx tenant (record {
    limit = normalize_audit_limit input.limit;
    action = trim_space input.action;
    outcome = outcome;
    actor_user_id = trim_space input.actor_user_id;
    query = trim_space input.query;
    from = input.from;
    to = input.to;
  })
