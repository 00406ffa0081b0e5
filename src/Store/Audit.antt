-- ===== src/Store/Audit.antt =====
-- memory/store.go: the audit log and its filter.
use nexus_local.Prelude.{
  ℕ, List, [], ◌∷◌, Bool, true, false, not, ◌&&◌, Option, none, some, ltb, if◌then◌else◌, ℤ,
}
use nexus_local.Result.{ok}
use nexus_local.Action.{Action, Context, live}
use nexus_local.Text.{Text, text, text_eq, text_Eq, is_empty, trim_space, to_lower, contains, join}
use nexus_local.Clock.{Time}
use nexus_local.Map
use nexus_local.Domain.Ids.{TenantId}
use nexus_local.Domain.Audit.{AuditEvent, AuditOutcome, succeeded, failed, denied, other_outcome}
use nexus_local.Store.{Store, key_Eq, audit_event_key}
use nexus_local.Store.Select.{select, newest_first, cut}

pub record AuditEventFilter : Type 0 where
  pub limit : ℤ
  pub action : Text
  pub outcome : AuditOutcome
  pub actor_user_id : Text
  pub query : Text
  pub from : Option Time
  pub to : Option Time

-- The string of an outcome.
unfoldable pub outcome_name : AuditOutcome → Text
outcome_name succeeded = text "succeeded"
outcome_name failed = text "failed"
outcome_name denied = text "denied"
outcome_name (other_outcome t) = t

-- `want != "" && have != want`
abbrev pub differs : Text → Text → Bool
differs want have = not (is_empty want) && not (text_eq have want)

-- filter.From != nil && event.CreatedAt.Before(*filter.From)
abbrev pub is_before : Time → Option Time → Bool
is_before t none = false
is_before t (some from) = ltb t from

-- filter.To != nil && event.CreatedAt.After(*filter.To)
abbrev pub is_after : Time → Option Time → Bool
is_after t none = false
is_after t (some to) = ltb to t

-- The keys and values of the metadata, in the order of one iteration.
unfoldable pub metadata_words : List (Text × Text) → List Text
metadata_words [] = []
metadata_words ((k, value) ∷ rest) = k ∷ value ∷ metadata_words rest

-- The text that the query is looked for in.
unfoldable pub haystack : (ℕ → ℕ) → AuditEvent → Text
unfolding outcome_name metadata_words
haystack table event = to_lower table (
    join
      (event.id
        ∷ event.actor_user_id
        ∷ event.action
        ∷ event.resource_type
        ∷ event.resource_id
        ∷ outcome_name event.outcome
        ∷ join (metadata_words event.metadata.entries) (text " ")
        ∷ [])
      (text " "))

unfoldable pub audit_event_matches : (ℕ → ℕ) → AuditEvent → AuditEventFilter → Bool
audit_event_matches table event filter =
    let query = to_lower table (trim_space filter.query) in
    if differs filter.action event.action
    then false
    else if differs (outcome_name filter.outcome) (outcome_name event.outcome)
    then false
    else if differs filter.actor_user_id event.actor_user_id
    then false
    else if is_before event.created_at filter.from
    then false
    else if is_after event.created_at filter.to
    then false
    else if is_empty query
    then true
    else contains (haystack table event) query

unfoldable pub save_audit_event : Context → AuditEvent → Action Store (Unit {0})
save_audit_event ctx e =
    live ctx λ s. (ok tt, record s { audit_events = Map.put s.audit_events (audit_event_key e) e })

unfoldable pub list_audit_events :
    (ℕ → ℕ) → Context → TenantId → AuditEventFilter → Action Store (List AuditEvent)
list_audit_events table ctx tenant filter = live ctx λ s. (
  ok (
      cut filter.limit (
        select (λ e. text_eq e.tenant_id tenant && audit_event_matches table e filter)
          (newest_first (λ e. e.created_at) (λ e. e.id)) s.audit_events)),
  s,
)
