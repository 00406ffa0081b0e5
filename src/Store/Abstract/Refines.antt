-- ===== src/Store/Abstract/Refines.antt =====
-- memory/store.go: the memory store does what the repositories promise.
use nexus_local.Prelude.{
  Bool, true, false, not, ◌≡◌, refl, ap, ◌∙◌, inl, inr, Option, none, Eq, if◌then◌else◌,
}
use nexus_local.Result.{Result}
use nexus_local.Text.{Text, text_Eq, text_eq}
use nexus_local.Map
use nexus_local.Map.{Map, get-put, get-remove, get-delete_if}
use nexus_local.Map.Keyed.{IsKeyed, get-delete_if_value}
use nexus_local.Domain.Tenant.{Tenant, User}
use nexus_local.Domain.Membership.{Membership}
use nexus_local.Domain.Document.{Document}
use nexus_local.Domain.DataSource.{DataSource, DataSourceScanEntry}
use nexus_local.Domain.SourceView.{SourceView}
use nexus_local.Domain.PolicyProfile.{SourcePolicyProfile}
use nexus_local.Domain.Job.{Job}
use nexus_local.Domain.Conversation.{Conversation, Message}
use nexus_local.Domain.Audit.{AuditEvent}
use nexus_local.Store.{
  Store, Key, LongKey, key_Eq, long_key_Eq, tenant_key, user_key, membership_key, document_key,
  data_source_key, source_view_key, policy_profile_key, scan_entry_key, job_key, conversation_key,
  message_key, audit_event_key,
}
use nexus_local.Store.Tenants.{
  save_tenant, delete_tenant, save_user, save_membership, delete_membership, without_tenant,
}
use nexus_local.Store.Documents.{save_document}
use nexus_local.Store.Sources.{
  save_data_source, save_source_view, delete_source_view, save_source_policy_profile,
  delete_source_policy_profile, save_data_source_scan_entry,
}
use nexus_local.Store.Jobs.{save_job}
use nexus_local.Store.Jobs.Claim.{IsClaim-cases, started}
use nexus_local.Store.Conversations.{
  save_conversation, delete_conversation, save_message, is_message_of,
}
use nexus_local.Store.Audit.{save_audit_event}
use nexus_local.Store.WellFormed.{
  IsWellFormed, perform, Call, call_save_tenant, call_delete_tenant, call_save_user,
  call_save_membership, call_delete_membership, call_save_document, call_save_data_source,
  call_save_scan_entry, call_save_source_view, call_delete_source_view, call_save_policy_profile,
  call_delete_policy_profile, call_save_job, call_claim, call_save_conversation,
  call_delete_conversation, call_save_message, call_save_audit_event,
}
use nexus_local.Store.Abstract.{Repository, view, set, unset, clear, clear_values, without, Step}

module _ {K V : Type 0} ⦃e : Eq K⦄ where
  -- The function that a map stands for.
  abbrev entries_of : Map K V → K → Option V
  entries_of m k = Map.get m k

  entries_of-put :
      (m : Map K V) (k : K) (v : V) → entries_of (Map.put m k v) ≡ set k v (entries_of m)
  entries_of-put m k v = λ i j. get-put m k j v i

  entries_of-remove : (m : Map K V) (k : K) → entries_of (Map.remove m k) ≡ unset k (entries_of m)
  entries_of-remove m k = λ i j. get-remove m k j i

  entries_of-clear :
      (p : K → Bool) (m : Map K V)
      → entries_of (Map.delete_if (λ k v. p k) m) ≡ clear p (entries_of m)
  entries_of-clear p m = λ i j. get-delete_if p m j i

  entries_of-clear_values :
      (key : V → K) (p : V → Bool) (m : Map K V)
      → IsKeyed key m
      → entries_of (Map.delete_if (λ k v. p v) m) ≡ clear_values p (entries_of m)
  entries_of-clear_values key p m h = λ i j. get-delete_if_value key (λ k v. p v) m j h i

without_tenant-without : (id : Text) (s : Store) → view (without_tenant id s) ≡ without id (view s)
unfolding without_tenant
without_tenant-without id s = λ i. record {
  tenants = entries_of-remove s.tenants id i;
  users = λ k. Map.get s.users k;
  memberships = entries_of-clear (λ (k : Key). text_eq k.0 id) s.memberships i;
  documents = entries_of-clear (λ (k : Key). text_eq k.0 id) s.documents i;
  data_sources = entries_of-clear (λ (k : Key). text_eq k.0 id) s.data_sources i;
  source_views = entries_of-clear (λ (k : Key). text_eq k.0 id) s.source_views i;
  policy_profiles = entries_of-clear (λ (k : Key). text_eq k.0 id) s.policy_profiles i;
  scan_entries = entries_of-clear (λ (k : LongKey). text_eq k.0.0 id) s.scan_entries i;
  jobs = entries_of-clear (λ (k : Key). text_eq k.0 id) s.jobs i;
  conversations = entries_of-clear (λ (k : Key). text_eq k.0 id) s.conversations i;
  messages = entries_of-clear (λ (k : LongKey). text_eq k.0.0 id) s.messages i;
  audit_events = entries_of-clear (λ (k : Key). text_eq k.0 id) s.audit_events i;
}

-- A call that deletes what is there, or finds nothing and changes nothing.
view-delete :
    (there : Bool) (r q : Result (Unit {0})) (s t : Store) (a : Repository)
    → view t ≡ a
    → view (if◌then◌else◌ {A = Result (Unit {0}) × Store} (not there) (r, s) (q, t)).1
      ≡ (if there then a else view s)
view-delete true r q s t a h = h
view-delete false r q s t a h = refl

-- From a well-formed store and under a live context, each call of the memory store that writes does
-- what the repositories promise of it: a save sets one entry; a deletion of something that is there
-- takes its entry and what belongs to it, and any other deletion changes nothing; a claim starts a
-- waiting job that none comes before, or changes nothing where none waits.
pub perform-refines :
    (c : Call) (s : Store) → IsWellFormed s → Step c (view s) (view (perform none c s))
unfolding Step perform save_tenant save_user save_membership save_document save_data_source
    save_data_source_scan_entry save_source_view save_source_policy_profile save_job
    save_conversation save_message save_audit_event delete_tenant delete_membership
    delete_source_view delete_source_policy_profile delete_conversation
perform-refines (call_save_tenant t) s h =
    ap {A = Text → Option Tenant} (λ f. record (view s) { tenants = f })
      (entries_of-put s.tenants (tenant_key t) t)
perform-refines (call_save_user u) s h =
    ap {A = Text → Option User} (λ f. record (view s) { users = f })
      (entries_of-put s.users (user_key u) u)
perform-refines (call_save_membership m) s h =
    ap {A = Key → Option Membership} (λ f. record (view s) { memberships = f })
      (entries_of-put s.memberships (membership_key m) m)
perform-refines (call_save_document d) s h =
    ap {A = Key → Option Document} (λ f. record (view s) { documents = f })
      (entries_of-put s.documents (document_key d) d)
perform-refines (call_save_data_source d) s h =
    ap {A = Key → Option DataSource} (λ f. record (view s) { data_sources = f })
      (entries_of-put s.data_sources (data_source_key d) d)
perform-refines (call_save_scan_entry e) s h =
    ap {A = LongKey → Option DataSourceScanEntry} (λ f. record (view s) { scan_entries = f })
      (entries_of-put s.scan_entries (scan_entry_key e) e)
perform-refines (call_save_source_view v) s h =
    ap {A = Key → Option SourceView} (λ f. record (view s) { source_views = f })
      (entries_of-put s.source_views (source_view_key v) v)
perform-refines (call_save_policy_profile p) s h =
    ap {A = Key → Option SourcePolicyProfile} (λ f. record (view s) { policy_profiles = f })
      (entries_of-put s.policy_profiles (policy_profile_key p) p)
perform-refines (call_save_job j) s h =
    ap {A = Key → Option Job} (λ f. record (view s) { jobs = f })
      (entries_of-put s.jobs (job_key j) j)
perform-refines (call_save_conversation c) s h =
    ap {A = Key → Option Conversation} (λ f. record (view s) { conversations = f })
      (entries_of-put s.conversations (conversation_key c) c)
perform-refines (call_save_message m) s h =
    ap {A = LongKey → Option Message} (λ f. record (view s) { messages = f })
      (entries_of-put s.messages (message_key m) m)
perform-refines (call_save_audit_event e) s h =
    ap {A = Key → Option AuditEvent} (λ f. record (view s) { audit_events = f })
      (entries_of-put s.audit_events (audit_event_key e) e)
perform-refines (call_delete_tenant id) s h =
    view-delete _ _ _ s (without_tenant id s) _ (without_tenant-without id s)
perform-refines (call_delete_membership t u) s h =
    view-delete _ _ _ s (record s { memberships = Map.remove s.memberships (t, u) }) _
      (ap {A = Key → Option Membership} (λ f. record (view s) { memberships = f })
        (entries_of-remove s.memberships (t, u)))
perform-refines (call_delete_source_view t v) s h =
    view-delete _ _ _ s (record s { source_views = Map.remove s.source_views (t, v) }) _
      (ap {A = Key → Option SourceView} (λ f. record (view s) { source_views = f })
        (entries_of-remove s.source_views (t, v)))
perform-refines (call_delete_policy_profile t p) s h =
    view-delete _ _ _ s (record s { policy_profiles = Map.remove s.policy_profiles (t, p) }) _
      (ap {A = Key → Option SourcePolicyProfile} (λ f. record (view s) { policy_profiles = f })
        (entries_of-remove s.policy_profiles (t, p)))
perform-refines (call_delete_conversation t c) s h =
    view-delete _ _ _ s
      (record s {
        conversations = Map.remove s.conversations (t, c);
        messages = Map.delete_if (λ k m. is_message_of t c m) s.messages;
      })
      _
      (λ i. record (view s) {
        conversations = entries_of-remove s.conversations (t, c) i;
        messages = entries_of-clear_values message_key (is_message_of t c) s.messages h.messages i;
      })
perform-refines (call_claim now wall types) s h = elim (IsClaim-cases types now wall s h) [
  | inl c ↦ inl (record {
    job = c.job;
    waited = (c.waited.stored, c.waited.free);
    first = λ other w. c.first other (record { stored = w.0; free = w.1 });
    taken =
        ap (λ r. view r.1) c.outcome
        ∙ ap {A = Key → Option Job} (λ f. record (view s) { jobs = f })
            (entries_of-put s.jobs (job_key c.job) (started c.job now wall));
  })
  | inr idle ↦ inr (
    λ job w. idle.nothing job (record { stored = w.0; free = w.1 }),
    ap (λ r. view r.1) idle.outcome,
  )
]
