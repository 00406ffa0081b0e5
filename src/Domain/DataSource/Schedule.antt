-- ===== src/Domain/DataSource/Schedule.antt =====
-- data_source.go: the scan schedule of a source over sequences of calls.
use nexus_local.Prelude.{
  List, true, false, ◌≡◌, inl, inr, arith, none, is_some, ℤ, pos, is_nonpositive,
}
use nexus_local.Result.{ok, Result-cases}
use nexus_local.Text.{Text}
use nexus_local.Clock.{Time, or_now}
use nexus_local.Domain.Patterns.{normalize_data_source_patterns}
use nexus_local.Domain.DataSource.Config.{InRange, normalize-InRange}
use nexus_local.Domain.DataSource.{
  DataSource, DataSourceCreate, DataSourceStatus, DataSourceType, connector, is_archived,
  normalize_scan_interval_minutes, normalize_connector_config, new_data_source, update, transition,
  complete_scan, fail_scan, fail_at, cancel_scan, updated, normalize_data_source_schedule_for_type,
  type_or, ConnectorConfig, schedule_next_scan,
}

-- A source that is not archived is due at some time exactly when it has a scan interval; an archived
-- one is never due; a connector has no interval; the interval is in its range.
pub record IsScheduled (s : DataSource) : Type 0 where
  pub idle : is_nonpositive s.scan_interval_minutes ≡ true → s.next_scan_at ≡ none
  pub stopped : is_archived s.status ≡ true → s.next_scan_at ≡ none
  pub due :
      is_nonpositive s.scan_interval_minutes ≡ false
      → is_archived s.status ≡ false
      → is_some s.next_scan_at ≡ true
  pub manual : s.type ≡ connector → s.scan_interval_minutes ≡ pos 0
  pub in_range : InRange s.scan_interval_minutes

schedule_next_scan-IsScheduled :
    (s : DataSource) (now wall : Time)
    → (s.type ≡ connector → s.scan_interval_minutes ≡ pos 0)
    → InRange s.scan_interval_minutes
    → IsScheduled (schedule_next_scan s now wall)
unfolding schedule_next_scan
schedule_next_scan-IsScheduled s now wall m r = record {
  idle = λ e. ground arith;
  stopped = λ e. ground arith;
  due = λ e f. ground arith;
  manual = λ e. ground (arith, m);
  in_range = ground (arith, r);
}

transition-IsScheduled :
    (s t : DataSource) (target : DataSourceStatus) (now wall : Time)
    → transition s target now wall ≡ ok t
    → IsScheduled s
    → IsScheduled t
unfolding transition
transition-IsScheduled s t target now wall h v = record {
  idle = λ e. ground (arith, h, v.idle);
  stopped = λ e. ground (arith, h);
  due = λ e f. ground (arith, h, v.due);
  manual = λ e. ground (arith, h, v.manual);
  in_range = ground (arith, h, v.in_range);
}

cancel_scan-IsScheduled :
    (s t : DataSource) (now wall : Time)
    → cancel_scan s now wall ≡ ok t
    → IsScheduled s
    → IsScheduled t
unfolding cancel_scan
cancel_scan-IsScheduled s t now wall h v = record {
  idle = λ e. ground (arith, h);
  stopped = λ e. ground (arith, h);
  due = λ e f. ground (arith, h);
  manual = λ e. ground (arith, h, v.manual);
  in_range = ground (arith, h, v.in_range);
}

complete_scan-IsScheduled :
    (s t : DataSource) (i k f : ℤ) (now wall : Time)
    → complete_scan s i k f now wall ≡ ok t
    → IsScheduled s
    → IsScheduled t
unfolding complete_scan
complete_scan-IsScheduled s t i k f now wall h v = record {
  idle = λ e. ground (arith, h);
  stopped = λ e. ground (arith, h);
  due = λ e g. ground (arith, h);
  manual = λ e. ground (arith, h, v.manual);
  in_range = ground (arith, h, v.in_range);
}

fail_at-IsScheduled :
    (s t : DataSource) (i k f : ℤ) (now wall : Time)
    → fail_at s i k f now wall ≡ ok t
    → IsScheduled s
    → IsScheduled t
unfolding fail_at
fail_at-IsScheduled s t i k f now wall h v = record {
  idle = λ e. ground (arith, h);
  stopped = λ e. ground (arith, h);
  due = λ e g. ground (arith, h);
  manual = λ e. ground (arith, h, v.manual);
  in_range = ground (arith, h, v.in_range);
}

fail_scan-IsScheduled :
    (s t : DataSource) (i k f : ℤ) (now wall : Time)
    → fail_scan s i k f now wall ≡ ok t
    → IsScheduled s
    → IsScheduled t
unfolding fail_scan
fail_scan-IsScheduled s t i k f now wall h v =
    fail_at-IsScheduled s t i k f (or_now wall now) wall (ground (arith, h)) v

-- What the two writers of the policy compute before they build the source.
new_data_source-IsScheduled :
    (wall : Time) (input : DataSourceCreate) (s : DataSource)
    → new_data_source wall input ≡ ok s
    → IsScheduled s
unfolding new_data_source
new_data_source-IsScheduled wall input s h =
    let normalized = normalize-InRange input.scan_interval_minutes in
    record {
      idle = λ e. ground (arith, h);
      stopped = λ e. ground (arith, h);
      due = λ e f. ground (arith, h);
      manual = λ e. ground (arith, h);
      in_range = ground (arith, h, normalized s.scan_interval_minutes);
    }

updated-IsScheduled :
    (s : DataSource) (input : DataSourceCreate) (type : DataSourceType) (config : ConnectorConfig)
    (inc exc : List Text) (minutes : ℤ) (now wall : Time)
    → InRange minutes
    → is_archived s.status ≡ false
    → IsScheduled s
    → IsScheduled (
        updated s input type config inc exc
          (normalize_data_source_schedule_for_type type minutes)
          now
          wall)
unfolding updated normalize_data_source_schedule_for_type
updated-IsScheduled s input type config inc exc minutes now wall r a v = record {
  idle = λ e. ground (arith, v.idle);
  stopped = λ e. ground (arith, a);
  due = λ e f. ground (arith, v.due);
  manual = λ e. ground arith;
  in_range = ground (arith, r);
}

-- An update that succeeds: what it wrote.
pub update-updated :
    (s t : DataSource) (input : DataSourceCreate) (wall : Time)
    → update s input wall ≡ ok t
    → (config : ConnectorConfig) × (inc : List Text) × (exc : List Text) × (minutes : ℤ)
      × (normalize_scan_interval_minutes input.scan_interval_minutes ≡ ok minutes)
      × (is_archived s.status ≡ false)
      × (t
          ≡ updated s input
              (type_or s.type input.type)
              config
              inc
              exc
              (normalize_data_source_schedule_for_type (type_or s.type input.type) minutes)
              (or_now wall input.now)
              wall)
unfolding update
update-updated s t input wall h =
    elim (Result-cases (normalize_connector_config input.connector_config)) [
      | inr (e, p) ↦ absurd (ground (arith, h, p))
      | inl (config, p) ↦
          elim (Result-cases (normalize_data_source_patterns input.include_patterns)) [
            | inr (e, q) ↦ absurd (ground (arith, h, p, q))
            | inl (inc, q) ↦
                elim (Result-cases (normalize_data_source_patterns input.exclude_patterns)) [
                  | inr (e, r) ↦ absurd (ground (arith, h, p, q, r))
                  | inl (exc, r) ↦
                      elim (Result-cases
                        (normalize_scan_interval_minutes input.scan_interval_minutes)) [
                          | inr (e, m) ↦ absurd (ground (arith, h, p, q, r, m))
                          | inl (minutes, m) ↦ (
                            config,
                            inc,
                            exc,
                            minutes,
                            m,
                            ground (arith, h, p, q, r, m),
                            ground (arith, h, p, q, r, m),
                          )
                        ]
                ]
          ]
    ]

update-IsScheduled :
    (s t : DataSource) (input : DataSourceCreate) (wall : Time)
    → update s input wall ≡ ok t
    → IsScheduled s
    → IsScheduled t
update-IsScheduled s t input wall h v =
    let (config, inc, exc, minutes, m, a, e) = update-updated s t input wall h in
    rw e (
      updated-IsScheduled s input (type_or s.type input.type) config inc exc minutes
        (or_now wall input.now) wall (normalize-InRange _ minutes m).0 a v)

-- One call of a method of `*DataSource` that succeeds; `schedule` cannot fail.
pub data Step (s t : DataSource) : Type 0 where
  edited : (input : DataSourceCreate) (wall : Time) → update s input wall ≡ ok t → Step s t
  moved :
      (target : DataSourceStatus) (now wall : Time) → transition s target now wall ≡ ok t → Step s t
  completed : (i k f : ℤ) (now wall : Time) → complete_scan s i k f now wall ≡ ok t → Step s t
  broke : (i k f : ℤ) (now wall : Time) → fail_scan s i k f now wall ≡ ok t → Step s t
  stopped : (now wall : Time) → cancel_scan s now wall ≡ ok t → Step s t
  planned : (now wall : Time) → t ≡ schedule_next_scan s now wall → Step s t

pub data Reach (s : DataSource) : DataSource → Type 0 where
  here : Reach s s
  and : {t u : DataSource} → Reach s t → Step t u → Reach s u

Step-IsScheduled : {s t : DataSource} → Step s t → IsScheduled s → IsScheduled t
Step-IsScheduled {s} {t} (edited input wall h) v = update-IsScheduled s t input wall h v
Step-IsScheduled {s} {t} (moved target now wall h) v =
    transition-IsScheduled s t target now wall h v
Step-IsScheduled {s} {t} (completed i k f now wall h) v =
    complete_scan-IsScheduled s t i k f now wall h v
Step-IsScheduled {s} {t} (broke i k f now wall h) v = fail_scan-IsScheduled s t i k f now wall h v
Step-IsScheduled {s} {t} (stopped now wall h) v = cancel_scan-IsScheduled s t now wall h v
Step-IsScheduled {s} {t} (planned now wall h) v =
    rw h (schedule_next_scan-IsScheduled s now wall v.manual v.in_range)

Reach-IsScheduled : {s t : DataSource} → Reach s t → IsScheduled s → IsScheduled t
Reach-IsScheduled here v = v
Reach-IsScheduled (and r s) v = Step-IsScheduled s (Reach-IsScheduled r v)

-- Whatever methods are called after NewDataSource, the source has a time of its next scan exactly
-- when it has a scan interval and is not archived, a connector has no interval, and the interval is
-- off or from 5 to 43200 minutes.
pub life-IsScheduled :
    (wall : Time) (input : DataSourceCreate) (s t : DataSource)
    → new_data_source wall input ≡ ok s
    → Reach s t
    → IsScheduled t
life-IsScheduled wall input s t h r =
    Reach-IsScheduled r (new_data_source-IsScheduled wall input s h)
