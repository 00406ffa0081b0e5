-- ===== src/Domain/DataSource/Archive.antt =====
-- data_source.go: archiving a source, and the end of a scan.
use nexus_local.Prelude.{
  ◌≡◌, refl, arith, Option, none, some, if◌then◌else◌, ap, ◌∙◌, ◌⊎◌, inl, inr, ℤ, is_nonpositive,
}
use nexus_local.Result.{ok}
use nexus_local.Clock.{Time, or_now, add_minutes}
use nexus_local.Domain.DataSource.{
  DataSource, DataSourceStatus, active, failed, archived, transition, complete_scan, fail_scan,
  cancel_scan, schedule_next_scan,
}
use nexus_local.Domain.DataSource.Schedule.{
  Step, Reach, edited, moved, completed, broke, stopped, planned, here, and, IsScheduled,
  update-updated,
}

archived_stays : {s t : DataSource} → Step s t → s.status ≡ archived → s.next_scan_at ≡ none → t ≡ s
archived_stays {s} {t} (edited input wall h) a n =
    absurd (ground (arith, (update-updated s t input wall h).5))
archived_stays {s} {t} (moved target now wall h) a n = unfold transition in ground (arith, h)
archived_stays {s} {t} (completed i k f now wall h) a n = unfold complete_scan in ground (arith, h)
archived_stays {s} {t} (broke i k f now wall h) a n = unfold fail_scan in ground (arith, h)
archived_stays {s} {t} (stopped now wall h) a n = unfold cancel_scan in ground (arith, h)
archived_stays {s} {t} (planned now wall h) a n = unfold schedule_next_scan in ground (arith, h)

-- An archived source that has no next scan, as every archived source of a life has, is never changed
-- again by any sequence of method calls.
pub archived_absorbs : {s t : DataSource} → Reach s t → IsScheduled s → s.status ≡ archived → t ≡ s
archived_absorbs here v a = refl
archived_absorbs {s} {t} (and {t = m} r q) v a =
    let same : m ≡ s = archived_absorbs r v a in
    archived_stays q (ap (λ (x : DataSource). x.status) same ∙ a)
      (ap (λ (x : DataSource). x.next_scan_at) same ∙ v.stopped (ground arith))
    ∙ same

-- The time of the next scan after a scan that ended at a time.
abbrev next_after : ℤ → Time → Option Time
next_after minutes t = if is_nonpositive minutes then none else some (add_minutes t minutes)

-- The end of a scan, for a source with an interval or without one. A scan that completes or is canceled
-- leaves the source active, and one that fails leaves it failed. In all three cases the source is
-- updated at the end of the scan, and its next scan is planned: that many minutes after the end where
-- its interval is positive, and none otherwise.
pub scan_end :
    (s t : DataSource) (status : DataSourceStatus) (i k f : ℤ) (now wall : Time)
    → ((complete_scan s i k f now wall ≡ ok t) × (status ≡ active))
      ⊎ (((fail_scan s i k f now wall ≡ ok t) × (status ≡ failed))
          ⊎ ((cancel_scan s now wall ≡ ok t) × (status ≡ active)))
    → (t.status ≡ status)
      × (t.next_scan_at ≡ next_after s.scan_interval_minutes (or_now wall now))
      × (t.updated_at ≡ or_now wall now)
unfolding complete_scan fail_scan cancel_scan or_now
scan_end s t status i k f now wall (inl (h, e)) = ground (arith, h, e)
scan_end s t status i k f now wall (inr (inl (h, e))) = ground (arith, h, e)
scan_end s t status i k f now wall (inr (inr (h, e))) = ground (arith, h, e)
