-- ===== src/Tests/Scans.antt =====
-- source_scan.go at fixed inputs: two scans of one file.
use nexus_local.Prelude.{pos, [], ◌∷◌, ◌≡◌, refl}
use nexus_local.Text.{Text, text, text_eq}
use nexus_local.Domain.DataSource.{
  DataSourceScanEntry, DataSourceScanOutcome, imported, scan_failed,
}
use nexus_local.Domain.Patterns.{member}
use nexus_local.Worker.Scans.{active_entries}

abbrev entry : DataSourceScanOutcome → Text → Text → DataSourceScanEntry
entry outcome document hash = record {
  tenant_id = text "acme";
  job_id = text "job";
  source_id = text "src";
  path = text "a.md";
  outcome = outcome;
  reason = [];
  message = [];
  document_id = document;
  size_bytes = pos 1;
  content_hash = hash;
  created_at = 1;
}

-- The import that a failed upload follows is no longer known.
forgotten :
    active_entries []
      (entry scan_failed [] (text "h2") ∷ entry imported (text "doc") (text "h1") ∷ [])
    ≡ []
unfolding active_entries member text_eq
forgotten = refl
