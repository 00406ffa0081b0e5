-- ===== src/Worker/Plans.antt =====
-- source_plan.go: what a scan would do with each entry of a source. The tree of the file system, in the
-- order in which filepath.WalkDir walks it, is an argument, and so is the encoder of a summary.
use nexus_local.Prelude.{
  ℕ, ◌+◌, List, [], ◌∷◌, ◌++◌, Bool, true, false, not, ◌&&◌, ◌||◌, ltb, leb, length, Option, none,
  some, if◌then◌else◌, is_nonpositive, magnitude,
}
use nexus_local.Result.{Error, Result, ok, err, other_error, reject_if}
use nexus_local.Action.{Action, Context, pure, lift, attempt, ◌>>=◌}
use nexus_local.Text.{Text, text, text_Eq, text_eq, is_empty}
use nexus_local.Text.Decimal.{decimal}
use nexus_local.Clock.{Time}
use nexus_local.Map
use nexus_local.Map.{Map}
use nexus_local.Domain.Ids.{JobId, DataSourceId}
use nexus_local.Domain.DataSource.{DataSource, is_archived}
use nexus_local.Domain.Job.{Job, source_plan}
use nexus_local.Store.{Store}
use nexus_local.Store.Sources.{get_data_source}
use nexus_local.Store.Jobs.{claim_next_queued_job, type_eq}
use nexus_local.Ingest.Kinds.{validate_document_type}
use nexus_local.Worker.{Claimed, processed, withdrawn, settle}
use nexus_local.Worker.Policy.{
  SourceScanPolicy, Library, source_pattern_matches, normalized, should_skip_directory,
  should_skip_name, content_type_for_path,
}

-- A file: its path below the root, its name, and what Info returns.
pub record FileEntry : Type 0 where
  pub path : Text
  pub name : Text
  pub is_symlink : Bool
  pub info : Result ℕ

-- `broken` is a call of the function with an error and its text.
mutual
  pub data Entry : Type 0 where
    broken : Text → Text → Entry
    file : FileEntry → Entry
    folder : Text → Text → Entries → Entry

  pub data Entries : Type 0 where
    no_entries : Entries
    and_entries : Entry → Entries → Entries

pub record SourcePlanSample : Type 0 where
  pub path : Text
  pub outcome : Text
  pub reason : Text
  pub size_bytes : ℕ
  pub message : Text

pub record SourcePlanSummary : Type 0 where
  pub total_entries : ℕ
  pub files_seen : ℕ
  pub would_import : ℕ
  pub skipped : ℕ
  pub failed : ℕ
  pub estimated_bytes : ℕ
  pub reasons : Map Text ℕ
  pub samples : List SourcePlanSample

unfoldable pub no_summary : SourcePlanSummary
no_summary = record {
  total_entries = 0;
  files_seen = 0;
  would_import = 0;
  skipped = 0;
  failed = 0;
  estimated_bytes = 0;
  reasons = Map.empty;
  samples = [];
}

pub data PlanOutcome : Type 0 where
  plan_import : PlanOutcome
  plan_skip : PlanOutcome
  plan_fail : PlanOutcome

unfoldable pub outcome_text : PlanOutcome → Text
outcome_text plan_import = text "would_import"
outcome_text plan_skip = text "skipped"
outcome_text plan_fail = text "failed"

unfoldable pub count_outcome : PlanOutcome → ℕ → SourcePlanSummary → SourcePlanSummary
count_outcome plan_import size s = record s {
  would_import = s.would_import + 1;
  estimated_bytes = s.estimated_bytes + size;
}
count_outcome plan_skip size s = record s { skipped = s.skipped + 1 }
count_outcome plan_fail size s = record s { failed = s.failed + 1 }

abbrev pub or_zero : Option ℕ → ℕ
or_zero none = 0
or_zero (some n) = n

-- `if reason != "" { s.Reasons[reason]++ }`
unfoldable pub count_reason : Text → SourcePlanSummary → SourcePlanSummary
count_reason reason s =
    if is_empty reason
    then s
    else record s { reasons = Map.put s.reasons reason (or_zero (Map.get s.reasons reason) + 1) }

unfoldable pub keep_sample : SourcePlanSample → SourcePlanSummary → SourcePlanSummary
keep_sample sample s =
    if leb 240 (length s.samples) then s else record s { samples = s.samples ++ sample ∷ [] }

unfoldable pub add : PlanOutcome → Text → Text → ℕ → Text → SourcePlanSummary → SourcePlanSummary
unfolding count_outcome count_reason keep_sample outcome_text
add outcome reason path size message s =
    keep_sample
      (record {
        path = path;
        outcome = outcome_text outcome;
        reason = reason;
        size_bytes = size;
        message = message;
      })
      (count_reason reason (count_outcome outcome size s))

-- `describe` is the text of an error, `encode` is json.Marshal of a summary, and `stat` says whether
-- the root is a directory.
pub record SourcePlanWorker : Type 0 where
  pub policy : SourceScanPolicy
  pub library : Library
  pub describe : Error → Text
  pub encode : SourcePlanSummary → Result Text
  pub stat : Text → Result Bool
  pub walk : Text → Entries
  pub wall : Time

pub record SourcePlanResult : Type 0 where
  pub job_id : JobId
  pub source_id : DataSourceId
  pub summary : SourcePlanSummary

-- The message of a file that is too large.
unfoldable pub too_large_message : ℕ → ℕ → Text
too_large_message size most =
    decimal size ++ (text " bytes exceeds scan limit of " ++ (decimal most ++ text " bytes"))

module _ (worker : SourcePlanWorker) (policy : SourceScanPolicy) (source : DataSource) where
  abbrev pub is_too_large : ℕ → Bool
  is_too_large size =
      not (is_nonpositive policy.max_file_bytes) && ltb (magnitude policy.max_file_bytes) size

  -- A file with its size.
  unfoldable pub plan_sized : FileEntry → ℕ → SourcePlanSummary → SourcePlanSummary
  unfolding add too_large_message
  plan_sized f size s =
      if is_too_large size
      then add plan_skip (text "too_large") f.path size
          (too_large_message size (magnitude policy.max_file_bytes)) s
      else elim (validate_document_type worker.library.case_table f.path
          (content_type_for_path worker.library f.path)) [
            | err e ↦ add plan_skip (text "unsupported_type") f.path size (worker.describe e) s
            | ok u ↦ add plan_import [] f.path size [] s
          ]

  abbrev pub plan_info : FileEntry → Result ℕ → SourcePlanSummary → SourcePlanSummary
  plan_info f (err e) s = add plan_fail (text "stat_failed") f.path 0 (worker.describe e) s
  plan_info f (ok size) s = plan_sized f size s

  unfoldable pub plan_file : FileEntry → SourcePlanSummary → SourcePlanSummary
  unfolding plan_sized
  plan_file f s =
      if f.is_symlink
      then add plan_skip (text "symlink") f.path 0 (text "symbolic links are skipped") s
      else if should_skip_name policy f.name
      then add plan_skip (text "policy") f.path 0 (text "hidden file excluded by scan policy") s
      else if source_pattern_matches worker.library source.exclude_patterns f.path false
      then add plan_skip (text "excluded") f.path 0 (text "file excluded by source pattern") s
      else if ltb 0 (length source.include_patterns)
          && not (source_pattern_matches worker.library source.include_patterns f.path false)
      then add plan_skip (text "not_included") f.path 0
          (text "file does not match source include patterns") s
      else plan_info f f.info s

  -- What the function of the walk says of a directory: the reason and the message of SkipDir.
  unfoldable pub skipped_directory : Text → Text → Option (Text × Text)
  skipped_directory path name =
      if source_pattern_matches worker.library source.exclude_patterns path true
      then some (text "excluded", text "directory excluded by source pattern")
      else if should_skip_name policy name || should_skip_directory worker.library policy name
      then some (text "policy", text "directory excluded by scan policy")
      else none

  -- The walk below the root, in which a directory that is skipped is not entered.
  unfoldable mutual
    pub plan_entry : Entry → SourcePlanSummary → SourcePlanSummary
    plan_entry (broken path message) s = add plan_fail (text "walk_error") path 0 message s
    plan_entry (file f) s =
        plan_file f
          (record s { total_entries = s.total_entries + 1; files_seen = s.files_seen + 1 })
    plan_entry (folder path name entries) s =
        let counted = record s { total_entries = s.total_entries + 1 } in
        elim (skipped_directory path name) [
          | none ↦ plan_entries entries counted
          | some (reason, message) ↦ add plan_skip reason (path ++ text "/") 0 message counted
        ]

    pub plan_entries : Entries → SourcePlanSummary → SourcePlanSummary
    plan_entries no_entries s = s
    plan_entries (and_entries e rest) s = plan_entries rest (plan_entry e s)

module _ (worker : SourcePlanWorker) (ctx : Context) where
  -- ctx.Err() is asked at each entry, the root included.
  abbrev pub walk_root : DataSource → Result Bool → Result SourcePlanSummary
  walk_root source (err e) = err other_error
  walk_root source (ok false) = err other_error
  walk_root source (ok true) = elim ctx [
    | some e ↦ err e
    | none ↦ ok (
        plan_entries worker (normalized worker.library worker.policy) source
          (worker.walk source.root_path) no_summary)
  ]

  unfoldable pub plan_source : DataSource → Result SourcePlanSummary
  unfolding plan_entries no_summary
  plan_source source = walk_root source (worker.stat source.root_path)

  unfoldable pub is_unsupported : Job → Bool
  is_unsupported job =
      not (type_eq job.type source_plan)
      || not (text_eq job.resource_type (text "data_source"))
      || is_empty job.resource_id

  unfoldable pub process_claimed_job : Job → Action Store (Claimed SourcePlanResult)
  unfolding plan_source is_unsupported
  process_claimed_job job = do
    _ ← lift (reject_if (is_unsupported job) other_error)
    source ← get_data_source ctx job.tenant_id job.resource_id
    if is_archived source.status
        then pure
            (withdrawn (record { job_id = job.id; source_id = source.id; summary = no_summary }))
        else (do
          summary ← lift (plan_source source)
          pure (processed (record { job_id = job.id; source_id = source.id; summary = summary })))

  -- The end of ProcessNext: the job gets the encoded summary where there is a result.
  unfoldable pub finish_plan :
      Time → Job → Result (Claimed SourcePlanResult) → Action Store SourcePlanResult
  finish_plan now job (ok (processed result)) = do
    encoded ← lift (worker.encode result.summary)
    settle worker.describe ctx now worker.wall (record job { result_json = encoded })
        (ok (processed result))
  finish_plan now job other = settle worker.describe ctx now worker.wall job other

  unfoldable pub process_next : Time → Time → Action Store SourcePlanResult
  unfolding process_claimed_job finish_plan
  process_next claim_now end_now = do
    job ← claim_next_queued_job ctx claim_now worker.wall (source_plan ∷ [])
    attempt (process_claimed_job job) (finish_plan end_now job)
