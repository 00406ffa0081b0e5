-- ===== src/Domain/Job.antt =====
-- job.go: a unit of background work and its state machine. A method that mutates `*Job` returns the
-- new job; where it returns an error the job is as it was.
pub mod Life
pub mod Progress
use nexus_local.Prelude.{
  ℕ, ◌+◌, [], Bool, true, false, not, ◌||◌, ◌≡◌, Option, none, some, if◌then◌else◌,
}
use nexus_local.Result.{Result, ok, err, invalid_entity, invalid_state_transition, ◌>>=◌}
use nexus_local.Text.{Text, text, is_empty, trim_space}
use nexus_local.Clock.{Time, or_now}
use nexus_local.Domain.Ids.{JobId, TenantId, empty_id}

-- `JobType` is a string type; a value that is none of the constants is an `other_type`.
pub data JobType : Type 0 where
  document_ingestion : JobType
  source_scan : JobType
  source_preflight : JobType
  source_plan : JobType
  embedding_backfill : JobType
  ai_turn : JobType
  evaluation : JobType
  other_type : Text → JobType

pub data JobState : Type 0 where
  queued : JobState
  running : JobState
  retrying : JobState
  succeeded : JobState
  failed : JobState
  canceled : JobState
  other_state : Text → JobState

pub record Job : Type 0 where
  pub id : JobId
  pub tenant_id : TenantId
  pub type : JobType
  pub resource_type : Text
  pub resource_id : Text
  pub state : JobState
  pub attempts : ℕ
  pub error_message : Text
  pub result_json : Text
  pub created_at : Time
  pub updated_at : Time

pub record JobCreate : Type 0 where
  pub id : JobId
  pub tenant_id : TenantId
  pub type : JobType
  pub resource_type : Text
  pub resource_id : Text
  pub now : Time

-- JobType.Valid
unfoldable pub valid_type : JobType → Bool
valid_type (other_type t) = false
valid_type _ = true

-- JobState.CanTransition
unfoldable pub can_transition : JobState → JobState → Bool
can_transition queued running = true
can_transition queued canceled = true
can_transition running succeeded = true
can_transition running failed = true
can_transition running retrying = true
can_transition running canceled = true
can_transition retrying queued = true
can_transition retrying running = true
can_transition retrying failed = true
can_transition retrying canceled = true
can_transition _ _ = false

unfoldable pub new_job : Time → JobCreate → Result Job
unfolding valid_type
new_job wall input =
    if empty_id input.id || empty_id input.tenant_id || not (valid_type input.type)
    then err invalid_entity
    else ok (record {
      id = input.id;
      tenant_id = input.tenant_id;
      type = input.type;
      resource_type = input.resource_type;
      resource_id = input.resource_id;
      state = queued;
      attempts = 0;
      error_message = [];
      result_json = [];
      created_at = or_now wall input.now;
      updated_at = or_now wall input.now;
    })

-- next == JobStateRunning
abbrev pub is_running : JobState → Bool
is_running running = true
is_running _ = false

-- next == JobStateQueued || next == JobStateRunning
abbrev pub starts_over : JobState → Bool
starts_over queued = true
starts_over running = true
starts_over _ = false

-- next == JobStateQueued || next == JobStateRunning || next == JobStateSucceeded
abbrev pub clears_error : JobState → Bool
clears_error queued = true
clears_error running = true
clears_error succeeded = true
clears_error _ = false

unfoldable pub transition : Job → JobState → Time → Time → Result Job
unfolding can_transition
transition j next now wall =
    if not (can_transition j.state next)
    then err invalid_state_transition
    else ok (record j {
      attempts = if is_running next then j.attempts + 1 else j.attempts;
      error_message = if clears_error next then [] else j.error_message;
      result_json = if starts_over next then [] else j.result_json;
      state = next;
      updated_at = or_now wall now;
    })

-- The message that `Fail` stores: the text of the cause, unless there is none or it is blank.
unfoldable pub failure_message : Option Text → Text
failure_message none = text "unknown failure"
failure_message (some cause) =
    if is_empty (trim_space cause) then text "unknown failure" else trim_space cause

unfoldable pub fail : Job → Option Text → Time → Time → Result Job
unfolding transition failure_message
fail j cause now wall = do
  moved ← transition j failed now wall
  ok (record moved { error_message = failure_message cause })
