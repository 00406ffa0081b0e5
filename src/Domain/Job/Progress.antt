-- ===== src/Domain/Job/Progress.antt =====
-- job.go: attempts, failures, and the way to success.
use nexus_local.Prelude.{
  ℕ, ◌+◌, [], Bool, true, false, ◌≡◌, if◌then◌else◌, refl, Option, none, some, arith,
}
use nexus_local.Result.{ok}
use nexus_local.Text.{Text, text, is_empty, trim_space, is_space}
use nexus_local.Text.Trim.{trim_space_idem}
use nexus_local.Clock.{Time, or_now}
use nexus_local.Domain.Job.{
  Job, JobState, queued, running, retrying, succeeded, failed, can_transition, is_running,
  starts_over, clears_error, transition, fail, failure_message,
}
use nexus_local.Domain.Job.Life.{Reach, here, and, moved, broke}

-- The steps of a life that enter the state `running`.
pub starts : {j k : Job} → Reach j k → ℕ
starts here = 0
starts (and r (moved target now wall e)) = (if is_running target then 1 else 0) + starts r
starts (and r (broke cause now wall e)) = starts r

attempts-transition :
    (j k : Job) (target : JobState) (now wall : Time)
    → transition j target now wall ≡ ok k
    → k.attempts ≡ (if is_running target then 1 else 0) + j.attempts
unfolding transition
attempts-transition j k target now wall h = ground arith

attempts-fail :
    (j k : Job) (cause : Option Text) (now wall : Time)
    → fail j cause now wall ≡ ok k
    → k.attempts ≡ j.attempts
unfolding fail
attempts-fail j k cause now wall h = ground arith

-- The attempts of a job grow by one with each entry into `running`, and in no other way.
pub attempts-starts : {j k : Job} (r : Reach j k) → k.attempts ≡ starts r + j.attempts
unfolding starts
attempts-starts here = omega arith
attempts-starts {j} {k} (and {k = l} r (moved target now wall e)) =
    omega (arith, attempts-starts r, attempts-transition l k target now wall e)
attempts-starts {j} {k} (and {k = l} r (broke cause now wall e)) =
    omega (arith, attempts-starts r, attempts-fail l k cause now wall e)

failure_message-ne-blank : (cause : Option Text) → is_empty (failure_message cause) ≡ false
unfolding failure_message
failure_message-ne-blank none = refl
failure_message-ne-blank (some cause) = ground arith

default_message_trimmed : trim_space (text "unknown failure") ≡ text "unknown failure"
unfolding trim_space is_space
default_message_trimmed = refl

trim_space-failure_message :
    (cause : Option Text) → trim_space (failure_message cause) ≡ failure_message cause
unfolding failure_message
trim_space-failure_message none = default_message_trimmed
trim_space-failure_message (some cause) =
    ground (arith, trim_space_idem cause, default_message_trimmed)

-- A call of Fail that succeeds leaves the job failed with a message that is not blank and carries
-- no white space at its ends.
pub fail_message :
    (j k : Job) (cause : Option Text) (now wall : Time)
    → fail j cause now wall ≡ ok k
    → (k.state ≡ failed)
      × (is_empty k.error_message ≡ false)
      × (trim_space k.error_message ≡ k.error_message)
unfolding fail
fail_message j k cause now wall h =
    ground (arith, failure_message-ne-blank cause, trim_space-failure_message cause)

move :
    (j : Job) (target : JobState) (now wall : Time)
    → can_transition j.state target ≡ true
    → (k : Job) × Reach j k × (k.state ≡ target)
unfolding transition
move j target now wall h =
    let k : Job = record j {
      attempts = if is_running target then j.attempts + 1 else j.attempts;
      error_message = if clears_error target then [] else j.error_message;
      result_json = if starts_over target then [] else j.result_json;
      state = target;
      updated_at = or_now wall now;
    } in
    (k, and here (moved target now wall (ground (arith, h))), refl)

Reach-trans : {j k l : Job} → Reach j k → Reach k l → Reach j l
Reach-trans r here = r
Reach-trans r (and q s) = and (Reach-trans r q) s

abbrev pub is_open : JobState → Bool
is_open queued = true
is_open running = true
is_open retrying = true
is_open _ = false

finish :
    (j : Job) (now wall : Time) → j.state ≡ running → (k : Job) × Reach j k × (k.state ≡ succeeded)
unfolding can_transition
finish j now wall h = move j succeeded now wall (ground arith)

-- A job that is queued, running or waiting for a retry can still succeed.
pub open_can_succeed :
    (j : Job) (now wall : Time)
    → is_open j.state ≡ true
    → (k : Job) × Reach j k × (k.state ≡ succeeded)
unfolding can_transition
open_can_succeed j now wall h = go j.state refl h
  where
    restart : can_transition j.state running ≡ true → (k : Job) × Reach j k × (k.state ≡ succeeded)
    restart e =
        let (k, r, p) = move j running now wall e in
        let (l, q, d) = finish k now wall p in (l, Reach-trans r q, d)

    go :
        (s : JobState)
        → j.state ≡ s
        → is_open j.state ≡ true
        → (k : Job) × Reach j k × (k.state ≡ succeeded)
    go queued e o = restart (ground arith)
    go running e o = finish j now wall e
    go retrying e o = restart (ground arith)
    go _ e o = absurd (cc)
