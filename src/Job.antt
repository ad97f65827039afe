-- ===== src/Job.antt =====
-- job/core/job.go: the Job object and its atomic operations. Each method holds the job's mutex
-- for its whole body, so it is one function from the job to the job and its results.
-- `Cmd` and `Res` stand for the `any` of commands and results; times are numbers, 0 the zero
-- time, and `time.Now()` is the argument `now`.
pub mod Ops
pub mod Invariants
pub mod Store
pub mod Manager
pub mod Pg
mod Tests
use ddd_qce.Common.{
  ℕ, ◌+◌, String, Bool, true, false, ◌||◌, not, Option, none, some, List, [], ◌∷◌, if◌then◌else◌,
}
use ddd_qce.Common.Int.{ℤ, pos, ltb_ℤ}
use ddd_qce.Errors.{Err, text, wrap, Arg}

pub data JobStatus : Type 0 where
  pending running completed failed cancelled : JobStatus

-- The text of a status, as it stands in messages.
abbrev pub status_text : JobStatus → String
status_text pending = "pending"
status_text running = "running"
status_text completed = "completed"
status_text failed = "failed"
status_text cancelled = "cancelled"

abbrev pub is_status : JobStatus → JobStatus → Bool
is_status pending pending = true
is_status running running = true
is_status completed completed = true
is_status failed failed = true
is_status cancelled cancelled = true
is_status _ _ = false

-- The `done` channel: nil until first asked for, then open, then closed.
pub data DoneChannel : Type 0 where
  unset open_channel closed_channel : DoneChannel

pub record Job (Cmd Res : Type 0) : Type 0 where
  pub id : String
  pub command : Cmd
  pub command_type : String
  pub status : JobStatus
  pub result : Option Res
  pub result_type : String
  pub err : String
  pub created_at : ℕ
  pub started_at : ℕ
  pub completed_at : ℕ
  pub timeout : ℤ
  pub retry_count : ℕ
  pub max_retries : ℤ
  pub done : DoneChannel

pub data JobOption : Type 0 where
  with_timeout : ℤ → JobOption
  with_max_retries : ℤ → JobOption

abbrev err_invalid_state_transition : Err
err_invalid_state_transition = text "invalid state transition" []

-- `validTransitions[from][to]`.
unfoldable pub is_valid_transition : JobStatus → JobStatus → Bool
is_valid_transition pending running = true
is_valid_transition running completed = true
is_valid_transition running failed = true
is_valid_transition running cancelled = true
is_valid_transition failed pending = true
is_valid_transition _ _ = false

abbrev pub is_terminal : JobStatus → Bool
is_terminal s = is_status s completed || is_status s failed || is_status s cancelled

module _ {Cmd Res : Type 0} where
  unfoldable pub apply_option : JobOption → Job Cmd Res → Job Cmd Res
  apply_option (with_timeout t) j = record j { timeout = t }
  apply_option (with_max_retries n) j = record j { max_retries = n }

  unfoldable pub apply_options : List JobOption → Job Cmd Res → Job Cmd Res
  unfolding apply_option
  apply_options [] j = j
  apply_options (o ∷ os) j = apply_options os (apply_option o j)

  unfoldable pub new_job : String → Cmd → List JobOption → ℕ → Job Cmd Res
  unfolding apply_options
  new_job id cmd opts now = apply_options opts (record {
    id = id;
    command = cmd;
    command_type = "";
    status = pending;
    result = none;
    result_type = "";
    err = "";
    created_at = now;
    started_at = 0;
    completed_at = 0;
    timeout = pos 0;
    retry_count = 0;
    max_retries = pos 0;
    done = unset;
  })

  unfoldable pub restore_job_state :
      Job Cmd Res → JobStatus → Option Res → String → String → ℕ → ℕ → Job Cmd Res × Option Err
  unfolding is_valid_transition
  restore_job_state j status result result_type err started_at completed_at =
      if is_valid_transition j.status status
      then (
        record j {
          status = status;
          result = result;
          result_type = result_type;
          err = err;
          started_at = started_at;
          completed_at = completed_at;
        },
        none,
      )
      else (
        j,
        some (
            wrap "job %s: %w: %s -> %s"
              (Arg.str j.id ∷ Arg.str (status_text j.status) ∷ Arg.str (status_text status) ∷ [])
              err_invalid_state_transition),
      )

  unfoldable pub mark_running : Job Cmd Res → ℕ → Job Cmd Res
  mark_running j now = record j { status = running; started_at = now }

  unfoldable pub try_complete : Job Cmd Res → Res → ℕ → Job Cmd Res × Bool
  try_complete j result now =
      if is_status j.status cancelled || is_status j.status pending
      then (j, false)
      else (record j { completed_at = now; status = completed; result = some result }, true)

  -- The results are `cancelled` and `shouldRetry`.
  unfoldable pub try_fail : Job Cmd Res → String → ℕ → Job Cmd Res × Bool × Bool
  try_fail j err_str now =
      if is_status j.status cancelled || is_status j.status pending
      then (j, is_status j.status cancelled, false)
      else let j' = record j { completed_at = now; status = failed; err = err_str } in
        if ltb_ℤ (pos j.retry_count) j.max_retries
        then (record j' { retry_count = j.retry_count + 1 }, false, true)
        else (j', false, false)

  unfoldable pub try_cancel : Job Cmd Res → ℕ → Job Cmd Res × Option Err
  try_cancel j now =
      if is_status j.status completed || is_status j.status cancelled
      then (
        j,
        some (
            text "job %s cannot be cancelled (status: %s)"
              (Arg.str j.id ∷ Arg.str (status_text j.status) ∷ [])),
      )
      else (record j { status = cancelled; completed_at = now }, none)

  unfoldable pub reset_for_retry : Job Cmd Res → Job Cmd Res × Option Err
  reset_for_retry j =
      if not (is_status j.status failed)
      then (j, some (text "job %s is not in failed state" (Arg.str j.id ∷ [])))
      else (
        record j { status = pending; err = ""; result = none; started_at = 0; completed_at = 0 },
        none,
      )

  -- `Done`: the job with its channel made if it was nil; the state of the channel is the result.
  unfoldable pub ask_done : Job Cmd Res → Job Cmd Res × DoneChannel
  ask_done j = elim j.done [
    | unset ↦ (record j { done = open_channel }, open_channel)
    | open_channel ↦ (j, open_channel)
    | closed_channel ↦ (j, closed_channel)
  ]

  unfoldable pub mark_done : Job Cmd Res → Job Cmd Res
  mark_done j = record j { done = closed_channel }

  unfoldable pub reset_done : Job Cmd Res → Job Cmd Res
  reset_done j = record j { done = open_channel }

  unfoldable pub snapshot : Job Cmd Res → Job Cmd Res
  snapshot j = record j { done = if is_terminal j.status then closed_channel else open_channel }
