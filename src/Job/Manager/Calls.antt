-- ===== src/Job/Manager/Calls.antt =====
-- job/memory/job_manager.go: Retry, Wait, WaitForRunning, ListByStatus, Shutdown and the recovery
-- of jobs at start.
use ddd_qce.Common.{
  ℕ, String, Bool, true, false, Option, none, some, List, [], ◌∷◌, ◌++◌, if◌then◌else◌, ◌||◌,
  lookup, insert, map,
}
use mathlib.Core.Option
use ddd_qce.Errors.{Err, Result, ok, error, text, wrap, Arg}
use ddd_qce.Job.{
  Job, JobStatus, pending, running, completed, failed, cancelled, is_status, reset_for_retry,
  reset_done, ask_done, restore_job_state, DoneChannel, unset, open_channel, closed_channel,
}
use ddd_qce.Job.Store.{get, update, list}
use ddd_qce.Job.Manager.{JobManager, put, alloc, start_worker, store_update, handle_store_error}

-- Which case of a `select` on the job's channel is taken.
pub data Wake : Type 0 where
  by_done by_timeout : Wake
  by_context : Err → Wake

-- The reply of a call that may block; `blocked` is a select none of whose cases is ready.
pub data Reply {ℓ} (A : Type ℓ) : Type ℓ where
  replied : A → Reply A
  blocked : Reply A

abbrev err_job_not_found : Err
err_job_not_found = text "job not found" []

abbrev pub is_started : JobStatus → Bool
is_started s =
    is_status s running || is_status s completed || is_status s failed || is_status s cancelled

module _ {Cmd Res : Type 0} where
  -- ResetForRetry, ResetDone and the store's Update, of the job at a pointer.
  unfoldable pub reset_job : JobManager Cmd Res → ℕ → Job Cmd Res → JobManager Cmd Res × Option Err
  unfolding put store_update
  reset_job m p j =
      let (j', e) = reset_for_retry j in
      elim e [
        | some err ↦ (put m p j', some err)
        | none ↦
            let (m', e') = store_update (put m p (reset_done j')) p in
            (m', Option.map (wrap "failed to reset job for retry: %w" []) e')
      ]

  unfoldable pub retry_live :
      JobManager Cmd Res → String → ℕ → Job Cmd Res → Wake → JobManager Cmd Res × Reply (Option Err)
  unfolding put reset_job start_worker
  retry_live m id p j (by_context e) = (put m p (ask_done j).0, replied (some e))
  retry_live m id p j by_timeout = (put m p (ask_done j).0, blocked)
  retry_live m id p j by_done =
      let (j', channel) = ask_done j in
      elim channel [
        | closed_channel ↦
            let (m', e) = reset_job m p j' in
            elim e [
              | some err ↦ (m', replied (some err))
              | none ↦ (start_worker m' p id, replied none)
            ]
        | unset ↦ (put m p j', blocked)
        | open_channel ↦ (put m p j', blocked)
      ]

  unfoldable pub retry_stored :
      JobManager Cmd Res → String → Result (Job Cmd Res) → JobManager Cmd Res × Option Err
  unfolding alloc reset_job start_worker
  retry_stored m id (error e) = (m, some e)
  retry_stored m id (ok job) =
      let (m', e) = reset_job (alloc m job) m.next_ptr job in
      elim e [
        | some err ↦ (m', some err)
        | none ↦
            (start_worker (record m' { jobs = insert id m.next_ptr m'.jobs }) m.next_ptr id, none)
      ]

  unfoldable pub retry :
      JobManager Cmd Res → String → Wake → JobManager Cmd Res × Reply (Option Err)
  unfolding retry_live retry_stored
  retry m id wake = elim (lookup id m.jobs) [
    | none ↦ let (m', e) = retry_stored m id (get m.store id) in (m', replied e)
    | some p ↦ elim (m.heap p) [ none ↦ (m, blocked) | some j ↦ retry_live m id p j wake ]
  ]

  unfoldable pub wait_live :
      JobManager Cmd Res → String → DoneChannel → Wake → Reply (Result (Job Cmd Res))
  wait_live m id channel (by_context e) = replied (error e)
  wait_live m id channel by_timeout =
      replied (error (text "job %s timed out waiting for completion" (Arg.str id ∷ [])))
  wait_live m id closed_channel by_done = replied (get m.store id)
  wait_live m id unset by_done = blocked
  wait_live m id open_channel by_done = blocked

  unfoldable pub wait :
      JobManager Cmd Res → String → Wake → JobManager Cmd Res × Reply (Result (Job Cmd Res))
  unfolding put wait_live
  wait m id wake = elim (lookup id m.jobs) [
    | none ↦ (m, replied (error (wrap "job %s: %w" (Arg.str id ∷ []) err_job_not_found)))
    | some p ↦ elim (m.heap p) [
      | none ↦ (m, blocked)
      | some j ↦ let (j', channel) = ask_done j in (put m p j', wait_live m id channel wake)
    ]
  ]

  unfoldable pub list_by_status : JobManager Cmd Res → JobStatus → List (Job Cmd Res)
  list_by_status m status = list m.store status

-- One round of WaitForRunning: the manager as it is then, whether the deadline has passed, and
-- the error of the context if it is done by the end of the pause.
pub record Poll (Cmd Res : Type 0) : Type 0 where
  pub seen : JobManager Cmd Res
  pub after_deadline : Bool
  pub context_error : Option Err

module _ {Cmd Res : Type 0} where
  -- The loop of WaitForRunning over its rounds; `blocked` means that they were too few.
  unfoldable pub wait_for_running : List (Poll Cmd Res) → String → Reply (Result (Job Cmd Res))
  wait_for_running [] id = blocked
  wait_for_running (r ∷ rs) id =
      let rest = wait_for_running rs id in
      elim (get r.seen.store id) [
        | error e ↦ replied (error (wrap "job %s: %w" (Arg.str id ∷ []) e))
        | ok job ↦
            if is_started job.status
            then replied (ok job)
            else if r.after_deadline
            then replied
                (error (text "job %s timed out waiting for running state" (Arg.str id ∷ [])))
            else elim r.context_error [ some e ↦ replied (error e) | none ↦ rest ]
      ]

  -- Shutdown up to its wait for the workers: the second call returns at once.
  unfoldable pub shutdown : JobManager Cmd Res → JobManager Cmd Res × Bool
  shutdown m = if m.closed then (m, false) else (
    record m {
      closed = true;
      stop_closed = true;
      cancelled_contexts = map (λ e. e.1) m.cancelers ++ m.cancelled_contexts;
      cancelers = [];
    },
    true,
  )

  -- Recovery of one job that was running, and of one that was pending.
  unfoldable pub recover_running : JobManager Cmd Res → Job Cmd Res → ℕ → JobManager Cmd Res
  unfolding handle_store_error
  recover_running m job now =
      let job' =
        (restore_job_state job failed none "" "process restarted during execution" 0 now).0 in
      let (s, e) = update m.store job' in
      handle_store_error (record m { store = s }) job.id "recovery_running" e

  unfoldable pub recover_pending : JobManager Cmd Res → Job Cmd Res → JobManager Cmd Res
  unfolding alloc start_worker
  recover_pending m job =
      let m' = alloc m job in
      start_worker (record m' { jobs = insert job.id m.next_ptr m'.jobs }) m.next_ptr job.id

  unfoldable pub recover_all_running :
      JobManager Cmd Res → List (Job Cmd Res) → ℕ → JobManager Cmd Res
  unfolding recover_running
  recover_all_running m [] now = m
  recover_all_running m (j ∷ js) now = recover_all_running (recover_running m j now) js now

  unfoldable pub recover_all_pending : JobManager Cmd Res → List (Job Cmd Res) → JobManager Cmd Res
  unfolding recover_pending
  recover_all_pending m [] = m
  recover_all_pending m (j ∷ js) = recover_all_pending (recover_pending m j) js

  unfoldable pub recover_jobs : JobManager Cmd Res → ℕ → JobManager Cmd Res
  unfolding recover_all_running recover_all_pending
  recover_jobs m now =
      let m' = recover_all_running m (list m.store running) now in
      recover_all_pending m' (list m'.store pending)
