-- ===== src/Job/Manager/Worker.antt =====
-- `executeJob` of job/memory/job_manager.go with nobody else acting on the job: the sections in a
-- row, and the loop over them.
pub mod Sections
pub mod Passes
pub mod Verdict
use ddd_qce.Common.{
  ◌∙◌, ap, lookup-delete_self, ◌∷◌, is_some, lookup-insert_self, ℕ, zero, suc, ◌+◌, ◌-◌, ◌≤◌, ◌<◌,
  ◌≡◌, refl, String, Bool, true, false, Option, none, some, ◌==◌, Dict, lookup, insert, delete,
  arith, if◌then◌else◌,
}
use ddd_qce.Common.Int.{ℤ, pos, pos_part, ltb_ℤ}
use ddd_qce.Job.{
  Job, JobStatus, pending, running, completed, failed, cancelled, closed_channel, snapshot,
  mark_running, try_complete, try_fail, mark_done,
}
use ddd_qce.Job.Store.{InMemoryJobStore, update}
use ddd_qce.Job.Manager.{
  JobManager, Outcome, succeeded, raised, WorkerPc, at_stop_check, at_mark_running,
  at_update_running, at_register, at_execute, at_unregister, at_settle, at_update_retry,
  at_update_final, at_mark_done, exited, Input, worker_step, put, modify, update_or_report,
  store_update, settle, context_timeout, register_canceler,
}

-- The k-th execution of the command, and the time of it.
pub record Executions (Res : Type 0) : Type 0 where
  pub outcome : ℕ → Outcome Res
  pub time : ℕ → ℕ

module _ {Cmd Res : Type 0} where
  -- Sections in a row until the worker is back at the top of its loop, or has left it.
  unfoldable pub run_to_top :
      ℕ
      → JobManager Cmd Res
      → ℕ
      → String
      → WorkerPc Res
      → Input Res
      → JobManager Cmd Res × WorkerPc Res
  run_to_top zero m p id pc i = (m, pc)
  run_to_top (suc n) m p id at_stop_check i = (m, at_stop_check)
  run_to_top (suc n) m p id exited i = (m, exited)
  run_to_top (suc n) m p id pc i =
      let (m', pc') = worker_step m p id pc i in run_to_top n m' p id pc' i

  -- One pass of the loop: at most nine sections.
  unfoldable pub iteration :
      JobManager Cmd Res → ℕ → String → Input Res → JobManager Cmd Res × WorkerPc Res
  iteration m p id i =
      let (m', pc) = worker_step m p id at_stop_check i in run_to_top 8 m' p id pc i

  -- The whole of `executeJob`, from its k-th execution on; `none` means that the fuel, one for
  -- each pass, ran out.
  unfoldable pub execute_job :
      ℕ → Executions Res → ℕ → JobManager Cmd Res → ℕ → String → Option (JobManager Cmd Res)
  execute_job zero env k m p id = none
  execute_job (suc fuel) env k m p id =
      let (m', pc) = iteration m p id (record { now = env.time k; outcome = env.outcome k }) in
      let again = execute_job fuel env (k + 1) m' p id in
      elim pc [ at_stop_check ↦ again | _ ↦ some m' ]
