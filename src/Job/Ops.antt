-- ===== src/Job/Ops.antt =====
-- The operations of job/core/job.go as one alphabet, and runs of them in any order: since each
-- holds the job's mutex, every concurrent use of a Job is such a run.
use ddd_qce.Common.{ℕ, String, List, [], ◌∷◌, Option}
use ddd_qce.Job.{
  Job, JobStatus, restore_job_state, mark_running, try_complete, try_fail, try_cancel,
  reset_for_retry, ask_done, mark_done, reset_done,
}

pub data Op (Res : Type 0) : Type 0 where
  op_restore : JobStatus → Option Res → String → String → ℕ → ℕ → Op Res
  op_mark_running : ℕ → Op Res
  op_try_complete : Res → ℕ → Op Res
  op_try_fail : String → ℕ → Op Res
  op_try_cancel : ℕ → Op Res
  op_reset_for_retry : Op Res
  op_ask_done : Op Res
  op_mark_done : Op Res
  op_reset_done : Op Res

module _ {Cmd Res : Type 0} where
  unfoldable pub apply : Job Cmd Res → Op Res → Job Cmd Res
  unfolding restore_job_state mark_running try_complete try_fail try_cancel reset_for_retry ask_done
      mark_done reset_done
  apply j (op_restore s r rt e t u) = (restore_job_state j s r rt e t u).0
  apply j (op_mark_running now) = mark_running j now
  apply j (op_try_complete r now) = (try_complete j r now).0
  apply j (op_try_fail e now) = (try_fail j e now).0
  apply j (op_try_cancel now) = (try_cancel j now).0
  apply j op_reset_for_retry = (reset_for_retry j).0
  apply j op_ask_done = (ask_done j).0
  apply j op_mark_done = mark_done j
  apply j op_reset_done = reset_done j

  unfoldable pub run_ops : Job Cmd Res → List (Op Res) → Job Cmd Res
  run_ops j [] = j
  run_ops j (o ∷ os) = run_ops (apply j o) os
