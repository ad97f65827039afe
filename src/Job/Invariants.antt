-- ===== src/Job/Invariants.antt =====
-- What holds of a Job after any run of its operations: job/core/job.go.
use ddd_qce.Common.{◌∙◌, ℕ, ◌≤◌, ◌≡◌, refl, String, List, [], ◌∷◌, arith, All}
use ddd_qce.Common.Int.{pos_part}
use ddd_qce.Job.{
  Job, JobOption, JobStatus, completed, cancelled, new_job, apply_options, with_timeout,
  with_max_retries,
}
use ddd_qce.Job.Ops.{Op, op_mark_running, op_try_complete, op_try_fail, apply, run_ops}

-- The operations that leave a job of the given status as it is: on a cancelled job all but
-- MarkRunning, on a completed one all but the three that the worker calls.
abbrev pub Harmless : {Res : Type 0} → JobStatus → Op Res → Type 0
Harmless cancelled (op_mark_running now) = ⊥
Harmless cancelled _ = Unit
Harmless completed (op_mark_running now) = ⊥
Harmless completed (op_try_complete r now) = ⊥
Harmless completed (op_try_fail e now) = ⊥
Harmless completed _ = Unit
Harmless _ _ = ⊥

module _ {Cmd Res : Type 0} where
  -- The retries used never exceed the retries allowed; a negative allowance allows none.
  abbrev pub WithinBudget : Job Cmd Res → Type 0
  WithinBudget j = j.retry_count ≤ pos_part j.max_retries

  pub apply-WithinBudget :
      (j : Job Cmd Res) (o : Op Res) → WithinBudget j → WithinBudget (apply j o)
  unfolding apply
  apply-WithinBudget j o h = ground arith

  run_ops-WithinBudget :
      (j : Job Cmd Res) (os : List (Op Res)) → WithinBudget j → WithinBudget (run_ops j os)
  unfolding run_ops
  run_ops-WithinBudget j [] h = h
  run_ops-WithinBudget j (o ∷ os) h = run_ops-WithinBudget (apply j o) os (apply-WithinBudget j o h)

  apply_options-retry_count :
      (j : Job Cmd Res) (os : List JobOption) → (apply_options os j).retry_count ≡ j.retry_count
  unfolding apply_options
  apply_options-retry_count j [] = refl
  apply_options-retry_count j (with_timeout t ∷ os) =
      apply_options-retry_count (record j { timeout = t }) os
  apply_options-retry_count j (with_max_retries n ∷ os) =
      apply_options-retry_count (record j { max_retries = n }) os

  -- Whatever the options and whatever operations follow, in whatever order, a job never counts
  -- more retries than its maximum, taken as 0 where it is negative.
  pub run_ops-new_job_budget :
      (id : String) (cmd : Cmd) (opts : List JobOption) (now : ℕ) (os : List (Op Res))
      → WithinBudget (run_ops (new_job id cmd opts now) os)
  unfolding new_job
  run_ops-new_job_budget id cmd opts now os =
      run_ops-WithinBudget _ os (omega (arith, apply_options-retry_count _ opts))

  -- The identity and the configuration of a job.
  abbrev pub Fixed : Job Cmd Res → Job Cmd Res → Type 0
  Fixed j k =
      (k.id ≡ j.id)
      × (k.command ≡ j.command)
      × (k.command_type ≡ j.command_type)
      × (k.created_at ≡ j.created_at)
      × (k.timeout ≡ j.timeout)
      × (k.max_retries ≡ j.max_retries)

  apply-Fixed : (j : Job Cmd Res) (o : Op Res) → Fixed j (apply j o)
  unfolding apply
  apply-Fixed j o = ground arith

  Fixed-trans : (j k l : Job Cmd Res) → Fixed j k → Fixed k l → Fixed j l
  Fixed-trans j k l h g = ground arith

  -- No operation changes a job's id, command, command type, creation time, timeout or maximum.
  pub run_ops-Fixed : (j : Job Cmd Res) (os : List (Op Res)) → Fixed j (run_ops j os)
  unfolding run_ops
  run_ops-Fixed j [] = ground arith
  run_ops-Fixed j (o ∷ os) =
      Fixed-trans j (apply j o) (run_ops (apply j o) os) (apply-Fixed j o)
        (run_ops-Fixed (apply j o) os)

  -- What a caller sees of the outcome of a job.
  abbrev pub SameOutcome : Job Cmd Res → Job Cmd Res → Type 0
  SameOutcome j k =
      (k.status ≡ j.status)
      × (k.result ≡ j.result)
      × (k.err ≡ j.err)
      × (k.completed_at ≡ j.completed_at)
      × (k.retry_count ≡ j.retry_count)

  apply-SameOutcome :
      (j : Job Cmd Res) (s : JobStatus) (o : Op Res)
      → j.status ≡ s
      → Harmless s o
      → SameOutcome j (apply j o)
  unfolding apply
  apply-SameOutcome j cancelled (op_mark_running now) e n = elim n [ ]
  apply-SameOutcome j completed (op_mark_running now) e n = elim n [ ]
  apply-SameOutcome j completed (op_try_complete r now) e n = elim n [ ]
  apply-SameOutcome j completed (op_try_fail x now) e n = elim n [ ]
  apply-SameOutcome j cancelled o e n = ground arith
  apply-SameOutcome j completed o e n = ground arith
  apply-SameOutcome j _ o e n = elim n [ ]

  SameOutcome-trans : (j k l : Job Cmd Res) → SameOutcome j k → SameOutcome k l → SameOutcome j l
  SameOutcome-trans j k l h g = ground arith

  -- A cancelled job keeps its status, result, error, completion time and retry count under every
  -- run of operations without MarkRunning; a completed job does so under every run without
  -- MarkRunning, TryComplete and TryFail.
  pub run_ops-SameOutcome :
      (j : Job Cmd Res) (s : JobStatus) (os : List (Op Res))
      → j.status ≡ s
      → All (Harmless s) os
      → SameOutcome j (run_ops j os)
  unfolding run_ops
  run_ops-SameOutcome j s [] e n = ground arith
  run_ops-SameOutcome j s (o ∷ os) e n =
      let same = apply-SameOutcome j s o e n.0 in
      SameOutcome-trans j (apply j o) (run_ops (apply j o) os) same
        (run_ops-SameOutcome (apply j o) s os (same.0 ∙ e) n.1)
