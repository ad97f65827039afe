-- ===== src/Job/Tests.antt =====
-- Runs of the job manager, of a Job and of the stores on concrete jobs.
use ddd_qce.Job.Manager.{at_stop_check}
use ddd_qce.Common.{◌++◌}
use ddd_qce.Job.Manager.Submit.{Submitted}
use ddd_qce.Common.{
  ℕ, ◌+◌, ◌≡◌, refl, String, true, false, none, some, List, [], ◌∷◌, ◌==◌, if◌then◌else◌, lookup,
  arith,
}
use ddd_qce.Common.Int.{pos, pos_part}
use ddd_qce.Errors.{Result, ok}
use ddd_qce.Job.{
  Job, JobStatus, pending, running, failed, cancelled, closed_channel, new_job, with_max_retries,
  snapshot,
}
use ddd_qce.Job.Ops.{op_try_fail, op_try_cancel, op_mark_done, run_ops}
use ddd_qce.Job.Invariants.{SameOutcome, run_ops-SameOutcome}
use ddd_qce.Job.Store.{InMemoryJobStore}
use ddd_qce.Job.Manager.{JobManager, succeeded, raised, cancel, submit, at_unregister, exited}
use ddd_qce.Job.Manager.Calls.{by_done, replied, retry}
use ddd_qce.Job.Manager.Worker.{Executions, run_to_top}
use ddd_qce.Job.Manager.Worker.Sections.{IsReady}
use ddd_qce.Job.Manager.Worker.Verdict.{verdict, Completes, execute_job-verdict}
use ddd_qce.Job.Manager.Cancel.{
  IsOpen, cancelled_job, cancel-before_start_lost, cancel-during_execution,
}
use ddd_qce.Job.Manager.Submit.{submit-Completes}
use ddd_qce.Job.Manager.Retry.{retried_job, retry-Completes}
use ddd_qce.Job.Pg.{
  JobRow, scan_job, restored, decode_result, decode_command, Loses, scan_job-Loses,
}

abbrev job_in : JobStatus → ℕ → Job ℕ ℕ
job_in s retries = record {
  id = "a";
  command = 5;
  command_type = "";
  status = s;
  result = none;
  result_type = "";
  err = "";
  created_at = 1;
  started_at = 0;
  completed_at = 0;
  timeout = pos 0;
  retry_count = retries;
  max_retries = pos 1;
  done = closed_channel;
}

abbrev manager_with : Job ℕ ℕ → JobManager ℕ ℕ
manager_with j = record {
  store = record { jobs = ("a", j) ∷ [] };
  heap = λ q. if q == 0 then some j else none;
  next_ptr = 1;
  jobs = ("a", 0) ∷ [];
  cancelers = [];
  next_context = 0;
  cancelled_contexts = [];
  on_store_error = true;
  reported = [];
  stop_closed = false;
  closed = false;
  threads = [];
}

abbrev empty_manager : JobManager ℕ ℕ
empty_manager = record {
  store = record { jobs = [] };
  heap = λ q. none;
  next_ptr = 0;
  jobs = [];
  cancelers = [];
  next_context = 0;
  cancelled_contexts = [];
  on_store_error = false;
  reported = [];
  stop_closed = false;
  closed = false;
  threads = [];
}

-- The first execution fails, and every later one succeeds.
abbrev second_time_lucky : Executions ℕ
second_time_lucky = record {
  outcome = λ k. if k == 0 then raised "boom" else succeeded 7;
  time = λ k. 10 + k;
}

manager_with-IsReady :
    (s : JobStatus) (n : ℕ) → IsReady (manager_with (job_in s n)) 0 "a" (job_in s n)
unfolding lookup
manager_with-IsReady s n = record { on_heap = refl; named = refl; stored = refl; running = refl }

manager_with-live : (j : Job ℕ ℕ) → lookup "a" (manager_with j).jobs ≡ some 0
unfolding lookup
manager_with-live j = refl

execute_job-verdict_example :
    Completes 2 second_time_lucky 0
      (manager_with (job_in pending 0))
      0
      "a"
      (verdict (second_time_lucky).outcome 0 1)
execute_job-verdict_example =
    execute_job-verdict 2 1 second_time_lucky 0 (manager_with (job_in pending 0)) 0 "a"
      (job_in pending 0) (manager_with-IsReady pending 0) (omega arith) (omega arith)

submit-Completes_example :
    Submitted empty_manager "b"
      (new_job {Cmd = ℕ} {Res = ℕ} "b" 5 (with_max_retries (pos 2) ∷ []) 3)
      (submit empty_manager "b" 5 (with_max_retries (pos 2) ∷ []) 3)
    × Completes
        (pos_part (new_job {Cmd = ℕ} {Res = ℕ} "b" 5 (with_max_retries (pos 2) ∷ []) 3).max_retries
          + 1)
        second_time_lucky
        0
        (submit empty_manager "b" 5 (with_max_retries (pos 2) ∷ []) 3).0
        0
        "b"
        (verdict (second_time_lucky).outcome 0 (
          pos_part
            (new_job {Cmd = ℕ} {Res = ℕ} "b" 5 (with_max_retries (pos 2) ∷ []) 3).max_retries))
unfolding lookup
submit-Completes_example =
    submit-Completes empty_manager "b" 5 (with_max_retries (pos 2) ∷ []) 3 second_time_lucky refl
      refl

running-IsOpen : IsOpen running
running-IsOpen = (λ e. cc, λ e. cc)

cancel-before_start_lost_example :
    let m = manager_with (job_in pending 0) in
    let j = job_in pending 0 in
    ((cancel m "a" 9).1 ≡ none)
    × ((cancel m "a" 9).0.heap 0 ≡ some (cancelled_job j 9))
    × (lookup "a" (cancel m "a" 9).0.store.jobs ≡ some (snapshot (cancelled_job j 9)))
    × Completes 2 second_time_lucky 0
        (cancel m "a" 9).0
        0
        "a"
        (verdict (second_time_lucky).outcome 0 1)
cancel-before_start_lost_example =
    cancel-before_start_lost 2 1 second_time_lucky (manager_with (job_in pending 0)) 0 "a"
      (job_in pending 0) 9 (manager_with-IsReady pending 0) (manager_with-live (job_in pending 0))
      refl (omega arith) (omega arith)

cancel-during_execution_example :
    let (m1, e) = cancel (manager_with (job_in running 0)) "a" 9 in
    let (m2, pc) =
      run_to_top 4 m1 0 "a"
        (at_unregister (succeeded 7))
        (record { now = 12; outcome = succeeded 7 }) in
    (e ≡ none)
    × (pc ≡ exited)
    × (m2.heap 0 ≡ some (cancelled_job (job_in running 0) 9))
    × (lookup "a" m2.store.jobs ≡ some (snapshot (cancelled_job (job_in running 0) 9)))
cancel-during_execution_example =
    cancel-during_execution (manager_with (job_in running 0)) 0 "a" (job_in running 0) 9
      (succeeded 7) (record { now = 12; outcome = succeeded 7 }) (manager_with-IsReady running 0)
      (manager_with-live (job_in running 0)) refl

retry-Completes_example :
    let (m', e) = retry (manager_with (job_in failed 1)) "a" by_done in
    (e ≡ replied none)
    × IsReady m' 0 "a" (retried_job (job_in failed 1))
    × (lookup "a" m'.store.jobs ≡ some (snapshot (retried_job (job_in failed 1))))
    × (m'.threads
        ≡ (manager_with (job_in failed 1)).threads
          ++ record { ptr = 0; job_id = "a"; pc = at_stop_check } ∷ [])
    × Completes 1 second_time_lucky 0 m' 0 "a" (verdict (second_time_lucky).outcome 0 0)
retry-Completes_example =
    retry-Completes (manager_with (job_in failed 1)) 0 "a" (job_in failed 1) second_time_lucky
      (manager_with-IsReady failed 1) (manager_with-live (job_in failed 1)) refl refl refl

run_ops-SameOutcome_example :
    SameOutcome
      (job_in cancelled 0)
      (run_ops (job_in cancelled 0) (op_try_fail "boom" 5 ∷ op_try_cancel 6 ∷ op_mark_done ∷ []))
run_ops-SameOutcome_example =
    run_ops-SameOutcome (job_in cancelled 0) cancelled
      (op_try_fail "boom" 5 ∷ op_try_cancel 6 ∷ op_mark_done ∷ []) refl (tt, (tt, (tt, tt)))

abbrev two_jobs : InMemoryJobStore ℕ ℕ
two_jobs = record { jobs = ("a", job_in failed 1) ∷ ("b", job_in running 0) ∷ [] }

abbrev failed_row : JobRow
failed_row = record {
  id = "a";
  command = [];
  command_type = "";
  status = failed;
  result = [];
  result_type = none;
  err = some "boom";
  created_at = 1;
  started_at = some 2;
  completed_at = some 3;
  timeout_ns = pos 0;
  retry_count = 2;
  max_retries = pos 3;
}

abbrev decode_one : List ℕ → String → Result ℕ
decode_one bytes name = ok 1

failed_row-scanned :
    scan_job decode_one decode_one 0 failed_row 9
    ≡ ok (restored decode_one decode_one 0 failed_row 0 none 9)
unfolding scan_job decode_result decode_command
failed_row-scanned = refl

scan_job-Loses_example :
    Loses decode_one decode_one 0 failed_row 9
      (restored decode_one decode_one 0 failed_row 0 none 9)
scan_job-Loses_example =
    scan_job-Loses decode_one decode_one 0 failed_row 9
      (restored decode_one decode_one 0 failed_row 0 none 9) failed_row-scanned
