-- ===== src/Job/Manager/Retry.antt =====
-- Retry of job/memory/job_manager.go on a live job.
use ddd_qce.Common.{ℕ, ◌≡◌, ◌≢◌, refl, ap, ◌∙◌, String, none, some, [], ◌∷◌, ◌++◌, lookup, arith}
use ddd_qce.Common.Int.{pos_part}
use ddd_qce.Errors.{Arg, text}
use ddd_qce.Job.{
  Job, pending, failed, open_channel, closed_channel, reset_for_retry, reset_done, ask_done,
  snapshot,
}
use ddd_qce.Job.Manager.{JobManager, put, start_worker, store_update, at_stop_check}
use ddd_qce.Job.Manager.Calls.{replied, by_done, retry, retry_live, reset_job}
use ddd_qce.Job.Manager.Worker.{Executions}
use ddd_qce.Job.Manager.Worker.Sections.{IsReady, put-IsReady}
use ddd_qce.Job.Manager.Worker.Verdict.{verdict, Completes, execute_job-verdict}
use ddd_qce.Job.Manager.Cancel.{store_update-IsReady}

module _ {Cmd Res : Type 0} where
  -- The job as Retry leaves it.
  abbrev pub retried_job : Job Cmd Res → Job Cmd Res
  retried_job j = record j {
    status = pending;
    err = "";
    result = none;
    started_at = 0;
    completed_at = 0;
    done = open_channel;
  }

  abbrev reset_manager : JobManager Cmd Res → ℕ → Job Cmd Res → JobManager Cmd Res
  reset_manager m p j = (store_update (put m p (retried_job j)) p).0

  reset_job-failed :
      (m : JobManager Cmd Res) (p : ℕ) (id : String) (j : Job Cmd Res)
      → IsReady m p id j
      → j.status ≡ failed
      → reset_job m p j ≡ (reset_manager m p j, none)
  unfolding reset_job reset_for_retry reset_done
  reset_job-failed m p id j r s =
      let u =
        store_update-IsReady (put m p (retried_job j)) p id (retried_job j)
          (put-IsReady m p id j (retried_job j) r r.named) in
      ground (arith, u.0)

  retry-eq :
      (m : JobManager Cmd Res) (p : ℕ) (id : String) (j : Job Cmd Res)
      → IsReady m p id j
      → lookup id m.jobs ≡ some p
      → j.status ≡ failed
      → j.done ≡ closed_channel
      → retry m id by_done ≡ (start_worker (reset_manager m p j) p id, replied none)
  unfolding retry retry_live ask_done
  retry-eq m p id j r l s d =
      let e = r.on_heap in let q = reset_job-failed m p id j r s in ground arith

  store_update-threads : (m : JobManager Cmd Res) (p : ℕ) → (store_update m p).0.threads ≡ m.threads
  unfolding store_update
  store_update-threads m p = ground arith

  reset_manager-threads :
      (m : JobManager Cmd Res) (p : ℕ) (j : Job Cmd Res) → (reset_manager m p j).threads ≡ m.threads
  unfolding put
  reset_manager-threads m p j = store_update-threads (put m p (retried_job j)) p

  start_worker-IsReady :
      (m : JobManager Cmd Res) (p : ℕ) (id : String) (j : Job Cmd Res)
      → IsReady m p id j
      → IsReady (start_worker m p id) p id j
        × ((start_worker m p id).store ≡ m.store)
        × ((start_worker m p id).threads
            ≡ m.threads ++ record { ptr = p; job_id = id; pc = at_stop_check } ∷ [])
  unfolding start_worker
  start_worker-IsReady m p id j r = (
    record { on_heap = r.on_heap; named = r.named; stored = r.stored; running = r.running },
    refl,
    refl,
  )

  -- Retry of a live job that has failed and is done, in a manager that is not stopped, reports
  -- success, makes the job pending again, with a new channel, on the heap and in the store, and
  -- starts exactly one worker, on that job. The retries used stay counted: if they were used up, as is supposed here, that
  -- worker, undisturbed, executes the command once, and the job ends with the verdict of that
  -- execution.
  pub retry-Completes :
      (m : JobManager Cmd Res) (p : ℕ) (id : String) (j : Job Cmd Res) (env : Executions Res)
      → IsReady m p id j
      → lookup id m.jobs ≡ some p
      → j.status ≡ failed
      → j.done ≡ closed_channel
      → j.retry_count ≡ pos_part j.max_retries
      → let (m', e) = retry m id by_done in
        (e ≡ replied none)
        × IsReady m' p id (retried_job j)
        × (lookup id m'.store.jobs ≡ some (snapshot (retried_job j)))
        × (m'.threads ≡ m.threads ++ record { ptr = p; job_id = id; pc = at_stop_check } ∷ [])
        × Completes 1 env 0 m' p id (verdict env.outcome 0 0)
  retry-Completes m p id j env r l s d used =
      let u =
        store_update-IsReady (put m p (retried_job j)) p id (retried_job j)
          (put-IsReady m p id j (retried_job j) r r.named) in
      let w = start_worker-IsReady (reset_manager m p j) p id (retried_job j) u.1 in
      rw (retry-eq m p id j r l s d) (
        refl,
        w.0,
        ap (λ t. lookup id t.jobs) w.1 ∙ u.2,
        w.2
            ∙ ap (λ t. t ++ record { ptr = p; job_id = id; pc = at_stop_check } ∷ [])
                (reset_manager-threads m p j),
        execute_job-verdict 1 0 env 0 (start_worker (reset_manager m p j) p id) p id (retried_job j)
            w.0 (omega arith) (omega arith),
      )

  -- Retry of a live job that is done but has not failed is refused, and the job stays as it was.
  pub retry-not_failed :
      (m : JobManager Cmd Res) (p : ℕ) (id : String) (j : Job Cmd Res)
      → m.heap p ≡ some j
      → lookup id m.jobs ≡ some p
      → j.done ≡ closed_channel
      → j.status ≢ failed
      → ((retry m id by_done).1
          ≡ replied (some (text "job %s is not in failed state" (Arg.str j.id ∷ []))))
        × ((retry m id by_done).0.heap p ≡ some j)
        × ((retry m id by_done).0.threads ≡ m.threads)
  unfolding retry retry_live ask_done reset_job reset_for_retry put
  retry-not_failed m p id j h l d s = ground arith
