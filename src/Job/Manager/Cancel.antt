-- ===== src/Job/Manager/Cancel.antt =====
-- Cancel of job/memory/job_manager.go against the sections of the worker.
use ddd_qce.Common.{
  ℕ, ◌+◌, ◌<◌, ◌≡◌, refl, ap, String, Option, none, some, lookup, arith, lookup-insert_self, ◌≢◌,
  delete,
}
use ddd_qce.Common.Int.{pos_part}
use ddd_qce.Errors.{Err}
use ddd_qce.Job.{
  Job, JobStatus, pending, running, completed, cancelled, try_complete, try_fail, try_cancel,
  mark_done, closed_channel, snapshot,
}
use ddd_qce.Job.Store.{update}
use ddd_qce.Job.Manager.{
  JobManager, Outcome, succeeded, raised, at_unregister, at_mark_done, exited, Input, put, modify,
  settle, worker_step, cancel, cancel_live, store_update, call_canceler,
}
use ddd_qce.Job.Manager.Worker.{Executions, run_to_top}
use ddd_qce.Job.Manager.Worker.Sections.{IsReady, modify-IsReady, put-IsReady}
use ddd_qce.Job.Manager.Worker.Verdict.{verdict, Completes, execute_job-verdict}

abbrev pub IsOpen : JobStatus → Type 0
IsOpen s = (s ≢ completed) × (s ≢ cancelled)

module _ {Cmd Res : Type 0} where
  -- The job as TryCancel leaves it, and as Cancel leaves it.
  abbrev pub tried_job : Job Cmd Res → ℕ → Job Cmd Res
  tried_job j now = record j { status = cancelled; completed_at = now }

  abbrev pub cancelled_job : Job Cmd Res → ℕ → Job Cmd Res
  cancelled_job j now = record j { status = cancelled; completed_at = now; done = closed_channel }

  try_cancel-IsOpen :
      (j : Job Cmd Res) (now : ℕ) → IsOpen j.status → try_cancel j now ≡ (tried_job j now, none)
  unfolding try_cancel
  try_cancel-IsOpen j now o = ground arith

  call_canceler-IsReady :
      (m : JobManager Cmd Res) (p : ℕ) (id : String) (j : Job Cmd Res) (c : Option ℕ)
      → IsReady m p id j
      → IsReady (call_canceler m c) p id j
  unfolding call_canceler
  call_canceler-IsReady m p id j none r = r
  call_canceler-IsReady m p id j (some c) r = record {
    on_heap = r.on_heap;
    named = r.named;
    stored = r.stored;
    running = r.running;
  }

  pub store_update-IsReady :
      (m : JobManager Cmd Res) (p : ℕ) (id : String) (j : Job Cmd Res)
      → IsReady m p id j
      → ((store_update m p).1 ≡ none)
        × IsReady (store_update m p).0 p id j
        × (lookup id (store_update m p).0.store.jobs ≡ some (snapshot j))
  unfolding store_update update
  store_update-IsReady m p id j r =
      ground (arith, lookup-insert_self j.id (snapshot j) m.store.jobs)

  abbrev before_update : JobManager Cmd Res → ℕ → String → Job Cmd Res → ℕ → JobManager Cmd Res
  before_update m p id j now =
      modify (call_canceler (put m p (tried_job j now)) (lookup id m.cancelers)) p mark_done

  abbrev cancel_with :
      JobManager Cmd Res → String → ℕ → Job Cmd Res × Option Err → JobManager Cmd Res × Option Err
  cancel_with m id p t = elim t.1 [
    | some err ↦ (put m p t.0, some err)
    | none ↦
        store_update (modify (call_canceler (put m p t.0) (lookup id m.cancelers)) p mark_done) p
  ]

  cancel_live-eq :
      (m : JobManager Cmd Res) (p : ℕ) (id : String) (j : Job Cmd Res) (now : ℕ)
      → IsOpen j.status
      → cancel_live m id p j now ≡ store_update (before_update m p id j now) p
  unfolding cancel_live
  cancel_live-eq m p id j now o = ap (cancel_with m id p) (try_cancel-IsOpen j now o)

  cancel-eq :
      (m : JobManager Cmd Res) (p : ℕ) (id : String) (j : Job Cmd Res) (now : ℕ)
      → m.heap p ≡ some j
      → lookup id m.jobs ≡ some p
      → cancel m id now ≡ cancel_live m id p j now
  unfolding cancel
  cancel-eq m p id j now h l = ground arith

  -- Cancel of a live job that is in the store of a manager that is not stopped, and that is not
  -- completed or cancelled, reports success, and leaves the job cancelled with its channel closed,
  -- on the heap and in the store.
  pub cancel-IsReady :
      (m : JobManager Cmd Res) (p : ℕ) (id : String) (j : Job Cmd Res) (now : ℕ)
      → IsReady m p id j
      → lookup id m.jobs ≡ some p
      → IsOpen j.status
      → ((cancel m id now).1 ≡ none)
        × IsReady (cancel m id now).0 p id (cancelled_job j now)
        × (lookup id (cancel m id now).0.store.jobs ≡ some (snapshot (cancelled_job j now)))
  unfolding mark_done
  cancel-IsReady m p id j now r l o =
      let r1 = put-IsReady m p id j (tried_job j now) r r.named in
      let r2 =
        call_canceler-IsReady (put m p (tried_job j now)) p id (tried_job j now)
          (lookup id m.cancelers) r1 in
      let r3 =
        modify-IsReady (call_canceler (put m p (tried_job j now)) (lookup id m.cancelers)) p id
          (tried_job j now) mark_done r2 r.named in
      rw (cancel-eq m p id j now r.on_heap l, cancel_live-eq m p id j now o)
        (store_update-IsReady (before_update m p id j now) p id (cancelled_job j now) r3)

  -- Cancel of a pending live job, after its worker has started and before MarkRunning, is lost, in
  -- a manager that is not stopped: it reports success and the job is cancelled on the heap and in
  -- the store, and yet the worker, undisturbed from then on, runs the command and ends, within one
  -- pass more than the n retries left, with the verdict of the executions, as if nobody had
  -- cancelled.
  pub cancel-before_start_lost :
      (fuel n : ℕ) (env : Executions Res) (m : JobManager Cmd Res) (p : ℕ) (id : String)
      (j : Job Cmd Res) (now : ℕ)
      → IsReady m p id j
      → lookup id m.jobs ≡ some p
      → j.status ≡ pending
      → j.retry_count + n ≡ pos_part j.max_retries
      → n < fuel
      → ((cancel m id now).1 ≡ none)
        × ((cancel m id now).0.heap p ≡ some (cancelled_job j now))
        × (lookup id (cancel m id now).0.store.jobs ≡ some (snapshot (cancelled_job j now)))
        × Completes fuel env 0 (cancel m id now).0 p id (verdict env.outcome 0 n)
  cancel-before_start_lost fuel n env m p id j now r l s b h =
      let (e, r1, stored) = cancel-IsReady m p id j now r l (ground arith) in
      (
        e,
        r1.on_heap,
        stored,
        execute_job-verdict fuel n env 0 (cancel m id now).0 p id (cancelled_job j now) r1 b h,
      )

  settle-cancelled :
      (m : JobManager Cmd Res) (p : ℕ) (j : Job Cmd Res) (o : Outcome Res) (now : ℕ)
      → m.heap p ≡ some j
      → j.status ≡ cancelled
      → settle m p o now ≡ (put m p j, at_mark_done)
  unfolding settle try_fail try_complete
  settle-cancelled m p j (succeeded r) now h s = ground arith
  settle-cancelled m p j (raised e) now h s = ground arith

  abbrev unregistered : JobManager Cmd Res → String → JobManager Cmd Res
  unregistered m id = record m { cancelers = delete id m.cancelers }

  unregistered-IsReady :
      (m : JobManager Cmd Res) (p : ℕ) (id : String) (j : Job Cmd Res)
      → IsReady m p id j
      → IsReady (unregistered m id) p id j
  unregistered-IsReady m p id j r = record {
    on_heap = r.on_heap;
    named = r.named;
    stored = r.stored;
    running = r.running;
  }

  -- The rest of the worker's pass after a Cancel during the execution.
  run_to_top-cancelled :
      (m : JobManager Cmd Res) (p : ℕ) (id : String) (j : Job Cmd Res) (o : Outcome Res)
      (i : Input Res)
      → IsReady m p id j
      → j.status ≡ cancelled
      → run_to_top 4 m p id (at_unregister o) i
        ≡ (modify (put (unregistered m id) p j) p mark_done, exited)
  unfolding run_to_top worker_step
  run_to_top-cancelled m p id j o i r s =
      ap (λ x. run_to_top 2 x.0 p id x.1 i)
        (settle-cancelled (unregistered m id) p j o i.now r.on_heap s)

  modify-store :
      (m : JobManager Cmd Res) (p : ℕ) (j : Job Cmd Res) (id : String)
      (f : Job Cmd Res → Job Cmd Res)
      → (modify (put (unregistered m id) p j) p f).store ≡ m.store
  unfolding modify put
  modify-store m p j id f = ground arith

  -- Cancel of a live job that is running, while its command executes, holds, in a manager that is
  -- not stopped: whatever the command returns afterwards, the worker leaves without a retry, and
  -- the job stays cancelled with its channel closed on the heap and in the store.
  pub cancel-during_execution :
      (m : JobManager Cmd Res) (p : ℕ) (id : String) (j : Job Cmd Res) (now : ℕ) (o : Outcome Res)
      (i : Input Res)
      → IsReady m p id j
      → lookup id m.jobs ≡ some p
      → j.status ≡ running
      → let (m1, e) = cancel m id now in
        let (m2, pc) = run_to_top 4 m1 p id (at_unregister o) i in
        (e ≡ none)
        × (pc ≡ exited)
        × (m2.heap p ≡ some (cancelled_job j now))
        × (lookup id m2.store.jobs ≡ some (snapshot (cancelled_job j now)))
  unfolding mark_done
  cancel-during_execution m p id j now o i r l s =
      let (e, r1, stored) = cancel-IsReady m p id j now r l (ground arith) in
      let m1 = (cancel m id now).0 in
      let jc = cancelled_job j now in
      let r2 =
        put-IsReady (unregistered m1 id) p id jc jc (unregistered-IsReady m1 p id jc r1) r.named in
      let r3 = modify-IsReady (put (unregistered m1 id) p jc) p id jc mark_done r2 r.named in
      rw (run_to_top-cancelled m1 p id jc o i r1 refl)
        (e, refl, r3.on_heap, rw (modify-store m1 p jc id mark_done) stored)
