-- ===== src/Job/Manager.antt =====
-- job/memory/job_manager.go: the JobManager over the in-memory store. `*Job` pointers are
-- numbers of an explicit heap, since the manager's map and a worker share one Job. A client call
-- is one function; the worker goroutine `executeJob` is cut at every point where it takes a
-- lock or blocks, so that other calls can come in between.
-- The command executor is outside: the outcome of each execution is an input. A context is a
-- number; `cancel()` adds it to `cancelled_contexts`.
pub mod Calls
pub mod Worker
pub mod Cancel
pub mod Submit
pub mod Retry
use ddd_qce.Common.{
  ℕ, ◌+◌, ◌-◌, String, Bool, true, false, Option, none, some, List, [], ◌∷◌, ◌++◌, ◌==◌,
  if◌then◌else◌, Dict, lookup, insert, delete, map,
}
use ddd_qce.Common.Int.{ℤ, pos, ltb_ℤ}
use ddd_qce.Errors.{Err, Result, ok, error, text, wrap, store_error, Arg}
use ddd_qce.Job.{
  Job, JobOption, JobStatus, pending, running, completed, failed, cancelled, is_status, new_job,
  mark_running, try_complete, try_fail, try_cancel, reset_for_retry, reset_done, mark_done,
  ask_done, restore_job_state, DoneChannel, unset, open_channel, closed_channel,
}
use ddd_qce.Job.Store.{InMemoryJobStore, create, get, update, list}

-- What `executor.Execute` returns: a result, or the text of its error.
pub data Outcome (Res : Type 0) : Type 0 where
  succeeded : Res → Outcome Res
  raised : String → Outcome Res

-- Where a worker stands in the loop of `executeJob`, before the section of that name.
pub data WorkerPc (Res : Type 0) : Type 0 where
  at_stop_check at_mark_running at_update_running at_register : WorkerPc Res
  at_execute : ℕ → Option ℤ → WorkerPc Res
  at_unregister : Outcome Res → WorkerPc Res
  at_settle : Outcome Res → WorkerPc Res
  at_update_retry at_update_final at_mark_done exited : WorkerPc Res

-- A worker has the pointer and the id of its job.
pub record Thread (Res : Type 0) : Type 0 where
  pub ptr : ℕ
  pub job_id : String
  pub pc : WorkerPc Res

pub record JobManager (Cmd Res : Type 0) : Type 0 where
  pub store : InMemoryJobStore Cmd Res
  pub heap : ℕ → Option (Job Cmd Res)
  pub next_ptr : ℕ
  pub jobs : Dict ℕ
  pub cancelers : Dict ℕ
  pub next_context : ℕ
  pub cancelled_contexts : List ℕ
  pub on_store_error : Bool
  pub reported : List Err
  pub stop_closed : Bool
  pub closed : Bool
  pub threads : List (Thread Res)

-- What the environment gives a worker's section: the time, and the outcome where it executes.
pub record Input (Res : Type 0) : Type 0 where
  pub now : ℕ
  pub outcome : Outcome Res

module _ {Cmd Res : Type 0} where
  unfoldable pub put : JobManager Cmd Res → ℕ → Job Cmd Res → JobManager Cmd Res
  put m p j = record m { heap = λ q. if q == p then some j else m.heap q }

  unfoldable pub modify : JobManager Cmd Res → ℕ → (Job Cmd Res → Job Cmd Res) → JobManager Cmd Res
  unfolding put
  modify m p f = elim (m.heap p) [ none ↦ m | some j ↦ put m p (f j) ]

  unfoldable pub handle_store_error :
      JobManager Cmd Res → String → String → Option Err → JobManager Cmd Res
  handle_store_error m id operation none = m
  handle_store_error m id operation (some e) =
      if m.on_store_error
      then record m { reported = m.reported ++ store_error id operation e ∷ [] }
      else m

  unfoldable pub store_update : JobManager Cmd Res → ℕ → JobManager Cmd Res × Option Err
  store_update m p = elim (m.heap p) [
    | none ↦ (m, none)
    | some j ↦ let (s, e) = update m.store j in (record m { store = s }, e)
  ]

  -- `if err := m.store.Update(...); err != nil { m.handleStoreError(...) }`.
  unfoldable pub update_or_report : JobManager Cmd Res → ℕ → String → String → JobManager Cmd Res
  unfolding handle_store_error store_update
  update_or_report m p id operation =
      let (m', e) = store_update m p in handle_store_error m' id operation e

  -- The execution context: with the job's timeout if that is positive.
  unfoldable pub context_timeout : Job Cmd Res → Option ℤ
  context_timeout j = if ltb_ℤ (pos 0) j.timeout then some j.timeout else none

  unfoldable pub register_canceler : JobManager Cmd Res → String → JobManager Cmd Res
  register_canceler m id = record m {
    cancelers = insert id m.next_context m.cancelers;
    next_context = m.next_context + 1;
  }

  -- TryFail or TryComplete, and which branch of the loop follows.
  unfoldable pub settle :
      JobManager Cmd Res → ℕ → Outcome Res → ℕ → JobManager Cmd Res × WorkerPc Res
  settle m p (raised e) now = elim (m.heap p) [
    | none ↦ (m, exited)
    | some j ↦
        let (j', was_cancelled, should_retry) = try_fail j e now in
        (
          put m p j',
          if was_cancelled
              then at_mark_done
              else if should_retry
              then at_update_retry
              else at_update_final,
        )
  ]
  settle m p (succeeded r) now = elim (m.heap p) [
    | none ↦ (m, exited)
    | some j ↦
        let (j', done) = try_complete j r now in
        (put m p j', if done then at_update_final else at_mark_done)
  ]

  -- One section of `executeJob`.
  unfoldable pub worker_step :
      JobManager Cmd Res → ℕ → String → WorkerPc Res → Input Res → JobManager Cmd Res × WorkerPc Res
  worker_step m p id at_stop_check i = (m, if m.stop_closed then exited else at_mark_running)
  worker_step m p id at_mark_running i = (modify m p (λ j. mark_running j i.now), at_update_running)
  worker_step m p id at_update_running i = (update_or_report m p id "update_running", at_register)
  worker_step m p id at_register i = elim (m.heap p) [
    | none ↦ (m, exited)
    | some j ↦ (register_canceler m id, at_execute m.next_context (context_timeout j))
  ]
  worker_step m p id (at_execute c t) i =
      (record m { cancelled_contexts = c ∷ m.cancelled_contexts }, at_unregister i.outcome)
  worker_step m p id (at_unregister o) i =
      (record m { cancelers = delete id m.cancelers }, at_settle o)
  worker_step m p id (at_settle o) i = settle m p o i.now
  worker_step m p id at_update_retry i = (update_or_report m p id "update_retry", at_stop_check)
  worker_step m p id at_update_final i = (update_or_report m p id "update_final", at_mark_done)
  worker_step m p id at_mark_done i = (modify m p mark_done, exited)
  worker_step m p id exited i = (m, exited)

  -- A new Job on the heap.
  unfoldable pub alloc : JobManager Cmd Res → Job Cmd Res → JobManager Cmd Res
  unfolding put
  alloc m j = record (put m m.next_ptr j) { next_ptr = m.next_ptr + 1 }

  -- `m.wg.Add(1); go m.executeJob(job, …)`.
  unfoldable pub start_worker : JobManager Cmd Res → ℕ → String → JobManager Cmd Res
  start_worker m p id = record m {
    threads = m.threads ++ record { ptr = p; job_id = id; pc = at_stop_check } ∷ [];
  }

  -- Submit of a job that is made: it goes to the store, to the manager's map and to a worker.
  unfoldable pub submit_job : JobManager Cmd Res → Job Cmd Res → JobManager Cmd Res × Result ℕ
  submit_job m job =
      let (s, e) = create m.store job in
      elim e [
        | some err ↦ (record m { store = s }, error err)
        | none ↦
            let p = m.next_ptr in
            let m' = alloc (record m { store = s }) job in
            (start_worker (record m' { jobs = insert job.id p m'.jobs }) p job.id, ok p)
      ]

  -- The id is a fresh UUID.
  unfoldable pub submit :
      JobManager Cmd Res → String → Cmd → List JobOption → ℕ → JobManager Cmd Res × Result ℕ
  submit m id cmd opts now = submit_job m (new_job id cmd opts now)

  unfoldable pub get_status : JobManager Cmd Res → String → Result (Job Cmd Res)
  get_status m id = get m.store id

  unfoldable pub call_canceler : JobManager Cmd Res → Option ℕ → JobManager Cmd Res
  call_canceler m none = m
  call_canceler m (some c) = record m { cancelled_contexts = c ∷ m.cancelled_contexts }

  -- Cancel of a job in the manager's map, and of one that is only in the store.
  unfoldable pub cancel_live :
      JobManager Cmd Res → String → ℕ → Job Cmd Res → ℕ → JobManager Cmd Res × Option Err
  cancel_live m id p j now =
      let (j', e) = try_cancel j now in
      elim e [
        | some err ↦ (put m p j', some err)
        | none ↦
            let m' = call_canceler (put m p j') (lookup id m.cancelers) in
            store_update (modify m' p mark_done) p
      ]

  unfoldable pub cancel_stored :
      JobManager Cmd Res → Result (Job Cmd Res) → ℕ → JobManager Cmd Res × Option Err
  cancel_stored m (error e) now = (m, some e)
  cancel_stored m (ok job) now =
      let (job', e) = try_cancel job now in
      elim e [
        | some err ↦ (m, some err)
        | none ↦ let (s, e') = update m.store job' in (record m { store = s }, e')
      ]

  unfoldable pub cancel : JobManager Cmd Res → String → ℕ → JobManager Cmd Res × Option Err
  cancel m id now = elim (lookup id m.jobs) [
    | none ↦ cancel_stored m (get m.store id) now
    | some p ↦ elim (m.heap p) [ none ↦ (m, none) | some j ↦ cancel_live m id p j now ]
  ]
