-- ===== src/Job/Manager/Submit.antt =====
-- Submit and Retry of job/memory/job_manager.go: the worker that they start finds its job ready.
use ddd_qce.Common.{
  subst, ℕ, ◌+◌, ◌≡◌, refl, sym, String, false, none, some, lookup, arith, lookup-insert_self, List,
  [], ◌∷◌, ◌++◌, insert,
}
use ddd_qce.Common.Int.{pos_part}
use ddd_qce.Errors.{Result, ok, error, err_already_exists}
use ddd_qce.Job.{
  Job, JobOption, pending, new_job, apply_options, with_timeout, with_max_retries, snapshot,
}
use ddd_qce.Job.Store.{create, job_error}
use ddd_qce.Job.Manager.{JobManager, at_stop_check, put, alloc, start_worker, submit, submit_job}
use ddd_qce.Job.Manager.Worker.{Executions}
use ddd_qce.Job.Manager.Worker.Sections.{IsReady}
use ddd_qce.Job.Manager.Worker.Verdict.{verdict, Completes, execute_job-verdict}

-- What new_job takes from its arguments alone, whatever the options.
apply_options-keeps :
    {Cmd Res : Type 0} (j : Job Cmd Res) (os : List JobOption)
    → ((apply_options os j).id ≡ j.id)
      × ((apply_options os j).status ≡ j.status)
      × ((apply_options os j).retry_count ≡ j.retry_count)
unfolding apply_options
apply_options-keeps j [] = (refl, refl, refl)
apply_options-keeps j (with_timeout t ∷ os) = apply_options-keeps (record j { timeout = t }) os
apply_options-keeps j (with_max_retries n ∷ os) =
    apply_options-keeps (record j { max_retries = n }) os

new_job-keeps :
    {Cmd : Type 0} (Res : Type 0) (id : String) (cmd : Cmd) (opts : List JobOption) (now : ℕ)
    → let j : Job Cmd Res = new_job id cmd opts now in
      (j.id ≡ id) × (j.status ≡ pending) × (j.retry_count ≡ 0)
unfolding new_job
new_job-keeps Res id cmd opts now = apply_options-keeps _ opts

module _ {Cmd Res : Type 0} where
  create-free :
      (m : JobManager Cmd Res) (j : Job Cmd Res)
      → lookup j.id m.store.jobs ≡ none
      → create m.store j ≡ (record { jobs = insert j.id (snapshot j) m.store.jobs }, none)
  unfolding create
  create-free m j free = rw free

  abbrev started : JobManager Cmd Res → Job Cmd Res → JobManager Cmd Res
  started m j =
      let m' =
        alloc (record m { store = record { jobs = insert j.id (snapshot j) m.store.jobs } }) j in
      start_worker (record m' { jobs = insert j.id m.next_ptr m'.jobs }) m.next_ptr j.id

  submit_job-free :
      (m : JobManager Cmd Res) (j : Job Cmd Res)
      → lookup j.id m.store.jobs ≡ none
      → submit_job m j ≡ (started m j, ok m.next_ptr)
  unfolding submit_job create
  submit_job-free m j free = ground arith

  started-IsReady :
      (m : JobManager Cmd Res) (j : Job Cmd Res)
      → m.stop_closed ≡ false
      → IsReady (started m j) m.next_ptr j.id j
        × (lookup j.id (started m j).jobs ≡ some m.next_ptr)
        × (lookup j.id (started m j).store.jobs ≡ some (snapshot j))
        × ((started m j).threads
            ≡ m.threads ++ record { ptr = m.next_ptr; job_id = j.id; pc = at_stop_check } ∷ [])
  unfolding alloc start_worker put
  started-IsReady m j live =
      let stored = lookup-insert_self j.id (snapshot j) m.store.jobs in
      (
        record { on_heap = ground arith; named = refl; stored = rw stored; running = live },
        lookup-insert_self j.id m.next_ptr m.jobs,
        stored,
        refl,
      )

  -- What Submit has set up for the new job.
  abbrev pub Submitted :
      JobManager Cmd Res → String → Job Cmd Res → JobManager Cmd Res × Result ℕ → Type 0
  Submitted m id j r =
      (r.1 ≡ ok m.next_ptr)
      × IsReady r.0 m.next_ptr id j
      × (lookup id r.0.jobs ≡ some m.next_ptr)
      × (lookup id r.0.store.jobs ≡ some (snapshot j))
      × (r.0.threads
          ≡ m.threads ++ record { ptr = m.next_ptr; job_id = id; pc = at_stop_check } ∷ [])

  submit_job-Submitted :
      (m : JobManager Cmd Res) (j : Job Cmd Res)
      → lookup j.id m.store.jobs ≡ none
      → m.stop_closed ≡ false
      → Submitted m j.id j (submit_job m j)
  submit_job-Submitted m j free live =
      let s = started-IsReady m j live in rw (submit_job-free m j free) (refl, s.0, s.1, s.2, s.3)

  -- Submit under an id that the store does not have yet, before Shutdown, returns the new pending
  -- job with no retry counted; the job is on the heap, in the manager's map and in the store, and
  -- one worker more is at the top of its loop.
  pub submit-Submitted :
      (m : JobManager Cmd Res) (id : String) (cmd : Cmd) (opts : List JobOption) (now : ℕ)
      → lookup id m.store.jobs ≡ none
      → m.stop_closed ≡ false
      → let j : Job Cmd Res = new_job id cmd opts now in
        Submitted m id j (submit m id cmd opts now) × (j.status ≡ pending) × (j.retry_count ≡ 0)
  unfolding submit
  submit-Submitted m id cmd opts now free live =
      let j : Job Cmd Res = new_job id cmd opts now in
      let k = new_job-keeps Res id cmd opts now in
      (
        subst (λ x. Submitted m x j (submit_job m j)) k.0
            (submit_job-Submitted m j (subst (λ x. lookup x m.store.jobs ≡ none) (sym k.0) free)
              live),
        k.1,
        k.2,
      )

  -- From Submit to the end: under an id that the store does not have, before Shutdown, Submit
  -- returns the new job, which is in the manager's map and in the store, and starts exactly one
  -- worker, on that job; that worker, undisturbed, ends within one pass more than the retries asked
  -- for, with the verdict of the executions.
  pub submit-Completes :
      (m : JobManager Cmd Res) (id : String) (cmd : Cmd) (opts : List JobOption) (now : ℕ)
      (env : Executions Res)
      → lookup id m.store.jobs ≡ none
      → m.stop_closed ≡ false
      → let j : Job Cmd Res = new_job id cmd opts now in
        let n = pos_part j.max_retries in
        Submitted m id j (submit m id cmd opts now)
        × Completes
            (n + 1)
            env
            0
            (submit m id cmd opts now).0
            m.next_ptr
            id
            (verdict env.outcome 0 n)
  submit-Completes m id cmd opts now env free live =
      let j : Job Cmd Res = new_job id cmd opts now in
      let (s, p, r) = submit-Submitted m id cmd opts now free live in
      (
        s,
        execute_job-verdict (pos_part j.max_retries + 1) (pos_part j.max_retries) env 0
            (submit m id cmd opts now).0 m.next_ptr id j s.1 (omega (arith, r)) (omega arith),
      )

  -- Submit under an id that the store has returns ErrAlreadyExists and starts nothing.
  pub submit-duplicate :
      (m : JobManager Cmd Res) (id : String) (cmd : Cmd) (opts : List JobOption) (now : ℕ)
      (old : Job Cmd Res)
      → lookup id m.store.jobs ≡ some old
      → submit m id cmd opts now ≡ (m, error (job_error id err_already_exists))
  unfolding submit submit_job create
  submit-duplicate m id cmd opts now old taken =
      let k = new_job-keeps Res id cmd opts now in ground (arith, k)
