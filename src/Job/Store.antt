-- ===== src/Job/Store.antt =====
-- job/memory/job_store.go: the in-memory JobStore. What is kept and what is handed out are
-- snapshots, so no caller shares a Job with the store.
pub mod Laws
use ddd_qce.Common.{
  String, Bool, true, false, Option, none, some, List, [], ◌∷◌, if◌then◌else◌, Dict, lookup, insert,
  delete, is_some,
}
use ddd_qce.Errors.{Err, Result, ok, error, wrap, Arg, err_already_exists, err_not_found}
use ddd_qce.Job.{Job, JobStatus, is_status, snapshot}

pub record InMemoryJobStore (Cmd Res : Type 0) : Type 0 where
  pub jobs : Dict (Job Cmd Res)

-- The error of a missing job, and of a duplicate one.
abbrev pub job_error : String → Err → Err
job_error id e = wrap "job %s: %w" (Arg.str id ∷ []) e

module _ {Cmd Res : Type 0} where
  unfoldable pub new_job_store : InMemoryJobStore Cmd Res
  new_job_store = record { jobs = [] }

  unfoldable pub create :
      InMemoryJobStore Cmd Res → Job Cmd Res → InMemoryJobStore Cmd Res × Option Err
  create s job =
      if is_some (lookup job.id s.jobs)
      then (s, some (job_error job.id err_already_exists))
      else (record s { jobs = insert job.id (snapshot job) s.jobs }, none)

  unfoldable pub get : InMemoryJobStore Cmd Res → String → Result (Job Cmd Res)
  get s id = elim (lookup id s.jobs) [
    | none ↦ error (job_error id err_not_found)
    | some job ↦ ok (snapshot job)
  ]

  unfoldable pub update :
      InMemoryJobStore Cmd Res → Job Cmd Res → InMemoryJobStore Cmd Res × Option Err
  update s job =
      if is_some (lookup job.id s.jobs)
      then (record s { jobs = insert job.id (snapshot job) s.jobs }, none)
      else (s, some (job_error job.id err_not_found))

  unfoldable pub list_from : Dict (Job Cmd Res) → JobStatus → List (Job Cmd Res)
  list_from [] status = []
  list_from ((k, job) ∷ rest) status =
      let others = list_from rest status in
      if is_status (snapshot job).status status then snapshot job ∷ others else others

  unfoldable pub list : InMemoryJobStore Cmd Res → JobStatus → List (Job Cmd Res)
  unfolding list_from
  list s status = list_from s.jobs status

  unfoldable pub delete_job :
      InMemoryJobStore Cmd Res → String → InMemoryJobStore Cmd Res × Option Err
  delete_job s id =
      if is_some (lookup id s.jobs)
      then (record s { jobs = delete id s.jobs }, none)
      else (s, some (job_error id err_not_found))
