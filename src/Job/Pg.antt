-- ===== src/Job/Pg.antt =====
-- job/pg/job_store.go: how a row of the jobs table becomes a Job again (scanJob, unmarshalTyped).
-- The JSON decoding of the command and of the result is outside, and is a parameter.
use ddd_qce.Common.{subst, sym, ℕ, ◌≡◌, ◌≢◌, String, Option, none, some, List, [], ◌∷◌, arith}
use ddd_qce.Common.Int.{ℤ}
use ddd_qce.Errors.{Result, ok, error, wrap}
use ddd_qce.Job.{
  Job, JobStatus, pending, running, with_timeout, with_max_retries, new_job, restore_job_state,
}

-- The columns as the driver scans them; a null text or time is none.
pub record JobRow : Type 0 where
  pub id : String
  pub command : List ℕ
  pub command_type : String
  pub status : JobStatus
  pub result : List ℕ
  pub result_type : Option String
  pub err : Option String
  pub created_at : ℕ
  pub started_at : Option ℕ
  pub completed_at : Option ℕ
  pub timeout_ns : ℤ
  pub retry_count : ℕ
  pub max_retries : ℤ

abbrev or_empty : Option String → String
or_empty none = ""
or_empty (some s) = s

abbrev or_zero : Option ℕ → ℕ
or_zero none = 0
or_zero (some t) = t

module _ {Cmd Res : Type 0} where
  module _ (unmarshal_command : List ℕ → String → Result Cmd)
      (unmarshal_result : List ℕ → String → Result Res) (no_command : Cmd) where
    unfoldable pub decode_result : JobRow → Result (Option Res)
    decode_result row = elim row.result [
      | [] ↦ ok none
      | b ∷ bs ↦ elim (unmarshal_result (b ∷ bs) (or_empty row.result_type)) [
        | ok r ↦ ok (some r)
        | error e ↦ error (wrap "unmarshal result: %w" [] e)
      ]
    ]

    unfoldable pub decode_command : JobRow → Result Cmd
    decode_command row = elim row.command [
      | [] ↦ ok no_command
      | b ∷ bs ↦ elim (unmarshal_command (b ∷ bs) row.command_type) [
        | ok c ↦ ok c
        | error e ↦ error (wrap "unmarshal command: %w" [] e)
      ]
    ]

    -- The job made from the decoded columns: the error of RestoreJobState is dropped.
    unfoldable pub restored : JobRow → Cmd → Option Res → ℕ → Job Cmd Res
    restored row cmd result now =
        (restore_job_state
          (new_job row.id cmd (with_timeout row.timeout_ns ∷ with_max_retries row.max_retries ∷ [])
            now)
          row.status result (or_empty row.result_type) (or_empty row.err) (or_zero row.started_at)
          (or_zero row.completed_at)).0

    unfoldable pub scan_job : JobRow → ℕ → Result (Job Cmd Res)
    scan_job row now = elim (decode_result row) [
      | error e ↦ error e
      | ok result ↦ elim (decode_command row) [
        | error e ↦ error e
        | ok cmd ↦ ok (restored row cmd result now)
      ]
    ]

    -- What is left of a row in a job.
    abbrev pub Loses : JobRow → ℕ → Job Cmd Res → Type 0
    Loses row now job =
        (row.status ≢ running → (job.status ≡ pending) × (job.result ≡ none) × (job.err ≡ ""))
        × (row.status ≡ running → (job.status ≡ running) × (job.err ≡ or_empty row.err))
        × (job.retry_count ≡ 0)
        × (job.created_at ≡ now)

    restored-Loses :
        (row : JobRow) (cmd : Cmd) (result : Option Res) (now : ℕ)
        → Loses row now (restored row cmd result now)
    unfolding restored new_job restore_job_state
    restored-Loses row cmd result now = ground arith

    scan_job-restored :
        (row : JobRow) (now : ℕ) (job : Job Cmd Res)
        → scan_job row now ≡ ok job
        → (cmd : Cmd) × (result : Option Res) × (job ≡ restored row cmd result now)
    unfolding scan_job
    scan_job-restored row now job e = go (decode_result row) (decode_command row) e
      where
        go :
            (r : Result (Option Res)) (c : Result Cmd)
            → (elim r [
              | error x ↦ error x
              | ok result ↦ elim c [ error x ↦ error x | ok cmd ↦ ok (restored row cmd result now) ]
            ])
              ≡ ok job
            → (cmd : Cmd) × (result : Option Res) × (job ≡ restored row cmd result now)
        go (error x) c h = cc
        go (ok result) (error x) h = cc
        go (ok result) (ok cmd) h = (cmd, result, cc)

    -- A job that is read back from the table is running if the row is: every other row, be it
    -- completed, failed or cancelled, comes back as a pending job with no result and no error. The
    -- retry count is 0 whatever the row's, and the creation time is the time of the reading.
    pub scan_job-Loses :
        (row : JobRow) (now : ℕ) (job : Job Cmd Res) → scan_job row now ≡ ok job → Loses row now job
    scan_job-Loses row now job e =
        let (cmd, result, same) = scan_job-restored row now job e in
        subst (Loses row now) (sym same) (restored-Loses row cmd result now)
