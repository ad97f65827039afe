-- ===== src/Job/Manager/Worker/Verdict.antt =====
-- What `executeJob` (job/memory/job_manager.go) computes when nobody else acts on the job: the
-- first success among the executions that the retries allow.
use ddd_qce.Common.{
  ◌⊎◌, inl, inr, ℕ, zero, suc, ◌+◌, ◌<◌, ◌≡◌, refl, ap, ◌∙◌, String, Option, some, arith,
}
use ddd_qce.Common.Int.{pos_part}
use ddd_qce.Job.{Job}
use ddd_qce.Job.Manager.{JobManager, Outcome, succeeded, raised, WorkerPc, at_stop_check, Input}
use ddd_qce.Job.Manager.Worker.{Executions, execute_job}
use ddd_qce.Job.Manager.Worker.Sections.{IsReady, IsFinished}
use ddd_qce.Job.Manager.Worker.Passes.{
  Verdict, done_with, gave_up, Reports, Ends, iteration-again, iteration-failed,
  iteration-succeeded,
}

pub last_verdict : {Res : Type 0} → Outcome Res → Verdict Res
last_verdict (succeeded r) = done_with r
last_verdict (raised e) = gave_up e

-- The verdict of the k-th execution and the later ones, with n retries left.
pub verdict : {Res : Type 0} → (ℕ → Outcome Res) → ℕ → ℕ → Verdict Res
unfolding last_verdict
verdict outcome k zero = last_verdict (outcome k)
verdict outcome k (suc n) =
    let later = verdict outcome (k + 1) n in
    elim (outcome k) [ succeeded r ↦ done_with r | raised e ↦ later ]

Outcome-cases :
    {Res : Type 0} (o : Outcome Res)
    → ((r : Res) × (o ≡ succeeded r)) ⊎ ((e : String) × (o ≡ raised e))
Outcome-cases (succeeded r) = inl (r, refl)
Outcome-cases (raised e) = inr (e, refl)

abbrev input : {Res : Type 0} → Executions Res → ℕ → Input Res
input env k = record { now = env.time k; outcome = env.outcome k }

verdict-succeeded :
    {Res : Type 0} (outcome : ℕ → Outcome Res) (k n : ℕ) (a : Res)
    → outcome k ≡ succeeded a
    → verdict outcome k n ≡ done_with a
unfolding verdict
verdict-succeeded outcome k zero a e = ground arith
verdict-succeeded outcome k (suc n) a e = ground arith

verdict-last :
    {Res : Type 0} (outcome : ℕ → Outcome Res) (k : ℕ) (x : String)
    → outcome k ≡ raised x
    → verdict outcome k zero ≡ gave_up x
unfolding verdict
verdict-last outcome k x e = ground arith

verdict-raised :
    {Res : Type 0} (outcome : ℕ → Outcome Res) (k n : ℕ) (x : String)
    → outcome k ≡ raised x
    → verdict outcome k (suc n) ≡ verdict outcome (k + 1) n
unfolding verdict
verdict-raised outcome k n x e = ground arith

module _ {Cmd Res : Type 0} where
  -- What `executeJob` has done when it returns.
  abbrev pub Completes :
      ℕ → Executions Res → ℕ → JobManager Cmd Res → ℕ → String → Verdict Res → Type 0
  Completes fuel env k m p id v =
      (m' : JobManager Cmd Res) × (j' : Job Cmd Res) × (execute_job fuel env k m p id ≡ some m')
      × IsFinished m' p id j'
      × Reports v j'

  abbrev after_pass :
      ℕ
      → Executions Res
      → ℕ
      → ℕ
      → String
      → JobManager Cmd Res × WorkerPc Res
      → Option (JobManager Cmd Res)
  after_pass fuel env k p id s =
      let again = execute_job fuel env (k + 1) s.0 p id in
      elim s.1 [ at_stop_check ↦ again | _ ↦ some s.0 ]

  Ends-Completes :
      (fuel : ℕ) (env : Executions Res) (k : ℕ) (m : JobManager Cmd Res) (p : ℕ) (id : String)
      (v : Verdict Res)
      → Ends m p id (input env k) v
      → Completes (suc fuel) env k m p id v
  unfolding execute_job
  Ends-Completes fuel env k m p id v (m', j', q, f, s) =
      (m', j', ap (after_pass fuel env k p id) q, f, s)

  -- executeJob of a job that is on the heap and in the store, in a manager that is not stopped and
  -- with nobody else acting on the job, ends after at most one pass more than the n retries left,
  -- with the verdict of the executions: the job is completed with the first result among them, or it is
  -- failed with the last error and all retries used; its channel is closed, the store holds its
  -- snapshot and its canceler is gone.
  pub execute_job-verdict :
      (fuel n : ℕ) (env : Executions Res) (k : ℕ) (m : JobManager Cmd Res) (p : ℕ) (id : String)
      (j : Job Cmd Res)
      → IsReady m p id j
      → j.retry_count + n ≡ pos_part j.max_retries
      → n < fuel
      → Completes fuel env k m p id (verdict env.outcome k n)
  unfolding execute_job
  execute_job-verdict zero n env k m p id j r b h = elim h [ ]
  execute_job-verdict (suc fuel) zero env k m p id j r b h = elim (Outcome-cases (env.outcome k)) [
    | inl (a, e) ↦ rw (verdict-succeeded env.outcome k zero a e) (
        Ends-Completes fuel env k m p id (done_with a)
          (iteration-succeeded m p id j (input env k) a r e))
    | inr (x, e) ↦ rw (verdict-last env.outcome k x e) (
        Ends-Completes fuel env k m p id (gave_up x)
          (iteration-failed m p id j (input env k) x r e (omega arith)))
  ]
  execute_job-verdict (suc fuel) (suc n) env k m p id j r b h =
      elim (Outcome-cases (env.outcome k)) [
        | inl (a, e) ↦ rw (verdict-succeeded env.outcome k (suc n) a e) (
            Ends-Completes fuel env k m p id (done_with a)
              (iteration-succeeded m p id j (input env k) a r e))
        | inr (x, e) ↦
            let (m1, j1, q, r1, c, x1) =
              iteration-again m p id j (input env k) x r e (omega arith) in
            let (m2, j2, q2, f, s) =
              execute_job-verdict fuel n env (k + 1) m1 p id j1 r1 (omega (arith, ap pos_part x1))
                (omega arith) in
            rw (verdict-raised env.outcome k n x e)
              (m2, j2, ap (after_pass fuel env k p id) q ∙ q2, f, s)
      ]
