-- ===== src/Job/Manager/Worker/Passes.antt =====
-- One pass of the loop of `executeJob` (job/memory/job_manager.go), for each outcome.
use ddd_qce.Common.{
  ℕ, ◌+◌, ◌<◌, ◌≡◌, ap, ◌∙◌, String, Bool, true, false, none, some, lookup, arith, if◌then◌else◌,
}
use ddd_qce.Common.Int.{pos_part}
use ddd_qce.Job.{Job, completed, failed, mark_running, try_complete, try_fail}
use ddd_qce.Job.Manager.{
  JobManager, succeeded, raised, at_stop_check, at_update_retry, at_update_final, at_mark_done,
  exited, Input, put, update_or_report, settle, worker_step,
}
use ddd_qce.Job.Manager.Worker.{run_to_top, iteration}
use ddd_qce.Job.Manager.Worker.Sections.{
  IsReady, IsFinished, go_on, iteration-settle, put-IsReady, put-cancelers, update-IsReady,
  settle-raised, settle-succeeded, go_on-final,
}

-- How the executions of a command end.
pub data Verdict (Res : Type 0) : Type 0 where
  done_with : Res → Verdict Res
  gave_up : String → Verdict Res

module _ {Cmd Res : Type 0} where
  -- What a job must say for a verdict.
  abbrev pub Reports : Verdict Res → Job Cmd Res → Type 0
  Reports (done_with r) j = (j.status ≡ completed) × (j.result ≡ some r)
  Reports (gave_up e) j =
      (j.status ≡ failed) × (j.err ≡ e) × (j.retry_count ≡ pos_part j.max_retries)

  try_fail-again :
      (j : Job Cmd Res) (e : String) (now : ℕ)
      → j.retry_count < pos_part j.max_retries
      → let (j', was_cancelled, again) = try_fail (mark_running j now) e now in
        (was_cancelled ≡ false)
        × (again ≡ true)
        × (j'.id ≡ j.id)
        × (j'.retry_count ≡ j.retry_count + 1)
        × (j'.max_retries ≡ j.max_retries)
  unfolding try_fail mark_running
  try_fail-again j e now h = ground arith

  try_fail-last :
      (j : Job Cmd Res) (e : String) (now : ℕ)
      → j.retry_count ≡ pos_part j.max_retries
      → let (j', was_cancelled, again) = try_fail (mark_running j now) e now in
        (was_cancelled ≡ false) × (again ≡ false) × (j'.id ≡ j.id) × Reports (gave_up e) j'
  unfolding try_fail mark_running
  try_fail-last j e now h = ground arith

  try_complete-running :
      (j : Job Cmd Res) (r : Res) (now : ℕ)
      → let (j', done) = try_complete (mark_running j now) r now in
        (done ≡ true) × (j'.id ≡ j.id) × Reports (done_with r) j'
  unfolding try_complete mark_running
  try_complete-running j r now = ground arith

  put-cancelers' :
      (m : JobManager Cmd Res) (p : ℕ) (id : String) (j : Job Cmd Res)
      → lookup id m.cancelers ≡ none
      → lookup id (put m p j).cancelers ≡ none
  put-cancelers' m p id j c = rw put-cancelers c

  settle-failure :
      (m : JobManager Cmd Res) (p : ℕ) (j : Job Cmd Res) (e : String) (now : ℕ) (again : Bool)
      → m.heap p ≡ some j
      → (try_fail j e now).1 ≡ false
      → (try_fail j e now).2 ≡ again
      → settle m p (raised e) now
        ≡ (put m p (try_fail j e now).0, if again then at_update_retry else at_update_final)
  settle-failure m p j e now again h c a =
      settle-raised m p j e now h
      ∙ ap
          (λ b. (
            put m p (try_fail j e now).0,
            if b
                then at_mark_done
                else if (try_fail j e now).2
                then at_update_retry
                else at_update_final,
          ))
          c
      ∙ ap (λ b. (put m p (try_fail j e now).0, if b then at_update_retry else at_update_final)) a

  settle-success :
      (m : JobManager Cmd Res) (p : ℕ) (j : Job Cmd Res) (r : Res) (now : ℕ)
      → m.heap p ≡ some j
      → (try_complete j r now).1 ≡ true
      → settle m p (succeeded r) now ≡ (put m p (try_complete j r now).0, at_update_final)
  settle-success m p j r now h d =
      settle-succeeded m p j r now h
      ∙ ap (λ b. (put m p (try_complete j r now).0, if b then at_update_final else at_mark_done)) d

  -- A failed execution with retries left ends at the top of the loop.
  pub iteration-again :
      (m : JobManager Cmd Res) (p : ℕ) (id : String) (j : Job Cmd Res) (i : Input Res) (e : String)
      → IsReady m p id j
      → i.outcome ≡ raised e
      → j.retry_count < pos_part j.max_retries
      → (m' : JobManager Cmd Res) × (j' : Job Cmd Res) × (iteration m p id i ≡ (m', at_stop_check))
        × IsReady m' p id j'
        × (j'.retry_count ≡ j.retry_count + 1)
        × (j'.max_retries ≡ j.max_retries)
  unfolding worker_step run_to_top
  iteration-again m p id j i e r o b =
      let (m1, r1, c1, q1) = iteration-settle m p id j i r in
      let f = try_fail-again j e i.now b in
      let jf = (try_fail (mark_running j i.now) e i.now).0 in
      let m2 = put m1 p jf in
      let r2 = put-IsReady m1 p id (mark_running j i.now) jf r1 (f.2 ∙ r.named) in
      (
        update_or_report m2 p id "update_retry",
        jf,
        q1
            ∙ ap (λ x. go_on 2 p id i (settle m1 p x i.now)) o
            ∙ ap (go_on 2 p id i)
                (settle-failure m1 p (mark_running j i.now) e i.now true r1.on_heap f.0 f.1),
        (update-IsReady m2 p id "update_retry" jf r2).0,
        f.3,
        f.4,
      )

  -- A pass whose settled job goes to the final update ends with the worker gone.
  abbrev pub Ends : JobManager Cmd Res → ℕ → String → Input Res → Verdict Res → Type 0
  Ends m p id i v =
      (m' : JobManager Cmd Res) × (j' : Job Cmd Res) × (iteration m p id i ≡ (m', exited))
      × IsFinished m' p id j'
      × Reports v j'

  pub iteration-failed :
      (m : JobManager Cmd Res) (p : ℕ) (id : String) (j : Job Cmd Res) (i : Input Res) (e : String)
      → IsReady m p id j
      → i.outcome ≡ raised e
      → j.retry_count ≡ pos_part j.max_retries
      → Ends m p id i (gave_up e)
  iteration-failed m p id j i e r o b =
      let (m1, r1, c1, q1) = iteration-settle m p id j i r in
      let f = try_fail-last j e i.now b in
      let jf = (try_fail (mark_running j i.now) e i.now).0 in
      let r2 = put-IsReady m1 p id (mark_running j i.now) jf r1 (f.2 ∙ r.named) in
      let (m3, q3, done) = go_on-final (put m1 p jf) p id jf i r2 (put-cancelers' m1 p id jf c1) in
      (
        m3,
        jf,
        q1
            ∙ ap (λ x. go_on 2 p id i (settle m1 p x i.now)) o
            ∙ ap (go_on 2 p id i)
                (settle-failure m1 p (mark_running j i.now) e i.now false r1.on_heap f.0 f.1)
            ∙ q3,
        done,
        f.3,
      )

  pub iteration-succeeded :
      (m : JobManager Cmd Res) (p : ℕ) (id : String) (j : Job Cmd Res) (i : Input Res) (a : Res)
      → IsReady m p id j
      → i.outcome ≡ succeeded a
      → Ends m p id i (done_with a)
  iteration-succeeded m p id j i a r o =
      let (m1, r1, c1, q1) = iteration-settle m p id j i r in
      let f = try_complete-running j a i.now in
      let jf = (try_complete (mark_running j i.now) a i.now).0 in
      let r2 = put-IsReady m1 p id (mark_running j i.now) jf r1 (f.1 ∙ r.named) in
      let (m3, q3, done) = go_on-final (put m1 p jf) p id jf i r2 (put-cancelers' m1 p id jf c1) in
      (
        m3,
        jf,
        q1
            ∙ ap (λ x. go_on 2 p id i (settle m1 p x i.now)) o
            ∙ ap (go_on 2 p id i)
                (settle-success m1 p (mark_running j i.now) a i.now r1.on_heap f.0)
            ∙ q3,
        done,
        f.2,
      )
