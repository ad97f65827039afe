-- ===== src/Job/Manager/Worker/Sections.antt =====
-- The sections of one pass of `executeJob` (job/memory/job_manager.go), one lemma for each stretch.
use ddd_qce.Common.{
  ◌∙◌, ap, lookup-delete_self, ◌∷◌, is_some, lookup-insert_self, ℕ, ◌≡◌, refl, String, true, false,
  none, some, lookup, delete, arith, if◌then◌else◌,
}
use ddd_qce.Job.{Job, snapshot, mark_running, try_complete, try_fail, mark_done}
use ddd_qce.Job.Store.{update}
use ddd_qce.Job.Manager.{
  JobManager, succeeded, raised, WorkerPc, at_stop_check, at_mark_running, at_register, at_execute,
  at_update_retry, at_update_final, at_mark_done, exited, Input, worker_step, put, modify,
  update_or_report, settle, context_timeout, register_canceler,
}
use ddd_qce.Job.Manager.Worker.{run_to_top, iteration}

module _ {Cmd Res : Type 0} where
  -- The job is on the heap and in the store under its id, and the manager is not stopped.
  pub record IsReady (m : JobManager Cmd Res) (p : ℕ) (id : String) (j : Job Cmd Res) : Type 0 where
    pub on_heap : m.heap p ≡ some j
    pub named : j.id ≡ id
    pub stored : is_some (lookup id m.store.jobs) ≡ true
    pub running : m.stop_closed ≡ false

  pub modify-IsReady :
      (m : JobManager Cmd Res) (p : ℕ) (id : String) (j : Job Cmd Res)
      (f : Job Cmd Res → Job Cmd Res)
      → IsReady m p id j
      → (f j).id ≡ id
      → IsReady (modify m p f) p id (f j)
  unfolding modify
  modify-IsReady m p id j f r e = ground arith

  pub update-IsReady :
      (m : JobManager Cmd Res) (p : ℕ) (id op : String) (j : Job Cmd Res)
      → IsReady m p id j
      → IsReady (update_or_report m p id op) p id j
        × (lookup id (update_or_report m p id op).store.jobs ≡ some (snapshot j))
        × ((update_or_report m p id op).reported ≡ m.reported)
  unfolding update_or_report update
  update-IsReady m p id op j r = ground (arith, lookup-insert_self j.id (snapshot j) m.store.jobs)

  -- The rest of a pass, from a section's result.
  abbrev pub go_on :
      ℕ
      → ℕ
      → String
      → Input Res
      → JobManager Cmd Res × WorkerPc Res
      → JobManager Cmd Res × WorkerPc Res
  go_on n p id i s = run_to_top n s.0 p id s.1 i

  stop_check-running :
      (m : JobManager Cmd Res) (p : ℕ) (id : String) (i : Input Res)
      → m.stop_closed ≡ false
      → worker_step m p id at_stop_check i ≡ (m, at_mark_running)
  unfolding worker_step
  stop_check-running m p id i e = ap (λ b. (m, if b then exited else at_mark_running)) e

  register-on_heap :
      (m : JobManager Cmd Res) (p : ℕ) (id : String) (j : Job Cmd Res) (i : Input Res)
      → m.heap p ≡ some j
      → worker_step m p id at_register i
        ≡ (register_canceler m id, at_execute m.next_context (context_timeout j))
  unfolding worker_step
  register-on_heap m p id j i e = ground arith

  -- Everything up to TryFail or TryComplete: the job is marked as running, and the canceler is gone.
  pub iteration-settle :
      (m : JobManager Cmd Res) (p : ℕ) (id : String) (j : Job Cmd Res) (i : Input Res)
      → IsReady m p id j
      → (m' : JobManager Cmd Res) × IsReady m' p id (mark_running j i.now)
        × (lookup id m'.cancelers ≡ none)
        × (iteration m p id i ≡ go_on 2 p id i (settle m' p i.outcome i.now))
  unfolding iteration worker_step run_to_top register_canceler
  iteration-settle m p id j i r =
      let m1 = modify m p (λ (k : Job Cmd Res). mark_running k i.now) in
      let r1 =
        modify-IsReady m p id j (λ k. mark_running k i.now) r (unfold mark_running in r.named) in
      let m2 = update_or_report m1 p id "update_running" in
      let r2 = update-IsReady m1 p id "update_running" (mark_running j i.now) r1 in
      let m3 = register_canceler m2 id in
      let m4 : JobManager Cmd Res = record m3 {
        cancelled_contexts = m2.next_context ∷ m3.cancelled_contexts;
      } in
      let m5 : JobManager Cmd Res = record m4 { cancelers = delete id m4.cancelers } in
      (
        m5,
        record {
          on_heap = r2.0.on_heap;
          named = r2.0.named;
          stored = r2.0.stored;
          running = r2.0.running;
        },
        lookup-delete_self id m4.cancelers,
        ap (go_on 8 p id i) (stop_check-running m p id i r.running)
            ∙ ap (go_on 5 p id i) (register-on_heap m2 p id (mark_running j i.now) i r2.0.on_heap),
      )

  pub put-IsReady :
      (m : JobManager Cmd Res) (p : ℕ) (id : String) (j k : Job Cmd Res)
      → IsReady m p id j
      → k.id ≡ id
      → IsReady (put m p k) p id k
  unfolding put
  put-IsReady m p id j k r e = ground arith

  pub put-cancelers :
      (m : JobManager Cmd Res) (p : ℕ) (k : Job Cmd Res) → (put m p k).cancelers ≡ m.cancelers
  unfolding put
  put-cancelers m p k = refl

  update-cancelers :
      (m : JobManager Cmd Res) (p : ℕ) (id op : String)
      → (update_or_report m p id op).cancelers ≡ m.cancelers
  unfolding update_or_report
  update-cancelers m p id op = ground arith

  mark_done-fields :
      (m : JobManager Cmd Res) (p : ℕ)
      → ((modify m p mark_done).cancelers ≡ m.cancelers) × ((modify m p mark_done).store ≡ m.store)
  unfolding modify
  mark_done-fields m p = ground arith

  pub settle-raised :
      (m : JobManager Cmd Res) (p : ℕ) (j : Job Cmd Res) (e : String) (now : ℕ)
      → m.heap p ≡ some j
      → settle m p (raised e) now ≡ (
        put m p (try_fail j e now).0,
        if (try_fail j e now).1
            then at_mark_done
            else if (try_fail j e now).2
            then at_update_retry
            else at_update_final,
      )
  unfolding settle
  settle-raised m p j e now h = ground arith

  pub settle-succeeded :
      (m : JobManager Cmd Res) (p : ℕ) (j : Job Cmd Res) (a : Res) (now : ℕ)
      → m.heap p ≡ some j
      → settle m p (succeeded a) now ≡ (
        put m p (try_complete j a now).0,
        if (try_complete j a now).1 then at_update_final else at_mark_done,
      )
  unfolding settle
  settle-succeeded m p j a now h = ground arith

  -- The worker has left: the job has its final fields, its channel is closed, the store has its
  -- snapshot and no canceler is left.
  pub record IsFinished (m : JobManager Cmd Res) (p : ℕ) (id : String) (j : Job Cmd Res)
      : Type 0 where
    pub final_job : m.heap p ≡ some (mark_done j)
    pub final_stored : lookup id m.store.jobs ≡ some (snapshot j)
    pub no_canceler : lookup id m.cancelers ≡ none

  pub go_on-final :
      (m : JobManager Cmd Res) (p : ℕ) (id : String) (j : Job Cmd Res) (i : Input Res)
      → IsReady m p id j
      → lookup id m.cancelers ≡ none
      → (m' : JobManager Cmd Res) × (go_on 2 p id i (m, at_update_final) ≡ (m', exited))
        × IsFinished m' p id j
  unfolding run_to_top worker_step
  go_on-final m p id j i r c =
      let m1 = update_or_report m p id "update_final" in
      let r1 = update-IsReady m p id "update_final" j r in
      let r2 = modify-IsReady m1 p id j mark_done r1.0 (unfold mark_done in r1.0.named) in
      (
        modify m1 p mark_done,
        refl,
        record {
          final_job = r2.on_heap;
          final_stored = rw (mark_done-fields m1 p).1 r1.1;
          no_canceler = rw (mark_done-fields m1 p).0 (rw update-cancelers c);
        },
      )
