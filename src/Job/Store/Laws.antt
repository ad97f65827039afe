-- ===== src/Job/Store/Laws.antt =====
-- What the in-memory job store promises: job/memory/job_store.go.
use mathlib.Core.List.{Memᴰ}
use ddd_qce.Common.{
  String, ◌≡◌, ◌≢◌, refl, inl, inr, true, none, some, [], ◌∷◌, Dict, lookup, arith, Bool-cases,
  str_eq, All, lookup-insert_self, lookup-delete_self, lookup-insert_ne, lookup-delete_ne,
}
use ddd_qce.Errors.{ok, error, err_already_exists, err_not_found}
use ddd_qce.Job.{Job, JobStatus, is_status, snapshot}
use ddd_qce.Job.Store.{
  InMemoryJobStore, create, get, update, list, list_from, delete_job, job_error,
}

-- Taking a snapshot of a snapshot changes nothing.
pub snapshot_idem : {Cmd Res : Type 0} (j : Job Cmd Res) → snapshot (snapshot j) ≡ snapshot j
unfolding snapshot
snapshot_idem j = refl

is_status_iff : (a b : JobStatus) → is_status a b ≡ true → a ≡ b
is_status_iff a b h = ground arith

is_status_refl : (a : JobStatus) → is_status a a ≡ true
is_status_refl a = ground arith

module _ {Cmd Res : Type 0} (s : InMemoryJobStore Cmd Res) (job : Job Cmd Res) where
  -- Create adds exactly the job's snapshot under its id if the id is free, and otherwise reports
  -- ErrAlreadyExists and changes nothing; then Get returns the snapshot, and every other id reads
  -- as before.
  pub get-create :
      ((lookup job.id s.jobs ≡ none)
        → ((create s job).1 ≡ none)
          × (get (create s job).0 job.id ≡ ok (snapshot job))
          × ((id : String) → job.id ≢ id → get (create s job).0 id ≡ get s id))
      × ((old : Job Cmd Res)
          → lookup job.id s.jobs ≡ some old
          → create s job ≡ (s, some (job_error job.id err_already_exists)))
  unfolding create get
  get-create = (
    λ e. (
      rw (e, create),
      rw (e, create)
          (ground (arith, lookup-insert_self job.id (snapshot job) s.jobs, snapshot_idem job)),
      λ id h. rw (e, create) (ground (arith, lookup-insert_ne job.id id (snapshot job) s.jobs h)),
    ),
    λ old e. rw (e, create),
  )

  -- Update replaces the snapshot of a job that is there, leaves every other id as it was, and
  -- reports ErrNotFound with no change for a job that is not there.
  pub get-update :
      ((old : Job Cmd Res)
        → lookup job.id s.jobs ≡ some old
        → ((update s job).1 ≡ none)
          × (get (update s job).0 job.id ≡ ok (snapshot job))
          × ((id : String) → job.id ≢ id → get (update s job).0 id ≡ get s id))
      × (lookup job.id s.jobs ≡ none → update s job ≡ (s, some (job_error job.id err_not_found)))
  unfolding update get
  get-update = (
    λ old e. (
      rw (e, update),
      rw (e, update)
          (ground (arith, lookup-insert_self job.id (snapshot job) s.jobs, snapshot_idem job)),
      λ id h. rw (e, update) (ground (arith, lookup-insert_ne job.id id (snapshot job) s.jobs h)),
    ),
    λ e. rw (e, update),
  )

module _ {Cmd Res : Type 0} where
  list_from_sound :
      (m : Dict (Job Cmd Res)) (status : JobStatus)
      → All (λ j. (j.status ≡ status) × ((k : Job Cmd Res) × (j ≡ snapshot k))) (list_from m status)
  unfolding list_from
  list_from_sound [] status = tt
  list_from_sound ((k, job) ∷ rest) status =
      elim (Bool-cases (is_status (snapshot job).status status)) [
        | inl e ↦ rw e ((is_status_iff _ _ e, (job, refl)), list_from_sound rest status)
        | inr e ↦ rw e (list_from_sound rest status)
      ]

  list_from_complete :
      (m : Dict (Job Cmd Res)) (status : JobStatus) (id : String) (job : Job Cmd Res)
      → lookup id m ≡ some job
      → (snapshot job).status ≡ status
      → Memᴰ (snapshot job) (list_from m status)
  unfolding list_from lookup
  list_from_complete [] status id job e h = cc
  list_from_complete ((k, j) ∷ rest) status id job e h = elim (Bool-cases (str_eq k id)) [
    | inl p ↦
        let same : j ≡ job = ground arith in rw (same, h, is_status_refl status) (Memᴰ.head refl)
    | inr q ↦
        let tail = list_from_complete rest status id job (rw q at e) h in
        elim (Bool-cases (is_status (snapshot j).status status)) [
          | inl p ↦ rw p (Memᴰ.tail tail)
          | inr q' ↦ rw q' tail
        ]
  ]

  -- List returns snapshots of the given status only, and the snapshot of every stored job that
  -- has it.
  pub list_sound_complete :
      (s : InMemoryJobStore Cmd Res) (status : JobStatus)
      → All (λ j. (j.status ≡ status) × ((k : Job Cmd Res) × (j ≡ snapshot k))) (list s status)
        × ((id : String) (job : Job Cmd Res)
            → lookup id s.jobs ≡ some job
            → job.status ≡ status
            → Memᴰ (snapshot job) (list s status))
  unfolding list snapshot
  list_sound_complete s status =
      (list_from_sound s.jobs status, λ id job e h. list_from_complete s.jobs status id job e h)

  -- Delete makes a stored job unreadable, leaves every other id as it was, and reports ErrNotFound
  -- with no change for a job that is not there.
  pub get-delete_job :
      (s : InMemoryJobStore Cmd Res) (id : String)
      → ((old : Job Cmd Res)
          → lookup id s.jobs ≡ some old
          → ((delete_job s id).1 ≡ none)
            × (get (delete_job s id).0 id ≡ error (job_error id err_not_found))
            × ((k : String) → id ≢ k → get (delete_job s id).0 k ≡ get s k))
        × (lookup id s.jobs ≡ none → delete_job s id ≡ (s, some (job_error id err_not_found)))
  unfolding delete_job get
  get-delete_job s id = (
    λ old e. (
      rw (e, delete_job),
      rw (e, delete_job) (ground (arith, lookup-delete_self id s.jobs)),
      λ k h. rw (e, delete_job) (ground (arith, lookup-delete_ne id k s.jobs h)),
    ),
    λ e. rw (e, delete_job),
  )
