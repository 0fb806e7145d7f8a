-- ===== src/Dispatch/Reconcile/Orphans.antt =====
-- `reconcile_orphans` of src/forgemaster/dispatch/reconcile.py: the running jobs and their workers.
use forgemaster.Prelude.{
  ℕ, String, ◌≡◌, refl, Bool, true, false, not, ◌&&◌, Option, none, some, List, [], ◌∷◌, arith, any,
  All, All-map, select, select_one, update, Bool-cases, inl, inr, str_eq, eq_iff, sym, subst,
}
use forgemaster.Dispatch.Jobs.{Job, is_running, in_flight, Parsed, finished, record_finish}
use forgemaster.Dispatch.Jobs.Finish.{update_absent, ended}
use forgemaster.Dispatch.Reconcile.{
  Tables, kill, close_jobs, mark, mark_job_orphan, reap, reconcile_orphans,
}

any_missing : {A : Type 0} (p : A → Bool) (xs : List A) → select_one p xs ≡ none → any p xs ≡ false
unfolding select_one
any_missing p [] h = refl
any_missing p (x ∷ xs) h = ground (arith, any_missing p xs)

module _ (terminal_result : Option String → Option Parsed) (now : String) where
  -- A job that is marked has ended; the other rows stay.
  abbrev pub Shape : String → List Job → List Job → Type 0
  Shape id jobs after =
      (f : Job → Job) × ((j : Job) → is_running (f j).status ≡ false)
      × (after ≡ update (in_flight id) f jobs)

  close_jobs-Shape :
      (id : String) (p : Option Parsed) (jobs : List Job)
      → Shape id jobs (close_jobs terminal_result now id p jobs)
  unfolding record_finish
  close_jobs-Shape id none jobs = (kill now, λ j. refl, refl)
  close_jobs-Shape id (some p) jobs =
      (finished now none p p.duration, λ j. ended now none p p.duration j tt, refl)

  mark-Shape :
      (id : String) (db : Tables) (o : Option Job)
      → select_one (in_flight id) db.jobs ≡ o
      → Shape id db.jobs (mark terminal_result now id db o).1.jobs
  mark-Shape id db none h = (
    kill now,
    λ j. refl,
    sym (update_absent (in_flight id) (kill now) db.jobs (any_missing (in_flight id) db.jobs h)),
  )
  mark-Shape id db (some row) h = close_jobs-Shape id (terminal_result row.log_path) db.jobs

  pub mark_job_orphan-Shape :
      (id : String) (db : Tables)
      → Shape id db.jobs (mark_job_orphan terminal_result now id db).1.jobs
  unfolding mark_job_orphan
  mark_job_orphan-Shape id db = mark-Shape id db (select_one (in_flight id) db.jobs) refl

  module _ (worker_alive : Option ℕ → Bool) where
    -- a running job without a worker
    abbrev pub is_orphan : Job → Bool
    is_orphan j = is_running j.status && not (worker_alive j.pid)

    abbrev listed : List Job → Job → Bool
    listed rows j = any (λ r. str_eq j.id r.id && not (worker_alive r.pid)) rows

    -- every orphan is still to be marked
    abbrev Pending : List Job → Job → Type 0
    Pending rows j = is_orphan j ≡ true → listed rows j ≡ true

    no_orphan_left : (jobs : List Job) → All (Pending []) jobs → any is_orphan jobs ≡ false
    no_orphan_left [] h = refl
    no_orphan_left (j ∷ js) h = ground (arith, h.0, no_orphan_left js h.1)

    step_marks_one :
        (r : Job) (rows jobs : List Job) (f : Job → Job)
        → ((j : Job) → is_running (f j).status ≡ false)
        → All (Pending (r ∷ rows)) jobs
        → All (Pending rows) (update (in_flight r.id) f jobs)
    unfolding update
    step_marks_one r rows [] f k h = tt
    step_marks_one r rows (j ∷ js) f k h = elim (Bool-cases (in_flight r.id j)) [
      | inl hit ↦ rw hit ((λ e. absurd (ground (arith, k j))), step_marks_one r rows js f k h.1)
      | inr miss ↦ rw miss ((λ e. ground (arith, h.0 e)), step_marks_one r rows js f k h.1)
    ]

    step_spares_one :
        (r : Job) (rows jobs : List Job)
        → worker_alive r.pid ≡ true
        → All (Pending (r ∷ rows)) jobs
        → All (Pending rows) jobs
    step_spares_one r rows jobs live h =
        All-map (Pending (r ∷ rows)) (Pending rows) (λ j p e. ground (arith, p e)) jobs h

    reap_settles :
        (rows : List Job) (db : Tables)
        → All (Pending rows) db.jobs
        → any is_orphan (reap terminal_result now worker_alive rows db).1.jobs ≡ false
    unfolding reap
    reap_settles [] db h = no_orphan_left db.jobs h
    reap_settles (r ∷ rows) db h = elim (Bool-cases (worker_alive r.pid)) [
      | inl live ↦ rw live (reap_settles rows db (step_spares_one r rows db.jobs live h))
      | inr dead ↦
          let out = mark_job_orphan terminal_result now r.id db in
          let (f, k, e) = mark_job_orphan-Shape r.id db in
          let left : All (Pending rows) out.1.jobs =
            subst (All (Pending rows)) (sym e) (step_marks_one r rows db.jobs f k h) in
          rw dead (reap_settles rows out.1 left)
    ]

    grow :
        (q p : Job → Bool) (x : Job) (xs : List Job)
        → any q (select p xs) ≡ true
        → any q (select p (x ∷ xs)) ≡ true
    unfolding select
    grow q p x xs h = ground arith

    initially_complete :
        (jobs : List Job) → All (Pending (select (λ j. is_running j.status) jobs)) jobs
    unfolding select
    initially_complete [] = tt
    initially_complete (j ∷ js) =
        let p : Job → Bool = λ x. is_running x.status in
        (
          (λ e. ground (arith, eq_iff j.id j.id)),
          All-map (Pending (select p js)) (Pending (select p (j ∷ js)))
              (λ x h e. grow (λ r. str_eq x.id r.id && not (worker_alive r.pid)) p j js (h e)) js
              (initially_complete js),
        )

    -- After `reconcile_orphans` no job is running whose worker is gone.
    pub reconcile_orphans_settles :
        (db : Tables)
        → any is_orphan (reconcile_orphans terminal_result now worker_alive db).1.jobs ≡ false
    unfolding reconcile_orphans
    reconcile_orphans_settles db =
        reap_settles (select (λ j. is_running j.status) db.jobs) db (initially_complete db.jobs)

    reap_spared :
        (rows : List Job) (db : Tables)
        → All (λ r. worker_alive r.pid ≡ true) rows
        → reap terminal_result now worker_alive rows db ≡ ([], db)
    unfolding reap
    reap_spared [] db h = refl
    reap_spared (r ∷ rows) db h = rw (h.0) (reap_spared rows db h.1)

    running_alive :
        (jobs : List Job)
        → any is_orphan jobs ≡ false
        → All (λ r. worker_alive r.pid ≡ true) (select (λ j. is_running j.status) jobs)
    unfolding select
    running_alive [] h = tt
    running_alive (j ∷ js) h = elim (Bool-cases (is_running j.status)) [
      | inl e ↦ rw e (ground arith, running_alive js (ground arith))
      | inr e ↦ rw e (running_alive js (ground arith))
    ]

    -- A second `reconcile_orphans` finds nothing to do: it returns no id and writes nothing.
    pub reconcile_orphans_twice :
        (db : Tables)
        → reconcile_orphans terminal_result now worker_alive
            (reconcile_orphans terminal_result now worker_alive db).1
          ≡ ([], (reconcile_orphans terminal_result now worker_alive db).1)
    unfolding reconcile_orphans
    reconcile_orphans_twice db =
        let after = (reconcile_orphans terminal_result now worker_alive db).1 in
        reap_spared (select (λ j. is_running j.status) after.jobs) after
          (running_alive after.jobs (reconcile_orphans_settles db))
