-- ===== src/Dispatch/Worker/Zombie.antt =====
-- The job at the end of `_run_worker`, and `dispatch_next` without a spawn, in src/forgemaster/dispatch/worker.py.
use forgemaster.Prelude.{
  String, ◌≡◌, refl, Bool, true, false, ◌&&◌, Option, none, some, List, [], ◌∷◌, arith, any, update,
  Bool-cases, inl, inr, if_both, sym, subst,
}
use forgemaster.Roadmap.Rows.{Task, Store, Result, returned, value_error, key_error}
use forgemaster.Roadmap.Resolver.{Record, State, index_for_feature, resolve_next}
use forgemaster.Dispatch.Jobs.{Job, killed, in_flight, Parsed, finished, record_finish, Start}
use forgemaster.Dispatch.Jobs.Finish.{any_closed, ended}
use forgemaster.Dispatch.Reconcile.{Tables}
use forgemaster.Dispatch.Reconcile.Orphans.{mark_job_orphan-Shape}
use forgemaster.Dispatch.Worker.{
  Spawn, parsed, preflight_or_timeout, escaped, failed_run, Run, finish, give_up, with_jobs,
  call_back, run_worker, is_interactive, Next, launch, fork, next_of, dispatch_next,
}

module _ (terminal_result : Option String → Option Parsed) (run : Run) (task_id : String) where
  -- no row of the job is running
  abbrev pub IsOver : Tables → Type 0
  IsOver db = any (in_flight run.job_id) db.jobs ≡ false

  finish_closes :
      (p : Parsed) (jobs : List Job)
      → any (in_flight run.job_id) (finish terminal_result run task_id p jobs) ≡ false
  unfolding finish record_finish
  finish_closes p jobs =
      let aborted = record p { error = some "aborted by human" } in
      if_both (λ js. any (in_flight run.job_id) js ≡ false)
        (p.is_interrupted && run.abort_requested)
        (update (in_flight run.job_id) (finished run.now (some killed) aborted (some run.wall))
          jobs)
        (update (in_flight run.job_id) (finished run.now none p (some run.wall)) jobs)
        (any_closed (in_flight run.job_id) (finished run.now (some killed) aborted (some run.wall))
          jobs (λ j. ground (arith, ended run.now (some killed) aborted (some run.wall) j refl)))
        (any_closed (in_flight run.job_id) (finished run.now none p (some run.wall)) jobs
          (λ j. ground (arith, ended run.now none p (some run.wall) j tt)))

  give_up_closes : (db : Tables) → IsOver (give_up terminal_result run task_id db).1
  unfolding give_up
  give_up_closes db =
      let (f, k, e) = mark_job_orphan-Shape terminal_result run.now run.job_id db in
      subst (λ js. any (in_flight run.job_id) js ≡ false) (sym e)
        (any_closed (in_flight run.job_id) f db.jobs (λ j. ground (arith, k j)))

  call_back_closes :
      (p : Parsed) (db : Tables) → IsOver db → IsOver (call_back terminal_result run task_id p db).1
  unfolding call_back
  call_back_closes p db h = let raised = give_up_closes db in ground (arith, raised, h)

  -- However the spawn ends, with a verdict, a failed preflight, a timeout or any other exception, and
  -- whether or not the commit of a success raises, no job of the run is left running.
  pub run_worker_closes :
      (spawn : Spawn) (db : Tables) → IsOver (run_worker terminal_result run task_id spawn db).1
  unfolding run_worker
  run_worker_closes (parsed p) db =
      call_back_closes p (with_jobs terminal_result run task_id p db) (finish_closes p db.jobs)
  run_worker_closes (preflight_or_timeout error) db =
      let p = failed_run run.session_id error in
      call_back_closes p (with_jobs terminal_result run task_id p db) (finish_closes p db.jobs)
  run_worker_closes escaped db = give_up_closes db

-- no worker was spawned
abbrev pub is_spawned : Next → Bool
is_spawned (Next.spawned slug r) = true
is_spawned _ = false

module _ (tm_classify : List Record → String → State) (rank_ready : List Record → List String)
    (terminal_result : Option String → Option Parsed) (run : Run) (start : Start)
    (spawn : Spawn) where
  fork_quiet :
      (o : Option Task) (db : Tables)
      → is_spawned (fork tm_classify rank_ready terminal_result run start spawn o db).0 ≡ false
      → (fork tm_classify rank_ready terminal_result run start spawn o db).1 ≡ db
  unfolding launch
  fork_quiet none db h = refl
  fork_quiet (some t) db h = elim (Bool-cases (is_interactive t.mode)) [
    | inl held ↦ ground arith
    | inr sent ↦ absurd (ground (arith, h))
  ]

  next_of_quiet :
      (r : Result (List Task)) (db : Tables)
      → is_spawned (next_of tm_classify rank_ready terminal_result run start spawn r db).0 ≡ false
      → (next_of tm_classify rank_ready terminal_result run start spawn r db).1 ≡ db
  next_of_quiet (returned []) db h = refl
  next_of_quiet (returned (t ∷ ts)) db h =
      fork_quiet (resolve_next tm_classify rank_ready (t ∷ ts)) db h
  next_of_quiet value_error db h = refl
  next_of_quiet key_error db h = refl

  -- No task, no dispatch: when `dispatch_next` spawns no worker, because the feature has no task, none
  -- is READY, the next one is for a terminal, or the reference is unknown, no job and no task changes.
  pub dispatch_next_idle :
      (feature_ref : String) (store : Store) (db : Tables)
      → is_spawned
          (dispatch_next tm_classify rank_ready terminal_result run start spawn feature_ref store
            db).0
        ≡ false
      → (dispatch_next tm_classify rank_ready terminal_result run start spawn feature_ref store
          db).1
        ≡ db
  unfolding dispatch_next
  dispatch_next_idle feature_ref store db h =
      next_of_quiet
        (index_for_feature tm_classify rank_ready (record store { tasks = db.tasks }) feature_ref)
        db h
