-- ===== src/Dispatch/Reconcile.antt =====
-- src/forgemaster/dispatch/reconcile.py and the marking of src/forgemaster/dispatch/abort.py: the jobs
-- whose worker is gone.
--
-- `terminal_result` is `_terminal_result`, what the log of a job says at its end; `worker_alive` is
-- `_worker_alive`, the probe of a pid. `now` is the clock.
pub mod Orphans
use forgemaster.Prelude.{
  ℕ, String, Bool, true, false, not, ◌&&◌, Option, none, some, List, [], ◌∷◌, ◌++◌, select,
  select_one, update, str_eq, if◌then◌else◌,
}
use forgemaster.Roadmap.Rows.{Task, TaskStatus, todo, in_progress}
use forgemaster.Dispatch.Jobs.{
  Job, JobStatus, running, killed, is_running, in_flight, Parsed, outcome, record_finish,
}

-- The two tables that a reconciliation writes.
pub record Tables : Type 0 where
  pub jobs : List Job
  pub tasks : List Task

abbrev pub is_in_progress : TaskStatus → Bool
is_in_progress in_progress = true
is_in_progress _ = false

-- UPDATE tasks SET status = 'todo' WHERE id = ? AND status = 'in_progress'
abbrev pub reopen : String → List Task → List Task
reopen task_id tasks =
    update (λ t. str_eq t.id task_id && is_in_progress t.status) (λ t. record t { status = todo })
      tasks

abbrev pub kill : String → Job → Job
kill now j = record j { status = killed; ended_at = some now }

module _ (terminal_result : Option String → Option Parsed) (now : String) where
  abbrev pub close_jobs : String → Option Parsed → List Job → List Job
  close_jobs job_id none jobs = update (in_flight job_id) (kill now) jobs
  close_jobs job_id (some parsed) jobs = record_finish now job_id parsed parsed.duration none jobs

  abbrev pub verdict : Option Parsed → JobStatus
  verdict none = killed
  verdict (some parsed) = outcome parsed

  abbrev pub mark : String → Tables → Option Job → Option JobStatus × Tables
  mark job_id db none = (none, db)
  mark job_id db (some row) =
      let parsed = terminal_result row.log_path in
      (
        some (verdict parsed),
        record { jobs = close_jobs job_id parsed db.jobs; tasks = reopen row.task_id db.tasks },
      )

  unfoldable pub mark_job_orphan : String → Tables → Option JobStatus × Tables
  unfolding record_finish
  mark_job_orphan job_id db = mark job_id db (select_one (in_flight job_id) db.jobs)

  module _ (worker_alive : Option ℕ → Bool) where
    abbrev pub collect : String → Option JobStatus → List String → List String
    collect id none reaped = reaped
    collect id (some s) reaped = id ∷ reaped

    -- The loop over the rows that were running when it began.
    unfoldable pub reap : List Job → Tables → List String × Tables
    unfolding mark_job_orphan
    reap [] db = ([], db)
    reap (r ∷ rs) db =
        let out = mark_job_orphan r.id db in
        let spared = reap rs db in
        let rest = reap rs out.1 in
        if worker_alive r.pid then spared else (collect r.id out.0 rest.0, rest.1)

    unfoldable pub reconcile_orphans : Tables → List String × Tables
    unfolding reap
    reconcile_orphans db = reap (select (λ j. is_running j.status) db.jobs) db

  abbrev pub was_killed : Option JobStatus → Bool
  was_killed (some killed) = true
  was_killed _ = false

  -- The loop of `request_abort` over the jobs that it has killed: the error is only for a job that
  -- the reconciliation calls killed.
  unfoldable pub mark_aborted : List Job → Tables → Tables
  unfolding mark_job_orphan
  mark_aborted [] db = db
  mark_aborted (j ∷ js) db =
      let out = mark_job_orphan j.id db in
      let marked : Tables = record {
        jobs =
            update (λ x. str_eq x.id j.id) (λ x. record x { error = some "aborted by human" })
              out.1.jobs;
        tasks = out.1.tasks;
      } in
      mark_aborted js (if was_killed out.0 then marked else out.1)
