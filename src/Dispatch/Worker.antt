-- ===== src/Dispatch/Worker.antt =====
-- `_run_worker` and the task transitions of `dispatch_next` in src/forgemaster/dispatch/worker.py: a
-- run from its spawn to the end of its job and of its task.
--
-- The spawn is outside: `Spawn` is what it came to. The harvest and the commit of a successful run
-- are outside too: `commit_raises` says whether they raise.
pub mod Zombie
use forgemaster.Prelude.{
  ℕ, String, Bool, true, false, not, ◌&&◌, Option, none, some, List, [], ◌∷◌, update, str_eq,
  if◌then◌else◌, select_one,
}
use forgemaster.Roadmap.Rows.{
  Task, TaskStatus, todo, in_progress, done, Mode, headless, interactive, Store, Result, returned,
  value_error, key_error,
}
use forgemaster.Roadmap.Resolver.{Record, State, index_for_feature, resolve_next}
use forgemaster.Dispatch.Jobs.{
  Job, JobStatus, killed, Parsed, no_usage, record_finish, Start, record_start,
}
use forgemaster.Dispatch.Reconcile.{Tables, is_in_progress, mark_job_orphan}

-- What the inner `try` came to: a verdict, a ToolPreflightError or RunTimeout, or another exception.
pub data Spawn : Type 0 where
  parsed : Parsed → Spawn
  preflight_or_timeout : String → Spawn
  escaped : Spawn

abbrev pub failed_run : String → String → Parsed
failed_run session_id error = record {
  ok = false;
  is_rate_limited = false;
  is_interrupted = false;
  session_id = some session_id;
  usage = no_usage;
  duration = none;
  error = some error;
}

pub record Run : Type 0 where
  pub job_id : String
  pub session_id : String
  pub now : String
  pub wall : ℕ
  pub abort_requested : Bool
  pub commit_raises : Bool

pub data RunResult : Type 0 where
  verdict : Parsed → RunResult
  reraised : RunResult

-- UPDATE tasks SET status = 'done' WHERE id = ? AND status = 'in_progress'
abbrev pub complete : String → List Task → List Task
complete task_id tasks =
    update (λ t. str_eq t.id task_id && is_in_progress t.status) (λ t. record t { status = done })
      tasks

-- UPDATE tasks SET status = 'todo' WHERE id = ?
abbrev pub give_back : String → List Task → List Task
give_back task_id tasks = update (λ t. str_eq t.id task_id) (λ t. record t { status = todo }) tasks

-- UPDATE tasks SET status = 'in_progress' WHERE id = ?
abbrev pub begin : String → List Task → List Task
begin task_id tasks =
    update (λ t. str_eq t.id task_id) (λ t. record t { status = in_progress }) tasks

module _ (terminal_result : Option String → Option Parsed) (run : Run) (task_id : String) where
  -- The end of the job: an interruption under an abort is the human's kill.
  unfoldable pub finish : Parsed → List Job → List Job
  unfolding record_finish
  finish p jobs =
      if p.is_interrupted && run.abort_requested
      then record_finish run.now run.job_id (record p { error = some "aborted by human" })
          (some run.wall) (some killed) jobs
      else record_finish run.now run.job_id p (some run.wall) none jobs

  -- `except BaseException: mark_job_orphan(…); raise`
  unfoldable pub give_up : Tables → RunResult × Tables
  unfolding mark_job_orphan
  give_up db = (reraised, (mark_job_orphan terminal_result run.now run.job_id db).1)

  abbrev pub with_jobs : Parsed → Tables → Tables
  with_jobs p db = record db { jobs = finish p db.jobs }

  -- The callback of the verdict: `_on_success` commits and completes the task, `_on_failure` gives it
  -- back.
  unfoldable pub call_back : Parsed → Tables → RunResult × Tables
  unfolding give_up
  call_back p db =
      if p.ok
      then (if run.commit_raises
          then give_up db
          else (verdict p, record db { tasks = complete task_id db.tasks }))
      else (verdict p, record db { tasks = give_back task_id db.tasks })

  unfoldable pub run_worker : Spawn → Tables → RunResult × Tables
  unfolding call_back finish give_up
  run_worker (parsed p) db = call_back p (with_jobs p db)
  run_worker (preflight_or_timeout error) db =
      let p = failed_run run.session_id error in call_back p (with_jobs p db)
  run_worker escaped db = give_up db

-- What `dispatch_next` answers before any worker, or that it spawned one.
pub data Next : Type 0 where
  no_task no_ready : Next
  needs_terminal : String → Next
  raises : Next
  spawned : String → RunResult → Next

abbrev pub is_interactive : Mode → Bool
is_interactive interactive = true
is_interactive headless = false

module _ (tm_classify : List Record → String → State) (rank_ready : List Record → List String)
    (terminal_result : Option String → Option Parsed) (run : Run) where
  -- After the worktree is reserved: the task is in progress, the job starts, the worker runs.
  unfoldable pub launch : Start → Spawn → Task → Tables → Next × Tables
  unfolding run_worker record_start
  launch start spawn t db =
      let begun : Tables = record {
        tasks = begin t.id db.tasks;
        jobs = (record_start (record start { task_id = t.id }) db.jobs).1;
      } in
      let out = run_worker terminal_result run t.id spawn begun in (spawned t.slug out.0, out.1)

  abbrev pub fork : Start → Spawn → Option Task → Tables → Next × Tables
  fork start spawn none db = (no_ready, db)
  fork start spawn (some t) db =
      if is_interactive t.mode then (needs_terminal t.slug, db) else launch start spawn t db

  abbrev pub next_of : Start → Spawn → Result (List Task) → Tables → Next × Tables
  next_of start spawn (returned []) db = (no_task, db)
  next_of start spawn (returned (t ∷ ts)) db =
      fork start spawn (resolve_next tm_classify rank_ready (t ∷ ts)) db
  next_of start spawn value_error db = (raises, db)
  next_of start spawn key_error db = (raises, db)

  -- `dispatch_next` where the worktree is reserved without an error. The tasks of `store` are those of
  -- the tables.
  unfoldable pub dispatch_next : Start → Spawn → String → Store → Tables → Next × Tables
  unfolding launch index_for_feature resolve_next
  dispatch_next start spawn feature_ref store db =
      next_of start spawn
        (index_for_feature tm_classify rank_ready (record store { tasks = db.tasks }) feature_ref)
        db
