-- ===== src/Dispatch/Jobs.antt =====
-- src/forgemaster/dispatch/jobs.py: the rows of dispatch_jobs, from the start of a run to its end.
--
-- The id and the times that a call generates are arguments. A cost and a wall time are whole numbers
-- of the smallest unit here: the code copies them.
pub mod Finish
use forgemaster.Prelude.{
  ℕ, String, Bool, true, false, ◌&&◌, Option, none, some, List, [], ◌∷◌, ◌++◌, ◌==◌, any, length,
  select, select_one, update, str_eq, if◌then◌else◌,
}
use forgemaster.Roadmap.Rows.{Task, Result, returned, or_key_error}

pub data JobStatus : Type 0 where
  running done failed killed rate_limited interrupted : JobStatus

pub data JobKind : Type 0 where
  task review toolchain fix : JobKind

abbrev pub is_running : JobStatus → Bool
is_running running = true
is_running _ = false

abbrev pub is_fix : JobKind → Bool
is_fix fix = true
is_fix _ = false

pub record Usage : Type 0 where
  pub num_turns : Option ℕ
  pub cost : Option ℕ
  pub input_tokens : Option ℕ
  pub output_tokens : Option ℕ
  pub cache_read_tokens : Option ℕ
  pub cache_creation_tokens : Option ℕ
  pub model : Option String

abbrev pub no_usage : Usage
no_usage = record {
  num_turns = none;
  cost = none;
  input_tokens = none;
  output_tokens = none;
  cache_read_tokens = none;
  cache_creation_tokens = none;
  model = none;
}

pub record Job : Type 0 where
  pub id : String
  pub task_id : String
  pub worktree_path : String
  pub port : Option ℕ
  pub pid : Option ℕ
  pub status : JobStatus
  pub kind : JobKind
  pub log_path : Option String
  pub session_id : Option String
  pub engine : String
  pub started_at : String
  pub ended_at : Option String
  pub wall : Option ℕ
  pub usage : Usage
  pub error : Option String

-- The arguments of `record_start`.
pub record Start : Type 0 where
  pub new_id : String
  pub now : String
  pub task_id : String
  pub worktree : String
  pub session_id : String
  pub port : Option ℕ
  pub pid : Option ℕ
  pub log_path : Option String
  pub engine : String
  pub kind : JobKind

abbrev pub started : Start → Job
started s = record {
  id = s.new_id;
  task_id = s.task_id;
  worktree_path = s.worktree;
  port = s.port;
  pid = s.pid;
  status = running;
  kind = s.kind;
  log_path = s.log_path;
  session_id = some s.session_id;
  engine = s.engine;
  started_at = s.now;
  ended_at = none;
  wall = none;
  usage = no_usage;
  error = none;
}

-- The id of the new job; None is the IntegrityError of a known id.
unfoldable pub record_start : Start → List Job → Option String × List Job
record_start s jobs =
    if any (λ j. str_eq j.id s.new_id) jobs
    then (none, jobs)
    else (some s.new_id, jobs ++ started s ∷ [])

-- WHERE id = ? AND status = 'running'
abbrev pub in_flight : String → Job → Bool
in_flight job_id j = str_eq j.id job_id && is_running j.status

unfoldable pub record_pid : String → ℕ → List Job → List Job
record_pid job_id pid jobs = update (in_flight job_id) (λ j. record j { pid = some pid }) jobs

-- `parse_headless_result`, as far as the jobs read it.
pub record Parsed : Type 0 where
  pub ok : Bool
  pub is_rate_limited : Bool
  pub is_interrupted : Bool
  pub session_id : Option String
  pub usage : Usage
  pub duration : Option ℕ
  pub error : Option String

abbrev pub outcome : Parsed → JobStatus
outcome p =
    if p.is_rate_limited
    then rate_limited
    else if p.is_interrupted
    then interrupted
    else if p.ok
    then done
    else failed

-- `status or (…)`
abbrev pub final_status : Option JobStatus → Parsed → JobStatus
final_status none p = outcome p
final_status (some s) p = s

-- COALESCE(?, session_id)
abbrev pub coalesce {ℓ} : {A : Type ℓ} → Option A → Option A → Option A
coalesce none y = y
coalesce (some x) y = some x

abbrev pub finished : String → Option JobStatus → Parsed → Option ℕ → Job → Job
finished now status parsed wall j = record j {
  status = final_status status parsed;
  usage = parsed.usage;
  wall = wall;
  session_id = coalesce parsed.session_id j.session_id;
  error = parsed.error;
  ended_at = some now;
}

unfoldable pub record_finish :
    String → String → Parsed → Option ℕ → Option JobStatus → List Job → List Job
record_finish now job_id parsed wall status jobs =
    update (in_flight job_id) (finished now status parsed wall) jobs

unfoldable pub get_job : String → List Job → Result Job
get_job job_id jobs = or_key_error (select_one (λ j. str_eq j.id job_id) jobs)

-- the JOIN of a job with the tasks of a feature
abbrev pub of_feature : String → List Task → Job → Bool
of_feature feature_id tasks j =
    any (λ t. str_eq t.id j.task_id && str_eq t.feature_id feature_id) tasks

unfoldable pub count_fix_jobs : String → List Task → List Job → ℕ
count_fix_jobs feature_id tasks jobs =
    length (select (λ j. of_feature feature_id tasks j && is_fix j.kind) jobs)
