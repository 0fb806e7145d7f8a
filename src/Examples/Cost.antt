-- ===== src/Examples/Cost.antt =====
-- Three jobs on one feature, and an interview that counted seven tokens.
use forgemaster.Prelude.{
  ℕ, ◌+◌, ltb, String, ◌≡◌, refl, true, Option, none, some, List, [], ◌∷◌, select_one, ◌*◌,
}
use forgemaster.Prelude.Text.{Text, codes}
use forgemaster.Roadmap.Rows.{order_by_slug}
use forgemaster.Dispatch.Jobs.{Job, task, fix, review, no_usage, started}
use forgemaster.Update.{Json, num, str, obj, no_members, member, lookup}
use forgemaster.Dispatch.Cost.{
  ProjectCost, costs, project_cost, spend, on_row, charge_feature, add_step, charge_kind, add_model,
  dearest, unknown_project, attribute_error,
}
use forgemaster.Dispatch.Cost.Rows.{Doubles, Acc, add_row, upsert, joined, row_of, rows_of}
use forgemaster.Dispatch.Cost.Interview.{
  Home, InterviewCost, blank_interview, interview_cost, sum_sessions, sum_interview_transcript,
  on_line, add_usage, dominant, add_output,
}
use forgemaster.Dispatch.Cost.Counts.{tokens}
use forgemaster.Dispatch.Cost.Reconciled.{IsExact, project_cost-IsExact}
use forgemaster.Examples.Roadmap.{db}

-- amounts in whole units
abbrev units : Doubles
units = record { plus = λ a b. a + b; above = λ a b. ltb b a }

abbrev work : Job
work =
    record (started (record {
      new_id = "j1";
      now = "2026-07-02T10:00";
      task_id = "t1";
      worktree = "/srv/demo/worktrees/api";
      session_id = "s1";
      port = none;
      pid = none;
      log_path = none;
      engine = "worker-dispatch-v1";
      kind = task;
    })) {
      usage = record no_usage {
        cost = some 12;
        input_tokens = some 100;
        output_tokens = some 20;
        model = some "opus";
      };
    }

abbrev repair : Job
repair = record work { id = "j2"; kind = fix }

abbrev judge : Job
judge = record work { id = "j3"; kind = review }

abbrev jobs : List Job
jobs = work ∷ repair ∷ judge ∷ work ∷ []

abbrev turn_line : Json
turn_line = obj (
    member "message"
      (obj (
        member "model" (str (codes "opus"))
          (member "usage" (obj (member "output_tokens" (num (codes "7")) no_members)) no_members)))
      no_members)

abbrev seven : Text → Option ℕ
seven t = some 7

abbrev transcript_of : List (Option Json) → String → Option (List (Option Json))
transcript_of lines sid = some lines

abbrev home_with : List (Option Json) → Home
home_with lines = record {
  session_ids = λ slug. "i1" ∷ [];
  is_dir = true;
  transcript = transcript_of lines;
  int_of = seven;
}

abbrev home : Home
home = home_with (none ∷ some turn_line ∷ [])

-- n runs of the same usage
abbrev runs : ℕ → Acc
runs n = record {
  cost_usd = n * 12;
  input = n * 100;
  output = n * 20;
  cache_read = 0;
  cache_creation = 0;
  tokens = n * 120;
  n_jobs = n;
}

abbrev seven_tokens : InterviewCost
seven_tokens = record blank_interview {
  output = 7;
  tokens = 7;
  model = some (codes "opus");
  n_sessions = 1;
}

abbrev charged : ProjectCost
charged = record {
  project = "demo";
  total = record (runs 4) { output = 87; tokens = 487 };
  model = some "opus";
  n_models = 1;
  features =
      record {
        slug = "api";
        acc = runs 3;
        steps = record { task_slug = "routes"; acc = runs 2 } ∷ [];
        fix_cost = some (runs 1);
      }
      ∷ [];
  nonwork = runs 1;
  interview = some seven_tokens;
}

four_runs : project_cost units home db jobs "demo" ≡ costs charged
unfolding project_cost spend on_row charge_feature add_step charge_kind add_model dearest add_row
    upsert joined row_of rows_of interview_cost sum_sessions sum_interview_transcript on_line
    add_usage dominant add_output lookup order_by_slug select_one
four_runs = refl

project_cost-IsExact_example : IsExact tokens (rows_of db "demo" jobs) charged
project_cost-IsExact_example =
    project_cost-IsExact units home db jobs "demo" charged tokens four_runs

-- A line that is a document and no object is not skipped.
number_line :
    project_cost units (home_with (some (num (codes "3")) ∷ [])) db jobs "demo" ≡ attribute_error
unfolding project_cost interview_cost sum_sessions sum_interview_transcript on_line select_one
number_line = refl

unknown_slug : project_cost units home db jobs "nowhere" ≡ unknown_project
unfolding project_cost select_one
unknown_slug = refl
