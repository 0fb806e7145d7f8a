-- ===== src/Gate/Toolchain/Run.antt =====
-- `run_toolchain`, `build_verdict`, `is_fresh` and `status` of src/forgemaster/gate/toolchain.py.
use forgemaster.Prelude.{
  ℕ, String, Bool, true, false, not, ◌&&◌, Option, none, some, List, [], ◌∷◌, ◌++◌, any, all,
  length, opt_str_eq, if◌then◌else◌, truthy, select_one,
}
use forgemaster.Prelude.Text.{Text, codes}
use forgemaster.Gate.Statuses.{NativeStatus}
use forgemaster.Gate.Toolchain.{
  Group, Step, StepResult, Outcome, same_step, result_of, applicable_triggers, nonempty,
}

-- The loops' variables, and whether the function has returned.
pub record Progress : Type 0 where
  pub seen : List Step
  pub results : List StepResult
  pub stopped : Bool

-- The synthetic red step of a group that no gate unit covers.
abbrev pub missing : Group → StepResult
missing group = record {
  group = group;
  name = "toolchain-absente";
  cmd = codes "-";
  exit_code = none;
  ok = false;
}

module _ (steps_for : Group → Option (List Step)) (run_step : Step → Outcome) where
  -- The inner loop: a step that was played is passed over, and the first red step returns.
  unfoldable pub run_steps : Group → List Step → List Step → List StepResult → Progress
  run_steps group [] seen results = record { seen = seen; results = results; stopped = false }
  run_steps group (step ∷ steps) seen results =
      let result = result_of run_step group step in
      let skip = run_steps group steps seen results in
      let go_on = run_steps group steps (step ∷ seen) (results ++ result ∷ []) in
      let stop : Progress = record {
        seen = step ∷ seen;
        results = results ++ result ∷ [];
        stopped = true;
      } in
      if any (same_step step) seen then skip else if result.ok then go_on else stop

  -- The outer loop over the groups.
  unfoldable pub run_groups : List Group → List Step → List StepResult → List StepResult
  unfolding run_steps
  run_groups [] seen results = results
  run_groups (group ∷ groups) seen results = elim (steps_for group) [
    | none ↦ results ++ missing group ∷ []
    | some steps ↦
        let p = run_steps group steps seen results in
        let rest = run_groups groups p.seen p.results in if p.stopped then p.results else rest
  ]

  unfoldable pub run_toolchain : List Text → List StepResult
  unfolding run_groups
  run_toolchain diff_files = run_groups (applicable_triggers diff_files) [] []

pub record Verdict : Type 0 where
  pub reviewed_sha : Option String
  pub ok : Bool
  pub n_steps : ℕ
  pub failed_step : Option String
  pub steps : List StepResult

abbrev pub name_of : Option StepResult → Option String
name_of none = none
name_of (some r) = some r.name

abbrev pub code_of : Option StepResult → Option ℕ
code_of none = none
code_of (some r) = r.exit_code

-- the first red step
abbrev pub first_red : List StepResult → Option StepResult
first_red results = select_one (λ r. not r.ok) results

unfoldable pub build_verdict : List StepResult → Option String → Verdict
build_verdict results sha = record {
  reviewed_sha = sha;
  ok = all (λ r. r.ok) results;
  n_steps = length results;
  failed_step = name_of (first_red results);
  steps = results;
}

-- `bool(current_sha)`
abbrev pub given : Option String → Bool
given none = false
given (some s) = truthy s

-- `is_fresh` of a verdict that may be None.
unfoldable pub is_fresh : Option Verdict → Option String → Bool
is_fresh none current_sha = false
is_fresh (some v) current_sha = given current_sha && opt_str_eq v.reviewed_sha current_sha

abbrev pub why_not_run : Option Verdict → String
why_not_run none = "toolchain non exécutée sur ce HEAD"
why_not_run (some v) = "verdict périmé (reviewed_sha ≠ HEAD)"

abbrev pub status_of_fresh : String → Option Verdict → NativeStatus
status_of_fresh summary none = record {
  applicable = true;
  ok = false;
  failed_step = none;
  cmd = some summary;
  exit_code = none;
}
status_of_fresh summary (some v) = record {
  applicable = true;
  ok = v.ok;
  failed_step = if v.ok then none else v.failed_step;
  cmd = some summary;
  exit_code = if v.ok then none else code_of (first_red v.steps);
}

-- `status`: `stored` is what `read_verdict` reads, `summary` the names of the triggered groups joined.
unfoldable pub status : String → Option Verdict → Option String → List Text → NativeStatus
unfolding is_fresh
status summary stored current_sha diff_files =
    if not (nonempty (applicable_triggers diff_files))
    then record { applicable = false; ok = false; failed_step = none; cmd = none; exit_code = none }
    else if not (is_fresh stored current_sha)
    then record {
      applicable = true;
      ok = false;
      failed_step = some (why_not_run stored);
      cmd = some summary;
      exit_code = none;
    }
    else status_of_fresh summary stored
