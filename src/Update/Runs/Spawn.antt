-- ===== src/Update/Runs/Spawn.antt =====
-- `spawn` of src/forgemaster/update.py: the directory of a run, its intention, and the unit that runs it.
--
-- The stamp of the second, the outcome of the copies and that of `systemd-run` are arguments.
use forgemaster.Prelude.{
  ℕ, String, Bool, false, Option, none, some, List, [], ◌∷◌, ◌==◌, any, ltb, if◌then◌else◌,
}
use forgemaster.Update.Runs.{Run}

-- `mode` with what goes with it in the intention.
pub data Cible : Type 0 where
  to_wheel : String → Cible
  to_snapshot : String → String → String → Cible

-- A directory of `<home>/updates`: what lies in it, and its `run.json`.
pub record RunDir : Type 0 where
  pub run : Run
  pub intention : Option Cible

-- `systemd-run`: gone, no answer in time, or its return code.
pub data Registration : Type 0 where
  runner_gone timed_out : Registration
  returned : ℕ → Registration

pub data Issue : Type 0 where
  collision not_launched launched raised_os_error : Issue

-- The directory as it is when the script is in it.
abbrev pub new_run : ℕ → Run
new_run now = record { id = now; result = none; has_journal = false; has_launch = false }

abbrev pub new_dir : ℕ → Option Cible → RunDir
new_dir now cible = record { run = new_run now; intention = cible }

-- The directories come the newest first.
abbrev pub put_dir : RunDir → List RunDir → List RunDir
put_dir d [] = d ∷ []
put_dir d (e ∷ es) =
    let rest = put_dir d es in if ltb e.run.id d.run.id then d ∷ (e ∷ es) else e ∷ rest

abbrev pub has_stamp : ℕ → RunDir → Bool
has_stamp now d = d.run.id == now

abbrev pub issue_of : Registration → Issue
issue_of runner_gone = not_launched
issue_of timed_out = not_launched
issue_of (returned rc) = if rc == 0 then launched else not_launched

-- `writes`: the copy of the script and the intention are written without an OSError.
unfoldable pub spawn : ℕ → Cible → Bool → Registration → List RunDir → Issue × List RunDir
spawn now cible writes registration dirs =
    if any (has_stamp now) dirs
    then (collision, dirs)
    else if writes
    then (issue_of registration, put_dir (new_dir now (some cible)) dirs)
    else (raised_os_error, put_dir (new_dir now none) dirs)

abbrev pub runs_in : List RunDir → List Run
runs_in [] = []
runs_in (d ∷ ds) = d.run ∷ runs_in ds
