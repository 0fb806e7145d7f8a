-- ===== src/Update/Preflight/Surveys.antt =====
-- `survey_updates_in_flight` of src/forgemaster/update.py: the run of an update that is on its way.
--
-- The runs come the newest first, none when their directory cannot be read; `has_result` is whether the
-- file of the verdict is there.
use forgemaster.Prelude.{Bool, some, List, [], ◌∷◌, if◌then◌else◌}
use forgemaster.Update.Runs.{Run, RunState, running, never_started, run_state}

abbrev pub by_state : Run → RunState → List (Run × RunState) → List (Run × RunState)
by_state r running later = (r, running) ∷ []
by_state r never_started later = later
by_state r _ later = []

unfoldable pub survey_updates_in_flight :
    (Run → Bool) → (Run → Bool) → List Run → List (Run × RunState)
unfolding run_state
survey_updates_in_flight has_result is_active [] = []
survey_updates_in_flight has_result is_active (r ∷ rs) =
    let later = survey_updates_in_flight has_result is_active rs in
    if has_result r then later else by_state r (run_state (some is_active) r) later
