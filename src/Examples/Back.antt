-- ===== src/Examples/Back.antt =====
-- A way back of src/forgemaster/update.py to a snapshot that an older binary reads.
use forgemaster.Prelude.{
  ℕ, ◌≡◌, refl, true, false, none, some, [], ◌∷◌, All, str_eq, ◌==◌, ◌||◌, ◌↔◌, if◌then◌else◌, map,
  List,
}
use forgemaster.Prelude.Text.{codes}
use forgemaster.Snapshot.{
  Entry, manifest, SnapshotDir, Disk, venv_schemas, restorability, state_of, Info, list_snapshots,
  exact, without_base,
}
use forgemaster.Snapshot.Journals.{read_runs, lookup_path}
use forgemaster.Snapshot.States.{promised, base_of, restorability-promised}
use forgemaster.Update.Runs.{Run, running}
use forgemaster.Update.Preflight.{BackPlan, preflight_rollback, aptitude, plan_of, preflight, Found}
use forgemaster.Update.Preflight.Service.{Machine, unit_lines, Socle, passed, refused, not_usable}
use forgemaster.Update.Preflight.Target.{unseen}
use forgemaster.Update.Preflight.Back.{IsBackPlan, preflight_rollback-IsBackPlan}
use forgemaster.Update.Runs.Spawn.{RunDir, to_wheel, spawn, launched, returned}
use forgemaster.Update.Preflight.Exclusion.{at_work, written, surveyed, is_passed, spawn-excludes}
use forgemaster.Update.Preflight.Aptitude.{idle, back_view, aptitude-preflight_rollback}
use forgemaster.Update.Preflight.Agreement.{IsSeen, list_snapshots-IsSeen}
use forgemaster.Update.Preflight.Surveys.{survey_updates_in_flight}

abbrev base : Entry
base = record { name = "forge.db"; restore_to = "/home/forge.db"; sha256 = "" }

abbrev vault : Entry
vault = record { name = "vault"; restore_to = "/home/vault"; sha256 = "" }

abbrev newer : SnapshotDir
newer = record { path = "/s/2"; name = "2"; file = manifest (some (vault ∷ [])) }

abbrev older : SnapshotDir
older = record { path = "/s/1"; name = "1"; file = manifest (some (base ∷ [])) }

-- The instance runs /v/new, which reads 4; /v/old reads 3, as the base of the older snapshot.
abbrev disk : Disk
disk = record {
  resolve = λ p. p;
  is_dir = λ p. true;
  parent = λ p. "/v";
  venvs_root = "/v";
  stamped = "/v/new" ∷ ("/v/old" ∷ []);
  python_schema = λ v. if str_eq v "/v/new" then some 4 else some 3;
  results = [];
  user_version = λ p n. some 3;
  snapshots = newer ∷ (older ∷ []);
}

-- `shlex.split` of a line without quotes
abbrev machine : Machine
machine = record {
  has_runner = true;
  is_system_scope = false;
  is_root = false;
  unit = unit_lines (codes "ExecStart=/v/bin/forge --port 80" ∷ []);
  link = codes "/v";
  link_is_symlink = true;
  venv = "/v/new";
  is_space = λ c. c == 32;
  is_digit = λ c. c == 56 || c == 48;
  shlex_split = λ s. some (codes "/v/bin/forge" ∷ (codes "--port" ∷ (codes "80" ∷ [])));
  int_of = λ s. some 80;
}

abbrev the_info : Info
the_info = record {
  path = "/s/1";
  name = "1";
  valid = true;
  reason = some (exact "/v/old" false);
  entries = some (base ∷ []);
  named_by_run = false;
  safety_of_rollback = false;
}

abbrev the_socle : Socle
the_socle = record { link = codes "/v"; venv = "/v/new"; probe_host = codes "127.0.0.1"; port = 80 }

abbrev the_plan : BackPlan
the_plan = plan_of the_socle [] the_info "/v/old"

goes_back : preflight_rollback machine disk none idle ≡ passed the_plan
unfolding preflight_rollback read_runs lookup_path
goes_back = refl

preflight_rollback-IsBackPlan_example : IsBackPlan disk idle the_plan
preflight_rollback-IsBackPlan_example =
    preflight_rollback-IsBackPlan machine disk none idle the_plan goes_back

aptitude-preflight_rollback_example : (aptitude machine disk ≡ back_view the_info "/v/old") ↔ (
    (socle : Socle) × (preflight_rollback machine disk none idle
      ≡ passed (plan_of socle [] the_info "/v/old")))
aptitude-preflight_rollback_example = aptitude-preflight_rollback machine disk the_info "/v/old"

list_snapshots-IsSeen_example : All (IsSeen disk "/v/new" (some 4)) (list_snapshots disk)
list_snapshots-IsSeen_example = list_snapshots-IsSeen disk "/v/new" (some 4)

restorability-promised_example :
    state_of (restorability disk "/s/1" (some (base ∷ [])) (venv_schemas disk) none)
    ≡ promised (base_of disk "/s/1" (base ∷ [])) (venv_schemas disk)
restorability-promised_example =
    restorability-promised disk "/s/1" (base ∷ []) (venv_schemas disk) none

-- The snapshot without a base is listed as restorable, and is refused as one that the list cannot see.
abbrev bare : Info
bare = record {
  path = "/s/2";
  name = "2";
  valid = true;
  reason = some without_base;
  entries = some (vault ∷ []);
  named_by_run = false;
  safety_of_rollback = false;
}

lists_both : list_snapshots disk ≡ bare ∷ (the_info ∷ [])
unfolding list_snapshots read_runs lookup_path
lists_both = refl

refuses_bare : preflight_rollback machine disk (some "2") idle ≡ refused (not_usable "2" unseen)
unfolding preflight_rollback read_runs lookup_path
refuses_bare = refl

-- A unit whose line `shlex.split` refuses leaves no answer.
raises_quote : aptitude (record machine { shlex_split = λ s. none }) disk ≡ none
unfolding aptitude read_runs lookup_path
raises_quote = refl

abbrev started : ℕ → Run
started n = record { id = n; result = none; has_journal = true; has_launch = true }

finds_one :
    survey_updates_in_flight (λ r. r.id == 3) (λ r. true) (started 3 ∷ (started 2 ∷ []))
    ≡ (started 2, running) ∷ []
unfolding survey_updates_in_flight
finds_one = refl

-- A launch in second 9, after an update that is done; the script has begun its journal.
abbrev earlier : List RunDir
earlier =
    record {
      run = record { id = 4; result = some 0; has_journal = true; has_launch = true };
      intention = some (to_wheel "/w");
    }
    ∷ []

abbrev under_way : Found
under_way = record {
  authority = [];
  in_flight = [];
  updates_in_flight = (at_work 9 true true, running) ∷ [];
}

launches : (spawn 9 (to_wheel "/w") true (returned 0) earlier).0 ≡ launched
unfolding spawn
launches = refl

surveys_it :
    under_way.updates_in_flight
    ≡ surveyed
        (λ r. r.id == 4)
        (λ r. true)
        (map (written 9 true true) (spawn 9 (to_wheel "/w") true (returned 0) earlier).1)
unfolding spawn survey_updates_in_flight
surveys_it = refl

spawn-excludes_example :
    (is_passed (preflight machine true (codes ".whl") under_way) ≡ false)
    × (is_passed (preflight_rollback machine disk none under_way) ≡ false)
spawn-excludes_example =
    spawn-excludes 9 (to_wheel "/w") true (returned 0) earlier true true (λ r. r.id == 4)
      (λ r. true) machine under_way true (codes ".whl") disk none (refl, tt) launches refl refl
      surveys_it
