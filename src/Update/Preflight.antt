-- ===== src/Update/Preflight.antt =====
-- src/forgemaster/update.py: what is checked before an update or a way back, and what an instance can do.
pub mod Service
pub mod Target
pub mod Walk
pub mod Back
pub mod Aptitude
pub mod Surveys
pub mod Agreement
pub mod Exclusion
use forgemaster.Update.Preflight.Service.{
  ExecStart, Machine, Refusal, Socle, Step, UnitFile, after_equals, all_digits, and_then,
  busy_dispatch, busy_update, cannot_read, check_link, hard_venv, is_number, last_line,
  lstrip_marks, no_exec_start, no_file, no_link, no_port, no_runner, no_snapshot, no_target,
  no_unit, no_wheel, not_a_wheel, not_root, not_usable, of_argv, of_flags, of_line, os_error,
  parse_exec_start, passed, preflight_service, probe_host_of, read_flags, read_unit, refused,
  require, uncommitted, unit_lines, unknown_snapshot, value_error, with_port,
}
use forgemaster.Prelude.{
  ℕ, String, Bool, true, false, not, ◌&&◌, ◌||◌, Option, none, some, List, [], ◌∷◌, ◌++◌, ◌==◌,
  select, if◌then◌else◌,
}
use forgemaster.Prelude.Text.{Text, codes, text_eq, starts_with, text_mem}
use forgemaster.Gate.Review.{strip}
use forgemaster.Projects.Authority.{Verdict, blocking}
use forgemaster.Snapshot.{Disk, Info, list_snapshots}
use forgemaster.Snapshot.Journals.{named_path}
use forgemaster.Update.Preflight.Target.{
  Why, Resolution, found, nowhere, Usable, back_to, unusable, usable, resolve_target,
  named_snapshot,
}
use forgemaster.Update.Runs.{Run, RunState}

-- What the caller has found out: the work, the jobs and the runs.
pub record Found : Type 0 where
  pub authority : List Verdict
  pub in_flight : List String
  pub updates_in_flight : List (Run × RunState)

abbrev pub refuse_uncommitted_work {ℓ} : {A : Type ℓ} → List Verdict → Step A → Step A
refuse_uncommitted_work [] next = next
refuse_uncommitted_work (v ∷ vs) next = refused (uncommitted (v ∷ vs))

abbrev pub refuse_busy_dispatch {ℓ} : {A : Type ℓ} → List String → Step A → Step A
refuse_busy_dispatch [] next = next
refuse_busy_dispatch (j ∷ js) next = refused (busy_dispatch (j ∷ js))

abbrev pub refuse_busy_update {ℓ} : {A : Type ℓ} → List (Run × RunState) → Step A → Step A
refuse_busy_update [] next = next
refuse_busy_update (r ∷ rs) next = refused (busy_update (r ∷ rs))

-- the three refusals, in their order
abbrev pub refuse_busy {ℓ} : {A : Type ℓ} → Found → Step A → Step A
refuse_busy f next =
    refuse_uncommitted_work (blocking f.authority)
      (refuse_busy_dispatch f.in_flight (refuse_busy_update f.updates_in_flight next))

pub record Plan : Type 0 where
  pub socle : Socle
  pub authority : List Verdict

-- `preflight`: the wheel, by whether it is a file and its suffix, is the request.
unfoldable pub preflight : Machine → Bool → Text → Found → Step Plan
unfolding preflight_service blocking
preflight m is_file suffix f = require is_file no_wheel (
    require (text_eq suffix (codes ".whl")) not_a_wheel (
      and_then (preflight_service m)
        (λ socle. refuse_busy f (passed (record { socle = socle; authority = f.authority })))))

pub record BackPlan : Type 0 where
  pub socle : Socle
  pub snapshot : Info
  pub target_venv : String
  pub authority : List Verdict

abbrev pub plan_of : Socle → List Verdict → Info → String → BackPlan
plan_of socle authority info venv = record {
  socle = socle;
  snapshot = info;
  target_venv = venv;
  authority = authority;
}

abbrev pub back_plan : Socle → List Verdict → Info → String → Step BackPlan
back_plan socle authority info venv = passed (plan_of socle authority info venv)

-- the snapshot that was asked for
abbrev pub of_usable : Socle → List Verdict → Info → Usable → Step BackPlan
of_usable socle authority info (back_to venv) = back_plan socle authority info venv
of_usable socle authority info (unusable why) = refused (not_usable info.name why)

abbrev pub of_named : Disk → Socle → List Verdict → String → Option Info → Step BackPlan
of_named disk socle authority ref none = refused (unknown_snapshot ref)
of_named disk socle authority ref (some info) =
    of_usable socle authority info
      (usable disk info (disk.resolve socle.venv) (disk.python_schema socle.venv))

abbrev pub of_resolution : Socle → List Verdict → Resolution → Step BackPlan
of_resolution socle authority (found info venv) = back_plan socle authority info venv
of_resolution socle authority (nowhere motifs) = refused (no_target motifs)

abbrev pub choose : Disk → Socle → List Verdict → Option String → List Info → Step BackPlan
choose disk socle authority ref [] = refused no_snapshot
choose disk socle authority (some ref) (i ∷ is) =
    of_named disk socle authority ref (named_snapshot ref (i ∷ is))
choose disk socle authority none (i ∷ is) =
    of_resolution socle authority
      (resolve_target disk (disk.resolve socle.venv) (disk.python_schema socle.venv) (i ∷ is))

unfoldable pub preflight_rollback : Machine → Disk → Option String → Found → Step BackPlan
unfolding preflight_service blocking list_snapshots usable resolve_target named_snapshot
preflight_rollback m disk ref f =
    and_then (preflight_service m) (λ socle.
      refuse_busy f (choose disk socle f.authority (named_path ref) (list_snapshots disk)))

-- `reversible`: not measured, no way back, or the target.
pub data Reversible : Type 0 where
  undetermined : Reversible
  no_way_back : Refusal → Reversible
  way_back : Info → String → Reversible

-- What keeps the instance from being deployed: a refusal, or a unit that cannot be read.
pub data Deployable : Type 0 where
  deployable : Deployable
  not_deployable : Refusal → Deployable
  unit_unreadable : Deployable

pub record AptitudeView : Type 0 where
  pub deployable : Deployable
  pub reversible : Reversible

abbrev pub reversible_of : Resolution → Reversible
reversible_of (found info venv) = way_back info venv
reversible_of (nowhere motifs) = no_way_back (no_target motifs)

abbrev pub measure : Disk → Socle → List Info → Reversible
measure disk socle [] = no_way_back no_snapshot
measure disk socle (i ∷ is) =
    reversible_of
      (resolve_target disk (disk.resolve socle.venv) (disk.python_schema socle.venv) (i ∷ is))

-- `aptitude`: nothing for a ValueError, which it does not catch.
abbrev pub aptitude_of : Disk → Step Socle → Option AptitudeView
aptitude_of disk (passed socle) =
    some (record { deployable = deployable; reversible = measure disk socle (list_snapshots disk) })
aptitude_of disk (refused r) =
    some (record { deployable = not_deployable r; reversible = undetermined })
aptitude_of disk os_error =
    some (record { deployable = unit_unreadable; reversible = undetermined })
aptitude_of disk value_error = none

unfoldable pub aptitude : Machine → Disk → Option AptitudeView
unfolding preflight_service list_snapshots resolve_target
aptitude m disk = aptitude_of disk (preflight_service m)
