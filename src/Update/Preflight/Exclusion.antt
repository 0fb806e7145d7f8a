-- ===== src/Update/Preflight/Exclusion.antt =====
-- An update on its way keeps others from starting: `spawn`, `survey_updates_in_flight` and the preflights of
-- src/forgemaster/update.py together.
use forgemaster.Prelude.{
  ℕ, String, ◌≡◌, refl, Bool, true, false, Option, none, some, List, [], ◌∷◌, All, any, ltb, ◌==◌,
  arith, Bool-cases, inl, inr, if◌then◌else◌, ap, ◌∙◌, map,
}
use forgemaster.Prelude.Text.{Text, codes, text_eq}
use forgemaster.Projects.Authority.{Verdict, blocking}
use forgemaster.Snapshot.{Disk}
use forgemaster.Update.Runs.{Run, RunState, running, run_state}
use forgemaster.Update.Runs.Spawn.{
  Cible, RunDir, Registration, launched, collision, raised_os_error, has_stamp, new_dir, put_dir,
  runs_in, spawn,
}
use forgemaster.Update.Preflight.Surveys.{survey_updates_in_flight}
use forgemaster.Update.Preflight.Service.{
  Refusal, no_wheel, not_a_wheel, preflight_service, Machine, Step, passed, and_then, require,
  refused, os_error, value_error,
}
use forgemaster.Update.Preflight.{
  refuse_uncommitted_work, refuse_busy_dispatch, refuse_busy_update, Found, refuse_busy, preflight,
  preflight_rollback,
}

-- The survey of the directories: is the file of the verdict there, and is the unit active?
abbrev pub surveyed : (Run → Bool) → (Run → Bool) → List RunDir → List (Run × RunState)
surveyed has_result is_active dirs = survey_updates_in_flight has_result is_active (runs_in dirs)

put_dir-newest :
    (d : RunDir) (dirs : List RunDir)
    → All (λ e. ltb (Run.id (RunDir.run e)) d.run.id ≡ true) dirs
    → put_dir d dirs ≡ d ∷ dirs
put_dir-newest d [] h = refl
put_dir-newest d (e ∷ es) h = rw h.0 refl

spawn-launched :
    (now : ℕ) (cible : Cible) (writes : Bool) (registration : Registration) (dirs : List RunDir)
    → (spawn now cible writes registration dirs).0 ≡ launched
    → (spawn now cible writes registration dirs).1 ≡ put_dir (new_dir now (some cible)) dirs
unfolding spawn
spawn-launched now cible writes registration dirs h = elim (Bool-cases (any (has_stamp now) dirs)) [
  | inl e ↦ absurd (let bad : collision ≡ launched = rw e at h in cc)
  | inr e ↦ elim (Bool-cases writes) [
    | inl w ↦ rw (e, w) refl
    | inr w ↦ absurd (let bad : raised_os_error ≡ launched = rw (e, w) at h in cc)
  ]
]

-- What the script has written in its directory since.
abbrev pub at_work : ℕ → Bool → Bool → Run
at_work now journal launch = record {
  id = now;
  result = none;
  has_journal = journal;
  has_launch = launch;
}

abbrev pub written : ℕ → Bool → Bool → RunDir → RunDir
written now journal launch d =
    if d.run.id == now then record d { run = at_work now journal launch } else d

abbrev pub is_passed {ℓ} : {A : Type ℓ} → Step A → Bool
is_passed (passed a) = true
is_passed _ = false

and_then-refuses {ℓ κ} :
    {A : Type ℓ} {B : Type κ} (s : Step A) (next : A → Step B)
    → ((a : A) → is_passed (next a) ≡ false)
    → is_passed (and_then s next) ≡ false
and_then-refuses (passed a) next h = h a
and_then-refuses (refused r) next h = refl
and_then-refuses os_error next h = refl
and_then-refuses value_error next h = refl

require-refuses {ℓ} :
    {A : Type ℓ} (test : Bool) (r : Refusal) (s : Step A)
    → is_passed s ≡ false
    → is_passed (require test r s) ≡ false
require-refuses true r s h = h
require-refuses false r s h = refl

refuse_busy-refuses {ℓ} :
    {A : Type ℓ} (f : Found) (u : Run × RunState) (us : List (Run × RunState)) (next : Step A)
    → f.updates_in_flight ≡ u ∷ us
    → is_passed (refuse_busy f next) ≡ false
refuse_busy-refuses f u us next h =
    by_cases (blocking f.authority) f.in_flight f.updates_in_flight h
  where
    by_cases :
        (vs : List Verdict) (js : List String) (rs : List (Run × RunState))
        → rs ≡ u ∷ us
        → is_passed
            (refuse_uncommitted_work vs (refuse_busy_dispatch js (refuse_busy_update rs next)))
          ≡ false
    by_cases (v ∷ vs) js rs e = refl
    by_cases [] (j ∷ js) rs e = refl
    by_cases [] [] (r ∷ rs) e = refl
    by_cases [] [] [] e = absurd (cc)

module _ (now : ℕ) (journal launch : Bool) (has_result is_active : Run → Bool) where
  surveyed-running :
      (dirs : List RunDir) (cible : Option Cible)
      → has_result (at_work now journal launch) ≡ false
      → is_active (at_work now journal launch) ≡ true
      → surveyed has_result is_active (map (written now journal launch) (new_dir now cible ∷ dirs))
        ≡ (at_work now journal launch, running) ∷ []
  unfolding survey_updates_in_flight run_state
  surveyed-running dirs cible no_result active =
      let same : (now == now) ≡ true = ground arith in rw (same, no_result, active) refl

-- After a launch in a second that is later than those of all runs, while its unit is active and its verdict
-- is not written, whatever the script has written by then, no preflight passes whose caller surveys the
-- runs: neither one of an update nor one of a way back.
pub spawn-excludes :
    (now : ℕ) (cible : Cible) (writes : Bool) (registration : Registration) (dirs : List RunDir)
    (journal launch : Bool) (has_result is_active : Run → Bool) (m : Machine) (f : Found)
    (is_file : Bool) (suffix : Text) (disk : Disk) (named : Option String)
    → All (λ e. ltb (Run.id (RunDir.run e)) now ≡ true) dirs
    → (spawn now cible writes registration dirs).0 ≡ launched
    → has_result (at_work now journal launch) ≡ false
    → is_active (at_work now journal launch) ≡ true
    → f.updates_in_flight
      ≡ surveyed has_result is_active
          (map (written now journal launch) (spawn now cible writes registration dirs).1)
    → (is_passed (preflight m is_file suffix f) ≡ false)
      × (is_passed (preflight_rollback m disk named f) ≡ false)
unfolding preflight preflight_rollback
spawn-excludes now cible writes registration dirs journal launch has_result is_active m f is_file
      suffix disk named newest h no_result active e =
    let dirs_after =
      spawn-launched now cible writes registration dirs h
      ∙ put_dir-newest (new_dir now (some cible)) dirs newest in
    let busy : f.updates_in_flight ≡ (at_work now journal launch, running) ∷ [] =
      e
      ∙ ap (λ ds. surveyed has_result is_active (map (written now journal launch) ds)) dirs_after
      ∙ surveyed-running now journal launch has_result is_active dirs (some cible) no_result
          active in
    (
      require-refuses is_file no_wheel _ (
          require-refuses (text_eq suffix (codes ".whl")) not_a_wheel _ (
            and_then-refuses (preflight_service m) _ (λ socle. refuse_busy-refuses f _ [] _ busy))),
      and_then-refuses (preflight_service m) _ (λ socle. refuse_busy-refuses f _ [] _ busy),
    )
