-- ===== src/Update/Preflight/Aptitude.antt =====
-- `aptitude` of src/forgemaster/update.py says at rest what the way back would do.
use forgemaster.Prelude.{String, ◌≡◌, refl, Option, none, some, List, [], ◌∷◌, ap, ◌∙◌, select, ◌↔◌}
use forgemaster.Snapshot.{Disk, Info, list_snapshots}
use forgemaster.Update.Preflight.Target.{Resolution, found, nowhere, resolve_target}
use forgemaster.Update.Preflight.{
  Found, refuse_busy, BackPlan, plan_of, choose, of_resolution, preflight_rollback, AptitudeView,
  deployable, Reversible, way_back, measure, reversible_of, aptitude_of, aptitude,
}
use forgemaster.Update.Preflight.Service.{
  Machine, Step, passed, refused, os_error, value_error, and_then, Socle, preflight_service,
}
use forgemaster.Update.Preflight.Back.{and_then-passed, refuse_busy-passed}
use forgemaster.Projects.Authority.{blocking}

-- Nothing that only passes: no work that blocks, no job, no update.
abbrev pub idle : Found
idle = record { authority = []; in_flight = []; updates_in_flight = [] }

abbrev pub back_view : Info → String → Option AptitudeView
back_view info venv = some (record { deployable = deployable; reversible = way_back info venv })

abbrev with_reversible : Reversible → Option AptitudeView
with_reversible r = some (record { deployable = deployable; reversible = r })

module _ (disk : Disk) (socle : Socle) where
  choose-measure :
      (infos : List Info) (f : Found) (plan : BackPlan)
      → choose disk socle f.authority none infos ≡ passed plan
      → measure disk socle infos ≡ way_back plan.snapshot plan.target_venv
  choose-measure [] f plan h = absurd (cc)
  choose-measure (i ∷ is) f plan h =
      of_resolution-reversible f plan
        (resolve_target disk (disk.resolve socle.venv) (disk.python_schema socle.venv) (i ∷ is)) h
    where
      of_resolution-reversible :
          (f : Found) (plan : BackPlan) (r : Resolution)
          → of_resolution socle f.authority r ≡ passed plan
          → reversible_of r ≡ way_back plan.snapshot plan.target_venv
      of_resolution-reversible f plan (found info venv) h =
          let same : plan_of socle f.authority info venv ≡ plan = cc in
          ap (λ p. way_back (BackPlan.snapshot p) (BackPlan.target_venv p)) same
      of_resolution-reversible f plan (nowhere motifs) h = absurd (cc)

  measure-choose :
      (infos : List Info) (info : Info) (venv : String)
      → measure disk socle infos ≡ way_back info venv
      → choose disk socle [] none infos ≡ passed (plan_of socle [] info venv)
  measure-choose [] info venv h = absurd (cc)
  measure-choose (i ∷ is) info venv h =
      reversible-of_resolution
        (resolve_target disk (disk.resolve socle.venv) (disk.python_schema socle.venv) (i ∷ is)) h
    where
      reversible-of_resolution :
          (r : Resolution)
          → reversible_of r ≡ way_back info venv
          → of_resolution socle [] r ≡ passed (plan_of socle [] info venv)
      reversible-of_resolution (found i v) h = cc
      reversible-of_resolution (nowhere motifs) h = absurd (cc)

aptitude_of-back :
    (disk : Disk) (s : Step Socle) (info : Info) (venv : String)
    → aptitude_of disk s ≡ back_view info venv
    → (socle : Socle) × (s ≡ passed socle)
      × (measure disk socle (list_snapshots disk) ≡ way_back info venv)
aptitude_of-back disk (passed socle) info venv h = (socle, refl, cc)
aptitude_of-back disk (refused r) info venv h = absurd (cc)
aptitude_of-back disk os_error info venv h = absurd (cc)
aptitude_of-back disk value_error info venv h = absurd (cc)

plan-back_view :
    (m : Machine) (disk : Disk) (f : Found) (plan : BackPlan)
    → preflight_rollback m disk none f ≡ passed plan
    → aptitude m disk ≡ back_view plan.snapshot plan.target_venv
unfolding preflight_rollback aptitude
plan-back_view m disk f plan h =
    let socle = and_then-passed (preflight_service m) _ plan h in
    let free =
      refuse_busy-passed (blocking f.authority) f.in_flight f.updates_in_flight
        (choose disk socle.0 f.authority none (list_snapshots disk)) plan socle.2 in
    ap (aptitude_of disk) socle.1
    ∙ ap with_reversible (choose-measure disk socle.0 (list_snapshots disk) f plan free.3)

back_view-plan :
    (m : Machine) (disk : Disk) (info : Info) (venv : String)
    → aptitude m disk ≡ back_view info venv
    → (socle : Socle) × (preflight_rollback m disk none idle ≡ passed (plan_of socle [] info venv))
unfolding preflight_rollback aptitude blocking select
back_view-plan m disk info venv h =
    let s = aptitude_of-back disk (preflight_service m) info venv h in
    (
      s.0,
      ap
            (λ step.
              and_then step
                (λ socle. refuse_busy idle (choose disk socle [] none (list_snapshots disk))))
            s.1
          ∙ measure-choose disk s.0 (list_snapshots disk) info venv s.2,
    )

-- The instance says at rest that it can go back to a snapshot and a venv exactly when the way back
-- without a name, while no work, job or update keeps it from it, gives the plan that leads there.
pub aptitude-preflight_rollback :
    (m : Machine) (disk : Disk) (info : Info) (venv : String)
    → (aptitude m disk ≡ back_view info venv) ↔ (
        (socle : Socle) × (preflight_rollback m disk none idle
          ≡ passed (plan_of socle [] info venv)))
aptitude-preflight_rollback m disk info venv = (
  back_view-plan m disk info venv,
  λ p. plan-back_view m disk idle (plan_of p.0 [] info venv) p.1,
)
