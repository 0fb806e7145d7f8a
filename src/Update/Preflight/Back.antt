-- ===== src/Update/Preflight/Back.antt =====
-- Where a way back of src/forgemaster/update.py leads.
use forgemaster.Update.Preflight.Walk.{
  IsBack, IsListed, usable-IsBack, select_one-IsListed, resolve_target-usable,
}
use forgemaster.Prelude.{String, ◌≡◌, refl, Option, none, some, List, [], ◌∷◌, subst}
use forgemaster.Projects.Authority.{Verdict, blocking}
use forgemaster.Snapshot.{Disk, Info, list_snapshots}
use forgemaster.Snapshot.Journals.{named_path}
use forgemaster.Update.Runs.{Run, RunState}
use forgemaster.Update.Preflight.Target.{
  Usable, back_to, unusable, usable, Resolution, found, nowhere, resolve_target, named_snapshot,
}
use forgemaster.Update.Preflight.{
  Found, refuse_uncommitted_work, refuse_busy_dispatch, refuse_busy_update, BackPlan, plan_of,
  back_plan, choose, of_named, of_usable, of_resolution, preflight_rollback,
}
use forgemaster.Update.Preflight.Service.{
  Machine, Step, passed, refused, os_error, value_error, and_then, Socle, preflight_service,
}

-- What a plan of a way back stands for.
pub record IsBackPlan (disk : Disk) (f : Found) (plan : BackPlan) : Type 0 where
  pub no_work : blocking f.authority ≡ []
  pub no_job : f.in_flight ≡ []
  pub no_update : f.updates_in_flight ≡ []
  pub is_listed : IsListed plan.snapshot (list_snapshots disk)
  pub is_back : IsBack disk plan.socle.venv plan.snapshot plan.target_venv

pub refuse_busy-passed :
    {A : Type 0} (work : List Verdict) (jobs : List String) (updates : List (Run × RunState))
    (next : Step A) (a : A)
    → refuse_uncommitted_work work (refuse_busy_dispatch jobs (refuse_busy_update updates next))
      ≡ passed a
    → (work ≡ []) × (jobs ≡ []) × (updates ≡ []) × (next ≡ passed a)
refuse_busy-passed [] [] [] next a h = (refl, refl, refl, h)
refuse_busy-passed (v ∷ vs) jobs updates next a h = absurd (cc)
refuse_busy-passed [] (j ∷ js) updates next a h = absurd (cc)
refuse_busy-passed [] [] (u ∷ us) next a h = absurd (cc)

-- What is chosen, named or found, leads back.
module _ (disk : Disk) (socle : Socle) (authority : List Verdict) (plan : BackPlan) where
  abbrev IsChosen : List Info → Type 0
  IsChosen infos =
      IsListed plan.snapshot infos × IsBack disk plan.socle.venv plan.snapshot plan.target_venv

  back_plan-IsChosen :
      (infos : List Info) (info : Info) (venv : String)
      → back_plan socle authority info venv ≡ passed plan
      → IsListed info infos
      → IsBack disk socle.venv info venv
      → IsChosen infos
  back_plan-IsChosen infos info venv h listed back =
      let same : plan_of socle authority info venv ≡ plan = cc in
      subst
        (λ p.
          IsListed (BackPlan.snapshot p) infos
          × IsBack disk (Socle.venv (BackPlan.socle p)) (BackPlan.snapshot p)
              (BackPlan.target_venv p))
        same (listed, back)

  of_usable-IsChosen :
      (infos : List Info) (info : Info) (u : Usable)
      → usable disk info (disk.resolve socle.venv) (disk.python_schema socle.venv) ≡ u
      → IsListed info infos
      → of_usable socle authority info u ≡ passed plan
      → IsChosen infos
  of_usable-IsChosen infos info (back_to venv) e listed h =
      back_plan-IsChosen infos info venv h listed (usable-IsBack disk venv socle.venv info e)
  of_usable-IsChosen infos info (unusable why) e listed h = absurd (cc)

  of_named-IsChosen :
      (ref : String) (infos : List Info) (named : Option Info)
      → named_snapshot ref infos ≡ named
      → of_named disk socle authority ref named ≡ passed plan
      → IsChosen infos
  of_named-IsChosen ref infos none e h = absurd (cc)
  of_named-IsChosen ref infos (some info) e h =
      of_usable-IsChosen infos info _ refl (select_one-IsListed ref infos info e) h

  of_resolution-IsChosen :
      (infos : List Info) (r : Resolution)
      → resolve_target disk (disk.resolve socle.venv) (disk.python_schema socle.venv) infos ≡ r
      → of_resolution socle authority r ≡ passed plan
      → IsChosen infos
  of_resolution-IsChosen infos (found info venv) e h =
      let walk =
        resolve_target-usable disk (disk.resolve socle.venv) (disk.python_schema socle.venv) infos
          info venv e in
      back_plan-IsChosen infos info venv h walk.0 (usable-IsBack disk venv socle.venv info walk.1)
  of_resolution-IsChosen infos (nowhere motifs) e h = absurd (cc)

  choose-IsChosen :
      (ref : Option String) (infos : List Info)
      → choose disk socle authority ref infos ≡ passed plan
      → IsChosen infos
  choose-IsChosen ref [] h = absurd (cc)
  choose-IsChosen (some ref) (i ∷ is) h = of_named-IsChosen ref (i ∷ is) _ refl h
  choose-IsChosen none (i ∷ is) h = of_resolution-IsChosen (i ∷ is) _ refl h

pub and_then-passed {ℓ κ} :
    {A : Type ℓ} {B : Type κ} (s : Step A) (next : A → Step B) (b : B)
    → and_then s next ≡ passed b
    → (a : A) × (s ≡ passed a) × (next a ≡ passed b)
and_then-passed (passed a) next b h = (a, refl, h)
and_then-passed (refused r) next b h = absurd (cc)
and_then-passed os_error next b h = absurd (cc)
and_then-passed value_error next b h = absurd (cc)

-- A plan of a way back, to a snapshot that is named or to the first that leads back, is given only when
-- no work is uncommitted, no job and no update runs; its snapshot is listed, valid and restorable, none
-- taken for safety, and its venv reads exactly the schema of the snapshot, is not the active one and
-- reads no later schema.
pub preflight_rollback-IsBackPlan :
    (m : Machine) (disk : Disk) (ref : Option String) (f : Found) (plan : BackPlan)
    → preflight_rollback m disk ref f ≡ passed plan
    → IsBackPlan disk f plan
unfolding preflight_rollback
preflight_rollback-IsBackPlan m disk ref f plan h =
    let socle = and_then-passed (preflight_service m) _ plan h in
    let free =
      refuse_busy-passed (blocking f.authority) f.in_flight f.updates_in_flight
        (choose disk socle.0 f.authority (named_path ref) (list_snapshots disk)) plan socle.2 in
    let chosen =
      choose-IsChosen disk socle.0 f.authority plan (named_path ref) (list_snapshots disk) free.3 in
    record {
      no_work = free.0;
      no_job = free.1;
      no_update = free.2;
      is_listed = chosen.0;
      is_back = chosen.1;
    }
