-- ===== src/Update/Preflight/Target.antt =====
-- `_resolution_cible`, `_cible_utilisable` and `_venv_pour` of src/forgemaster/update.py.
use forgemaster.Prelude.{
  ℕ, String, Bool, true, false, not, ◌||◌, Option, none, some, List, [], ◌∷◌, ltb, str_eq,
  if◌then◌else◌, select_one,
}
use forgemaster.Snapshot.{
  Disk, Entry, Info, Reason, SnapshotState, restaurable, inconnu, state_of, snapshot_schema,
  venv_for_schema,
}

-- `_venv_pour`. It is asked of a valid snapshot whose state was measured, which declares its entries.
abbrev pub venv_of_schema : Disk → String → Option ℕ → Option String
venv_of_schema disk path none = none
venv_of_schema disk path (some wanted) = venv_for_schema disk wanted path

abbrev pub venv_pour : Disk → String → Option (List Entry) → Option String
venv_pour disk path none = none
venv_pour disk path (some entries) = venv_of_schema disk path (snapshot_schema disk path entries)

-- The reasons why a snapshot is no way back.
pub data Why : Type 0 where
  invalid : Why
  not_restorable : SnapshotState → Why
  is_safety unseen already_active : Why
  forward : ℕ → ℕ → Why

pub data Usable : Type 0 where
  back_to : String → Usable
  unusable : Why → Usable

abbrev pub is_restaurable : SnapshotState → Bool
is_restaurable restaurable = true
is_restaurable _ = false

-- `info.get("state")`, that of a snapshot whose manifest could be read
abbrev pub measured : Option Reason → SnapshotState
measured none = inconnu
measured (some reason) = state_of reason

abbrev pub by_direction : String → Option ℕ → Option ℕ → Usable
by_direction venv (some current) (some target) =
    if ltb current target then unusable (forward target current) else back_to venv
by_direction venv _ _ = back_to venv

abbrev pub by_venv : Disk → String → Option ℕ → Option String → Usable
by_venv disk active current none = unusable unseen
by_venv disk active current (some venv) =
    if str_eq (disk.resolve venv) active
    then unusable already_active
    else by_direction venv current (disk.python_schema venv)

-- `_cible_utilisable`
unfoldable pub usable : Disk → Info → String → Option ℕ → Usable
unfolding snapshot_schema venv_for_schema
usable disk info active current =
    if not info.valid
    then unusable invalid
    else if not (is_restaurable (measured info.reason))
    then unusable (not_restorable (measured info.reason))
    else if info.safety_of_rollback
    then unusable is_safety
    else by_venv disk active current (venv_pour disk info.path info.entries)

pub data Resolution : Type 0 where
  found : Info → String → Resolution
  nowhere : List (String × Why) → Resolution

abbrev pub with_motif : String → Why → Resolution → Resolution
with_motif name why (found info venv) = found info venv
with_motif name why (nowhere motifs) = nowhere ((name, why) ∷ motifs)

abbrev pub or_later : Info → Usable → Resolution → Resolution
or_later info (back_to venv) rest = found info venv
or_later info (unusable why) rest = with_motif info.name why rest

-- The walk of `_resolution_cible`: the first that is usable, or all the motives.
unfoldable pub resolve_target : Disk → String → Option ℕ → List Info → Resolution
unfolding usable
resolve_target disk active current [] = nowhere []
resolve_target disk active current (i ∷ is) =
    let rest = resolve_target disk active current is in
    or_later i (usable disk i active current) rest

-- `s["name"] == snapshot or s["path"] == snapshot`
unfoldable pub named_snapshot : String → List Info → Option Info
unfolding select_one
named_snapshot ref infos =
    select_one (λ i. str_eq (Info.name i) ref || str_eq (Info.path i) ref) infos
