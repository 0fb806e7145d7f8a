-- ===== src/Snapshot.antt =====
-- src/forgemaster/snapshot.py: what each snapshot can bring back, and by which binary.
--
-- A path is a text; its resolution, what the disk holds, the schema that a venv's python prints and the
-- `user_version` of a database are the disk's. The messages are constructors with the values they show.
pub mod Journals
pub mod Compatibility
pub mod Choice
pub mod States
use forgemaster.Prelude.{
  ℕ, String, Bool, true, false, not, ◌&&◌, Option, none, some, List, [], ◌∷◌, ◌++◌, ◌==◌, ltb, elem,
  str_eq, if◌then◌else◌, select, length,
}
use forgemaster.Prelude.Text.{codes, ends_with}
use forgemaster.Snapshot.Journals.{RunResult, Runs, read_all_runs, lookup_path}

-- An entry of a manifest, and the manifest: its entries when they are a list.
pub record Entry : Type 0 where
  pub name : String
  pub restore_to : String
  pub sha256 : String

-- What lies in the directory of a snapshot.
pub data ManifestFile : Type 0 where
  absent unreadable other_schema : ManifestFile
  manifest : Option (List Entry) → ManifestFile

pub record SnapshotDir : Type 0 where
  pub path : String
  pub name : String
  pub file : ManifestFile

pub record Disk : Type 0 where
  -- `_resolu`
  pub resolve : String → String
  pub is_dir : String → Bool
  pub parent : String → String
  -- `<home>/venvs` and the directories in it, the newest first
  pub venvs_root : String
  pub stamped : List String
  -- `restore.python_schema` of the python of a venv
  pub python_schema : String → Option ℕ
  -- `result.json` of each run, the newest first, nothing when it cannot be read as an object
  pub results : List (Option RunResult)
  -- `restore._user_version` of a file of a snapshot
  pub user_version : String → String → Option ℕ
  -- the directories of the snapshots, the newest first
  pub snapshots : List SnapshotDir

abbrev pub runs_of : Disk → Runs
runs_of disk = read_all_runs disk.resolve disk.results

-- `ailleurs`: the venvs that a run has named and that are not seen yet
unfoldable pub elsewhere : Disk → List String → List String → List String
elsewhere disk seen [] = []
elsewhere disk seen (v ∷ vs) =
    let skipped = elsewhere disk seen vs in
    let taken = elsewhere disk (disk.resolve v ∷ seen) vs in
    if not (disk.is_dir v)
    then skipped
    else if elem (disk.resolve v) seen
    then skipped
    else v ∷ taken

abbrev pub resolve_all : Disk → List String → List String
resolve_all disk [] = []
resolve_all disk (v ∷ vs) = disk.resolve v ∷ resolve_all disk vs

-- `_venvs_candidats`
unfoldable pub candidates : Disk → List String
unfolding elsewhere
candidates disk =
    disk.stamped ++ elsewhere disk (resolve_all disk disk.stamped) (runs_of disk).order

unfoldable pub probe_all : Disk → List String → List (String × ℕ)
probe_all disk [] = []
probe_all disk (v ∷ vs) =
    let rest = probe_all disk vs in
    elim (disk.python_schema v) [ none ↦ rest | some schema ↦ (v, schema) ∷ rest ]

-- `venv_schemas`
abbrev pub venv_schemas : Disk → List (String × ℕ)
venv_schemas disk = probe_all disk (candidates disk)

-- `next(v for v, s in venvs.items() if …)`
unfoldable pub first_venv : (String × ℕ → Bool) → List (String × ℕ) → Option String
first_venv p [] = none
first_venv p (e ∷ es) = let rest = first_venv p es in if p e then some e.0 else rest

abbrev pub reads : ℕ → String × ℕ → Bool
reads wanted e = e.1 == wanted

abbrev pub is_paired : Disk → ℕ → String → String × ℕ → Bool
is_paired disk wanted paired e = e.1 == wanted && str_eq (disk.resolve e.0) (disk.resolve paired)

abbrev pub or_else : Option String → Option String → Option String
or_else (some v) other = some v
or_else none other = other

-- `_premier_du_schema`
unfoldable pub first_of_schema : Disk → List (String × ℕ) → ℕ → Option String → Option String
unfolding first_venv
first_of_schema disk venvs wanted none = first_venv (reads wanted) venvs
first_of_schema disk venvs wanted (some paired) =
    or_else (first_venv (is_paired disk wanted paired) venvs) (first_venv (reads wanted) venvs)

-- The venv that ran when the snapshot was taken, by the journals.
abbrev pub paired_with : Disk → String → Option String
paired_with disk path = lookup_path (disk.resolve path) (runs_of disk).taken

-- `venv_for_schema`, with its snapshot
unfoldable pub venv_for_schema : Disk → ℕ → String → Option String
unfolding first_of_schema probe_all candidates
venv_for_schema disk wanted path =
    first_of_schema disk (venv_schemas disk) wanted (paired_with disk path)

-- `restore.snapshot_schema`: of the first entry that goes to a database
unfoldable pub snapshot_schema : Disk → String → List Entry → Option ℕ
snapshot_schema disk path [] = none
snapshot_schema disk path (e ∷ es) =
    let rest = snapshot_schema disk path es in
    if ends_with (codes ".db") (codes e.restore_to) then disk.user_version path e.name else rest

pub data SnapshotState : Type 0 where
  restaurable donnees_seules irrestaurable inconnu : SnapshotState

-- `state_reason`, with the venv and whether it is outside of `<home>/venvs` (`state_note`)
pub data Reason : Type 0 where
  truncated without_base unprobed : Reason
  exact : String → Bool → Reason
  nearest : ℕ → Reason
  highest : ℕ → Reason

abbrev pub state_of : Reason → SnapshotState
state_of truncated = inconnu
state_of unprobed = inconnu
state_of without_base = restaurable
state_of (exact v outside) = restaurable
state_of (nearest n) = donnees_seules
state_of (highest n) = irrestaurable

-- `au_dessus`
abbrev pub above : ℕ → List (String × ℕ) → List ℕ
above schema [] = []
above schema (e ∷ es) = if ltb schema e.1 then e.1 ∷ above schema es else above schema es

-- `min` and `max` of a list that is not empty, from its first
abbrev pub least : ℕ → List ℕ → ℕ
least n [] = n
least n (m ∷ ms) = least (if ltb m n then m else n) ms

abbrev pub greatest : ℕ → List (String × ℕ) → ℕ
greatest n [] = n
greatest n (e ∷ es) = greatest (if ltb n e.1 then e.1 else n) es

abbrev pub not_exact : ℕ → List (String × ℕ) → List ℕ → Reason
not_exact schema venvs [] = highest (greatest 0 venvs)
not_exact schema venvs (n ∷ ns) = nearest (least n ns)

abbrev pub by_choice : Disk → ℕ → List (String × ℕ) → Option String → Reason
by_choice disk schema venvs none = not_exact schema venvs (above schema venvs)
by_choice disk schema venvs (some v) = exact v (not (str_eq (disk.parent v) disk.venvs_root))

abbrev pub by_schema : Disk → List (String × ℕ) → Option String → Option ℕ → Reason
by_schema disk venvs paired none = without_base
by_schema disk [] paired (some schema) = unprobed
by_schema disk (e ∷ es) paired (some schema) =
    by_choice disk schema (e ∷ es) (first_of_schema disk (e ∷ es) schema paired)

-- `_restorability`
unfoldable pub restorability :
    Disk → String → Option (List Entry) → List (String × ℕ) → Option String → Reason
unfolding snapshot_schema first_of_schema
restorability disk path none venvs paired = truncated
restorability disk path (some entries) venvs paired =
    by_schema disk venvs paired (snapshot_schema disk path entries)

-- A snapshot as the list shows it: `reason` is there when it is valid.
pub record Info : Type 0 where
  pub path : String
  pub name : String
  pub valid : Bool
  pub reason : Option Reason
  pub entries : Option (List Entry)
  pub named_by_run : Bool
  pub safety_of_rollback : Bool

abbrev pub is_some : Option String → Bool
is_some none = false
is_some (some s) = true

abbrev pub info_of : Disk → SnapshotDir → Bool → Option Reason → Option (List Entry) → Info
info_of disk d valid reason entries = record {
  path = d.path;
  name = d.name;
  valid = valid;
  reason = reason;
  entries = entries;
  named_by_run = is_some (paired_with disk d.path);
  safety_of_rollback = elem (disk.resolve d.path) (runs_of disk).safeties;
}

-- `_read_manifest`, and the state of a manifest that could be read
abbrev pub read_manifest : Disk → List (String × ℕ) → SnapshotDir → ManifestFile → Info
read_manifest disk venvs d (manifest entries) =
    info_of disk d true (some (restorability disk d.path entries venvs (paired_with disk d.path)))
      entries
read_manifest disk venvs d _ = info_of disk d false none none

abbrev pub list_each : Disk → List (String × ℕ) → List SnapshotDir → List Info
list_each disk venvs [] = []
list_each disk venvs (d ∷ ds) = read_manifest disk venvs d d.file ∷ list_each disk venvs ds

unfoldable pub list_snapshots : Disk → List Info
unfolding restorability probe_all candidates
list_snapshots disk = list_each disk (venv_schemas disk) disk.snapshots
