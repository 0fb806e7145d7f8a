-- ===== src/Update/Preflight/Agreement.antt =====
-- The venv that the list of the snapshots names and the one of the way back: src/forgemaster/snapshot.py and update.py.
use forgemaster.Prelude.{
  ℕ, String, ◌≡◌, refl, Bool, true, false, Option, none, some, List, [], ◌∷◌, All, ◌⊎◌, inl, inr,
  ap, sym, str_eq, Bool-cases, ltb,
}
use forgemaster.Snapshot.{
  Disk, Entry, SnapshotDir, ManifestFile, manifest, absent, unreadable, other_schema, Info, Reason,
  without_base, exact, by_schema, by_choice, first_of_schema, restorability, snapshot_schema,
  venv_schemas, paired_with, venv_for_schema, read_manifest, list_each, list_snapshots, above,
  not_exact, state_of,
}
use forgemaster.Snapshot.States.{Base, base_of, snapshot_schema-none}
use forgemaster.Update.Preflight.Target.{
  venv_pour, venv_of_schema, is_restaurable, measured, usable, unusable, unseen, Usable, by_venv,
  by_direction,
}

not_exact-no_return :
    (schema : ℕ) (venvs : List (String × ℕ)) (ns : List ℕ)
    → is_restaurable (state_of (not_exact schema venvs ns)) ≡ false
not_exact-no_return schema venvs [] = refl
not_exact-no_return schema venvs (n ∷ ns) = refl

-- the venv that the reason names
abbrev pub named : Reason → Option String
named (exact v outside) = some v
named _ = none

abbrev pub named_by : Option Reason → Option String
named_by none = none
named_by (some reason) = named reason

-- The entries hold no database, or one whose schema cannot be read.
abbrev pub IsBaseless : Disk → String → Option (List Entry) → Type 0
IsBaseless disk path declared =
    (entries : List Entry) × (declared ≡ some entries)
    × ((base_of disk path entries ≡ Base.absent) ⊎ (base_of disk path entries ≡ Base.unread))

module _ (disk : Disk) (path : String) where
  abbrev Agrees : Option ℕ → Reason → Type 0
  Agrees schema reason =
      ((reason ≡ without_base) × (schema ≡ none))
      ⊎ ((v : String) × (venv_of_schema disk path schema ≡ some v) × (named reason ≡ some v))

  by_choice-Agrees :
      (schema : ℕ) (venvs : List (String × ℕ)) (chosen : Option String)
      → venv_for_schema disk schema path ≡ chosen
      → is_restaurable (state_of (by_choice disk schema venvs chosen)) ≡ true
      → Agrees (some schema) (by_choice disk schema venvs chosen)
  by_choice-Agrees schema venvs none e h =
      let never = not_exact-no_return schema venvs (above schema venvs) in absurd (cc)
  by_choice-Agrees schema venvs (some v) e h = inr (v, e, refl)

  by_schema-Agrees :
      (venvs : List (String × ℕ)) (schema : Option ℕ)
      → venvs ≡ venv_schemas disk
      → is_restaurable (state_of (by_schema disk venvs (paired_with disk path) schema)) ≡ true
      → Agrees schema (by_schema disk venvs (paired_with disk path) schema)
  unfolding venv_for_schema
  by_schema-Agrees venvs none e h = inl (refl, refl)
  by_schema-Agrees [] (some schema) e h = absurd (cc)
  by_schema-Agrees (x ∷ xs) (some schema) e h =
      by_choice-Agrees schema (x ∷ xs)
        (first_of_schema disk (x ∷ xs) schema (paired_with disk path))
        (ap (λ vs. first_of_schema disk vs schema (paired_with disk path)) (sym e)) h

  restorability-agrees :
      (entries : Option (List Entry))
      → is_restaurable
          (state_of (restorability disk path entries (venv_schemas disk) (paired_with disk path)))
        ≡ true
      → ((restorability disk path entries (venv_schemas disk) (paired_with disk path)
            ≡ without_base)
          × IsBaseless disk path entries)
        ⊎ ((v : String) × (venv_pour disk path entries ≡ some v)
            × (named (restorability disk path entries (venv_schemas disk) (paired_with disk path))
                ≡ some v))
  unfolding restorability
  restorability-agrees none h = absurd (cc)
  restorability-agrees (some entries) h =
      let schema = snapshot_schema disk path entries in
      elim (by_schema-Agrees (venv_schemas disk) schema refl h) [
        | inl (e, none_read) ↦
            inl (e, (entries, refl, snapshot_schema-none disk path entries none_read))
        | inr v ↦ inr v
      ]

-- The state of an info, and the venv that the way back finds for it.
abbrev pub IsAgreed : Disk → Info → Type 0
IsAgreed disk info =
    is_restaurable (measured info.reason) ≡ true
    → ((info.reason ≡ some without_base) × IsBaseless disk info.path info.entries)
      ⊎ ((v : String) × (venv_pour disk info.path info.entries ≡ some v)
          × (named_by info.reason ≡ some v))

read_manifest-IsAgreed :
    (disk : Disk) (d : SnapshotDir) (file : ManifestFile)
    → IsAgreed disk (read_manifest disk (venv_schemas disk) d file)
read_manifest-IsAgreed disk d absent h = absurd (cc)
read_manifest-IsAgreed disk d unreadable h = absurd (cc)
read_manifest-IsAgreed disk d other_schema h = absurd (cc)
read_manifest-IsAgreed disk d (manifest entries) h =
    elim (restorability-agrees disk d.path entries h) [
      | inl (e, base) ↦ inl (ap some e, base)
      | inr v ↦ inr v
    ]

list_each-IsAgreed :
    (disk : Disk) (ds : List SnapshotDir)
    → All (IsAgreed disk) (list_each disk (venv_schemas disk) ds)
list_each-IsAgreed disk [] = tt
list_each-IsAgreed disk (d ∷ ds) =
    (read_manifest-IsAgreed disk d d.file, list_each-IsAgreed disk ds)

list_snapshots-IsAgreed : (disk : Disk) → All (IsAgreed disk) (list_snapshots disk)
unfolding list_snapshots
list_snapshots-IsAgreed disk = list_each-IsAgreed disk disk.snapshots

abbrev pub is_unseen : Usable → Bool
is_unseen (unusable unseen) = true
is_unseen _ = false

-- The way back does not refuse the snapshot as unseen, and what it would go back to is the venv that
-- the list names; or the list calls the snapshot restorable for want of a schema.
abbrev pub IsSeen : Disk → String → Option ℕ → Info → Type 0
IsSeen disk active current info =
    ((is_unseen (usable disk info active current) ≡ false)
      × ((is_restaurable (measured info.reason) ≡ false)
          ⊎ ((v : String) × (venv_pour disk info.path info.entries ≡ some v)
              × (named_by info.reason ≡ some v))))
    ⊎ ((info.reason ≡ some without_base) × IsBaseless disk info.path info.entries)

by_direction-seen :
    (venv : String) (current target : Option ℕ)
    → is_unseen (by_direction venv current target) ≡ false
by_direction-seen venv none target = refl
by_direction-seen venv (some c) none = refl
by_direction-seen venv (some c) (some t) = elim (Bool-cases (ltb c t)) [
  | inl e ↦ rw e refl
  | inr e ↦ rw e refl
]

by_venv-seen :
    (disk : Disk) (active : String) (current : Option ℕ) (v : String)
    → is_unseen (by_venv disk active current (some v)) ≡ false
by_venv-seen disk active current v = elim (Bool-cases (str_eq (disk.resolve v) active)) [
  | inl e ↦ rw e refl
  | inr e ↦ rw e (by_direction-seen v current (disk.python_schema v))
]

usable-refused :
    (disk : Disk) (active : String) (current : Option ℕ) (info : Info)
    → is_restaurable (measured info.reason) ≡ false
    → is_unseen (usable disk info active current) ≡ false
unfolding usable
usable-refused disk active current info e = elim (Bool-cases info.valid) [
  | inr invalid ↦ rw invalid refl
  | inl valid ↦ rw (valid, e) refl
]

usable-seen :
    (disk : Disk) (active : String) (current : Option ℕ) (info : Info) (v : String)
    → is_restaurable (measured info.reason) ≡ true
    → venv_pour disk info.path info.entries ≡ some v
    → is_unseen (usable disk info active current) ≡ false
unfolding usable
usable-seen disk active current info v restorable e = elim (Bool-cases info.valid) [
  | inr invalid ↦ rw invalid refl
  | inl valid ↦ elim (Bool-cases info.safety_of_rollback) [
    | inl s ↦ rw (valid, restorable, s) refl
    | inr s ↦ rw (valid, restorable, s, e) (by_venv-seen disk active current v)
  ]
]

usable-IsSeen :
    (disk : Disk) (active : String) (current : Option ℕ) (info : Info)
    → IsAgreed disk info
    → IsSeen disk active current info
usable-IsSeen disk active current info agreed =
    elim (Bool-cases (is_restaurable (measured info.reason))) [
      | inr e ↦ inl (usable-refused disk active current info e, inl e)
      | inl e ↦ elim (agreed e) [
        | inl base ↦ inr base
        | inr (v, found, name) ↦
            inl (usable-seen disk active current info v e found, inr (v, found, name))
      ]
    ]

All-usable :
    (disk : Disk) (active : String) (current : Option ℕ) (infos : List Info)
    → All (IsAgreed disk) infos
    → All (IsSeen disk active current) infos
All-usable disk active current [] h = tt
All-usable disk active current (i ∷ is) h =
    (usable-IsSeen disk active current i h.0, All-usable disk active current is h.1)

-- Of the snapshots that are listed, the way back refuses as unseen none but those that the list calls
-- restorable since they hold no database or one whose schema cannot be read; and for every other one
-- called restorable, the way back finds the venv that the list names.
pub list_snapshots-IsSeen :
    (disk : Disk) (active : String) (current : Option ℕ)
    → All (IsSeen disk active current) (list_snapshots disk)
list_snapshots-IsSeen disk active current =
    All-usable disk active current (list_snapshots disk) (list_snapshots-IsAgreed disk)
