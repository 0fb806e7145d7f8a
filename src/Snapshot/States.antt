-- ===== src/Snapshot/States.antt =====
-- The states of the snapshots of src/forgemaster/snapshot.py against the guard of restore.py.
use forgemaster.Prelude.{
  ℕ, String, ◌≡◌, refl, Bool, true, false, Option, none, some, List, [], ◌∷◌, any, arith,
  if◌then◌else◌, ◌⊎◌, inl, inr, sym, ◌∙◌, Bool-cases,
}
use forgemaster.Prelude.Text.{codes, ends_with}
use forgemaster.Snapshot.{
  Disk, Entry, reads, first_of_schema, above, not_exact, by_choice, by_schema, state_of,
  SnapshotState, restaurable, donnees_seules, irrestaurable, inconnu, restorability,
  snapshot_schema,
}
use forgemaster.Snapshot.Compatibility.{check_compatibility, is_compatible}
use forgemaster.Snapshot.Choice.{first_of_schema-none, first_of_schema-some}

-- A venv that the guard of the restoration lets through.
abbrev pub passes : ℕ → String × ℕ → Bool
passes snap e = is_compatible (check_compatibility (some snap) (some (e.1)) false)

-- What the entries of a manifest hold: no database, one whose `user_version` cannot be read, or one of
-- a known schema. The code gives None for the first two alike.
pub data Base : Type 0 where
  absent unread : Base
  holds : ℕ → Base

abbrev pub read_base : Option ℕ → Base
read_base none = unread
read_base (some schema) = holds schema

abbrev pub base_of : Disk → String → List Entry → Base
base_of disk path [] = absent
base_of disk path (e ∷ es) =
    let rest = base_of disk path es in
    if ends_with (codes ".db") (codes e.restore_to)
    then read_base (disk.user_version path e.name)
    else rest

-- The state that the guard and the schemas call for, without a look at names, order or journals.
abbrev pub promised : Base → List (String × ℕ) → SnapshotState
promised absent venvs = restaurable
promised unread venvs = restaurable
promised (holds snap) [] = inconnu
promised (holds snap) (e ∷ es) =
    if any (reads snap) (e ∷ es)
    then restaurable
    else if any (passes snap) (e ∷ es)
    then donnees_seules
    else irrestaurable

abbrev schema_in : Base → Option ℕ
schema_in absent = none
schema_in unread = none
schema_in (holds schema) = some schema

schema_in-read_base : (u : Option ℕ) → schema_in (read_base u) ≡ u
schema_in-read_base none = refl
schema_in-read_base (some schema) = refl

snapshot_schema-base_of :
    (disk : Disk) (path : String) (entries : List Entry)
    → snapshot_schema disk path entries ≡ schema_in (base_of disk path entries)
unfolding snapshot_schema
snapshot_schema-base_of disk path [] = refl
snapshot_schema-base_of disk path (e ∷ es) =
    elim (Bool-cases (ends_with (codes ".db") (codes e.restore_to))) [
      | inl is_base ↦ rw is_base (sym (schema_in-read_base (disk.user_version path e.name)))
      | inr other ↦ rw other (snapshot_schema-base_of disk path es)
    ]

no_schema : (b : Base) → schema_in b ≡ none → (b ≡ absent) ⊎ (b ≡ unread)
no_schema absent h = inl refl
no_schema unread h = inr refl
no_schema (holds schema) h = absurd (cc)

-- Without a schema, the entries hold no database or one that cannot be read.
pub snapshot_schema-none :
    (disk : Disk) (path : String) (entries : List Entry)
    → snapshot_schema disk path entries ≡ none
    → (base_of disk path entries ≡ absent) ⊎ (base_of disk path entries ≡ unread)
snapshot_schema-none disk path entries h =
    no_schema (base_of disk path entries) (sym (snapshot_schema-base_of disk path entries) ∙ h)

abbrev has_any : List ℕ → Bool
has_any [] = false
has_any (n ∷ ns) = true

any-above :
    (snap : ℕ) (venvs : List (String × ℕ))
    → any (reads snap) venvs ≡ false
    → any (passes snap) venvs ≡ has_any (above snap venvs)
unfolding check_compatibility
any-above snap [] h = refl
any-above snap (e ∷ es) h = ground (arith, h, any-above snap es)

not_exact-state :
    (snap : ℕ) (venvs : List (String × ℕ)) (ns : List ℕ)
    → any (passes snap) venvs ≡ has_any ns
    → state_of (not_exact snap venvs ns)
      ≡ (if any (passes snap) venvs then donnees_seules else irrestaurable)
not_exact-state snap venvs [] h = rw h refl
not_exact-state snap venvs (n ∷ ns) h = rw h refl

by_choice-state :
    (disk : Disk) (snap : ℕ) (venvs : List (String × ℕ)) (paired chosen : Option String)
    → first_of_schema disk venvs snap paired ≡ chosen
    → state_of (by_choice disk snap venvs chosen) ≡ (
        if any (reads snap) venvs
        then restaurable
        else if any (passes snap) venvs
        then donnees_seules
        else irrestaurable)
by_choice-state disk snap venvs paired none h =
    let unread = first_of_schema-none disk venvs snap paired h in
    rw unread (not_exact-state snap venvs (above snap venvs) (any-above snap venvs unread))
by_choice-state disk snap venvs paired (some v) h =
    rw (first_of_schema-some disk venvs snap paired v h) refl

by_schema-state :
    (disk : Disk) (venvs : List (String × ℕ)) (paired : Option String) (b : Base)
    → state_of (by_schema disk venvs paired (schema_in b)) ≡ promised b venvs
by_schema-state disk venvs paired absent = refl
by_schema-state disk venvs paired unread = refl
by_schema-state disk [] paired (holds snap) = refl
by_schema-state disk (e ∷ es) paired (holds snap) =
    by_choice-state disk snap (e ∷ es) paired (first_of_schema disk (e ∷ es) snap paired) refl

-- The state of a snapshot that declares its entries. With a database of known schema it is the one that
-- the guard of the restoration promises: a venv reads its schema exactly, or one reads further, or none
-- does, or nothing is measured without a venv. Without a database, and with one whose schema cannot be
-- read, it is called restorable.
pub restorability-promised :
    (disk : Disk) (path : String) (entries : List Entry) (venvs : List (String × ℕ))
    (paired : Option String)
    → state_of (restorability disk path (some entries) venvs paired)
      ≡ promised (base_of disk path entries) venvs
unfolding restorability
restorability-promised disk path entries venvs paired =
    rw (snapshot_schema-base_of disk path entries)
      (by_schema-state disk venvs paired (base_of disk path entries))
