-- ===== src/Update/Preflight/Walk.antt =====
-- What `_cible_utilisable` and `_resolution_cible` of src/forgemaster/update.py lead to.
use forgemaster.Prelude.{
  ℕ, String, ◌≡◌, refl, Bool, true, false, ◌||◌, Option, none, some, List, [], ◌∷◌, select_one, ltb,
  str_eq, subst, Bool-cases, inl, inr, ◌⊎◌,
}
use forgemaster.Snapshot.{
  Disk, Entry, Info, snapshot_schema, venv_for_schema, venv_schemas, paired_with,
}
use forgemaster.Snapshot.Choice.{offers, first_of_schema-offers}
use forgemaster.Update.Preflight.Target.{
  Why, Usable, back_to, unusable, forward, already_active, invalid, not_restorable, is_safety,
  venv_of_schema, venv_pour, is_restaurable, measured, by_direction, by_venv, usable, Resolution,
  found, nowhere, or_later, with_motif, resolve_target, named_snapshot,
}

abbrev pub is_forward : Option ℕ → Option ℕ → Bool
is_forward (some current) (some target) = ltb current target
is_forward _ _ = false

-- The snapshot brings the binary and the data back, and to another binary that is not a later one.
pub record IsBack (disk : Disk) (active : String) (info : Info) (venv : String) : Type 0 where
  pub is_valid : info.valid ≡ true
  pub is_restorable : is_restaurable (measured info.reason) ≡ true
  pub no_safety : info.safety_of_rollback ≡ false
  pub is_elsewhere : str_eq (disk.resolve venv) (disk.resolve active) ≡ false
  pub no_forward : is_forward (disk.python_schema active) (disk.python_schema venv) ≡ false
  pub reads_schema :
      (entries : List Entry) × (schema : ℕ) × (info.entries ≡ some entries)
      × (snapshot_schema disk info.path entries ≡ some schema)
      × (offers venv schema (venv_schemas disk) ≡ true)

module _ (disk : Disk) (venv : String) where
  by_direction-back :
      (v : String) (current target : Option ℕ)
      → by_direction v current target ≡ back_to venv
      → (v ≡ venv) × (is_forward current target ≡ false)
  by_direction-back v none target h = (cc, refl)
  by_direction-back v (some c) none h = (cc, refl)
  by_direction-back v (some c) (some t) h = elim (Bool-cases (ltb c t)) [
    | inl e ↦ let bad : unusable (forward t c) ≡ back_to venv = rw e at h in absurd (cc)
    | inr e ↦ let same : back_to v ≡ back_to venv = rw e at h in (cc, e)
  ]

  by_venv-back :
      (active : String) (chosen : Option String)
      → by_venv disk (disk.resolve active) (disk.python_schema active) chosen ≡ back_to venv
      → (chosen ≡ some venv)
        × (str_eq (disk.resolve venv) (disk.resolve active) ≡ false)
        × (is_forward (disk.python_schema active) (disk.python_schema venv) ≡ false)
  by_venv-back active none h = absurd (cc)
  by_venv-back active (some v) h =
      elim (Bool-cases (str_eq (disk.resolve v) (disk.resolve active))) [
        | inl e ↦ let bad : unusable already_active ≡ back_to venv = rw e at h in absurd (cc)
        | inr e ↦
            let next =
              by_direction-back v (disk.python_schema active) (disk.python_schema v) (rw e at h) in
            subst
              (λ w.
                (some v ≡ some w)
                × (str_eq (disk.resolve w) (disk.resolve active) ≡ false)
                × (is_forward (disk.python_schema active) (disk.python_schema w) ≡ false))
              next.0 (refl, e, next.1)
      ]

  venv_pour-reads :
      (path : String) (entries : Option (List Entry)) (schema : Option ℕ)
      → venv_of_schema disk path schema ≡ some venv
      → (n : ℕ) × (schema ≡ some n) × (offers venv n (venv_schemas disk) ≡ true)
  unfolding venv_for_schema
  venv_pour-reads path entries none h = absurd (cc)
  venv_pour-reads path entries (some n) h =
      (n, refl, first_of_schema-offers disk (venv_schemas disk) n (paired_with disk path) venv h)

  venv_pour-exact :
      (path : String) (entries : Option (List Entry))
      → venv_pour disk path entries ≡ some venv
      → (es : List Entry) × (schema : ℕ) × (entries ≡ some es)
        × (snapshot_schema disk path es ≡ some schema)
        × (offers venv schema (venv_schemas disk) ≡ true)
  venv_pour-exact path none h = absurd (cc)
  venv_pour-exact path (some es) h =
      let at_schema = venv_pour-reads path (some es) (snapshot_schema disk path es) h in
      (es, at_schema.0, refl, at_schema.1, at_schema.2)

  -- What makes a snapshot usable.
  pub usable-IsBack :
      (active : String) (info : Info)
      → usable disk info (disk.resolve active) (disk.python_schema active) ≡ back_to venv
      → IsBack disk active info venv
  unfolding usable
  usable-IsBack active info h = elim (Bool-cases info.valid) [
    | inr e ↦ let bad : unusable invalid ≡ back_to venv = rw e at h in absurd (cc)
    | inl valid ↦ elim (Bool-cases (is_restaurable (measured info.reason))) [
      | inr e ↦
          let bad : unusable (not_restorable (measured info.reason)) ≡ back_to venv =
            rw (valid, e) at h in
          absurd (cc)
      | inl restorable ↦ elim (Bool-cases info.safety_of_rollback) [
        | inl e ↦
            let bad : unusable is_safety ≡ back_to venv = rw (valid, restorable, e) at h in
            absurd (cc)
        | inr safe ↦
            let last =
              by_venv-back active (venv_pour disk info.path info.entries)
                (rw (valid, restorable, safe) at h) in
            record {
              is_valid = valid;
              is_restorable = restorable;
              no_safety = safe;
              is_elsewhere = last.1;
              no_forward = last.2;
              reads_schema = venv_pour-exact info.path info.entries last.0;
            }
      ]
    ]
  ]

-- The snapshot is one of a list.
abbrev pub IsListed : Info → List Info → Type 0
IsListed info [] = (true ≡ false)
IsListed info (i ∷ is) = (i ≡ info) ⊎ IsListed info is

with_motif-found :
    (name : String) (why : Why) (rest : Resolution) (info : Info) (venv : String)
    → with_motif name why rest ≡ found info venv
    → rest ≡ found info venv
with_motif-found name why (found i v) info venv h = h
with_motif-found name why (nowhere motifs) info venv h = absurd (cc)

or_later-found :
    (i : Info) (u : Usable) (rest : Resolution) (info : Info) (venv : String)
    → or_later i u rest ≡ found info venv
    → ((i ≡ info) × (u ≡ back_to venv)) ⊎ (rest ≡ found info venv)
or_later-found i (back_to w) rest info venv h = inl (cc, cc)
or_later-found i (unusable why) rest info venv h =
    inr (with_motif-found i.name why rest info venv h)

-- What the walk finds is listed, and it is usable.
pub resolve_target-usable :
    (disk : Disk) (active : String) (current : Option ℕ) (infos : List Info) (info : Info)
    (venv : String)
    → resolve_target disk active current infos ≡ found info venv
    → IsListed info infos × (usable disk info active current ≡ back_to venv)
unfolding resolve_target
resolve_target-usable disk active current [] info venv h = absurd (cc)
resolve_target-usable disk active current (i ∷ is) info venv h =
    elim (or_later-found i (usable disk i active current) (resolve_target disk active current is)
      info venv h) [
        | inl (same, u) ↦
            (inl same, subst (λ j. usable disk j active current ≡ back_to venv) same u)
        | inr later ↦
            let rest = resolve_target-usable disk active current is info venv later in
            (inr rest.0, rest.1)
      ]

module _ (ref : String) where
  pub select_one-IsListed :
      (infos : List Info) (info : Info) → named_snapshot ref infos ≡ some info → IsListed info infos
  unfolding named_snapshot select_one
  select_one-IsListed [] info h = absurd (cc)
  select_one-IsListed (i ∷ is) info h = elim (Bool-cases (str_eq i.name ref || str_eq i.path ref)) [
    | inl e ↦ let same : some i ≡ some info = rw e at h in inl (cc)
    | inr e ↦ inr (select_one-IsListed is info (rw e at h))
  ]
