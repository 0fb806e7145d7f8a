-- ===== src/Snapshot/Journals.antt =====
-- `_lecture_des_runs` of src/forgemaster/snapshot.py: what the journals of the updates say.
use forgemaster.Prelude.{
  String, Option, none, some, List, [], ◌∷◌, ◌++◌, any, str_eq, truthy, if◌then◌else◌,
}

-- The keys of `result.json`; a key that is missing is None.
pub record RunResult : Type 0 where
  pub venv_avant : Option String
  pub instantane : Option String
  pub instantane_surete : Option String

-- the order, the pairs and the safeties
pub record Runs : Type 0 where
  pub order : List String
  pub taken : List (String × String)
  pub safeties : List String

unfoldable pub lookup_path : String → List (String × String) → Option String
lookup_path key [] = none
lookup_path key ((k, v) ∷ es) =
    let rest = lookup_path key es in if str_eq k key then some v else rest

-- `dict.setdefault`
unfoldable pub set_default : String → String → List (String × String) → List (String × String)
set_default key value entries =
    if any (λ e. str_eq (e.0) key) entries then entries else entries ++ (key, value) ∷ []

-- `if not pris: continue`
abbrev pub named_path : Option String → Option String
named_path none = none
named_path (some p) = if truthy p then some p else none

abbrev pub take_forward : (String → String) → String → Option String → Runs → Runs
take_forward resolve venv none runs = runs
take_forward resolve venv (some p) runs = record runs {
  taken = set_default (resolve p) venv runs.taken;
}

abbrev pub take_safety : (String → String) → String → Option String → Runs → Runs
take_safety resolve venv none runs = runs
take_safety resolve venv (some p) runs = record runs {
  taken = set_default (resolve p) venv runs.taken;
  safeties = resolve p ∷ runs.safeties;
}

abbrev pub read_named : (String → String) → RunResult → Option String → Runs → Runs
read_named resolve r none runs = runs
read_named resolve r (some venv) runs = take_safety resolve venv (named_path r.instantane_surete) (
    take_forward resolve venv (named_path r.instantane)
      (record runs { order = runs.order ++ venv ∷ [] }))

abbrev pub read_run : (String → String) → Option RunResult → Runs → Runs
read_run resolve none runs = runs
read_run resolve (some r) runs = read_named resolve r (named_path r.venv_avant) runs

unfoldable pub read_runs : (String → String) → List (Option RunResult) → Runs → Runs
unfolding set_default
read_runs resolve [] runs = runs
read_runs resolve (r ∷ rs) runs = read_runs resolve rs (read_run resolve r runs)

abbrev pub read_all_runs : (String → String) → List (Option RunResult) → Runs
read_all_runs resolve results =
    read_runs resolve results (record { order = []; taken = []; safeties = [] })
