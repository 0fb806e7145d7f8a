-- ===== src/Update/Wheels.antt =====
-- `stage_wheel`, `_valide_nom_de_wheel`, `wheels_in_use` and `prune_wheels` of src/forgemaster/update.py: the
-- area where an artefact is left, and its retention.
--
-- The area is the list of its directories, the newest first: a stamp is a number in the order of the
-- texts. A directory has the one wheel that was put there. Left out are an OSError, as of the file
-- deposit.json that is written after the rename, and the check that the resolved path lies in the area. The run whose wheel is in use is a row of
-- `<home>/updates`, the newest first, too.
pub mod Retention
pub mod Staging
use forgemaster.Prelude.{
  ℕ, zero, suc, ◌+◌, String, Bool, true, false, not, ◌&&◌, ◌||◌, Option, none, some, List, [], ◌∷◌,
  ◌++◌, map, ◌==◌, leb, ltb, length, take, any, if◌then◌else◌, ◌⊎◌, inl, inr,
}
use forgemaster.Prelude.Text.{Text, text_eq, codes, last_part, contains}
use forgemaster.Update.{Bytes}
use forgemaster.Update.Publish.{lstrip, rstrip}

-- KEEP_WHEELS, MAX_RUNS and WHEEL_MAX_BYTES
abbrev pub keep_wheels : ℕ
keep_wheels = 3

abbrev pub max_runs : ℕ
max_runs = 50

abbrev pub wheel_max_bytes : ℕ
wheel_max_bytes = 67108864

-- A wheel on the disk, by the stamp of its directory and its name.
abbrev pub Place : Type 0
Place = ℕ × Text

pub record Deposit : Type 0 where
  pub stamp : ℕ
  pub name : Text
  pub contents : Bytes
  pub sha256 : Text

abbrev pub place_eq : Place → Place → Bool
place_eq a b = a.0 == b.0 && text_eq a.1 b.1

abbrev pub is_used : List Place → Deposit → Bool
is_used used d = any (place_eq (d.stamp, d.name)) used

-- A run: whether its verdict is written, and the wheel that its `run.json` names.
pub record WheelRun : Type 0 where
  pub has_result : Bool
  pub wheel : Option Place

abbrev pub named_wheel : WheelRun → List Place → List Place
named_wheel r rest = if r.has_result then rest else named r.wheel
  where
    named : Option Place → List Place
    named none = rest
    named (some p) = p ∷ rest

abbrev pub named_wheels : List WheelRun → List Place
named_wheels [] = []
named_wheels (r ∷ rs) = named_wheel r (named_wheels rs)

unfoldable pub wheels_in_use : List WheelRun → List Place
wheels_in_use runs = named_wheels (take max_runs runs)

-- The directories that stay: the `keep` newest, and those in use.
unfoldable pub prune_wheels : ℕ → List Place → List Deposit → List Deposit
prune_wheels keep used [] = []
prune_wheels (suc keep) used (d ∷ ds) = d ∷ prune_wheels keep used ds
prune_wheels zero used (d ∷ ds) =
    let rest = prune_wheels zero used ds in if is_used used d then d ∷ rest else rest

-- The exceptions of the deposit.
pub data Refusal : Type 0 where
  upload_rejected type_rejected too_large update_refused : Refusal

abbrev pub is_control : ℕ → Bool
is_control c = ltb c 32 || c == 127

abbrev pub lower : ℕ → ℕ
lower c = if leb 65 c && leb c 90 then c + 32 else c

-- `Path(nom).suffix.lower() == ".whl"`: the last dot is followed by `whl`, and does not come first.
abbrev pub is_wheel_name : Text → Bool
is_wheel_name nom =
    any (λ c. c == 46) nom
    && (text_eq (map lower (last_part 46 nom)) (codes "whl") && ltb 4 (length nom))

abbrev pub is_bare : Text → Bool
is_bare nom =
    not (text_eq nom (codes "."))
    && (not (text_eq nom (codes "..")) && not (any (λ c. c == 47 || c == 92) nom))

abbrev pub check_name : Text → Refusal ⊎ Text
check_name [] = inl upload_rejected
check_name (c ∷ nom) =
    if not (is_bare (c ∷ nom))
    then inl upload_rejected
    else if any is_control (c ∷ nom)
    then inl upload_rejected
    else if is_wheel_name (c ∷ nom)
    then inr (c ∷ nom)
    else inl type_rejected

unfoldable pub valide_nom_de_wheel : Text → Refusal ⊎ Text
valide_nom_de_wheel filename = check_name (rstrip (lstrip filename))

-- The chunks are written one after another, until the bound is passed.
unfoldable pub receive : ℕ → List Bytes → Bytes → Option Bytes
receive max_bytes [] got = some got
receive max_bytes (chunk ∷ chunks) got =
    let rest = receive max_bytes chunks (got ++ chunk) in
    if ltb max_bytes (length (got ++ chunk)) then none else rest

-- mkdir in the area, at the place of its stamp
unfoldable pub insert : Deposit → List Deposit → List Deposit
insert d [] = d ∷ []
insert d (e ∷ es) = let rest = insert d es in if ltb e.stamp d.stamp then d ∷ e ∷ es else e ∷ rest

abbrev pub deposit : (Bytes → Text) → ℕ → Text → Bytes → Deposit
deposit digest stamp nom got = record {
  stamp = stamp;
  name = nom;
  contents = got;
  sha256 = digest got;
}

-- After the name: the directory, the flow, the rename, the retention. A refusal deletes the directory.
abbrev pub stage_bytes :
    (Bytes → Text)
    → ℕ
    → List Place
    → Text
    → Option Bytes
    → List Deposit
    → (Refusal ⊎ Deposit) × List Deposit
stage_bytes digest stamp used nom none area = (inl too_large, area)
stage_bytes digest stamp used nom (some []) area = (inl upload_rejected, area)
stage_bytes digest stamp used nom (some (b ∷ got)) area =
    let d = deposit digest stamp nom (b ∷ got) in
    (inr d, prune_wheels keep_wheels used (insert d area))

abbrev pub stage_named :
    (Bytes → Text)
    → ℕ
    → ℕ
    → List Place
    → List Bytes
    → (Refusal ⊎ Text)
    → List Deposit
    → (Refusal ⊎ Deposit) × List Deposit
stage_named digest max_bytes stamp used chunks (inl e) area = (inl e, area)
stage_named digest max_bytes stamp used chunks (inr nom) area =
    if any (λ d. d.stamp == stamp) area
    then (inl update_refused, area)
    else stage_bytes digest stamp used nom (receive max_bytes chunks []) area

unfoldable pub stage_wheel :
    (Bytes → Text)
    → ℕ
    → ℕ
    → List Place
    → Text
    → List Bytes
    → List Deposit
    → (Refusal ⊎ Deposit) × List Deposit
unfolding valide_nom_de_wheel receive prune_wheels insert
stage_wheel digest max_bytes stamp used filename chunks area =
    stage_named digest max_bytes stamp used chunks (valide_nom_de_wheel filename) area
