-- ===== src/Update/Runs.antt =====
-- `run_state` and `list_runs` of src/forgemaster/update.py: what the files of a run of an update say of it.
--
-- A run is the number of its stamp and what lies in its directory; the probe of systemd is a function of
-- the run. A `result.json` that is there can be read. The texts that the views carry are left out.
pub mod Verdicts
pub mod Spawn
use forgemaster.Prelude.{
  ℕ, zero, suc, Bool, true, false, not, ◌&&◌, ◌||◌, Option, none, some, List, [], ◌∷◌, ◌==◌, length,
  take, ltb, if◌then◌else◌,
}

pub record Run : Type 0 where
  pub id : ℕ
  -- `result.json`, by its `rc`
  pub result : Option ℕ
  pub has_journal : Bool
  pub has_launch : Bool

pub data RunState : Type 0 where
  done failed unknown running interrupted never_started : RunState

-- The probe is injected, or there is none.
abbrev pub Sonde : Type 0
Sonde = Option (Run → Bool)

abbrev pub without_result : Sonde → Run → RunState
without_result none r = unknown
without_result (some is_active) r =
    if is_active r
    then running
    else if r.has_journal || r.has_launch
    then interrupted
    else never_started

abbrev pub with_result : Sonde → Run → Option ℕ → RunState
with_result sonde r (some rc) = if rc == 0 then done else failed
with_result sonde r none = without_result sonde r

unfoldable pub run_state : Sonde → Run → RunState
run_state sonde r = with_result sonde r r.result

abbrev pub is_concluded : Option ℕ → Bool
is_concluded none = false
is_concluded (some rc) = true

-- The budget of one probe goes to the first run without a verdict.
unfoldable pub view_runs : Sonde → List Run → List (Run × RunState)
unfolding run_state
view_runs sonde [] = []
view_runs sonde (r ∷ rs) =
    let same = view_runs sonde rs in
    let spent = view_runs none rs in
    if is_concluded r.result then (r, run_state none r) ∷ same else (r, run_state sonde r) ∷ spent

pub record Listing : Type 0 where
  pub views : List (Run × RunState)
  pub total : ℕ
  pub is_truncated : Bool

-- The runs come the newest first.
unfoldable pub list_runs : Sonde → ℕ → List Run → Listing
unfolding view_runs
list_runs sonde limit runs = record {
  views = view_runs sonde (take limit runs);
  total = length runs;
  is_truncated = ltb (length (take limit runs)) (length runs);
}
