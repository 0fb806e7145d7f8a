-- ===== src/Update/Apply.antt =====
-- `apply`, `rollback`, `matches` and `swap` of src/forgemaster/apply_update.py: the sequence of gestures of
-- an update on an instance, and its way back.
--
-- An environment is named by its path, the data by a number: a state of the data. What the outside answers
-- is an argument: whether pip, the isolated probe, the snapshots, the restores, the swaps and the purge of
-- the environments succeed, fail as the code expects, or raise another exception; what a start makes of the
-- data; what the running instance shows. `systemctl` is taken to obey, since its failures are only logged.
-- Left out are exceptions of `_systemctl`, of `repose_maps` and of `_verify_live` that these do not catch.
pub mod Readable
pub mod Back
use forgemaster.Prelude.{
  ℕ, String, Bool, true, false, not, ◌&&◌, Option, none, some, List, [], ◌∷◌, ◌++◌, opt_str_eq,
  str_eq, if◌then◌else◌,
}

-- The identity of a build: `version` and `sha`.
pub record Identity : Type 0 where
  pub version : Option String
  pub sha : Option String

abbrev pub same_sha : Option String → Option String → Bool
same_sha (some a) (some b) = str_eq a b
same_sha _ _ = true

-- A build without a stamp is compared by its version alone.
unfoldable pub matches : Identity → Identity → Bool
matches expected live = opt_str_eq live.version expected.version && same_sha expected.sha live.sha

-- POSEES, NON_MESURE, RATE
pub data MapsState : Type 0 where
  laid not_measured failed_to_lay : MapsState

-- The instance: where the stable link points, its data, whether the service was last started rather than
-- stopped, the environment whose maps are laid.
pub record Instance : Type 0 where
  pub link : String
  pub data_state : ℕ
  pub is_started : Bool
  pub maps_of : String

-- What the instance shows at `/health`, at `/api/version` (nothing when it cannot be read) and on its page.
pub record Shown : Type 0 where
  pub is_ready : Bool
  pub identity : Option Identity
  pub page_fails : Bool

-- What a gesture does: it succeeds, it fails as the code expects (UpdateFailed, or False of `_restore`), or
-- it raises an exception that the code does not catch.
pub data Attempt {ℓ} (A : Type ℓ) : Type ℓ where
  gives : A → Attempt A
  fails raises : Attempt A

abbrev pub Try : Type 0
Try = Attempt {0} Unit

pub record Outside : Type 0 where
  pub builds : Try
  -- the identity that the isolated probe reads
  pub probe : String → Attempt Identity
  -- the guard `_refuse_if_target_would_be_purged`
  pub target_guard : Try
  pub snapshot : Try
  pub target_remains : Bool
  -- whether the link is swapped, the first time, back, and forward again; false is OSError
  pub swaps : Bool
  pub swaps_back : Bool
  pub swaps_again : Bool
  pub purges : Bool
  -- what the linked environment makes of the data when it starts
  pub boot : String → ℕ → ℕ
  pub shown : String → ℕ → Shown
  -- the restore of a snapshot under the linked environment
  pub restores : String → ℕ → Try
  -- what a failing restore of a snapshot makes of the data: the data first, the snapshot second
  pub spoilt : ℕ → ℕ → ℕ
  pub maps : String → MapsState

abbrev pub stop : Instance → Instance
stop s = record s { is_started = false }

abbrev pub start : Outside → Instance → Instance
start o s = record s { is_started = true; data_state = o.boot s.link s.data_state }

abbrev pub swap : String → Instance → Instance
swap target s = record s { link = target }

abbrev pub laid_by : MapsState → String → String → String
laid_by laid venv before = venv
laid_by _ venv before = before

abbrev pub repose_maps : Outside → String → Instance → Instance
repose_maps o venv s = record s { maps_of = laid_by (o.maps venv) venv s.maps_of }

abbrev pub put_back : ℕ → Instance → Instance
put_back snapshot s = record s { data_state = snapshot }

abbrev pub matches_live : Identity → Option Identity → Bool
matches_live expected none = false
matches_live expected (some live) = matches expected live

unfoldable pub verify_live : Outside → Identity → Instance → Bool
unfolding matches
verify_live o expected s =
    let seen = o.shown s.link s.data_state in
    seen.is_ready && (matches_live expected seen.identity && not seen.page_fails)

-- How the gesture ends: refused, in place, back as before (serving or not), without the data that were to
-- be put back, and by an exception.
pub data Ending : Type 0 where
  refused done back back_silent half : Ending

-- Where an exception comes from.
pub data Origin : Type 0 where
  guarding building probing snapshotting swapping restoring purging : Origin

pub data Result : Type 0 where
  returned : Ending → Instance → Result
  raised : Origin → Instance → Result

-- The code that `main` leaves the process with after `apply`.
unfoldable pub exit_code : Result → ℕ
exit_code (returned done s) = 0
exit_code (returned refused s) = 1
exit_code (returned back s) = 1
exit_code (returned back_silent s) = 2
exit_code (returned half s) = 2
exit_code (raised g s) = 2

abbrev pub serving_again : Outside → Instance → Result
serving_again o s =
    returned (if (o.shown s.link s.data_state).is_ready then back else back_silent) s

-- The way back of `apply` once its restore has answered; without the data the link goes forward again.
abbrev pub back_restored : Outside → String → String → ℕ → Try → Instance → Result
back_restored o old blue snapshot (gives u) s =
    serving_again o (repose_maps o old (start o (put_back snapshot s)))
back_restored o old blue snapshot fails s =
    let left = put_back (o.spoilt s.data_state snapshot) s in
    if o.swaps_again then returned half (start o (swap blue left)) else raised swapping left
back_restored o old blue snapshot raises s = raised restoring s

-- The way back of `apply`: stop, link, data.
abbrev pub way_back : Outside → String → String → ℕ → Instance → Result
way_back o old blue snapshot s =
    if o.swaps_back
    then back_restored o old blue snapshot (o.restores old snapshot) (swap old (stop s))
    else raised swapping (stop s)

abbrev pub after_swap : Outside → Identity → String → String → ℕ → Instance → Result
after_swap o expected old blue snapshot s =
    let live = repose_maps o blue (start o (swap blue s)) in
    if verify_live o expected live
    then (if o.purges then returned done live else raised purging live)
    else way_back o old blue snapshot live

-- from the cold snapshot on, the service stopped
abbrev pub apply_stopped : Outside → Identity → String → Try → Instance → Result
apply_stopped o expected blue (gives u) s =
    if o.swaps then after_swap o expected s.link blue s.data_state s else raised swapping s
apply_stopped o expected blue fails s = returned refused (start o s)
apply_stopped o expected blue raises s = raised snapshotting s

abbrev pub apply_probed : Outside → String → Attempt Identity → Instance → Result
apply_probed o blue (gives expected) s = apply_stopped o expected blue o.snapshot (stop s)
apply_probed o blue fails s = returned refused s
apply_probed o blue raises s = raised probing s

abbrev pub apply_built : Outside → String → Try → Instance → Result
apply_built o blue (gives u) s = apply_probed o blue (o.probe blue) s
apply_built o blue fails s = returned refused s
apply_built o blue raises s = raised building s

unfoldable pub apply : Outside → String → Instance → Result
unfolding verify_live
apply o blue s = apply_built o blue o.builds s

-- The way back of `rollback` to the state before it, once its restore has answered.
abbrev pub undo_restored : Outside → String → ℕ → Try → Instance → Result
undo_restored o current safety (gives u) s =
    serving_again o (repose_maps o current (start o (put_back safety s)))
undo_restored o current safety fails s =
    returned half (repose_maps o current (start o (put_back (o.spoilt s.data_state safety) s)))
undo_restored o current safety raises s = raised restoring s

abbrev pub undo : Outside → String → ℕ → Instance → Result
undo o current safety s =
    if o.swaps_back
    then undo_restored o current safety (o.restores current safety) (swap current (stop s))
    else raised swapping (stop s)

-- The target linked and its restore tried; without the data the link goes back to the current environment.
abbrev pub rollback_restored : Outside → Identity → String → ℕ → ℕ → Try → Instance → Result
rollback_restored o expected current snapshot safety (gives u) s =
    let live = repose_maps o s.link (start o (put_back snapshot s)) in
    if verify_live o expected live then returned done live else undo o current safety live
rollback_restored o expected current snapshot safety fails s =
    let left = put_back (o.spoilt s.data_state snapshot) s in
    if o.swaps_back then returned back (start o (swap current left)) else raised swapping left
rollback_restored o expected current snapshot safety raises s = raised restoring s

-- The link first, the data then.
abbrev pub rollback_stopped : Outside → Identity → String → ℕ → Try → Instance → Result
rollback_stopped o expected target snapshot (gives u) s =
    if o.target_remains && o.swaps
    then rollback_restored o expected s.link snapshot s.data_state (o.restores target snapshot)
        (swap target s)
    else returned refused (start o s)
rollback_stopped o expected target snapshot fails s = returned refused (start o s)
rollback_stopped o expected target snapshot raises s = raised snapshotting s

abbrev pub rollback_probed : Outside → String → ℕ → Attempt Identity → Instance → Result
rollback_probed o target snapshot (gives expected) s =
    rollback_stopped o expected target snapshot o.snapshot (stop s)
rollback_probed o target snapshot fails s = returned refused s
rollback_probed o target snapshot raises s = raised probing s

abbrev pub rollback_guarded : Outside → String → ℕ → Try → Instance → Result
rollback_guarded o target snapshot (gives u) s =
    rollback_probed o target snapshot (o.probe target) s
rollback_guarded o target snapshot fails s = returned refused s
rollback_guarded o target snapshot raises s = raised guarding s

unfoldable pub rollback : Outside → String → ℕ → Instance → Result
unfolding verify_live
rollback o target snapshot s = rollback_guarded o target snapshot o.target_guard s
