-- ===== src/Update/Preflight/Service.antt =====
-- `_preflight_service` and `parse_exec_start` of src/forgemaster/update.py: the unit, the link and the user.
--
-- The lines of the unit, the link and the user are the machine's; `shlex.split` (nothing on ValueError),
-- `int` and the tests of characters are parameters. The texts of the refusals are constructors.
use forgemaster.Prelude.{
  ℕ, String, Bool, true, false, not, ◌&&◌, ◌||◌, Option, none, some, List, [], ◌∷◌, ◌++◌, ◌==◌,
  select, if◌then◌else◌,
}
use forgemaster.Prelude.Text.{Text, codes, text_eq, starts_with, text_mem}
use forgemaster.Gate.Review.{strip}
use forgemaster.Projects.Authority.{Verdict}
use forgemaster.Update.Preflight.Target.{Why}
use forgemaster.Update.Runs.{Run, RunState}

pub data UnitFile : Type 0 where
  no_file cannot_read : UnitFile
  unit_lines : List Text → UnitFile

pub record Machine : Type 0 where
  pub has_runner : Bool
  pub is_system_scope : Bool
  pub is_root : Bool
  pub unit : UnitFile
  pub link : Text
  pub link_is_symlink : Bool
  -- `link.resolve()`
  pub venv : String
  pub is_space : ℕ → Bool
  pub is_digit : ℕ → Bool
  pub shlex_split : Text → Option (List Text)
  pub int_of : Text → Option ℕ

pub data Refusal : Type 0 where
  no_wheel not_a_wheel no_runner not_root no_unit no_exec_start no_port no_link hard_venv : Refusal
  uncommitted : List Verdict → Refusal
  busy_dispatch : List String → Refusal
  busy_update : List (Run × RunState) → Refusal
  no_snapshot : Refusal
  unknown_snapshot : String → Refusal
  not_usable : String → Why → Refusal
  no_target : List (String × Why) → Refusal

-- What a check gives: its value, `UpdateRefused`, an OSError or UnicodeDecodeError, another ValueError.
pub data Step {ℓ} (A : Type ℓ) : Type ℓ where
  passed : A → Step A
  refused : Refusal → Step A
  os_error value_error : Step A

abbrev pub and_then {ℓ κ} : {A : Type ℓ} {B : Type κ} → Step A → (A → Step B) → Step B
and_then (passed a) next = next a
and_then (refused r) next = refused r
and_then os_error next = os_error
and_then value_error next = value_error

-- `if not …: raise UpdateRefused(…)`
abbrev pub require {ℓ} : {A : Type ℓ} → Bool → Refusal → Step A → Step A
require test r next = if test then next else refused r

pub record ExecStart : Type 0 where
  pub exec_bin : Text
  pub host : Text
  pub port : ℕ

-- `line.split("=", 1)[1]`
abbrev pub after_equals : Text → Text
after_equals [] = []
after_equals (c ∷ s) = if c == 61 then s else after_equals s

-- `lstrip("-@+!")`
abbrev pub lstrip_marks : Text → Text
lstrip_marks [] = []
lstrip_marks (c ∷ s) =
    let rest = lstrip_marks s in
    if c == 45 || (c == 64 || (c == 43 || c == 33)) then rest else c ∷ s

abbrev pub last_line : Option Text → List Text → Option Text
last_line best [] = best
last_line best (l ∷ ls) = last_line (some l) ls

-- The host and the port of the pairs of `zip(argv, argv[1:])`.
unfoldable pub read_flags : List Text → Text → Option Text → Text × Option Text
read_flags [] host port = (host, port)
read_flags (flag ∷ []) host port = (host, port)
read_flags (flag ∷ (value ∷ argv)) host port =
    let with_host = read_flags (value ∷ argv) value port in
    let with_port = read_flags (value ∷ argv) host (some value) in
    let with_none = read_flags (value ∷ argv) host port in
    if text_eq flag (codes "--host")
    then with_host
    else if text_eq flag (codes "--port")
    then with_port
    else with_none

abbrev pub all_digits : (ℕ → Bool) → Text → Bool
all_digits is_digit [] = true
all_digits is_digit (c ∷ s) = is_digit c && all_digits is_digit s

-- `port.isdigit()`
abbrev pub is_number : (ℕ → Bool) → Text → Bool
is_number is_digit [] = false
is_number is_digit (c ∷ s) = all_digits is_digit (c ∷ s)

abbrev pub with_port : Machine → Text → Text → Text → Step ExecStart
with_port m bin host port =
    if is_number m.is_digit port
    then elim (m.int_of port) [
      | none ↦ value_error
      | some n ↦ passed (record { exec_bin = bin; host = host; port = n })
    ]
    else refused no_port

abbrev pub of_flags : Machine → Text → Text × Option Text → Step ExecStart
of_flags m bin (host, none) = refused no_port
of_flags m bin (host, some port) = with_port m bin host port

abbrev pub of_argv : Machine → Option (List Text) → Step ExecStart
of_argv m none = value_error
of_argv m (some []) = refused no_port
of_argv m (some (bin ∷ argv)) = of_flags m bin (read_flags (bin ∷ argv) (codes "127.0.0.1") none)

abbrev pub of_line : Machine → Option Text → Step ExecStart
of_line m none = refused no_exec_start
of_line m (some line) =
    of_argv m (m.shlex_split (lstrip_marks (strip m.is_space (after_equals line))))

unfoldable pub parse_exec_start : Machine → List Text → Step ExecStart
unfolding select read_flags
parse_exec_start m lines =
    of_line m
      (last_line none (select (λ l. starts_with (codes "ExecStart=") (strip m.is_space l)) lines))

abbrev pub read_unit : Machine → UnitFile → Step ExecStart
read_unit m no_file = refused no_unit
read_unit m cannot_read = os_error
read_unit m (unit_lines lines) = parse_exec_start m lines

pub record Socle : Type 0 where
  pub link : Text
  pub venv : String
  pub probe_host : Text
  pub port : ℕ

-- the host of `base_url`
abbrev pub probe_host_of : Text → Text
probe_host_of host =
    if text_mem host (codes "0.0.0.0" ∷ codes "::" ∷ []) then codes "127.0.0.1" else host

abbrev pub check_link : Machine → ExecStart → Step Socle
check_link m e = require m.link_is_symlink no_link (
    require (starts_with (m.link ++ 47 ∷ []) e.exec_bin) hard_venv (
      passed (record {
        link = m.link;
        venv = m.venv;
        probe_host = probe_host_of e.host;
        port = e.port;
      })))

-- `_preflight_service`
unfoldable pub preflight_service : Machine → Step Socle
unfolding parse_exec_start
preflight_service m = require m.has_runner no_runner (
    require (not m.is_system_scope || m.is_root) not_root
      (and_then (read_unit m m.unit) (check_link m)))
