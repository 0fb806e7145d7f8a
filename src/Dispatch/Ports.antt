-- ===== src/Dispatch/Ports.antt =====
-- src/forgemaster/dispatch/ports.py: the broker that gives each worktree one stable port.
--
-- The table `port_reservations` is a list of rows with its two UNIQUE constraints written out in
-- `insert`. The probe is the injected callable: it answers, or raises OSError. What other
-- connections commit between the read and the INSERT of a round is the argument `race`.
pub mod Free
pub mod Reserve
pub mod Answer
pub mod Release
use forgemaster.Prelude.{
  ℕ, zero, suc, ◌+◌, ◌-◌, String, Bool, true, false, ◌&&◌, ◌||◌, Option, none, some, List, [], ◌∷◌,
  ◌++◌, map, ◌==◌, str_eq, if◌then◌else◌, any, select, select_one, delete,
}

-- A row of `port_reservations`.
pub record Reservation : Type 0 where
  pub id : String
  pub project : String
  pub purpose : String
  pub port : ℕ
  pub created_at : String

-- What `probe(port)` does: True, False, or raises OSError.
pub data Sighting : Type 0 where
  taken clear os_error : Sighting

pub data PortResult {ℓ} (A : Type ℓ) : Type ℓ where
  ok : A → PortResult A
  pool_exhausted : PortResult A

abbrev pub Probe : Type 0
Probe = Option (ℕ → Sighting)

pub record PortRange : Type 0 where
  pub lo : ℕ
  pub hi : ℕ

abbrev pub default_range : PortRange
default_range = record { lo = 5170; hi = 5249 }

abbrev pub max_race_retry : ℕ
max_race_retry = 5

abbrev pub port_mem : ℕ → List ℕ → Bool
port_mem port [] = false
port_mem port (x ∷ xs) = (port == x) || port_mem port xs

-- `if probe is not None: try: if probe(port): continue / except OSError: pass`
abbrev pub seen_busy : Probe → ℕ → Bool
seen_busy none port = false
seen_busy (some probe) port = elim (probe port) [
  | Sighting.taken ↦ true
  | Sighting.clear ↦ false
  | Sighting.os_error ↦ false
]

unfoldable pub reserved_ports : List Reservation → List ℕ
reserved_ports rows = map (λ r. r.port) rows

-- The `for` loop over `range(lo, hi + 1)`: `rounds` is the number of ports left.
unfoldable pub scan : List ℕ → Probe → ℕ → ℕ → PortResult ℕ
scan used probe zero port = pool_exhausted
scan used probe (suc rounds) port =
    let rest = scan used probe rounds (port + 1) in
    if port_mem port used then rest else if seen_busy probe port then rest else ok port

unfoldable pub free_port : List Reservation → PortRange → Probe → PortResult ℕ
unfolding reserved_ports scan
free_port rows range probe = scan (reserved_ports rows) probe (range.hi + 1 - range.lo) range.lo

-- WHERE project = ? AND purpose = ?
abbrev pub has_key : String → String → Reservation → Bool
has_key project purpose r = str_eq r.project project && str_eq r.purpose purpose

-- The new row meets a constraint of an old one: the primary key, the port, or (project, purpose).
abbrev pub clash : Reservation → Reservation → Bool
clash old new =
    str_eq old.id new.id || ((old.port == new.port) || has_key new.project new.purpose old)

-- INSERT: `none` is sqlite3.IntegrityError.
unfoldable pub insert : Reservation → List Reservation → Option (List Reservation)
insert row rows = if any (λ old. clash old row) rows then none else some (rows ++ row ∷ [])

-- The identifier and the date that the code generates for a new row.
pub record Stamp : Type 0 where
  pub new_id : String
  pub now : String

abbrev pub Race : Type 0
Race = ℕ → List Reservation → List Reservation

-- What is left of a round once the row was inserted, or the insertion was refused.
abbrev pub settle : {A : Type 0} → Option (List Reservation) → A → (List Reservation → A) → A
settle none retry done = retry
settle (some rows) retry done = done rows

module _ (range : PortRange) (probe : Probe) (stamp : Stamp) (race : Race)
    (project purpose : String) where
  abbrev pub row_at : ℕ → Reservation
  row_at port = record {
    id = stamp.new_id;
    project = project;
    purpose = purpose;
    port = port;
    created_at = stamp.now;
  }

  -- The `for _ in range(_MAX_RACE_RETRY)` loop of `reserve`, with the table after it.
  unfoldable pub reserve_loop : ℕ → List Reservation → PortResult Reservation × List Reservation
  unfolding select_one free_port insert
  reserve_loop zero rows = (pool_exhausted, rows)
  reserve_loop (suc left) rows =
      let retry = reserve_loop left (race left rows) in
      elim (select_one (has_key project purpose) rows) [
        | some row ↦ (ok row, rows)
        | none ↦ elim (free_port rows range probe) [
          | pool_exhausted ↦ (pool_exhausted, rows)
          | ok port ↦
              settle (insert (row_at port) (race left rows)) retry
                (λ rows'. (ok (row_at port), rows'))
        ]
      ]

  unfoldable pub reserve : List Reservation → PortResult Reservation × List Reservation
  unfolding reserve_loop
  reserve = reserve_loop max_race_retry

unfoldable pub release : String → String → List Reservation → Option Reservation × List Reservation
release project purpose rows = elim (select_one (has_key project purpose) rows) [
  | none ↦ (none, rows)
  | some row ↦ (some row, delete (λ r. str_eq r.id row.id) rows)
]
