-- ===== src/Dispatch/Ports/Free.antt =====
-- The search for a free port, `free_port` of src/forgemaster/dispatch/ports.py.
use forgemaster.Prelude.{
  ℕ, zero, suc, ◌+◌, ◌-◌, ◌≤◌, ◌<◌, ◌≡◌, Bool, true, false, ◌||◌, List, [], ◌∷◌, All, arith,
}
use forgemaster.Dispatch.Ports.{
  Reservation, Probe, PortRange, ok, pool_exhausted, port_mem, seen_busy, reserved_ports, scan,
  free_port,
}

-- A port that the loop passes over: reserved in the table, or seen busy by the probe.
abbrev pub blocked : List Reservation → Probe → ℕ → Bool
unfolding reserved_ports
blocked rows probe port = port_mem port (reserved_ports rows) || seen_busy probe port

-- The ports of a range: `rounds` of them from `port` on.
abbrev pub ports_from : ℕ → ℕ → List ℕ
ports_from zero port = []
ports_from (suc rounds) port = port ∷ ports_from rounds (port + 1)

abbrev pub ports_of : PortRange → List ℕ
ports_of range = ports_from (range.hi + 1 - range.lo) range.lo

module _ (used : List ℕ) (probe : Probe) where
  abbrev passed : ℕ → Bool
  passed port = port_mem port used || seen_busy probe port

  scan-ok :
      (rounds port q : ℕ)
      → scan used probe rounds port ≡ ok q
      → (port ≤ q) × (q < port + rounds) × (passed q ≡ false)
  unfolding scan
  scan-ok zero port q h = absurd (cc)
  scan-ok (suc rounds) port q h = ground (arith, scan-ok rounds (port + 1) q)

  scan_least :
      (rounds port q r : ℕ)
      → scan used probe rounds port ≡ ok q
      → port ≤ r
      → r < q
      → passed r ≡ true
  unfolding scan
  scan_least zero port q r h lo hi = absurd (cc)
  scan_least (suc rounds) port q r h lo hi = ground (arith, scan_least rounds (port + 1) q r)

  scan_full :
      (rounds port : ℕ)
      → scan used probe rounds port ≡ pool_exhausted
      → All (λ r. passed r ≡ true) (ports_from rounds port)
  unfolding scan
  scan_full zero port h = tt
  scan_full (suc rounds) port h = (ground arith, scan_full rounds (port + 1) (ground arith))

  scan_exhausted :
      (rounds port r : ℕ)
      → scan used probe rounds port ≡ pool_exhausted
      → port ≤ r
      → r < port + rounds
      → passed r ≡ true
  unfolding scan
  scan_exhausted zero port r h lo hi = absurd (omega arith)
  scan_exhausted (suc rounds) port r h lo hi = ground (arith, scan_exhausted rounds (port + 1) r)

module _ (rows : List Reservation) (range : PortRange) (probe : Probe) where
  -- The port found lies in the range, bounds included, and is neither reserved nor seen busy.
  pub free_port-ok :
      (q : ℕ)
      → free_port rows range probe ≡ ok q
      → (range.lo ≤ q) × (q ≤ range.hi) × (blocked rows probe q ≡ false)
  unfolding free_port
  free_port-ok q h =
      let s = scan-ok (reserved_ports rows) probe (range.hi + 1 - range.lo) range.lo q h in
      (s.0, omega (arith, s.1), s.2)

  -- It is the least such port: every port of the range below it is reserved or seen busy.
  pub free_port_least :
      (q r : ℕ)
      → free_port rows range probe ≡ ok q
      → range.lo ≤ r
      → r < q
      → blocked rows probe r ≡ true
  unfolding free_port
  free_port_least q r h lo hi =
      scan_least (reserved_ports rows) probe (range.hi + 1 - range.lo) range.lo q r h lo hi

  -- A search that finds nothing saw every port of the range reserved or busy.
  pub free_port_full :
      free_port rows range probe ≡ pool_exhausted
      → All (λ r. blocked rows probe r ≡ true) (ports_of range)
  unfolding free_port
  free_port_full h = scan_full (reserved_ports rows) probe (range.hi + 1 - range.lo) range.lo h

  -- PortPoolExhausted is raised only when no port of the range is free.
  pub free_port_exhausted :
      (r : ℕ)
      → free_port rows range probe ≡ pool_exhausted
      → range.lo ≤ r
      → r ≤ range.hi
      → blocked rows probe r ≡ true
  unfolding free_port
  free_port_exhausted r h lo hi =
      scan_exhausted (reserved_ports rows) probe (range.hi + 1 - range.lo) range.lo r h lo
        (omega arith)
