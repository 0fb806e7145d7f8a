-- ===== src/Dispatch/Orchestrator/Drain.antt =====
-- The loop of `run_project`: a round submits what it discovers, up to the bound, and then takes the
-- reports of the workers that are done. What is discovered and who is done first is the environment's.
use forgemaster.Prelude.{
  ℕ, String, Bool, true, false, not, Option, none, some, List, [], ◌∷◌, ◌++◌, leb, length, elem,
  str_eq, if◌then◌else◌, delete,
}
use forgemaster.Dispatch.Orchestrator.{Report}

-- The sets and the list of reports, the locals of `run_project`. A set is a list without repeats.
pub record Drain : Type 0 where
  pub in_flight : List String
  pub failed : List String
  pub needs_interview : List String
  pub held_for_socle : List String
  pub rate_limited : List String
  pub interrupted : List String
  pub reports : List Report
  pub rate_hit : Bool

abbrev pub add : String → List String → List String
add x xs = if elem x xs then xs else xs ++ x ∷ []

-- `failed | needs_interview | held_for_socle | rate_limited | interrupted`
abbrev pub excluded : Drain → List String
excluded d = d.failed ++ d.needs_interview ++ d.held_for_socle ++ d.rate_limited ++ d.interrupted

abbrev pub start : Drain
start = record {
  in_flight = [];
  failed = [];
  needs_interview = [];
  held_for_socle = [];
  rate_limited = [];
  interrupted = [];
  reports = [];
  rate_hit = false;
}

-- The socle of the project when it is not merged yet.
abbrev pub behind_socle : Option String → String → Bool
behind_socle none slug = false
behind_socle (some socle) slug = not (str_eq slug socle)

-- The `for slug in _discoverable_features(…)`: held behind the socle, or submitted, until the bound.
-- The submission to the pool is the membership in `in_flight`.
unfoldable pub submit : Option String → ℕ → List String → Drain → Drain
submit socle max_parallel [] d = d
submit socle max_parallel (slug ∷ slugs) d =
    let held =
      submit socle max_parallel slugs (record d { held_for_socle = add slug d.held_for_socle }) in
    let sent = submit socle max_parallel slugs (record d { in_flight = add slug d.in_flight }) in
    if behind_socle socle slug
    then held
    else if leb max_parallel (length d.in_flight)
    then d
    else sent

-- One future that is done: its feature leaves `in_flight`, its report goes to the set of its kind.
unfoldable pub settle : String → Report → Drain → Drain
settle slug report d =
    let d' = record d {
      in_flight = delete (str_eq slug) d.in_flight;
      reports = d.reports ++ report ∷ [];
    } in
    if report.needs_terminal
    then record d' { needs_interview = add slug d'.needs_interview }
    else if report.is_rate_limited
    then record d' { rate_limited = add slug d'.rate_limited; rate_hit = true }
    else if report.is_interrupted
    then record d' { interrupted = add slug d'.interrupted }
    else if report.ok
    then d'
    else record d' { failed = add slug d'.failed }

unfoldable pub settle_all : List (String × Report) → Drain → Drain
unfolding settle
settle_all [] d = d
settle_all ((slug, report) ∷ done) d = settle_all done (settle slug report d)

-- How the loop goes on after a round.
pub data Turn : Type 0 where
  again : Drain → Turn
  stopped : Drain → Turn

-- What a round meets: whether an abort was asked for, what the discovery finds, who is done.
pub record Round : Type 0 where
  pub abort_requested : Bool
  pub discovered : List String → List String → List String
  pub finished : List String → List (String × Report)

abbrev pub submitted : Option String → ℕ → Round → Drain → Drain
submitted socle max_parallel round d =
    submit socle max_parallel (round.discovered d.in_flight (excluded d)) d

abbrev pub settled : Round → Drain → Drain
settled round s = settle_all (round.finished s.in_flight) s

-- `if not pending: break`, then the reports and `if rate_hit: break`.
abbrev pub wait_for : List String → Round → Drain → Turn
wait_for [] round s = stopped s
wait_for (x ∷ xs) round s =
    if (settled round s).rate_hit then stopped (settled round s) else again (settled round s)

-- `while True:` once around.
unfoldable pub turn : Option String → ℕ → Round → Drain → Turn
unfolding submit settle_all
turn socle max_parallel round d =
    let s = submitted socle max_parallel round d in
    if round.abort_requested then stopped d else wait_for s.in_flight round s

abbrev pub drain_of : Turn → Drain
drain_of (again d) = d
drain_of (stopped d) = d

-- `max(1, max_parallel)`
abbrev pub at_least_one : ℕ → ℕ
at_least_one n = if leb 1 n then n else 1

-- `break` leaves the loop, else the next round begins.
abbrev pub go_on : Turn → (Drain → Turn) → Turn
go_on (again d) next = next d
go_on (stopped d) next = stopped d

-- The rounds of a run, one after another, until one stops.
unfoldable pub drain_loop : Option String → ℕ → List Round → Drain → Turn
unfolding turn
drain_loop socle max_parallel [] d = again d
drain_loop socle max_parallel (round ∷ rounds) d =
    go_on (turn socle (at_least_one max_parallel) round d)
      (λ e. drain_loop socle max_parallel rounds e)
