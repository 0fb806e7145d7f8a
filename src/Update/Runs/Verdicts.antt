-- ===== src/Update/Runs/Verdicts.antt =====
-- What the list of the runs of src/forgemaster/update.py says of a run without asking systemd.
use forgemaster.Prelude.{
  ℕ, zero, suc, ◌≤◌, ◌≡◌, refl, Bool, true, false, none, List, [], ◌∷◌, ◌==◌, length, take, arith,
  Bool-cases, inl, inr, if◌then◌else◌, Option-cases,
}
use forgemaster.Update.Runs.{
  Run, RunState, running, interrupted, never_started, Sonde, run_state, is_concluded, view_runs,
  list_runs,
}

-- A state that only the probe of the unit can establish.
abbrev pub is_probed : RunState → Bool
is_probed running = true
is_probed interrupted = true
is_probed never_started = true
is_probed _ = false

abbrev pub probed : List (Run × RunState) → ℕ
probed [] = 0
probed ((r, s) ∷ vs) = if is_probed s then suc (probed vs) else probed vs

run_state_unasked : (r : Run) → is_probed (run_state none r) ≡ false
unfolding run_state
run_state_unasked r = elim (Option-cases r.result) [
  | inl e ↦ rw e refl
  | inr (rc, e) ↦ elim (Bool-cases (rc == 0)) [ inl z ↦ rw (e, z) refl | inr z ↦ rw (e, z) refl ]
]

view_runs_unasked : (rs : List Run) → probed (view_runs none rs) ≡ 0
unfolding view_runs
view_runs_unasked [] = refl
view_runs_unasked (r ∷ rs) = elim (Bool-cases (is_concluded r.result)) [
  | inl e ↦ rw (e, run_state_unasked r) (view_runs_unasked rs)
  | inr e ↦ rw (e, run_state_unasked r) (view_runs_unasked rs)
]

view_runs_once : (sonde : Sonde) (rs : List Run) → probed (view_runs sonde rs) ≤ 1
unfolding view_runs
view_runs_once sonde [] = omega arith
view_runs_once sonde (r ∷ rs) = elim (Bool-cases (is_concluded r.result)) [
  | inl e ↦ rw (e, run_state_unasked r) (view_runs_once sonde rs)
  | inr e ↦ elim (Bool-cases (is_probed (run_state sonde r))) [
    | inl p ↦ rw (e, p, view_runs_unasked rs) (omega arith)
    | inr p ↦ rw (e, p, view_runs_unasked rs) (omega arith)
  ]
]

length-view_runs : (sonde : Sonde) (rs : List Run) → length (view_runs sonde rs) ≡ length rs
unfolding view_runs
length-view_runs sonde [] = refl
length-view_runs sonde (r ∷ rs) = elim (Bool-cases (is_concluded r.result)) [
  | inl e ↦ rw (e, length-view_runs sonde rs) refl
  | inr e ↦ rw (e, length-view_runs none rs) refl
]

length-take : (n : ℕ) (rs : List Run) → length (take n rs) ≤ n
length-take zero rs = omega arith
length-take (suc n) [] = omega arith
length-take (suc n) (r ∷ rs) = omega (arith, length-take n rs)

-- A list of runs is no longer than its limit, and says of one run at most what only a probe of its unit
-- establishes: that it is running, that it was interrupted or that it never started.
pub list_runs_bound :
    (sonde : Sonde) (limit : ℕ) (runs : List Run)
    → (length (list_runs sonde limit runs).views ≤ limit)
      × (probed (list_runs sonde limit runs).views ≤ 1)
unfolding list_runs
list_runs_bound sonde limit runs = (
  omega (arith, length-view_runs sonde (take limit runs), length-take limit runs),
  view_runs_once sonde (take limit runs),
)
