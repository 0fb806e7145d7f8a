-- ===== src/Dispatch/Refix.antt =====
-- src/forgemaster/dispatch/refix.py: one bounded pass of correction on a red gate.
--
-- The two readings of the gate and what the fixing worker came to are arguments; `n_fix` is
-- `jobs.count_fix_jobs`. The texts of `next_step` are left out.
use forgemaster.Prelude.{
  ℕ, ◌+◌, String, Bool, true, false, not, ◌||◌, Option, none, some, List, [], leb, if◌then◌else◌,
}
use forgemaster.Gate.Statuses.{Decision, Blocker}

abbrev pub max_fix_passes : ℕ
max_fix_passes = 3

pub data RefixStatus : Type 0 where
  not_red not_refixable exhausted dispatch_failed green still_red : RefixStatus

pub record RefixResult : Type 0 where
  pub status : RefixStatus
  pub gate_green : Bool
  pub fix_pass : ℕ
  pub max_passes : ℕ
  pub blockers : List Blocker
  pub head_sha : Option String

abbrev pub result : RefixStatus → Bool → ℕ → List Blocker → Option String → RefixResult
result status gate_green fix_pass blockers head_sha = record {
  status = status;
  gate_green = gate_green;
  fix_pass = fix_pass;
  max_passes = max_fix_passes;
  blockers = blockers;
  head_sha = head_sha;
}

pub record Evaluation : Type 0 where
  pub decision : Option Decision
  pub head_sha : Option String

pub record Fix : Type 0 where
  pub dispatched : Bool
  pub ok : Bool

abbrev pub green_of : Option Decision → Bool
green_of none = false
green_of (some d) = d.gate_green

abbrev pub refixable_in : Option Decision → Bool
refixable_in none = false
refixable_in (some d) = d.refixable

abbrev pub blockers_in : Option Decision → List Blocker
blockers_in none = []
blockers_in (some d) = d.blockers

-- The verdict on the gate that is evaluated again, after the pass number `fix_pass`.
unfoldable pub judge_again : ℕ → Evaluation → RefixResult
judge_again fix_pass ev2 =
    let blk2 = blockers_in ev2.decision in
    if green_of ev2.decision
    then result green true fix_pass [] ev2.head_sha
    else if not (refixable_in ev2.decision)
    then result not_refixable false fix_pass blk2 ev2.head_sha
    else if leb max_fix_passes fix_pass
    then result exhausted false fix_pass blk2 ev2.head_sha
    else result still_red false fix_pass blk2 ev2.head_sha

-- The result, and whether the worker was called.
unfoldable pub spawn_fix : ℕ → List Blocker → Option String → Fix → Evaluation → RefixResult × Bool
unfolding judge_again
spawn_fix n_fix blockers head_sha fix ev2 =
    if not fix.dispatched || not fix.ok
    then (result dispatch_failed false (n_fix + 1) blockers head_sha, true)
    else (judge_again (n_fix + 1) ev2, true)

abbrev pub refix_on : ℕ → Option String → Fix → Evaluation → Option Decision → RefixResult × Bool
refix_on n_fix head_sha fix ev2 none = (result not_red false 0 [] none, false)
refix_on n_fix head_sha fix ev2 (some d) =
    if d.gate_green
    then (result not_red true 0 [] head_sha, false)
    else if not d.refixable
    then (result not_refixable false 0 d.blockers head_sha, false)
    else if leb max_fix_passes n_fix
    then (result exhausted false n_fix d.blockers head_sha, false)
    else spawn_fix n_fix d.blockers head_sha fix ev2

unfoldable pub dispatch_refix : ℕ → Evaluation → Fix → Evaluation → RefixResult × Bool
unfolding spawn_fix
dispatch_refix n_fix ev fix ev2 = refix_on n_fix ev.head_sha fix ev2 ev.decision
