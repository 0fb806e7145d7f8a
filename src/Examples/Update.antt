-- ===== src/Examples/Update.antt =====
-- An update that does not serve and is taken back, the retention, the wait, and answers to a proposal.
use forgemaster.Prelude.{
  ℕ, ◌≡◌, ◌≢◌, refl, String, true, false, Option, none, some, List, [], ◌∷◌, leb, ltb, arith,
  if◌then◌else◌, ◌⊎◌, select, str_eq, inl, inr, ◌≤◌, ◌+◌, take, length,
}
use forgemaster.Prelude.Text.{Text, codes}
use forgemaster.Update.Apply.{
  Identity, Instance, Outside, laid, gives, fails, apply, rollback, verify_live, matches, returned,
  back,
}
use forgemaster.Update.Apply.Readable.{IsSound, Coherent, apply-Coherent, rollback-Coherent}
use forgemaster.Update.Apply.Back.{IsServed, apply-IsServed}
use forgemaster.Update.Snapshots.{Directory, purge, target_is_kept}
use forgemaster.Update.Health.{
  Probe, status, no_connection, ready, out_of_fuel, wait_health, attempt,
}
use forgemaster.Update.Health.Total.{Served, wait_health-total, wait_health-Served}
use forgemaster.Db.Proposals.{Proposal, Call, announce, choose, lire, perform_all, tour}
use forgemaster.Db.Proposals.Refine.{steps, step, lire-perform_all}
use forgemaster.Db.Proposals.Consent.{IsConsented, perform_all-IsConsented}
use forgemaster.Db.Proposals.Tour.{IsBacked, tour-IsBacked}
use forgemaster.Update.Publish.{lstrip, rstrip}
use forgemaster.Update.Wheels
use forgemaster.Update.Wheels.{
  Place, Deposit, is_used, prune_wheels, stage_wheel, valide_nom_de_wheel, too_large,
  upload_rejected,
}
use forgemaster.Update.Wheels.Staging.{IsStaged, stage_wheel-IsStaged}
use forgemaster.Update.Wheels.Retention.{prune_wheels_lem}
use forgemaster.Examples.Channel.{env}

-- The environment named "new" reads data up to 2, the one named "old" up to 1.
abbrev level : String → ℕ
level v = if str_eq v "new" then 2 else 1

abbrev build : Identity
build = record { version = some "2.0"; sha = none }

abbrev outside : Outside
outside = record {
  builds = gives tt;
  probe = λ v. gives build;
  target_guard = gives tt;
  snapshot = gives tt;
  target_remains = true;
  swaps = true;
  swaps_back = true;
  swaps_again = true;
  purges = true;
  boot = λ v d. if ltb d (level v) then level v else d;
  shown = λ v d. record { is_ready = leb d (level v); identity = some build; page_fails = true };
  restores = λ v d. if leb d (level v) then gives tt else fails;
  spoilt = λ d snapshot. 0;
  maps = λ v. laid;
}

-- The state of the data is its schema.
abbrev schema : ℕ → ℕ
schema d = d

outside-IsSound : IsSound outside schema level
outside-IsSound = record {
  boot_migrates = λ v d. refl;
  spoilt_partly = λ d snapshot. inr (inl refl);
}

abbrev before : Instance
before = record { link = "old"; data_state = 1; is_started = true; maps_of = "old" }

-- The page of the new version stays white.
taken_back : apply outside "new" before ≡ returned back before
unfolding apply verify_live matches
taken_back = refl

apply-Coherent_example : Coherent schema level (apply outside "new" before)
apply-Coherent_example =
    apply-Coherent schema level outside "new" before outside-IsSound (omega arith) (omega arith)

-- Back from "new" to "old".
abbrev later : Instance
later = record { link = "new"; data_state = 2; is_started = true; maps_of = "new" }

rollback-Coherent_example : Coherent schema level (rollback outside "old" 1 later)
rollback-Coherent_example =
    rollback-Coherent schema level outside "old" 1 later outside-IsSound (omega arith) (omega arith)
      (omega arith)

apply-IsServed_example : IsServed (apply outside "new" before)
apply-IsServed_example = apply-IsServed outside "new" before refl

abbrev snapshot_at : ℕ → Directory
snapshot_at n = record { name = n; has_manifest = true }

abbrev root : List Directory
root = snapshot_at 6 ∷ snapshot_at 4 ∷ snapshot_at 2 ∷ []

purges : purge 3 8 (snapshot_at 8 ∷ root) ≡ snapshot_at 8 ∷ snapshot_at 6 ∷ snapshot_at 4 ∷ []
unfolding purge select
purges = refl

guarded : target_is_kept 4 root ≡ true
unfolding target_is_kept select
guarded = refl

-- It serves from its second second on.
abbrev slow : Probe
slow = record {
  answers = λ t. if leb 1000 t then status 200 else no_connection;
  lasts = λ t. 10;
  has_ended = λ t. false;
}

slow_is_ready : wait_health 5 slow 3000 0 ≡ ready
unfolding wait_health attempt
slow_is_ready = refl

wait_health-total_example : wait_health 3001 slow 3000 0 ≢ out_of_fuel
wait_health-total_example = wait_health-total 3001 slow 3000 0 (λ t. omega arith) (omega arith)

wait_health-Served_example : Served slow 3000 0
wait_health-Served_example = wait_health-Served 5 slow 3000 0 slow_is_ready

abbrev answers : List Call
answers =
    announce false (codes "2.0") (codes "abc") 1
    ∷ choose (codes "2.0") (codes "abc") "declined" 2
    ∷ announce false (codes "2.0") (codes "abd") 3
    ∷ choose (codes "2.0") (codes "abc") "accepted" 4
    ∷ []

lire-perform_all_example :
    lire (codes "2.0") (perform_all answers [])
    ≡ steps (codes "2.0") answers (lire (codes "2.0") [])
lire-perform_all_example = lire-perform_all (codes "2.0") answers []

perform_all-IsConsented_example :
    IsConsented (codes "2.0") answers (lire (codes "2.0") (perform_all answers []))
perform_all-IsConsented_example = perform_all-IsConsented (codes "2.0") answers

-- A new announce of the same version with another SHA forgets the answer, and the old SHA has none.
abbrev reopened_cell : Option Proposal
reopened_cell = some (record {
  version = codes "2.0";
  sha = codes "abd";
  state = "proposed";
  first_seen_at = 1;
  decided_at = none;
  updated_at = 3;
})

reopens : steps (codes "2.0") answers none ≡ reopened_cell
unfolding steps step
reopens = refl

tour-IsBacked_example :
    ((tour env none (some (codes "aab")) false 7 []).1 ≡ [])
    ⊎ IsBacked env none (some (codes "aab"))
tour-IsBacked_example = tour-IsBacked env none (some (codes "aab")) false 7 []

abbrev wheel_name : Text
wheel_name = codes "f-1.whl"

staged :
    stage_wheel (λ b. codes "aa") 4 9 [] (codes " f-1.whl ") ((1 ∷ 2 ∷ []) ∷ (3 ∷ []) ∷ []) [] ≡ (
      inr (record { stamp = 9; name = wheel_name; contents = 1 ∷ 2 ∷ 3 ∷ []; sha256 = codes "aa" }),
      record { stamp = 9; name = wheel_name; contents = 1 ∷ 2 ∷ 3 ∷ []; sha256 = codes "aa" } ∷ [],
    )
unfolding stage_wheel valide_nom_de_wheel Wheels.receive prune_wheels Wheels.insert lstrip rstrip
staged = refl

too_long :
    stage_wheel (λ b. codes "aa") 2 9 [] wheel_name ((1 ∷ 2 ∷ []) ∷ (3 ∷ []) ∷ []) []
    ≡ (inl too_large, [])
unfolding stage_wheel valide_nom_de_wheel Wheels.receive lstrip rstrip
too_long = refl

climbing :
    stage_wheel (λ b. codes "aa") 9 9 [] (codes "../f-1.whl") ((1 ∷ []) ∷ []) []
    ≡ (inl upload_rejected, [])
unfolding stage_wheel valide_nom_de_wheel lstrip rstrip
climbing = refl

stage_wheel-IsStaged_example :
    IsStaged
      (λ b. codes "aa")
      4
      []
      ((1 ∷ 2 ∷ []) ∷ (3 ∷ []) ∷ [])
      []
      (stage_wheel (λ b. codes "aa") 4 9 [] wheel_name ((1 ∷ 2 ∷ []) ∷ (3 ∷ []) ∷ []) []).0
      (stage_wheel (λ b. codes "aa") 4 9 [] wheel_name ((1 ∷ 2 ∷ []) ∷ (3 ∷ []) ∷ []) []).1
stage_wheel-IsStaged_example =
    stage_wheel-IsStaged (λ b. codes "aa") 4 9 [] wheel_name ((1 ∷ 2 ∷ []) ∷ (3 ∷ []) ∷ []) [] tt

abbrev old_wheel : ℕ → Deposit
old_wheel n = record { stamp = n; name = wheel_name; contents = 1 ∷ []; sha256 = codes "aa" }

abbrev area : List Deposit
area = old_wheel 5 ∷ old_wheel 4 ∷ old_wheel 3 ∷ []

abbrev in_flight : List Place
in_flight = (3, wheel_name) ∷ []

pruned : prune_wheels 1 in_flight area ≡ old_wheel 5 ∷ old_wheel 3 ∷ []
unfolding prune_wheels
pruned = refl

prune_wheels_lem_example :
    (take 1 (prune_wheels 1 in_flight area) ≡ take 1 area)
    × (select (is_used in_flight) (prune_wheels 1 in_flight area) ≡ select (is_used in_flight) area)
    × (length (prune_wheels 1 in_flight area) ≤ 1 + length (select (is_used in_flight) area))
prune_wheels_lem_example = prune_wheels_lem 1 in_flight area

-- A deposit of an earlier second than three others is returned, and it is not there.
purges_itself :
    stage_wheel (λ b. codes "aa") 4 2 [] wheel_name ((1 ∷ []) ∷ []) area ≡ (inr (old_wheel 2), area)
unfolding stage_wheel valide_nom_de_wheel Wheels.receive prune_wheels Wheels.insert lstrip rstrip
purges_itself = refl
