-- ===== src/Examples/Drain.antt =====
-- Two workers on three features, a rate limit, and a job whose worker died.
use forgemaster.Prelude.{
  ℕ, String, ◌≡◌, ◌≤◌, refl, Bool, true, false, Option, none, some, List, [], ◌∷◌, ◌||◌, ◌+◌, arith,
  elem, eq_iff, subst, All, any, length, select, select_one, update, delete,
}
use forgemaster.Roadmap.Rows.{
  Feature, returned, list_features, get_project, order_by_slug, resolve_feature, split_ref,
  list_tasks,
}
use forgemaster.Dispatch.Orchestrator.{Report, discoverable_features, ranked, sort_keys}
use forgemaster.Dispatch.Orchestrator.Discovery.{AllFree, discoverable_features_free}
use forgemaster.Dispatch.Orchestrator.Drain.{
  Round, again, excluded, start, drain_loop, drain_of, at_least_one, turn, submit, settle,
  settle_all,
}
use forgemaster.Dispatch.Orchestrator.Sets.{IsDistinct, progress}
use forgemaster.Dispatch.Orchestrator.Progress.{IsFair, slugs_of, drain_loop-progress}
use forgemaster.Dispatch.Orchestrator.Limits.{at_work, drain_loop_bound, drain_loop_socle}
use forgemaster.Dispatch.Orchestrator.Summary.{Sets, Dispositions, dispositions, sort_out}
use forgemaster.Dispatch.Jobs.{Job, task, no_usage, Parsed, started, Start}
use forgemaster.Dispatch.Reconcile.{Tables, reconcile_orphans, reap, mark_job_orphan}
use forgemaster.Dispatch.Reconcile.Orphans.{is_orphan, reconcile_orphans_settles}
use forgemaster.Dispatch.Worker.{parsed, Run, run_worker, dispatch_next}
use forgemaster.Dispatch.Worker.Zombie.{IsOver, run_worker_closes, is_spawned}
use forgemaster.Examples.Roadmap.{db, api, socle, first_task, engine, ids_of}
use forgemaster.Roadmap.Resolver.{
  index_for_feature, classify_features, resolve_next, to_records, feature_records,
}

abbrev pub fine : Report
fine = record {
  feature = "api";
  task = some "routes";
  ok = true;
  needs_redrain = false;
  reason = "ok";
  needs_terminal = false;
  is_rate_limited = false;
  is_interrupted = false;
}

abbrev limited : Report
limited = record fine { feature = "web"; ok = false; reason = "rate-limit"; is_rate_limited = true }

abbrev broken : Report
broken = record fine { feature = "cli"; ok = false; reason = "claude -p rc=1" }

abbrev first_round : Round
first_round = record {
  abort_requested = false;
  discovered = λ in_flight failed. "api" ∷ "web" ∷ "cli" ∷ [];
  finished = λ in_flight. ("api", fine) ∷ [];
}

abbrev second_round : Round
second_round = record {
  abort_requested = false;
  discovered = λ in_flight failed. "cli" ∷ [];
  finished = λ in_flight. ("cli", broken) ∷ ("web", limited) ∷ [];
}

abbrev rounds : List Round
rounds = first_round ∷ second_round ∷ []

two_at_once : (drain_of (drain_loop none 2 (first_round ∷ []) start)).in_flight ≡ "web" ∷ []
unfolding drain_loop turn submit settle_all settle delete
two_at_once = refl

stops_on_limit : (drain_of (drain_loop none 2 rounds start)).failed ≡ "cli" ∷ []
unfolding drain_loop turn submit settle_all settle delete
stops_on_limit = refl

-- One feature, which is found while it is not in flight, and a worker that ends with its report.
abbrev api_unless : Bool → List String
api_unless true = []
api_unless false = "api" ∷ []

abbrev first_done : List String → List (String × Report)
first_done [] = []
first_done (slug ∷ slugs) = (slug, fine) ∷ []

abbrev one_feature : Round
one_feature = record {
  abort_requested = false;
  discovered = λ in_flight out. api_unless (elem "api" in_flight || elem "api" out);
  finished = first_done;
}

api_unless-IsDistinct : (b : Bool) → IsDistinct (api_unless b)
api_unless-IsDistinct true = tt
api_unless-IsDistinct false = (refl, tt)

first_done-IsDistinct : (slugs : List String) → IsDistinct (slugs_of (first_done slugs))
first_done-IsDistinct [] = tt
first_done-IsDistinct (slug ∷ slugs) = (refl, tt)

api_unless-new :
    (f o : Bool) (flight out : List String) (x : String)
    → elem "api" flight ≡ f
    → elem "api" out ≡ o
    → elem x (api_unless (f || o)) ≡ true
    → (elem x flight ≡ false) × (elem x out ≡ false)
api_unless-new true o flight out x hf ho h = absurd (cc)
api_unless-new false true flight out x hf ho h = absurd (cc)
api_unless-new false false flight out x hf ho h =
    let same : "api" ≡ x = ground (arith, h, eq_iff x "api") in
    subst (λ y. (elem y flight ≡ false) × (elem y out ≡ false)) same (hf, ho)

first_done-flying :
    (flight : List String) (x : String)
    → elem x (slugs_of (first_done flight)) ≡ true
    → elem x flight ≡ true
first_done-flying [] x h = h
first_done-flying (slug ∷ slugs) x h = ground (arith, h)

one_feature-IsFair : IsFair one_feature
one_feature-IsFair = record {
  finds_once = λ flight out. api_unless-IsDistinct (elem "api" flight || elem "api" out);
  finds_new = λ flight out x h.
      api_unless-new (elem "api" flight) (elem "api" out) flight out x refl refl h;
  ends_some = λ x xs. omega arith;
  ends_once = first_done-IsDistinct;
  ends_flying = first_done-flying;
}

abbrev twice : List Round
twice = one_feature ∷ one_feature ∷ []

twice_again : drain_loop none 2 twice start ≡ again (drain_of (drain_loop none 2 twice start))
unfolding drain_loop turn submit settle_all settle delete
twice_again = refl

drain_loop-progress_example :
    length twice
    ≤ progress (drain_of (drain_loop none 2 twice start)).reports
      + length (excluded (drain_of (drain_loop none 2 twice start)))
drain_loop-progress_example =
    drain_loop-progress none 2 twice (drain_of (drain_loop none 2 twice start))
      (one_feature-IsFair, (one_feature-IsFair, tt)) twice_again

drain_loop_bound_example : length (at_work none 2 (first_round ∷ []) second_round) ≤ at_least_one 2
drain_loop_bound_example = drain_loop_bound none 2 (first_round ∷ []) second_round

drain_loop_socle_example :
    All (λ slug. slug ≡ "socle") (at_work (some "socle") 2 (first_round ∷ []) second_round)
drain_loop_socle_example = drain_loop_socle "socle" 2 (first_round ∷ []) second_round

abbrev sets : Sets
sets = record {
  drained_set = [];
  failed_set = [];
  interview_set = "socle" ∷ [];
  held_set = [];
  rate_set = [];
  interrupted_set = [];
}

abbrev in_order : List Feature
in_order = api ∷ socle ∷ []

listed : list_features db "demo" ≡ returned in_order
unfolding list_features get_project order_by_slug select select_one
listed = refl

abbrev sorted_out : Dispositions
sorted_out = sort_out sets in_order (λ k. [])

disposed : dispositions db "demo" sets ≡ returned sorted_out
unfolding dispositions list_features get_project order_by_slug select select_one
disposed = refl

abbrev reports : List Report
reports = fine ∷ limited ∷ broken ∷ []

abbrev all_clear :
    (false ≡ false)
    × (false ≡ false)
    × (false ≡ false)
    × (false ≡ false)
    × (false ≡ false)
    × (false ≡ false)
all_clear = (refl, refl, refl, refl, refl, refl)

abbrev job : Job
job = started (record {
  new_id = "j1";
  now = "2026-07-02T10:00";
  task_id = "t1";
  worktree = "/srv/demo/worktrees/api";
  session_id = "s1";
  port = some 5170;
  pid = some 4242;
  log_path = none;
  engine = "worker-dispatch-v1";
  kind = task;
})

abbrev good : Parsed
good = record {
  ok = true;
  is_rate_limited = false;
  is_interrupted = false;
  session_id = none;
  usage = no_usage;
  duration = none;
  error = none;
}

abbrev jobs : List Job
jobs = job ∷ []

abbrev tables : Tables
tables = record { jobs = jobs; tasks = first_task ∷ [] }

abbrev no_log : Option String → Option Parsed
no_log path = none

abbrev nobody : Option ℕ → Bool
nobody pid = false

reaps_the_dead : (reconcile_orphans no_log "12:00" nobody tables).0 ≡ "j1" ∷ []
unfolding reconcile_orphans reap mark_job_orphan select select_one update
reaps_the_dead = refl

reconcile_orphans_settles_example :
    any (is_orphan no_log "12:00" nobody) (reconcile_orphans no_log "12:00" nobody tables).1.jobs
    ≡ false
reconcile_orphans_settles_example = reconcile_orphans_settles no_log "12:00" nobody tables

abbrev run : Run
run = record {
  job_id = "j1";
  session_id = "s1";
  now = "11:00";
  wall = 60;
  abort_requested = false;
  commit_raises = true;
}

run_worker_closes_example :
    IsOver no_log run "t1" (run_worker no_log run "t1" (parsed good) tables).1
run_worker_closes_example = run_worker_closes no_log run "t1" (parsed good) tables

abbrev idle_run : Start
idle_run = record {
  new_id = "j2";
  now = "11:30";
  task_id = "";
  worktree = "/srv/demo/worktrees/socle";
  session_id = "s2";
  port = some 5171;
  pid = none;
  log_path = none;
  engine = "worker-dispatch-v1";
  kind = task;
}

nothing_to_do :
    is_spawned
      (dispatch_next engine ids_of no_log run idle_run (parsed good) "demo/socle" db tables).0
    ≡ false
unfolding dispatch_next index_for_feature resolve_feature get_project split_ref list_tasks
    order_by_slug select select_one
nothing_to_do = refl

discoverable_features_free_example :
    AllFree
      ("socle" ∷ [])
      ("web" ∷ [])
      (discoverable_features engine ids_of db "demo" ("socle" ∷ []) ("web" ∷ []))
discoverable_features_free_example =
    discoverable_features_free ("socle" ∷ []) ("web" ∷ []) engine ids_of db "demo"

finds_the_free_one :
    discoverable_features engine ids_of db "demo" ("socle" ∷ []) ("web" ∷ [])
    ≡ returned ("api" ∷ [])
unfolding discoverable_features ranked classify_features sort_keys index_for_feature resolve_feature
    get_project split_ref list_tasks list_features order_by_slug select select_one resolve_next
    to_records feature_records
finds_the_free_one = refl
