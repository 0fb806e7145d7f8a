-- ===== src/Examples/Merge.antt =====
-- A green feature, without the go and with it.
use forgemaster.Prelude.{◌≡◌, refl, Bool, true, false, none, some, [], ◌∷◌, ◌++◌}
use forgemaster.Prelude.Text.{codes}
use forgemaster.Gate.Decision.{compose_merge_decision}
use forgemaster.Gate.Merge.{
  Reading, Call, evaluate_gate, GitOp, World, Merge, run_merge, merged_now, exec,
}
use forgemaster.Gate.Merge.Safety.{Untouched, allowed, merge_ops, run_merge_refused, run_merge_log}
use forgemaster.Gate.Toolchain.{has_reviewable_code, is_doc}
use forgemaster.Dispatch.Finalize.{Finalization, Finalized, finalize_feature}
use forgemaster.Dispatch.Finalize.Alarm.{IsAnnounced, finalize_feature-IsAnnounced}
use forgemaster.Examples.Roadmap.{db, api}

abbrev reading : Reading
reading = record {
  head_sha = some "c0ffee";
  tier1 = record {
    present = true;
    fresh = true;
    blocking = false;
    counts = none;
    reviewed_sha = some "c0ffee";
  };
  t15 = record {
    present = false;
    fresh = false;
    blocking = false;
    n_failed = none;
    reviewed_sha = none;
  };
  woaw = record { present = false; fresh = false; counts = none; flat = false; route = none };
  native = record {
    applicable = true;
    ok = true;
    failed_step = none;
    cmd = some "ruff";
    exit_code = none;
  };
  tier0 = record { red = 0; yellow = 0 };
  diff_files = codes "src/main.py" ∷ [];
  visual_change = false;
}

abbrev go : Call
go = record { human_go = true; t1_override = ""; t15_override = "" }

abbrev no_go : Call
no_go = record go { human_go = false }

abbrev merging : Merge
merging = record {
  project = "demo";
  feature = api;
  feature_ref = "demo/api";
  dev_is_ancestor = false;
  worktree_exists = true;
  alert_id = "a1";
  now = "2026-07-04";
  text_of = λ b. "gate rouge";
  json_of = λ bs. "[]";
}

abbrev world : World
world = record {
  store = db;
  reservations =
      record {
        id = "r1";
        project = "demo";
        purpose = "worktree:api";
        port = 5170;
        created_at = "2026-07-02";
      }
      ∷ [];
  alerts = [];
  log = [];
}

abbrev git_works : GitOp → Bool
git_works op = false

held : allowed (evaluate_gate no_go reading) ≡ false
unfolding evaluate_gate compose_merge_decision has_reviewable_code is_doc
held = refl

run_merge_refused_example : Untouched world (run_merge git_works merging no_go reading world).1
run_merge_refused_example = run_merge_refused git_works merging no_go reading world held

abbrev after : World
after = (run_merge git_works merging go reading world).1

merges : run_merge git_works merging go reading world ≡ (merged_now, after)
unfolding run_merge evaluate_gate compose_merge_decision has_reviewable_code is_doc exec
merges = refl

run_merge_log_example :
    (allowed (evaluate_gate go reading) ≡ true) × (after.log ≡ world.log ++ merge_ops merging)
run_merge_log_example = run_merge_log git_works merging go reading world after merges

abbrev finalization : Finalization
finalization = record {
  merge = merging;
  diff_files = some (codes "src/main.py" ∷ []);
  worktree_is_dir = true;
  is_visual = false;
  is_proof_fresh = false;
  reading = reading;
  reachable = true;
}

finalize_feature-IsAnnounced_example :
    (r : Finalized) × ((finalize_feature finalization []).0 ≡ some r)
    × IsAnnounced merging r (finalize_feature finalization []).1
finalize_feature-IsAnnounced_example =
    finalize_feature-IsAnnounced finalization [] (codes "src/main.py" ∷ []) "c0ffee" refl refl refl
      refl
