-- ===== src/Examples/Decision.antt =====
-- A feature with a UI, reviewed with one red, for `compose_merge_decision`.
use forgemaster.Prelude.{◌≡◌, ◌↔◌, refl, true, false, none, some}
use forgemaster.Dispatch.Refix.{Evaluation, Fix, dispatch_refix, exhausted}
use forgemaster.Gate.Statuses.{Inputs, WoawStatus}
use forgemaster.Gate.Decision.{compose_merge_decision}
use forgemaster.Gate.Decision.Authority.{MayMerge, allow_iff}

abbrev reviewed : Inputs
reviewed = record {
  tier0 = record { red = 0; yellow = 2 };
  tier1 = record {
    present = true;
    fresh = true;
    blocking = true;
    counts = some (record { red = 1; yellow = 0; purple = 0 });
    reviewed_sha = some "c0ffee";
  };
  human_go = true;
  t15_status = some (record {
    present = true;
    fresh = true;
    blocking = false;
    n_failed = some 0;
    reviewed_sha = some "c0ffee";
  });
  ui_touched = true;
  t15_override = "";
  native_status = none;
  t1_override = "";
  code_touched = true;
  woaw_status = none;
}

holds_on_red : (compose_merge_decision reviewed).allow ≡ false
unfolding compose_merge_decision
holds_on_red = refl

merges_on_override : (compose_merge_decision (record reviewed { t1_override = "ok" })).allow ≡ true
unfolding compose_merge_decision
merges_on_override = refl

allow_iff_example : ((compose_merge_decision reviewed).allow ≡ true) ↔ MayMerge reviewed
allow_iff_example = allow_iff reviewed

abbrev flat : WoawStatus
flat = record {
  present = true;
  fresh = true;
  counts = some (record { red = 4; yellow = 0; purple = 0 });
  flat = true;
  route = some "/";
}

abbrev red_gate : Evaluation
red_gate = record { decision = some (compose_merge_decision reviewed); head_sha = some "c0ffee" }

abbrev worked : Fix
worked = record { dispatched = true; ok = true }

spawns : (dispatch_refix 2 red_gate worked red_gate).1 ≡ true
unfolding dispatch_refix compose_merge_decision
spawns = refl

third_pass_exhausts : (dispatch_refix 2 red_gate worked red_gate).0.status ≡ exhausted
unfolding dispatch_refix compose_merge_decision
third_pass_exhausts = refl
