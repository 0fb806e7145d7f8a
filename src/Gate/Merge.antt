-- ===== src/Gate/Merge.antt =====
-- `evaluate_gate`, `run_merge` and `_close_feature_tasks` of src/forgemaster/gate/merge.py, with the
-- `release` of src/forgemaster/dispatch/worktree.py that they call.
--
-- Git is outside: an operation is an entry of `log`, and the argument `fails` says which operation
-- raises GitOpError. The journals that are written for their trace alone (history.record_verdict and
-- prune_verdicts, merge_outcomes.record_merge) are left out: nothing here reads them.
pub mod Safety
use forgemaster.Prelude.{
  ℕ, String, Bool, true, false, not, ◌&&◌, Option, none, some, List, [], ◌∷◌, ◌++◌, map, select,
  update, str_eq, if◌then◌else◌,
}
use Prim.Native.String.{◌++◌ as str_append}
use forgemaster.Prelude.Text.{Text}
use forgemaster.Roadmap.Rows.{
  Feature, FeatureStatus, merged, Task, TaskStatus, todo, in_progress, done, Store,
}
use forgemaster.Dispatch.Ports.{Reservation, release}
use forgemaster.Db.Alerts.{Tier, Alert, Emission, gate_red, blocker, emit_alert, resolve_alerts}
use forgemaster.Gate.Statuses.{
  Tier0, ReviewStatus, VerifyStatus, NativeStatus, WoawStatus, Inputs, Decision, Blocker,
}
use forgemaster.Gate.Decision.{compose_merge_decision}
use forgemaster.Gate.Decision.Context.{Word, blocker_tier}
use forgemaster.Gate.Toolchain.{has_reviewable_code}

-- What `evaluate_gate` reads: the head of the branch (None before the first dispatch), the statuses
-- on that head, the diff with the base and the trigger on its contents.
pub record Reading : Type 0 where
  pub head_sha : Option String
  pub tier1 : ReviewStatus
  pub t15 : VerifyStatus
  pub woaw : WoawStatus
  pub native : NativeStatus
  pub tier0 : Tier0
  pub diff_files : List Text
  pub visual_change : Bool

pub record Call : Type 0 where
  pub human_go : Bool
  pub t1_override : String
  pub t15_override : String

-- `x if ui_touched else None`
abbrev pub given_if {ℓ} : {A : Type ℓ} → Bool → A → Option A
given_if true a = some a
given_if false a = none

abbrev pub inputs_of : Call → Reading → Inputs
inputs_of call r = record {
  tier0 = r.tier0;
  tier1 = r.tier1;
  human_go = call.human_go;
  t15_status = given_if r.visual_change r.t15;
  ui_touched = r.visual_change;
  t15_override = call.t15_override;
  native_status = some r.native;
  t1_override = call.t1_override;
  code_touched = has_reviewable_code r.diff_files;
  woaw_status = given_if r.visual_change r.woaw;
}

-- the decision of `evaluate_gate`, None without a branch
abbrev pub decide : Call → Reading → Option String → Option Decision
decide call r none = none
decide call r (some sha) = some (compose_merge_decision (inputs_of call r))

unfoldable pub evaluate_gate : Call → Reading → Option Decision
unfolding compose_merge_decision has_reviewable_code
evaluate_gate call r = decide call r r.head_sha

pub data GitOp : Type 0 where
  rebase_onto merge_ff_dev merge_ff_main merge_writeback remove_worktree delete_branch : GitOp

-- The store, and what was done in git, in order.
pub record World : Type 0 where
  pub store : Store
  pub reservations : List Reservation
  pub alerts : List Alert
  pub log : List GitOp

abbrev pub is_in_progress : TaskStatus → Bool
is_in_progress in_progress = true
is_in_progress _ = false

abbrev pub is_todo : TaskStatus → Bool
is_todo todo = true
is_todo _ = false

abbrev pub landed : String → Task → Bool
landed feature_id t = str_eq t.feature_id feature_id && is_in_progress t.status

-- `_close_feature_tasks`: the slugs that it closes, and the store after it.
unfoldable pub close_feature_tasks : String → Store → List String × Store
close_feature_tasks feature_id db = (
  map (λ t. t.slug) (select (landed feature_id) db.tasks),
  record db {
    tasks = update (landed feature_id) (λ t. record t { status = done }) db.tasks;
    features = update (λ f. str_eq f.id feature_id) (λ f. record f { status = merged }) db.features;
  },
)

-- A step of the merge: an operation of git that may raise, or a write.
pub data Act : Type 0 where
  git : GitOp → Act
  write : (World → World) → Act

abbrev pub logged : GitOp → World → World
logged op w = record w { log = w.log ++ op ∷ [] }

-- What the steps end with: returned, or the GitOpError of an operation.
pub data End : Type 0 where
  ended : End
  git_op_error : GitOp → End

unfoldable pub exec : (GitOp → Bool) → List Act → World → End × World
exec fails [] w = (ended, w)
exec fails (git op ∷ acts) w =
    let rest = exec fails acts (logged op w) in if fails op then (git_op_error op, w) else rest
exec fails (write f ∷ acts) w = exec fails acts (f w)

-- What `run_merge` is called on, and what it finds. `text_of` is the text of a blocker, `json_of` the
-- JSON of their list.
pub record Merge : Type 0 where
  pub project : String
  pub feature : Feature
  pub feature_ref : String
  pub dev_is_ancestor : Bool
  pub worktree_exists : Bool
  pub alert_id : String
  pub now : String
  pub text_of : Blocker → String
  pub json_of : List Blocker → String

abbrev pub git_if : Bool → GitOp → List Act
git_if true op = git op ∷ []
git_if false op = []

-- `worktree.release`: the worktree, then the port, then the column.
unfoldable pub release_port : Merge → World → World
unfolding release
release_port m w = record w {
  reservations = (release m.project (str_append "worktree:" m.feature.slug) w.reservations).1;
}

abbrev pub clear_path : Merge → World → World
clear_path m w = record w {
  store = record w.store {
    features =
        update (λ f. str_eq f.id m.feature.id) (λ f. record f { worktree_path = none })
          w.store.features;
  };
}

abbrev pub close_all : Merge → World → World
close_all m w = record w { store = (close_feature_tasks m.feature.id w.store).1 }

abbrev pub resolve_all : Merge → World → World
resolve_all m w = record w {
  alerts = resolve_alerts true m.project m.feature_ref [] m.now w.alerts;
}

abbrev pub merge_acts : Merge → List Act
merge_acts m =
    git_if (not m.dev_is_ancestor) rebase_onto
    ++ (git merge_ff_dev ∷ git merge_ff_main ∷ git merge_writeback ∷ [])
    ++ git_if m.worktree_exists remove_worktree
    ++ write (release_port m)
      ∷ write (clear_path m)
      ∷ git delete_branch
      ∷ write (close_all m)
      ∷ write (resolve_all m)
      ∷ []

pub data Outcome : Type 0 where
  never_dispatched : Outcome
  waiting_go : Outcome
  gate_is_red : List Blocker → Outcome
  merged_now : Outcome
  raised : GitOp → Outcome

abbrev pub tier_of : Option Word → Option Tier
tier_of none = none
tier_of (some Word.tier0) = some Tier.tier0
tier_of (some Word.tier15) = some Tier.tier15
tier_of (some Word.tier1) = some Tier.tier1

-- `blk[0] if blk else "gate incomplet"`
abbrev pub first_text : (Blocker → String) → List Blocker → String
first_text text_of [] = "gate incomplet"
first_text text_of (b ∷ bs) = text_of b

-- the alert of a red gate
unfoldable pub red_alert : Merge → List Blocker → Emission
unfolding blocker_tier
red_alert m blk = record {
  new_id = m.alert_id;
  ts = m.now;
  project = m.project;
  feature_ref = m.feature_ref;
  feature = m.feature.slug;
  kind = gate_red;
  reason = first_text m.text_of blk;
  tier = tier_of (blocker_tier blk);
  severity = blocker;
  findings = some (m.json_of blk);
}

abbrev pub outcome_of : End × World → Outcome × World
outcome_of (ended, w) = (merged_now, w)
outcome_of (git_op_error op, w) = (raised op, w)

abbrev pub act_on : (GitOp → Bool) → Merge → Option Decision → World → Outcome × World
act_on fails m none w = (never_dispatched, w)
act_on fails m (some d) w =
    if d.allow
    then outcome_of (exec fails (merge_acts m) w)
    else if d.gate_green
    then (waiting_go, w)
    else (
      gate_is_red d.blockers,
      record w { alerts = emit_alert true (red_alert m d.blockers) w.alerts },
    )

unfoldable pub run_merge : (GitOp → Bool) → Merge → Call → Reading → World → Outcome × World
unfolding evaluate_gate exec close_feature_tasks release_port resolve_alerts emit_alert
run_merge fails m call r w = act_on fails m (evaluate_gate call r) w

-- `pending_tasks` of the report
unfoldable pub pending_tasks : String → Store → List String
pending_tasks feature_id db =
    map (λ t. t.slug) (select (λ t. str_eq t.feature_id feature_id && is_todo t.status) db.tasks)
