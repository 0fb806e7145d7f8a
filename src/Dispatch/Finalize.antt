-- ===== src/Dispatch/Finalize.antt =====
-- `finalize_feature` of src/forgemaster/dispatch/orchestrator.py: a feature whose work is done goes to the
-- gate, in preview.
--
-- The gestures are the calls that leave a verdict for the gate, whose statuses are read afterwards: the
-- `Reading` is the one that `evaluate_gate` makes after them. Left out is an exception of a gesture that
-- leaves the function: of the diff, of the file of the verdict, of the reviewer.
pub mod Alarm
use forgemaster.Prelude.{
  String, Bool, true, false, not, ◌&&◌, Option, none, some, List, [], ◌∷◌, ◌++◌, if◌then◌else◌,
}
use forgemaster.Prelude.Text.{Text}
use forgemaster.Db.Alerts.{Alert, gate_red, emit_alert, resolve_alerts}
use forgemaster.Gate.Statuses.{Decision, Blocker}
use forgemaster.Gate.Toolchain.{has_reviewable_code}
use forgemaster.Gate.Merge.{Reading, Call, Merge, evaluate_gate, red_alert}

pub data Gesture : Type 0 where
  run_native_toolchain dispatch_reviewer autoverify dispatch_woaw : Gesture

-- What the finalization finds: the diff of the branch, or a GitOpError; the worktree, and whether the
-- end-to-end proof is fresh. `reachable` says whether the writes of the alerts get through.
pub record Finalization : Type 0 where
  pub merge : Merge
  pub diff_files : Option (List Text)
  pub worktree_is_dir : Bool
  pub is_visual : Bool
  pub is_proof_fresh : Bool
  pub reading : Reading
  pub reachable : Bool

abbrev pub gesture_if : Bool → Gesture → List Gesture
gesture_if true g = g ∷ []
gesture_if false g = []

unfoldable pub gestures : Finalization → List Text → List Gesture
unfolding has_reviewable_code
gestures f diff =
    gesture_if f.worktree_is_dir run_native_toolchain
    ++ gesture_if (has_reviewable_code diff) dispatch_reviewer
    ++ gesture_if (f.is_visual && not f.is_proof_fresh) autoverify
    ++ gesture_if f.is_visual dispatch_woaw

-- The human go is never given here.
abbrev pub preview : Call
preview = record { human_go = false; t1_override = ""; t15_override = "" }

pub record Finalized : Type 0 where
  pub merge_ready : Bool
  pub blockers : List Blocker
  pub called : List Gesture

abbrev pub alert_red : Finalization → List Blocker → List Alert → List Alert
alert_red f [] rows = rows
alert_red f (b ∷ bs) rows = emit_alert f.reachable (red_alert f.merge (b ∷ bs)) rows

abbrev pub finalize_on :
    Finalization → List Gesture → Option Decision → List Alert → Finalized × List Alert
finalize_on f called none rows =
    (record { merge_ready = false; blockers = []; called = called }, rows)
finalize_on f called (some d) rows = (
  record { merge_ready = d.gate_green; blockers = d.blockers; called = called },
  if d.gate_green
      then resolve_alerts f.reachable f.merge.project f.merge.feature_ref (gate_red ∷ [])
          f.merge.now rows
      else alert_red f d.blockers rows,
)

-- `none` is the answer on a branch that is not there; its blocker is a text.
abbrev pub finalize_diff :
    Finalization → Option (List Text) → List Alert → Option Finalized × List Alert
finalize_diff f none rows = (none, rows)
finalize_diff f (some diff) rows =
    let after = finalize_on f (gestures f diff) (evaluate_gate preview f.reading) rows in
    (some after.0, after.1)

unfoldable pub finalize_feature : Finalization → List Alert → Option Finalized × List Alert
unfolding gestures evaluate_gate emit_alert resolve_alerts red_alert
finalize_feature f rows = finalize_diff f f.diff_files rows
