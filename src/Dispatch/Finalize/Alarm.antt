-- ===== src/Dispatch/Finalize/Alarm.antt =====
-- The alert of the gate after `finalize_feature` of src/forgemaster/dispatch/orchestrator.py.
use text.Mathlib.TextPositions.{eq_refl}
use forgemaster.Prelude.{
  String, ◌≡◌, ◌⊎◌, refl, Bool, true, false, none, some, List, [], ◌∷◌, any, arith, str_eq,
  Option-cases, inl, inr, select_one, select_one-update_out, select_one-append_none, ap, ◌∙◌, sym,
  ==_iff, subst,
}
use forgemaster.Prelude.Text.{Text}
use forgemaster.Db.Alerts.{
  code, Alert, gate_red, open_at, emit_alert, emit_target, resolve_alerts, resolve_target, close,
  Emission, fresh_row, refresh,
}
use forgemaster.Db.Alerts.Life.{emit_alert_again, emit_alert_new}
use forgemaster.Gate.Statuses.{Blocker, Inputs, is_empty}
use forgemaster.Gate.Decision.{compose_merge_decision, blockers_of}
use forgemaster.Gate.Merge.{Merge, first_text, red_alert, inputs_of, evaluate_gate}
use forgemaster.Dispatch.Finalize.{
  Finalization, Finalized, gestures, preview, alert_red, finalize_on, finalize_feature, Gesture,
}

-- the open alert of the gate on a feature
abbrev pub gate_alert : Merge → Alert → Bool
gate_alert m = open_at m.project m.feature_ref gate_red

-- ready, without an alert, or not ready, with an open alert that shows the first blocker
abbrev pub IsAnnounced : Merge → Finalized → List Alert → Type 0
IsAnnounced m r rows =
    ((r.merge_ready ≡ true) × (select_one (gate_alert m) rows ≡ none))
    ⊎ ((r.merge_ready ≡ false)
        × (a : Alert) × (select_one (gate_alert m) rows ≡ some a)
        × (a.reason ≡ first_text m.text_of r.blockers))

resolve_alerts-gate_alert :
    (m : Merge) (rows : List Alert)
    → select_one
        (gate_alert m)
        (resolve_alerts true m.project m.feature_ref (gate_red ∷ []) m.now rows)
      ≡ none
unfolding resolve_alerts
resolve_alerts-gate_alert m rows =
    select_one-update_out (resolve_target m.project m.feature_ref (gate_red ∷ [])) (gate_alert m)
      (close m.now) rows (λ a. ground arith)

-- An emission that gets through is the open alert, with its reason.
emit_alert-gate_alert :
    (e : Emission) (rows : List Alert)
    → any (λ a. str_eq a.id e.new_id) rows ≡ false
    → (a : Alert) × (select_one (emit_target e) (emit_alert true e rows) ≡ some a)
      × (a.reason ≡ e.reason)
emit_alert-gate_alert e rows fresh = elim (Option-cases (select_one (emit_target e) rows)) [
  | inr (old, found) ↦ (refresh (fresh_row e) old, emit_alert_again e rows old fresh found, refl)
  | inl absent ↦
      let new : emit_target e (fresh_row e) ≡ true =
        rw (eq_refl e.project, eq_refl e.feature_ref)
          ((==_iff (code e.kind) (code e.kind)).1 refl) in
      (
        fresh_row e,
        ap (select_one (emit_target e)) (emit_alert_new e rows fresh absent)
            ∙ select_one-append_none (emit_target e) rows (fresh_row e) absent
            ∙ rw new refl,
        refl,
      )
]

empty_or_cons :
    (bs : List Blocker)
    → (is_empty bs ≡ true)
      ⊎ ((is_empty bs ≡ false) × (b : Blocker) × (cs : List Blocker) × (bs ≡ b ∷ cs))
empty_or_cons [] = inl refl
empty_or_cons (b ∷ bs) = inr (refl, b, bs, refl)

-- A decision without blockers is green, one with blockers is red.
gate_green-blockers :
    (i : Inputs)
    → ((compose_merge_decision i).gate_green ≡ true)
      ⊎ (((compose_merge_decision i).gate_green ≡ false)
          × (b : Blocker) × (bs : List Blocker) × ((compose_merge_decision i).blockers ≡ b ∷ bs))
unfolding compose_merge_decision
gate_green-blockers i = empty_or_cons (blockers_of i)

emit_red :
    (f : Finalization) (rows : List Alert) (bs : List Blocker) (b : Blocker) (cs : List Blocker)
    → bs ≡ b ∷ cs
    → f.reachable ≡ true
    → any (λ a. str_eq a.id f.merge.alert_id) rows ≡ false
    → (a : Alert) × (select_one (gate_alert f.merge) (alert_red f bs rows) ≡ some a)
      × (a.reason ≡ first_text f.merge.text_of bs)
unfolding red_alert
emit_red f rows bs b cs e reach fresh =
    let sent = emit_alert-gate_alert (red_alert f.merge (b ∷ cs)) rows fresh in rw e (rw reach sent)

finalize_on-IsAnnounced :
    (f : Finalization) (called : List Gesture) (i : Inputs) (rows : List Alert)
    → f.reachable ≡ true
    → any (λ a. str_eq a.id f.merge.alert_id) rows ≡ false
    → IsAnnounced f.merge
        (finalize_on f called (some (compose_merge_decision i)) rows).0
        (finalize_on f called (some (compose_merge_decision i)) rows).1
finalize_on-IsAnnounced f called i rows reach fresh = elim (gate_green-blockers i) [
  | inl g ↦ simp (g, reach) (inl (refl, resolve_alerts-gate_alert f.merge rows))
  | inr (g, b, bs, e) ↦
      let sent = emit_red f rows (compose_merge_decision i).blockers b bs e reach fresh in
      simp g (inr (refl, sent.0, sent.1, sent.2))
]

-- When the branch is there and the writes get through, a feature that is finalized is ready to merge and
-- no alert of its gate is open, or it is not ready and the open alert of its gate shows the first blocker.
pub finalize_feature-IsAnnounced :
    (f : Finalization) (rows : List Alert) (diff : List Text) (sha : String)
    → f.diff_files ≡ some diff
    → f.reading.head_sha ≡ some sha
    → f.reachable ≡ true
    → any (λ a. str_eq a.id f.merge.alert_id) rows ≡ false
    → (r : Finalized) × ((finalize_feature f rows).0 ≡ some r)
      × IsAnnounced f.merge r (finalize_feature f rows).1
unfolding finalize_feature evaluate_gate
finalize_feature-IsAnnounced f rows diff sha has_diff has_head reach fresh =
    let i = inputs_of preview f.reading in
    let done = finalize_on f (gestures f diff) (some (compose_merge_decision i)) rows in
    let run : finalize_feature f rows ≡ (some done.0, done.1) = simp (has_diff, has_head) refl in
    (
      done.0,
      ap (λ p. p.0) run,
      subst (IsAnnounced f.merge done.0) (sym (ap (λ p. p.1) run))
          (finalize_on-IsAnnounced f (gestures f diff) i rows reach fresh),
    )
