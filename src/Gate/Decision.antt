-- ===== src/Gate/Decision.antt =====
-- `compose_merge_decision` of src/forgemaster/gate/merge.py: the chain of authority of a merge.
--
-- The code appends to two lists as it goes through the tiers; here each tier gives what it appends,
-- and the lists are put together in the same order. A text is true when it is not empty (`truthy`).
pub mod Authority
pub mod Context
use forgemaster.Prelude.{
  ℕ, Bool, true, false, not, ◌&&◌, ◌||◌, Option, none, some, List, [], ◌∷◌, ◌++◌, map, ltb,
  if◌then◌else◌, truthy,
}
use forgemaster.Gate.Statuses.{
  Counts, VerifyStatus, NativeStatus, WoawStatus, Unproved, Unproved.absent, Unproved.stale,
  Blocker, tier0_red, native_failed, tier1_absent, tier1_stale, tier1_red, t15_unproved, t15_failed,
  Override, over_tier1, over_unproved, over_failed, Reason, blocked, overridden, tier1_na,
  tier1_pass, tier1_advisory, tier0_yellow, native_pass, native_na, t15_na, woaw_advisory, woaw_na,
  waiting_go, authorised, Verb, merge, hold, Decision, Inputs, counts_or, verify_or, native_or,
  woaw_or, only_if, is_empty,
}

-- What a tier adds: its blockers, its overrides, and whether an override was used.
pub record Finding : Type 0 where
  pub blockers : List Blocker
  pub overrides : List Override
  pub overridden : Bool

abbrev pub nothing : Finding
nothing = record { blockers = []; overrides = []; overridden = false }

abbrev pub block : Blocker → Finding
block b = record { blockers = b ∷ []; overrides = []; overridden = false }

abbrev pub lift : Override → Finding
lift o = record { blockers = []; overrides = o ∷ []; overridden = true }

module _ (i : Inputs) where
  abbrev pub t15 : VerifyStatus
  t15 = verify_or i.t15_status

  abbrev pub nat : NativeStatus
  nat = native_or i.native_status

  abbrev pub t1c : Counts
  t1c = counts_or i.tier1.counts

  abbrev pub red1 : ℕ
  red1 = if i.code_touched then t1c.red else 0

  abbrev pub native_failing : Bool
  native_failing = nat.applicable && not nat.ok

  -- Tier-1: a fresh review of the head, when the diff has code to review.
  unfoldable pub tier1_finding : Finding
  tier1_finding =
      if not i.code_touched
      then nothing
      else if not i.tier1.present
      then block tier1_absent
      else if not i.tier1.fresh
      then block tier1_stale
      else if ltb 0 red1
      then (if truthy i.t1_override
          then lift (over_tier1 red1 i.t1_override)
          else block (tier1_red red1))
      else nothing

  -- Tier-1.5: the end-to-end proof, when the feature touches a UI surface.
  unfoldable pub t15_finding : Finding
  t15_finding =
      let why = if not t15.present then absent else stale in
      if not i.ui_touched
      then nothing
      else if not t15.present || not t15.fresh
      then (if truthy i.t15_override
          then lift (over_unproved why i.t15_override)
          else block (t15_unproved why))
      else if t15.blocking
      then (if truthy i.t15_override
          then lift (over_failed t15.n_failed i.t15_override)
          else block (t15_failed t15.n_failed))
      else nothing

  unfoldable pub blockers_of : List Blocker
  unfolding tier1_finding t15_finding
  blockers_of =
      only_if (ltb 0 i.tier0.red) (tier0_red i.tier0.red)
      ++ (only_if native_failing (native_failed nat)
          ++ (tier1_finding.blockers ++ t15_finding.blockers))

  unfoldable pub overrides_of : List Override
  unfolding tier1_finding t15_finding
  overrides_of = tier1_finding.overrides ++ t15_finding.overrides

  -- A red that a correction worker can treat: a defect of fresh code.
  unfoldable pub refixable_of : Bool
  unfolding tier1_finding
  refixable_of =
      ltb 0 i.tier0.red
      || (native_failing
          || (i.code_touched
              && (i.tier1.present
                  && (i.tier1.fresh && (ltb 0 red1 && not tier1_finding.overridden)))))

  unfoldable pub tier1_reasons : List Reason
  tier1_reasons =
      if not i.code_touched
      then tier1_na ∷ []
      else if i.tier1.present && (i.tier1.fresh && not (ltb 0 red1))
      then (if ltb 0 t1c.yellow || ltb 0 t1c.purple
          then tier1_advisory t1c.yellow t1c.purple ∷ []
          else tier1_pass ∷ [])
      else []

  unfoldable pub native_reasons : List Reason
  native_reasons =
      if nat.applicable && nat.ok
      then native_pass nat.cmd ∷ []
      else only_if (not nat.applicable) native_na

  unfoldable pub woaw_reasons : List Reason
  woaw_reasons =
      let wo = woaw_or i.woaw_status in
      if i.ui_touched && (wo.present && wo.fresh)
      then woaw_advisory (counts_or wo.counts) wo.route wo.flat ∷ []
      else only_if i.ui_touched woaw_na

  unfoldable pub go_reasons : Bool → List Reason
  go_reasons green = if green then (if i.human_go then authorised ∷ [] else waiting_go ∷ []) else []

  unfoldable pub reasons_of : List Reason
  unfolding blockers_of overrides_of tier1_reasons native_reasons woaw_reasons go_reasons
  reasons_of =
      map blocked blockers_of
      ++ (map overridden overrides_of
          ++ (tier1_reasons
              ++ (only_if (ltb 0 i.tier0.yellow) (tier0_yellow i.tier0.yellow)
                  ++ (native_reasons
                      ++ (only_if (not i.ui_touched) t15_na
                          ++ (woaw_reasons ++ go_reasons (is_empty blockers_of)))))))

  unfoldable pub compose_merge_decision : Decision
  unfolding blockers_of refixable_of
  compose_merge_decision =
      let green = is_empty blockers_of in
      let allow = green && i.human_go in
      record {
        allow = allow;
        decision = if allow then merge else hold;
        gate_green = green;
        human_go = i.human_go;
        ui_touched = i.ui_touched;
        t15_overridden = t15_finding.overridden;
        t1_overridden = tier1_finding.overridden;
        refixable = refixable_of;
        blockers = blockers_of;
        reasons = reasons_of;
      }
