-- ===== src/Gate/Decision/Authority.antt =====
-- Who may authorise a merge: `compose_merge_decision` of src/forgemaster/gate/merge.py against the
-- policy that its documentation states.
use forgemaster.Prelude.{
  ◌≡◌, ◌↔◌, ◌⊎◌, true, false, Option, List, [], ◌∷◌, ◌++◌, ◌&&◌, not, refl, arith, ltb, truthy,
}
use forgemaster.Gate.Statuses.{
  WoawStatus, Inputs, counts_or, only_if, is_empty, tier0_red, native_failed,
}
use forgemaster.Gate.Decision.{
  t15, nat, tier1_finding, t15_finding, native_failing, compose_merge_decision,
}

-- Tier-1: no code to review, or a fresh review of the head with no red that no override lifts.
abbrev pub IsReviewed : Inputs → Type 0
IsReviewed i =
    (i.code_touched ≡ false)
    ⊎ ((i.tier1.present ≡ true)
        × (i.tier1.fresh ≡ true)
        × (((counts_or i.tier1.counts).red ≡ 0) ⊎ (truthy i.t1_override ≡ true)))

-- Tier-1.5: no UI surface, or a fresh proof that does not block, or an override.
abbrev pub IsProved : Inputs → Type 0
IsProved i =
    (i.ui_touched ≡ false)
    ⊎ (((t15 i).present ≡ true) × ((t15 i).fresh ≡ true) × ((t15 i).blocking ≡ false))
    ⊎ (truthy i.t15_override ≡ true)

-- The native toolchain does not apply, or it passed.
abbrev pub IsNativeClean : Inputs → Type 0
IsNativeClean i = ((nat i).applicable ≡ false) ⊎ ((nat i).ok ≡ true)

-- The policy: every tier and the human go. Only Tier-1 reds and Tier-1.5 have an override.
abbrev pub MayMerge : Inputs → Type 0
MayMerge i = (i.human_go ≡ true) × (i.tier0.red ≡ 0) × IsNativeClean i × IsReviewed i × IsProved i

tier1_clear : (i : Inputs) → is_empty (tier1_finding i).blockers ≡ true → IsReviewed i
unfolding tier1_finding
tier1_clear i h = ground arith

clear_tier1 : (i : Inputs) → IsReviewed i → is_empty (tier1_finding i).blockers ≡ true
unfolding tier1_finding
clear_tier1 i h = ground arith

t15_clear : (i : Inputs) → is_empty (t15_finding i).blockers ≡ true → IsProved i
unfolding t15_finding
t15_clear i h = ground arith

clear_t15 : (i : Inputs) → IsProved i → is_empty (t15_finding i).blockers ≡ true
unfolding t15_finding
clear_t15 i h = ground arith

pub is_empty-append {ℓ} :
    {A : Type ℓ} (xs ys : List A) → is_empty (xs ++ ys) ≡ (is_empty xs && is_empty ys)
is_empty-append [] ys = refl
is_empty-append (x ∷ xs) ys = refl

-- The gate is green when each tier is.
pub gate_green_lem :
    (i : Inputs)
    → (compose_merge_decision i).gate_green ≡ (
        not (ltb 0 i.tier0.red)
        && (not (native_failing i)
            && (is_empty (tier1_finding i).blockers && is_empty (t15_finding i).blockers)))
unfolding compose_merge_decision
gate_green_lem i = ground (
  arith,
  is_empty-append (only_if (ltb 0 i.tier0.red) (tier0_red i.tier0.red)) (
      only_if (native_failing i) (native_failed (nat i))
      ++ ((tier1_finding i).blockers ++ (t15_finding i).blockers)),
  is_empty-append (only_if (native_failing i) (native_failed (nat i)))
      ((tier1_finding i).blockers ++ (t15_finding i).blockers),
  is_empty-append (tier1_finding i).blockers (t15_finding i).blockers,
)

allow_lem :
    (i : Inputs)
    → (compose_merge_decision i).allow
      ≡ ((compose_merge_decision i).gate_green && (compose_merge_decision i).human_go)
unfolding compose_merge_decision
allow_lem i = refl

human_go_lem : (i : Inputs) → (compose_merge_decision i).human_go ≡ i.human_go
unfolding compose_merge_decision
human_go_lem i = refl

allow_tiers :
    (i : Inputs)
    → (compose_merge_decision i).allow ≡ (
        (not (ltb 0 i.tier0.red)
          && (not (native_failing i)
              && (is_empty (tier1_finding i).blockers && is_empty (t15_finding i).blockers)))
        && i.human_go)
allow_tiers i = cc (allow_lem i, gate_green_lem i, human_go_lem i)

-- A merge is allowed exactly under the policy: the human go, a clean Tier-0, a native toolchain that
-- passed or does not apply, Tier-1 reviewed and Tier-1.5 proved (each as far as the diff asks for
-- it, or lifted by an override with a reason).
pub allow_iff : (i : Inputs) → ((compose_merge_decision i).allow ≡ true) ↔ MayMerge i
allow_iff i = (to, from)
  where
    to : (compose_merge_decision i).allow ≡ true → MayMerge i
    to h = (
      ground (arith, allow_tiers i),
      ground (arith, allow_tiers i),
      ground (arith, allow_tiers i),
      tier1_clear i (ground (arith, allow_tiers i)),
      t15_clear i (ground (arith, allow_tiers i)),
    )

    from : MayMerge i → (compose_merge_decision i).allow ≡ true
    from (go, clean, native, reviewed, proved) =
        ground (arith, allow_tiers i, clear_tier1 i reviewed, clear_t15 i proved)

abbrev pub with_woaw : Inputs → Option WoawStatus → Inputs
with_woaw i w = record i { woaw_status = w }

-- The aesthetic axis never decides: with any woaw status the gate, the permission, the blockers and
-- the offer of a correction are what they are with any other.
pub woaw_advisory_only :
    (i : Inputs) (w : Option WoawStatus)
    → ((compose_merge_decision (with_woaw i w)).allow ≡ (compose_merge_decision i).allow)
      × ((compose_merge_decision (with_woaw i w)).gate_green
          ≡ (compose_merge_decision i).gate_green)
      × ((compose_merge_decision (with_woaw i w)).blockers ≡ (compose_merge_decision i).blockers)
      × ((compose_merge_decision (with_woaw i w)).refixable ≡ (compose_merge_decision i).refixable)
unfolding compose_merge_decision
woaw_advisory_only i w = (refl, refl, refl, refl)
