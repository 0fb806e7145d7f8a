-- ===== src/Dispatch/Orchestrator/Single.antt =====
-- `run_feature` of the orchestrator: one feature, one worker at a time, until it is drained or a run is
-- not fine.
use forgemaster.Prelude.{
  String, Bool, true, false, not, ◌&&◌, Option, none, some, List, [], ◌∷◌, ◌++◌, str_eq,
  if◌then◌else◌,
}
use forgemaster.Roadmap.Rows.{
  Feature, FeatureStatus, merged, Task, Store, Result, returned, value_error, key_error,
}
use forgemaster.Roadmap.Resolver.{Record, State, index_for_feature, resolve_next}
use forgemaster.Dispatch.Orchestrator.{Report}
use forgemaster.Dispatch.Orchestrator.Summary.{Sets}

-- What a pass of the loop meets: the sentinel, the store, and the report of the run if it makes one.
pub record Pass : Type 0 where
  pub abort_requested : Bool
  pub store : Store
  pub report : Report

-- How the loop ends; `open_end` is a run that is still going after the passes given.
pub data LoopEnd : Type 0 where
  drained aborted raised stopped open_end : List Report → LoopEnd

abbrev pub is_merged : FeatureStatus → Bool
is_merged merged = true
is_merged _ = false

-- `socle is not None and socle["status"] != "merged" and feature != socle["slug"]`
abbrev pub held_by : Option Feature → String → Bool
held_by none feature = false
held_by (some socle) feature = not (is_merged socle.status) && not (str_eq feature socle.slug)

-- `not index or resolve_next(index) is None`
abbrev pub is_none {ℓ} : {A : Type ℓ} → Option A → Bool
is_none none = true
is_none (some a) = false

module _ (tm_classify : List Record → String → State) (rank_ready : List Record → List String) where
  abbrev pub nothing_ready : List Task → Bool
  nothing_ready [] = true
  nothing_ready (t ∷ ts) = is_none (resolve_next tm_classify rank_ready (t ∷ ts))

  abbrev pub after_index : Result (List Task) → List Report → LoopEnd → LoopEnd
  after_index (returned index) reports go = if nothing_ready index then drained reports else go
  after_index value_error reports go = raised reports
  after_index key_error reports go = raised reports

  unfoldable pub feature_loop : String → List Pass → List Report → LoopEnd
  unfolding index_for_feature resolve_next
  feature_loop ref [] reports = open_end reports
  feature_loop ref (pass ∷ passes) reports =
      let rest = feature_loop ref passes (reports ++ pass.report ∷ []) in
      let run = if pass.report.ok then rest else stopped (reports ++ pass.report ∷ []) in
      if pass.abort_requested
      then aborted reports
      else after_index (index_for_feature tm_classify rank_ready pass.store ref) reports run

abbrev pub reports_of : LoopEnd → List Report
reports_of (drained rs) = rs
reports_of (aborted rs) = rs
reports_of (raised rs) = rs
reports_of (stopped rs) = rs
reports_of (open_end rs) = rs

abbrev pub last_of : List Report → Option Report
last_of [] = none
last_of (r ∷ []) = some r
last_of (r ∷ (x ∷ rs)) = last_of (x ∷ rs)

-- `{feature} if flag else set()`
abbrev pub only : Bool → String → List String
only true feature = feature ∷ []
only false feature = []

abbrev pub last_sets : String → Option Report → Sets
last_sets feature none = record {
  drained_set = [];
  failed_set = [];
  interview_set = [];
  held_set = [];
  rate_set = [];
  interrupted_set = [];
}
last_sets feature (some r) = record {
  drained_set = [];
  failed_set =
      only (not r.ok && (not r.needs_terminal && (not r.is_rate_limited && not r.is_interrupted)))
        feature;
  interview_set = only r.needs_terminal feature;
  held_set = [];
  rate_set = only r.is_rate_limited feature;
  interrupted_set = only r.is_interrupted feature;
}

-- The sets that `run_feature` makes of the last report.
unfoldable pub feature_sets : String → List Report → Sets
feature_sets feature reports = last_sets feature (last_of reports)
