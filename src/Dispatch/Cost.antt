-- ===== src/Dispatch/Cost.antt =====
-- src/forgemaster/dispatch/cost.py: what a project has spent, by step, by feature and together.
--
-- A cost in dollars is the number that encodes a double, 0 for 0.0; the addition and the order of
-- doubles are parameters. `KeyError` and an `AttributeError` are outcomes.
pub mod Rows
pub mod Interview
pub mod Counts
pub mod Reconciled
use forgemaster.Prelude.{
  ℕ, suc, ◌+◌, String, Bool, true, false, Option, none, some, List, [], ◌∷◌, length, str_eq,
  if◌then◌else◌, select_one,
}
use forgemaster.Roadmap.Rows.{Store, Project, Feature, Task, order_by_slug}
use forgemaster.Dispatch.Jobs.{Job, JobKind, task, review, toolchain, fix}
use forgemaster.Dispatch.Cost.Interview.{Home, InterviewCost, interview_cost}
use forgemaster.Dispatch.Cost.Rows.{Doubles, Row, Acc, blank_acc, or_zero, add_row, upsert, rows_of}

pub record StepCost : Type 0 where
  pub task_slug : String
  pub acc : Acc

pub record FeatureCost : Type 0 where
  pub slug : String
  pub acc : Acc
  pub steps : List StepCost
  pub fix_cost : Option Acc

abbrev pub or_blank : Option Acc → Acc
or_blank none = blank_acc
or_blank (some acc) = acc

abbrev pub is_step : Row → StepCost → Bool
is_step r s = str_eq s.task_slug r.task_slug

abbrev pub fresh_step : Row → StepCost
fresh_step r = record { task_slug = r.task_slug; acc = blank_acc }

abbrev pub charge_step : Doubles → Row → StepCost → StepCost
charge_step floats r s = record s { acc = add_row floats r s.acc }

unfoldable pub add_step : Doubles → Row → List StepCost → List StepCost
unfolding upsert add_row
add_step floats r steps = upsert (is_step r) (fresh_step r) (charge_step floats r) steps

-- What a job of a kind adds: to the fix of the feature, or to a step of work.
unfoldable pub charge_kind : Doubles → Row → JobKind → FeatureCost → FeatureCost
unfolding add_row add_step
charge_kind floats r fix f = record f { fix_cost = some (add_row floats r (or_blank f.fix_cost)) }
charge_kind floats r _ f = record f { steps = add_step floats r f.steps }

abbrev pub charge : Doubles → Row → FeatureCost → FeatureCost
charge floats r f = charge_kind floats r r.job.kind (record f { acc = add_row floats r f.acc })

abbrev pub is_feature : Row → FeatureCost → Bool
is_feature r f = str_eq f.slug r.feature

abbrev pub fresh_feature : Row → FeatureCost
fresh_feature r = record { slug = r.feature; acc = blank_acc; steps = []; fix_cost = none }

unfoldable pub charge_feature : Doubles → Row → List FeatureCost → List FeatureCost
unfolding upsert add_row charge_kind
charge_feature floats r fs = upsert (is_feature r) (fresh_feature r) (charge floats r) fs

-- `model_cost[m] = model_cost.get(m, 0.0) + …`, for a model that has a name
unfoldable pub add_model : Doubles → Job → List (String × ℕ) → List (String × ℕ)
unfolding upsert
add_model floats j models = elim j.usage.model [
  | none ↦ models
  | some m ↦
      if str_eq m ""
      then models
      else upsert (λ e. str_eq (e.0) m) (m, 0)
          (λ e. (e.0, floats.plus (e.1) (or_zero j.usage.cost))) models
]

-- The locals of the loop of `project_cost`.
pub record Spent : Type 0 where
  pub total : Acc
  pub nonwork : Acc
  pub model_cost : List (String × ℕ)
  pub features : List FeatureCost

-- `kind in _NONWORK_KINDS`
abbrev pub is_nonwork : JobKind → Bool
is_nonwork review = true
is_nonwork toolchain = true
is_nonwork _ = false

unfoldable pub on_row : Doubles → Row → Spent → Spent
unfolding add_row charge_feature add_model
on_row floats r s =
    let s' = record s {
      total = add_row floats r s.total;
      model_cost = add_model floats r.job s.model_cost;
    } in
    if is_nonwork r.job.kind
    then record s' { nonwork = add_row floats r s.nonwork }
    else record s' { features = charge_feature floats r s.features }

unfoldable pub spend : Doubles → List Row → Spent → Spent
unfolding on_row
spend floats [] s = s
spend floats (r ∷ rs) s = spend floats rs (on_row floats r s)

-- `max(model_cost, key=…)`, the first of the dearest; None without a model
unfoldable pub dearest : Doubles → Option (String × ℕ) → List (String × ℕ) → Option String
dearest floats none [] = none
dearest floats (some best) [] = some best.0
dearest floats none (e ∷ es) = dearest floats (some e) es
dearest floats (some best) (e ∷ es) =
    dearest floats (some (if floats.above e.1 best.1 then e else best)) es

-- The tokens of the interview go into the total, which keeps its dollars and its jobs.
abbrev pub with_interview : Option InterviewCost → Acc → Acc
with_interview none acc = acc
with_interview (some i) acc = record acc {
  input = acc.input + i.input;
  output = acc.output + i.output;
  cache_read = acc.cache_read + i.cache_read;
  cache_creation = acc.cache_creation + i.cache_creation;
  tokens = acc.tokens + i.tokens;
}

pub record ProjectCost : Type 0 where
  pub project : String
  pub total : Acc
  pub model : Option String
  pub n_models : ℕ
  pub features : List FeatureCost
  pub nonwork : Acc
  pub interview : Option InterviewCost

pub data CostResult : Type 0 where
  costs : ProjectCost → CostResult
  unknown_project : CostResult
  attribute_error : CostResult

abbrev pub spent_on : Doubles → List Row → Spent
spent_on floats rows =
    spend floats rows
      (record { total = blank_acc; nonwork = blank_acc; model_cost = []; features = [] })

abbrev pub cost_of : Doubles → String → Spent → Option InterviewCost → ProjectCost
cost_of floats slug s interview = record {
  project = slug;
  total = with_interview interview s.total;
  model = dearest floats none s.model_cost;
  n_models = length s.model_cost;
  features = s.features;
  nonwork = s.nonwork;
  interview = interview;
}

-- The `KeyError` of a slug without a project, an exception of the interviews, or the costs.
abbrev pub cost_outcome :
    Doubles → String → Spent → Option Project → Option (Option InterviewCost) → CostResult
cost_outcome floats slug s none interview = unknown_project
cost_outcome floats slug s (some project) none = attribute_error
cost_outcome floats slug s (some project) (some interview) = costs (cost_of floats slug s interview)

unfoldable pub project_cost : Doubles → Home → Store → List Job → String → CostResult
unfolding spend dearest rows_of interview_cost
project_cost floats home db jobs slug =
    cost_outcome floats slug (spent_on floats (rows_of db slug jobs))
      (select_one (λ p. str_eq p.slug slug) db.projects) (interview_cost home slug)
