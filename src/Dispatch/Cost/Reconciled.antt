-- ===== src/Dispatch/Cost/Reconciled.antt =====
-- The reconciliation that the comment of src/forgemaster/dispatch/cost.py promises, count by count.
use forgemaster.Prelude.{
  ℕ, ◌+◌, ◌≡◌, refl, String, Option, none, some, List, [], ◌∷◌, arith, All, Bool-cases, inl, inr,
  subst, ap, ◌∙◌,
}
use forgemaster.Roadmap.Rows.{Store, Project}
use forgemaster.Dispatch.Jobs.{Job, JobKind, task, review, toolchain, fix}
use forgemaster.Dispatch.Cost.{
  StepCost, FeatureCost, or_blank, add_step, charge_kind, charge, is_step, fresh_step, charge_step,
  is_feature, fresh_feature, charge_feature, Spent, is_nonwork, on_row, spend, spent_on, cost_of,
  with_interview, ProjectCost, costs, project_cost, cost_outcome,
}
use forgemaster.Dispatch.Cost.Rows.{Doubles, Row, Acc, blank_acc, add_row, rows_of}
use forgemaster.Dispatch.Cost.Interview.{Home, InterviewCost}
use forgemaster.Dispatch.Cost.Counts.{
  Count, input, output, cache_read, cache_creation, tokens, n_jobs, count, worth, interview_worth,
  sum, sum-upsert, All-upsert, count-add_row, count-blank,
}

-- A feature is its steps and its fix.
abbrev pub IsSplit : Count → FeatureCost → Type 0
IsSplit k f =
    count k f.acc ≡ sum (λ s. count k (StepCost.acc s)) f.steps + count k (or_blank f.fix_cost)

sum-add_step :
    (floats : Doubles) (k : Count) (r : Row) (steps : List StepCost)
    → sum (λ s. count k (StepCost.acc s)) (add_step floats r steps)
      ≡ sum (λ s. count k (StepCost.acc s)) steps + worth k r
unfolding add_step
sum-add_step floats k r steps =
    sum-upsert (λ s. count k (StepCost.acc s)) (is_step r) (fresh_step r) (charge_step floats r)
      (worth k r) steps (count-blank k) (λ s. count-add_row floats k r s.acc)

-- Whatever its kind, a job leaves the count of the feature, and adds to its parts.
module _ (floats : Doubles) (k : Count) (r : Row) where
  charge_kind-acc : (kind : JobKind) (f : FeatureCost) → (charge_kind floats r kind f).acc ≡ f.acc
  unfolding charge_kind
  charge_kind-acc task f = refl
  charge_kind-acc review f = refl
  charge_kind-acc toolchain f = refl
  charge_kind-acc fix f = refl

  abbrev parts : FeatureCost → ℕ
  parts f = sum (λ s. count k (StepCost.acc s)) f.steps + count k (or_blank f.fix_cost)

  charge_kind-parts :
      (kind : JobKind) (f : FeatureCost) → parts (charge_kind floats r kind f) ≡ parts f + worth k r
  unfolding charge_kind
  charge_kind-parts task f = omega (arith, sum-add_step floats k r f.steps)
  charge_kind-parts review f = omega (arith, sum-add_step floats k r f.steps)
  charge_kind-parts toolchain f = omega (arith, sum-add_step floats k r f.steps)
  charge_kind-parts fix f = omega (arith, count-add_row floats k r (or_blank f.fix_cost))

  count-charge : (f : FeatureCost) → count k (charge floats r f).acc ≡ count k f.acc + worth k r
  count-charge f =
      let f' : FeatureCost = record f { acc = add_row floats r f.acc } in
      ap (count k) (charge_kind-acc r.job.kind f') ∙ count-add_row floats k r f.acc

  charge-IsSplit : (f : FeatureCost) → IsSplit k f → IsSplit k (charge floats r f)
  charge-IsSplit f h =
      let f' : FeatureCost = record f { acc = add_row floats r f.acc } in
      omega (arith, h, count-charge f, charge_kind-parts r.job.kind f')

sum-charge_feature :
    (floats : Doubles) (k : Count) (r : Row) (fs : List FeatureCost)
    → sum (λ f. count k (FeatureCost.acc f)) (charge_feature floats r fs)
      ≡ sum (λ f. count k (FeatureCost.acc f)) fs + worth k r
unfolding charge_feature
sum-charge_feature floats k r fs =
    sum-upsert (λ f. count k (FeatureCost.acc f)) (is_feature r) (fresh_feature r) (charge floats r)
      (worth k r) fs (count-blank k) (λ f. count-charge floats k r f)

charge_feature-IsSplit :
    (floats : Doubles) (k : Count) (r : Row) (fs : List FeatureCost)
    → All (IsSplit k) fs
    → All (IsSplit k) (charge_feature floats r fs)
unfolding charge_feature sum
charge_feature-IsSplit floats k r fs h =
    All-upsert (IsSplit k) (is_feature r) (fresh_feature r) (charge floats r) fs
      (omega (arith, count-blank k)) (λ f. charge-IsSplit floats k r f) h

-- The total is the features and the overhead, and each feature is its parts.
abbrev pub IsReconciled : Count → Spent → Type 0
IsReconciled k s =
    (count k s.total ≡ sum (λ f. count k (FeatureCost.acc f)) s.features + count k s.nonwork)
    × All (IsSplit k) s.features

on_row-IsReconciled :
    (floats : Doubles) (k : Count) (r : Row) (s : Spent)
    → IsReconciled k s
    → IsReconciled k (on_row floats r s)
      × (count k (on_row floats r s).total ≡ count k s.total + worth k r)
unfolding on_row
on_row-IsReconciled floats k r s h = elim (Bool-cases (is_nonwork r.job.kind)) [
  | inl e ↦ rw e (
    (omega (arith, h.0, count-add_row floats k r s.total, count-add_row floats k r s.nonwork), h.1),
    count-add_row floats k r s.total,
  )
  | inr e ↦ rw e (
    (
      omega
          (arith, h.0, count-add_row floats k r s.total, sum-charge_feature floats k r s.features),
      charge_feature-IsSplit floats k r s.features h.1,
    ),
    count-add_row floats k r s.total,
  )
]

spend-IsReconciled :
    (floats : Doubles) (k : Count) (rows : List Row) (s : Spent)
    → IsReconciled k s
    → IsReconciled k (spend floats rows s)
      × (count k (spend floats rows s).total ≡ count k s.total + sum (worth k) rows)
unfolding spend sum
spend-IsReconciled floats k [] s h = (h, omega arith)
spend-IsReconciled floats k (r ∷ rs) s h =
    let first = on_row-IsReconciled floats k r s h in
    let rest = spend-IsReconciled floats k rs (on_row floats r s) first.0 in
    (rest.0, omega (arith, first.1, rest.1))

count-with_interview :
    (k : Count) (i : Option InterviewCost) (acc : Acc)
    → count k (with_interview i acc) ≡ count k acc + interview_worth k i
count-with_interview k none acc = omega arith
count-with_interview input (some i) acc = refl
count-with_interview output (some i) acc = refl
count-with_interview cache_read (some i) acc = refl
count-with_interview cache_creation (some i) acc = refl
count-with_interview tokens (some i) acc = refl
count-with_interview n_jobs (some i) acc = omega arith

-- What the costs of a project promise of a count.
pub record IsExact (k : Count) (rows : List Row) (c : ProjectCost) : Type 0 where
  pub rows_in_total : count k c.total ≡ sum (worth k) rows + interview_worth k c.interview
  pub total_in_parts :
      count k c.total
      ≡ sum (λ f. count k (FeatureCost.acc f)) c.features
        + count k c.nonwork
        + interview_worth k c.interview
  pub features_in_parts : All (IsSplit k) c.features

cost_of-IsExact :
    (floats : Doubles) (slug : String) (k : Count) (rows : List Row) (i : Option InterviewCost)
    → IsExact k rows (cost_of floats slug (spent_on floats rows) i)
unfolding sum
cost_of-IsExact floats slug k rows i =
    let empty : Spent = record {
      total = blank_acc;
      nonwork = blank_acc;
      model_cost = [];
      features = [];
    } in
    let s = spend-IsReconciled floats k rows empty (omega (arith, count-blank k), tt) in
    let interview = count-with_interview k i (spend floats rows empty).total in
    record {
      rows_in_total = omega (arith, s.1, interview, count-blank k);
      total_in_parts = omega (arith, s.0.0, interview);
      features_in_parts = s.0.1;
    }

cost_outcome-IsExact :
    (floats : Doubles) (slug : String) (k : Count) (rows : List Row) (p : Option Project)
    (i : Option (Option InterviewCost)) (c : ProjectCost)
    → cost_outcome floats slug (spent_on floats rows) p i ≡ costs c
    → IsExact k rows c
cost_outcome-IsExact floats slug k rows none i c h = absurd (cc)
cost_outcome-IsExact floats slug k rows (some p) none c h = absurd (cc)
cost_outcome-IsExact floats slug k rows (some p) (some i) c h =
    let same : cost_of floats slug (spent_on floats rows) i ≡ c = cc in
    subst (IsExact k rows) same (cost_of-IsExact floats slug k rows i)

-- The costs of a project are exact in each kind of token and in the number of jobs: the total is the
-- sum over the jobs of the project, with the tokens of its interviews; it is the features, the
-- reviews and the toolchain together, with the interviews; and each feature is its steps with its fix.
pub project_cost-IsExact :
    (floats : Doubles) (home : Home) (db : Store) (jobs : List Job) (slug : String)
    (c : ProjectCost) (k : Count)
    → project_cost floats home db jobs slug ≡ costs c
    → IsExact k (rows_of db slug jobs) c
unfolding project_cost
project_cost-IsExact floats home db jobs slug c k h =
    cost_outcome-IsExact floats slug k (rows_of db slug jobs) _ _ c h
