-- ===== src/Db/Outcomes/Totals.antt =====
-- The counts of all projects and of each, of `reliability` of src/forgemaster/db/merge_outcomes.py.
use forgemaster.Prelude.{
  ℕ, ◌+◌, ◌≡◌, ◌≤◌, refl, String, Bool, false, Option, none, List, [], ◌∷◌, ◌++◌, arith, select,
  length, length-append, str_eq, ap, ◌&&◌, subst,
}
use forgemaster.Roadmap.Rows.{Store}
use forgemaster.Dispatch.Jobs.{Job}
use forgemaster.Dispatch.Cost.Counts.{sum, sum-upsert}
use forgemaster.Db.Alerts.{Alert}
use forgemaster.Db.Outcomes.{Mark, GreenMerge, MergeView, list_outcomes, held, reverted, refixed}
use forgemaster.Db.Outcomes.Reliability.{
  is_reverted, is_refixed, reverted_mark, refixed_mark, Tally, tally, group_entry, grouped,
  ProjectTally, project_tallies, global_of, GlobalReliability, of_all, reliability,
}

length-select_append :
    (p : MergeView → Bool) (xs ys : List MergeView)
    → length (select p (xs ++ ys)) ≡ length (select p xs) + length (select p ys)
unfolding select
length-select_append p [] ys = omega arith
length-select_append p (x ∷ xs) ys = ground (arith, length-select_append p xs ys)

-- A measure that adds up, such as a count of the entries that a test takes.
module _ (m : List MergeView → ℕ) (m-nil : m [] ≡ 0)
    (m-append : (xs ys : List MergeView) → m (xs ++ ys) ≡ m xs + m ys) where
  -- The groups together have the entries, whatever their order.
  sum-grouped :
      (vs : List MergeView) (groups : List (String × List MergeView))
      → sum (λ g. m (g.1)) (grouped vs groups) ≡ sum (λ g. m (g.1)) groups + m vs
  unfolding grouped
  sum-grouped [] groups = omega (arith, m-nil)
  sum-grouped (v ∷ vs) groups =
      let first =
        sum-upsert (λ g. m (g.1)) (λ g. str_eq (g.0) v.merge.project) (v.merge.project, [])
          (λ g. (g.0, g.1 ++ v ∷ [])) (m (v ∷ [])) groups m-nil (λ g. m-append (g.1) (v ∷ [])) in
      omega (arith, first, sum-grouped vs (group_entry v groups), m-append (v ∷ []) vs)

-- The groups of one project, each as its tally.
module _ (ratio : ℕ → ℕ → ℕ) (alerts : Option (List Alert)) where
  sum-project_tallies :
      (m : Tally → ℕ) (groups : List (String × List MergeView))
      → sum (λ p. m (ProjectTally.counts p)) (project_tallies ratio alerts groups)
        ≡ sum (λ g. m (tally ratio g.1)) groups
  unfolding sum
  sum-project_tallies m [] = refl
  sum-project_tallies m ((p, vs) ∷ groups) =
      ap (λ n. m (tally ratio vs) + n) (sum-project_tallies m groups)

one_mark : (m : Mark) → (reverted_mark m && refixed_mark m) ≡ false
one_mark held = refl
one_mark reverted = refl
one_mark refixed = refl

adverse_le :
    (vs : List MergeView)
    → length (select is_reverted vs) + length (select is_refixed vs) ≤ length vs
unfolding select
adverse_le [] = omega arith
adverse_le (v ∷ vs) = ground (arith, one_mark v.merge.outcome, adverse_le vs)

-- Every merge counts once: it held, it was reverted or it was fixed again.
tally-partition :
    (ratio : ℕ → ℕ → ℕ) (vs : List MergeView)
    → (tally ratio vs).n_held + (tally ratio vs).n_reverted + (tally ratio vs).n_refixed
      ≡ (tally ratio vs).n_merges
unfolding tally
tally-partition ratio vs = omega (arith, adverse_le vs)

-- What the counts of all projects owe to the counts of each.
pub record IsTotal (g : GlobalReliability) : Type 0 where
  pub merges : g.counts.n_merges ≡ sum (λ p. Tally.n_merges (ProjectTally.counts p)) g.projects
  pub reverts : g.counts.n_reverted ≡ sum (λ p. Tally.n_reverted (ProjectTally.counts p)) g.projects
  pub refixes : g.counts.n_refixed ≡ sum (λ p. Tally.n_refixed (ProjectTally.counts p)) g.projects
  pub parts : g.counts.n_held + g.counts.n_reverted + g.counts.n_refixed ≡ g.counts.n_merges

global_of-IsTotal :
    (ratio : ℕ → ℕ → ℕ) (alerts : Option (List Alert)) (vs : List MergeView)
    → IsTotal (global_of ratio alerts vs)
unfolding tally sum select
global_of-IsTotal ratio alerts vs =
    let groups = grouped vs [] in
    record {
      merges = omega (
        arith,
        sum-grouped length refl length-append vs [],
        sum-project_tallies ratio alerts (λ t. t.n_merges) groups,
      );
      reverts = omega (
        arith,
        sum-grouped (λ xs. length (select is_reverted xs)) refl (length-select_append is_reverted)
            vs [],
        sum-project_tallies ratio alerts (λ t. t.n_reverted) groups,
      );
      refixes = omega (
        arith,
        sum-grouped (λ xs. length (select is_refixed xs)) refl (length-select_append is_refixed) vs
            [],
        sum-project_tallies ratio alerts (λ t. t.n_refixed) groups,
      );
      parts = tally-partition ratio vs;
    }

-- The counts of all projects are the sums of the counts of each, in merges, in reverts and in fixes
-- again, and each merge is one that held, one reverted or one fixed again.
pub reliability-IsTotal :
    (ratio : ℕ → ℕ → ℕ) (db : Store) (jobs : List Job) (alerts : Option (List Alert))
    (rows : List GreenMerge) (g : GlobalReliability)
    → reliability ratio db jobs alerts rows none ≡ of_all g
    → IsTotal g
unfolding reliability
reliability-IsTotal ratio db jobs alerts rows g h =
    let same : global_of ratio alerts (list_outcomes db jobs none rows) ≡ g = cc in
    subst IsTotal same (global_of-IsTotal ratio alerts (list_outcomes db jobs none rows))
