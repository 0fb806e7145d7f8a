-- ===== src/Db/Outcomes/Reliability.antt =====
-- src/forgemaster/db/merge_outcomes.py: _tally, _open_blockers and reliability.
--
-- `round(a / b, 4)` is the parameter `ratio`, whose numbers encode doubles.
use forgemaster.Prelude.{
  ℕ, ◌+◌, ◌-◌, String, Bool, true, false, ◌&&◌, Option, none, some, List, [], ◌∷◌, ◌++◌, any,
  str_eq, ltb, ◌==◌, if◌then◌else◌, select, length,
}
use forgemaster.Prelude.Text.{codes, text_eq}
use forgemaster.Roadmap.Rows.{Store, text_leb}
use forgemaster.Dispatch.Jobs.{Job}
use forgemaster.Dispatch.Cost.Rows.{upsert}
use forgemaster.Db.Alerts.{Alert, gate_red, kind_eq, is_open}
use forgemaster.Db.Outcomes.{Mark, reverted, refixed, GreenMerge, MergeView, list_outcomes}

abbrev pub reverted_mark : Mark → Bool
reverted_mark reverted = true
reverted_mark _ = false

abbrev pub refixed_mark : Mark → Bool
refixed_mark refixed = true
refixed_mark _ = false

abbrev pub is_reverted : MergeView → Bool
is_reverted v = reverted_mark v.merge.outcome

abbrev pub is_refixed : MergeView → Bool
is_refixed v = refixed_mark v.merge.outcome

pub record Tally : Type 0 where
  pub n_merges : ℕ
  pub n_reverted : ℕ
  pub n_refixed : ℕ
  pub n_adverse : ℕ
  pub n_held : ℕ
  pub n_marked : ℕ
  pub provisional : Bool
  pub taux : Option ℕ

unfoldable pub tally : (ℕ → ℕ → ℕ) → List MergeView → Tally
tally ratio entries =
    let n = length entries in
    let n_reverted = length (select is_reverted entries) in
    let n_refixed = length (select is_refixed entries) in
    let n_adverse = n_reverted + n_refixed in
    record {
      n_merges = n;
      n_reverted = n_reverted;
      n_refixed = n_refixed;
      n_adverse = n_adverse;
      n_held = n - n_adverse;
      n_marked = n_adverse;
      provisional = ltb 0 n && n_adverse == 0;
      taux = if n == 0 then none else some (ratio (n - n_adverse) n);
    }

-- ORDER BY created_at DESC, id DESC
abbrev pub is_later_alert : Alert → Alert → Bool
is_later_alert a b =
    if text_eq (codes a.created_at) (codes b.created_at)
    then text_leb (codes b.id) (codes a.id)
    else text_leb (codes b.created_at) (codes a.created_at)

unfoldable pub put_later : Alert → List Alert → List Alert
put_later a [] = a ∷ []
put_later a (b ∷ bs) =
    let rest = put_later a bs in if is_later_alert a b then a ∷ (b ∷ bs) else b ∷ rest

unfoldable pub latest_first : List Alert → List Alert
unfolding put_later
latest_first [] = []
latest_first (a ∷ rest) = put_later a (latest_first rest)

-- `_open_blockers`: the rows, of which the code gives three columns; the table may be missing.
unfoldable pub open_blockers : Option (List Alert) → String → List Alert
unfolding latest_first
open_blockers none project = []
open_blockers (some alerts) project =
    latest_first (
      select (λ a. str_eq a.project project && (kind_eq a.kind gate_red && is_open a.status))
        alerts)

-- `by_project`, in the order of the first merges
abbrev pub group_entry : MergeView → List (String × List MergeView) → List (String × List MergeView)
group_entry v groups =
    upsert (λ g. str_eq (g.0) v.merge.project) (v.merge.project, []) (λ g. (g.0, g.1 ++ v ∷ []))
      groups

unfoldable pub grouped :
    List MergeView → List (String × List MergeView) → List (String × List MergeView)
unfolding upsert
grouped [] groups = groups
grouped (v ∷ vs) groups = grouped vs (group_entry v groups)

pub record ProjectTally : Type 0 where
  pub project : String
  pub counts : Tally
  pub n_blocked_open : ℕ

abbrev pub project_tallies :
    (ℕ → ℕ → ℕ) → Option (List Alert) → List (String × List MergeView) → List ProjectTally
project_tallies ratio alerts [] = []
project_tallies ratio alerts ((p, vs) ∷ groups) =
    record {
      project = p;
      counts = tally ratio vs;
      n_blocked_open = length (open_blockers alerts p);
    }
    ∷ project_tallies ratio alerts groups

abbrev pub blocked_in : List ProjectTally → ℕ
blocked_in [] = 0
blocked_in (p ∷ ps) = p.n_blocked_open + blocked_in ps

pub record ProjectReliability : Type 0 where
  pub project : String
  pub counts : Tally
  pub n_blocked_open : ℕ
  pub blocked_features : List Alert
  pub features : List MergeView

pub record GlobalReliability : Type 0 where
  pub counts : Tally
  pub n_blocked_open : ℕ
  pub projects : List ProjectTally

pub data ReliabilityResult : Type 0 where
  of_one : ProjectReliability → ReliabilityResult
  of_all : GlobalReliability → ReliabilityResult
  no_project : ReliabilityResult

abbrev pub global_of : (ℕ → ℕ → ℕ) → Option (List Alert) → List MergeView → GlobalReliability
global_of ratio alerts entries =
    let projects = project_tallies ratio alerts (grouped entries []) in
    record {
      counts = tally ratio entries;
      n_blocked_open = blocked_in projects;
      projects = projects;
    }

unfoldable pub reliability :
    (ℕ → ℕ → ℕ)
    → Store
    → List Job
    → Option (List Alert)
    → List GreenMerge
    → Option String
    → ReliabilityResult
unfolding list_outcomes grouped tally open_blockers
reliability ratio db jobs alerts rows none =
    of_all (global_of ratio alerts (list_outcomes db jobs none rows))
reliability ratio db jobs alerts rows (some slug) =
    let entries = list_outcomes db jobs (some slug) rows in
    let blocked = open_blockers alerts slug in
    if any (λ p. str_eq p.slug slug) db.projects
    then of_one (record {
      project = slug;
      counts = tally ratio entries;
      n_blocked_open = length blocked;
      blocked_features = blocked;
      features = entries;
    })
    else no_project
