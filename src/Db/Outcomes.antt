-- ===== src/Db/Outcomes.antt =====
-- src/forgemaster/db/merge_outcomes.py: the journal of the green merges, its marks and its reads.
--
-- The table is the list of its rows, with the unique index ux_merge_outcome. The id and the times that a
-- call generates are arguments; `reachable` says whether SQLite accepts the statement.
pub mod Reliability
pub mod Journal
pub mod Totals
use forgemaster.Prelude.{
  String, Bool, true, false, not, ◌&&◌, ◌||◌, Option, none, some, List, [], ◌∷◌, ◌++◌, any, str_eq,
  truthy, if◌then◌else◌, select, select_one, update,
}
use forgemaster.Prelude.Text.{codes, text_eq}
use forgemaster.Roadmap.Rows.{Store, text_leb}
use forgemaster.Dispatch.Jobs.{Job}
use forgemaster.Dispatch.Cost.Rows.{Row, joined}

pub data Mark : Type 0 where
  held reverted refixed : Mark

pub record GreenMerge : Type 0 where
  pub id : String
  pub project : String
  pub feature : String
  pub feature_ref : String
  pub sha : String
  pub human_go : Bool
  pub outcome : Mark
  pub note : Option String
  pub merged_at : String
  pub updated_at : String
  pub marked_at : Option String

-- The key of ux_merge_outcome, or the primary key.
abbrev pub same_merge : GreenMerge → GreenMerge → Bool
same_merge a b = str_eq a.project b.project && (str_eq a.feature b.feature && str_eq a.sha b.sha)

abbrev pub collides : GreenMerge → GreenMerge → Bool
collides a b = str_eq a.id b.id || same_merge a b

-- The arguments of `record_merge`, with the id that it generates and its time.
pub record MergeArgs : Type 0 where
  pub new_id : String
  pub project : String
  pub feature : String
  pub feature_ref : String
  pub sha : String
  pub human_go : Bool
  pub ts : String

-- the VALUES of the INSERT
abbrev pub merge_row : MergeArgs → GreenMerge
merge_row m = record {
  id = m.new_id;
  project = m.project;
  feature = m.feature;
  feature_ref = m.feature_ref;
  sha = m.sha;
  human_go = m.human_go;
  outcome = held;
  note = none;
  merged_at = m.ts;
  updated_at = m.ts;
  marked_at = none;
}

-- INSERT OR IGNORE; an sqlite3.Error is swallowed.
unfoldable pub record_merge : Bool → MergeArgs → List GreenMerge → List GreenMerge
record_merge reachable m rows =
    if not reachable || any (λ r. collides r (merge_row m)) rows
    then rows
    else rows ++ merge_row m ∷ []

-- ORDER BY merged_at DESC, id DESC
abbrev pub is_newer : GreenMerge → GreenMerge → Bool
is_newer a b =
    if text_eq (codes a.merged_at) (codes b.merged_at)
    then text_leb (codes b.id) (codes a.id)
    else text_leb (codes b.merged_at) (codes a.merged_at)

unfoldable pub put_newest : GreenMerge → List GreenMerge → List GreenMerge
put_newest m [] = m ∷ []
put_newest m (r ∷ rs) =
    let rest = put_newest m rs in if is_newer m r then m ∷ (r ∷ rs) else r ∷ rest

unfoldable pub newest_first : List GreenMerge → List GreenMerge
unfolding put_newest
newest_first [] = []
newest_first (r ∷ rs) = put_newest r (newest_first rs)

-- LIMIT 1
abbrev pub first_row : List GreenMerge → Option GreenMerge
first_row [] = none
first_row (r ∷ rs) = some r

-- `outcome in _OUTCOMES`
abbrev pub outcome_named : String → Option Mark
outcome_named word =
    if str_eq word "held"
    then some held
    else if str_eq word "reverted"
    then some reverted
    else if str_eq word "refixed"
    then some refixed
    else none

abbrev pub is_adverse : Mark → Bool
is_adverse held = false
is_adverse _ = true

-- A job of the feature that started after the merge: the mark that the view suggests.
unfoldable pub suggested : Store → List Job → GreenMerge → Option Mark
unfolding joined
suggested db jobs m =
    if any
      (λ r.
        str_eq r.feature m.feature
        && not (text_leb (codes (Job.started_at (Row.job r))) (codes m.merged_at)))
      (joined db m.project jobs)
    then some refixed
    else none

-- `_row_view`
pub record MergeView : Type 0 where
  pub merge : GreenMerge
  pub suggestion : Option Mark

abbrev pub suggest : Store → List Job → Mark → GreenMerge → Option Mark
suggest db jobs held m = suggested db jobs m
suggest db jobs _ m = none

abbrev pub row_view : Store → List Job → GreenMerge → MergeView
row_view db jobs m = record { merge = m; suggestion = suggest db jobs m.outcome m }

pub data MarkResult : Type 0 where
  marked : MergeView → MarkResult
  value_error key_error : MarkResult

-- `project = ? AND feature = ?`, `AND sha = ?` when a SHA is given
abbrev pub is_mark_target : String → String → Option String → GreenMerge → Bool
is_mark_target project feature none r = str_eq r.project project && str_eq r.feature feature
is_mark_target project feature (some sha) r =
    str_eq r.project project && (str_eq r.feature feature && (not (truthy sha) || str_eq r.sha sha))

abbrev pub mark_row : Mark → Option String → String → GreenMerge → GreenMerge
mark_row outcome remark ts r = record r {
  outcome = outcome;
  note = remark;
  marked_at = if is_adverse outcome then some ts else none;
  updated_at = ts;
}

abbrev pub read_back : Store → List Job → Option GreenMerge → MarkResult
read_back db jobs none = key_error
read_back db jobs (some r) = marked (row_view db jobs r)

-- The UPDATE by the id of the row that was found, and its read.
abbrev pub mark_found :
    Store
    → List Job
    → Mark
    → Option String
    → String
    → Option GreenMerge
    → List GreenMerge
    → MarkResult × List GreenMerge
mark_found db jobs outcome remark ts none rows = (key_error, rows)
mark_found db jobs outcome remark ts (some target) rows =
    let rows' = update (λ r. str_eq r.id target.id) (mark_row outcome remark ts) rows in
    (read_back db jobs (select_one (λ r. str_eq r.id target.id) rows'), rows')

-- The arguments of `mark_outcome`, with its time.
pub record MarkArgs : Type 0 where
  pub project : String
  pub feature : String
  pub outcome : String
  pub sha : Option String
  pub note : Option String
  pub ts : String

-- The `ValueError` of another word, before any read.
abbrev pub mark_named :
    Store
    → List Job
    → MarkArgs
    → Option Mark
    → Option GreenMerge
    → List GreenMerge
    → MarkResult × List GreenMerge
mark_named db jobs m none target rows = (value_error, rows)
mark_named db jobs m (some outcome) target rows = mark_found db jobs outcome m.note m.ts target rows

unfoldable pub mark_outcome :
    Store → List Job → MarkArgs → List GreenMerge → MarkResult × List GreenMerge
unfolding newest_first
mark_outcome db jobs m rows =
    mark_named db jobs m (outcome_named m.outcome)
      (first_row (newest_first (select (is_mark_target m.project m.feature m.sha) rows))) rows

abbrev pub of_project : Option String → GreenMerge → Bool
of_project none r = true
of_project (some project) r = str_eq r.project project

abbrev pub merge_views : Store → List Job → List GreenMerge → List MergeView
merge_views db jobs [] = []
merge_views db jobs (r ∷ rs) = row_view db jobs r ∷ merge_views db jobs rs

unfoldable pub list_outcomes : Store → List Job → Option String → List GreenMerge → List MergeView
unfolding newest_first
list_outcomes db jobs project rows =
    merge_views db jobs (newest_first (select (of_project project) rows))
