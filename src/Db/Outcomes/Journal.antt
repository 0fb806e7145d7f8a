-- ===== src/Db/Outcomes/Journal.antt =====
-- The rows of src/forgemaster/db/merge_outcomes.py, over any sequence of calls.
use forgemaster.Prelude.{
  String, ◌≡◌, refl, Bool, true, false, not, ◌||◌, Option, none, some, List, [], ◌∷◌, arith, str_eq,
  inl, inr, Bool-cases, any, any_none, All, All-append, All-update, AllPairs, AllPairs-update,
  AllPairs-insert,
}
use forgemaster.Roadmap.Rows.{Store}
use forgemaster.Dispatch.Jobs.{Job}
use forgemaster.Db.Outcomes.{
  Mark, held, reverted, refixed, GreenMerge, collides, MergeArgs, merge_row, record_merge,
  is_adverse, mark_row, mark_found, MarkArgs, mark_outcome, mark_named, outcome_named,
}

-- No two rows share an id, or a project, a feature and a SHA.
abbrev pub IsKeyed : List GreenMerge → Type 0
IsKeyed = AllPairs (λ a b. collides a b ≡ false)

abbrev pub is_stamped : GreenMerge → Bool
is_stamped r = elim r.marked_at [
  | none ↦ not (is_adverse r.outcome)
  | some t ↦ is_adverse r.outcome
]

-- A mark has a date exactly when it is adverse.
abbrev pub IsStamped : List GreenMerge → Type 0
IsStamped = All (λ r. is_stamped r ≡ true)

abbrev pub IsJournal : List GreenMerge → Type 0
IsJournal rows = IsKeyed rows × IsStamped rows

record_merge-IsJournal :
    (reachable : Bool) (m : MergeArgs) (rows : List GreenMerge)
    → IsJournal rows
    → IsJournal (record_merge reachable m rows)
unfolding record_merge
record_merge-IsJournal reachable m rows h =
    elim (Bool-cases (not reachable || any (λ r. collides r (merge_row m)) rows)) [
      | inl lost ↦ rw lost h
      | inr fine ↦
          let fresh : any (λ r. collides r (merge_row m)) rows ≡ false = ground (arith, fine) in
          rw fine (
            AllPairs-insert (λ a b. collides a b ≡ false) rows (merge_row m)
                (any_none (λ r. collides r (merge_row m)) rows fresh) h.0,
            All-append (λ r. is_stamped r ≡ true) rows (merge_row m ∷ []) h.1 (refl, tt),
          )
    ]

mark_row-stamped :
    (outcome : Mark) (remark : Option String) (ts : String) (r : GreenMerge)
    → is_stamped (mark_row outcome remark ts r) ≡ true
mark_row-stamped held remark ts r = refl
mark_row-stamped reverted remark ts r = refl
mark_row-stamped refixed remark ts r = refl

mark_found-IsJournal :
    (db : Store) (jobs : List Job) (outcome : Mark) (remark : Option String) (ts : String)
    (target : Option GreenMerge) (rows : List GreenMerge)
    → IsJournal rows
    → IsJournal (mark_found db jobs outcome remark ts target rows).1
mark_found-IsJournal db jobs outcome remark ts none rows h = h
mark_found-IsJournal db jobs outcome remark ts (some t) rows h = (
  AllPairs-update (λ r. str_eq r.id t.id) (λ a b. collides a b ≡ false) (mark_row outcome remark ts)
      rows (λ x y k. k) (λ x y k. k) h.0,
  All-update (λ r. str_eq r.id t.id) (λ r. is_stamped r ≡ true) (mark_row outcome remark ts) rows
      (λ r k. mark_row-stamped outcome remark ts r) h.1,
)

mark_named-IsJournal :
    (db : Store) (jobs : List Job) (m : MarkArgs) (outcome : Option Mark)
    (target : Option GreenMerge) (rows : List GreenMerge)
    → IsJournal rows
    → IsJournal (mark_named db jobs m outcome target rows).1
mark_named-IsJournal db jobs m none target rows h = h
mark_named-IsJournal db jobs m (some outcome) target rows h =
    mark_found-IsJournal db jobs outcome m.note m.ts target rows h

mark_outcome-IsJournal :
    (db : Store) (jobs : List Job) (m : MarkArgs) (rows : List GreenMerge)
    → IsJournal rows
    → IsJournal (mark_outcome db jobs m rows).1
unfolding mark_outcome
mark_outcome-IsJournal db jobs m rows h =
    mark_named-IsJournal db jobs m (outcome_named m.outcome) _ rows h

-- A call of the journal, with what it finds in the other tables.
pub data Call : Type 0 where
  records : Bool → MergeArgs → Call
  marks : Store → List Job → MarkArgs → Call

abbrev pub perform : Call → List GreenMerge → List GreenMerge
perform (records reachable m) rows = record_merge reachable m rows
perform (marks db jobs m) rows = (mark_outcome db jobs m rows).1

abbrev pub perform_all : List Call → List GreenMerge → List GreenMerge
perform_all [] rows = rows
perform_all (c ∷ cs) rows = perform_all cs (perform c rows)

perform-IsJournal :
    (c : Call) (rows : List GreenMerge) → IsJournal rows → IsJournal (perform c rows)
perform-IsJournal (records reachable m) rows h = record_merge-IsJournal reachable m rows h
perform-IsJournal (marks db jobs m) rows h = mark_outcome-IsJournal db jobs m rows h

-- Whatever is recorded and marked, in any order, with any recording lost or replayed, the journal has
-- one row for each id and for each SHA of a feature, and a row has a date of its mark exactly when the
-- mark is adverse.
pub perform_all-IsJournal :
    (calls : List Call) (rows : List GreenMerge)
    → IsJournal rows
    → IsJournal (perform_all calls rows)
perform_all-IsJournal [] rows h = h
perform_all-IsJournal (c ∷ cs) rows h =
    perform_all-IsJournal cs (perform c rows) (perform-IsJournal c rows h)
