-- ===== src/Dispatch/Orchestrator/Summary.antt =====
-- `_worked_complete_features`, `_dispositions` and `_summarize` of the orchestrator.
use forgemaster.Prelude.{
  ℕ, String, Bool, true, false, not, ◌&&◌, ◌||◌, List, [], ◌∷◌, ◌++◌, ◌==◌, leb, ◌-◌, length, elem,
  any, all, map, select, str_eq, if◌then◌else◌, ◌+◌,
}
use forgemaster.Roadmap.Rows.{
  Feature, Task, TaskStatus, done, Store, Result, returned, bind, list_features, order_by_slug,
}
use forgemaster.Dispatch.Orchestrator.{Report, inert}

abbrev pub is_done : TaskStatus → Bool
is_done done = true
is_done _ = false

abbrev pub is_over : TaskStatus → Bool
is_over done = true
is_over TaskStatus.cancelled = true
is_over _ = false

abbrev pub some_row : List Task → Bool
some_row [] = false
some_row (t ∷ ts) = true

-- `rows and all(…) and any(…)`
abbrev pub work_done : List Task → Bool
work_done rows =
    some_row rows && (all (λ t. is_over t.status) rows && any (λ t. is_done t.status) rows)

unfoldable pub is_worked : Store → List String → Feature → Bool
is_worked db failed f =
    not (inert f.status || elem f.slug failed)
    && work_done (select (λ t. str_eq t.feature_id f.id) db.tasks)

unfoldable pub worked_complete_features : Store → String → List String → Result (List String)
unfolding is_worked
worked_complete_features db project failed =
    bind (list_features db project)
      (λ features. returned (map (λ f. f.slug) (select (is_worked db failed) features)))

pub data Bucket : Type 0 where
  drained interview held_socle rate_limited interrupted failed blocked : Bucket

abbrev pub place_of : Bucket → ℕ
place_of drained = 0
place_of interview = 1
place_of held_socle = 2
place_of rate_limited = 3
place_of interrupted = 4
place_of failed = 5
place_of blocked = 6

abbrev pub bucket_eq : Bucket → Bucket → Bool
bucket_eq a b = place_of a == place_of b

-- The sets that the run has made.
pub record Sets : Type 0 where
  pub drained_set : List String
  pub failed_set : List String
  pub interview_set : List String
  pub held_set : List String
  pub rate_set : List String
  pub interrupted_set : List String

-- The tests of `_dispositions`, in their order.
unfoldable pub bucket_of : Sets → String → Bucket
bucket_of s slug =
    if elem slug s.failed_set
    then failed
    else if elem slug s.interview_set
    then interview
    else if elem slug s.rate_set
    then rate_limited
    else if elem slug s.interrupted_set
    then interrupted
    else if elem slug s.held_set
    then held_socle
    else if elem slug s.drained_set
    then drained
    else blocked

-- The dict of the lists.
abbrev pub Dispositions : Type 0
Dispositions = Bucket → List String

abbrev pub put : Bucket → String → Dispositions → Dispositions
put b slug disp = λ k. if bucket_eq k b then disp k ++ slug ∷ [] else disp k

unfoldable pub sort_out : Sets → List Feature → Dispositions → Dispositions
unfolding bucket_of
sort_out s [] disp = disp
sort_out s (f ∷ fs) disp =
    let passed = sort_out s fs disp in
    let kept = sort_out s fs (put (bucket_of s f.slug) f.slug disp) in
    if inert f.status then passed else kept

unfoldable pub dispositions : Store → String → Sets → Result Dispositions
unfolding sort_out
dispositions db project s =
    bind (list_features db project) (λ features. returned (sort_out s features (λ k. [])))

-- A difference that Python computes in its integers.
pub data Difference : Type 0 where
  plus minus : ℕ → Difference

abbrev pub difference : ℕ → ℕ → Difference
difference a b = if leb b a then plus (a - b) else minus (b - a)

abbrev pub count : (Report → Bool) → List Report → ℕ
count p rs = length (select p rs)

pub record Finalization : Type 0 where
  pub feature : String
  pub merge_ready : Bool

pub record Summary : Type 0 where
  pub dispatched : ℕ
  pub ok : ℕ
  pub failed : Difference
  pub failed_features : List String
  pub is_drained : Bool
  pub runs : List Report
  pub needs_interview : List String
  pub held_for_socle : List String
  pub rate_limited : List String
  pub interrupted : List String
  pub finalizations : List Finalization
  pub merge_ready : List String
  pub counts : Bucket → ℕ
  pub blocked_features : List String
  pub aborted : Bool

-- `sorted` of a set of slugs
abbrev pub sorted_slugs : List String → List String
sorted_slugs xs = order_by_slug (λ s. s) xs

abbrev pub is_empty : List String → Bool
is_empty [] = true
is_empty (x ∷ xs) = false

unfoldable pub summarize : List Report → Sets → List Finalization → Dispositions → Bool → Summary
unfolding order_by_slug
summarize reports s fins disp aborted =
    let n_ok = count (λ r. r.ok) reports in
    let n_held = count (λ r. r.needs_terminal) reports in
    let n_rate = count (λ r. r.is_rate_limited) reports in
    let n_interrupt = count (λ r. r.is_interrupted) reports in
    record {
      dispatched = length reports;
      ok = n_ok;
      failed = difference (length reports) (n_ok + n_held + n_rate + n_interrupt);
      failed_features = sorted_slugs s.failed_set;
      is_drained = is_empty s.failed_set;
      runs = reports;
      needs_interview = sorted_slugs s.interview_set;
      held_for_socle = sorted_slugs s.held_set;
      rate_limited = sorted_slugs s.rate_set;
      interrupted = sorted_slugs s.interrupted_set;
      finalizations = fins;
      merge_ready = sorted_slugs (map (λ f. f.feature) (select (λ f. f.merge_ready) fins));
      counts = λ k. length (disp k);
      blocked_features = sorted_slugs (disp blocked);
      aborted = aborted;
    }
