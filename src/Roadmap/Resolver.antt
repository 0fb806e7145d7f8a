-- ===== src/Roadmap/Resolver.antt =====
-- src/forgemaster/roadmap/resolver.py: the adapter of the engine taskmap, whose `classify` and
-- `rank_ready` are arguments here. The engine is asked on records; its state comes back with the
-- blockers in the words of forgemaster.
use forgemaster.Prelude.{
  String, Bool, true, false, Option, none, some, List, [], ◌∷◌, ◌++◌, map, any, str_eq,
  if◌then◌else◌, select_one,
}
use forgemaster.Roadmap.Rows.{
  Feature, FeatureStatus, planned, active, ready, merged, Task, TaskStatus, todo, in_progress, done,
  blocked, Priority, Store, Result, bind, resolve_feature, list_features, list_tasks,
}

-- The engine's words for a status.
pub data TmStatus : Type 0 where
  tm_todo tm_active tm_done tm_blocked tm_cancelled tm_planned tm_ready : TmStatus

pub data State : Type 0 where
  state_ready blocked_deps state_done state_cancelled state_active state_blocked error cycle : State

pub record Record : Type 0 where
  pub id : String
  pub created : String
  pub status : TmStatus
  pub depends_on : List String
  pub priority : Option Priority

abbrev pub status_to_tm : TaskStatus → TmStatus
status_to_tm todo = tm_todo
status_to_tm in_progress = tm_active
status_to_tm done = tm_done
status_to_tm blocked = tm_blocked
status_to_tm TaskStatus.cancelled = tm_cancelled

abbrev pub feature_status_to_tm : FeatureStatus → TmStatus
feature_status_to_tm planned = tm_planned
feature_status_to_tm active = tm_active
feature_status_to_tm ready = tm_ready
feature_status_to_tm merged = tm_done
feature_status_to_tm FeatureStatus.cancelled = tm_cancelled

unfoldable pub to_records : List Task → List Record
to_records index =
    map
      (λ t. record {
        id = t.slug;
        created = t.created_at;
        status = status_to_tm t.status;
        depends_on = t.depends_on;
        priority = some t.priority;
      })
      index

unfoldable pub feature_records : List Feature → List Record
feature_records features =
    map
      (λ f. record {
        id = f.slug;
        created = f.created_at;
        status = feature_status_to_tm f.status;
        depends_on = f.depends_on;
        priority = none;
      })
      features

-- A blocker in the words of forgemaster: the name and why.
pub data Blocking (S : Type 0) : Type 0 where
  unknown : String → Blocking S
  waits_for : String → S → Blocking S

abbrev pub task_named : String → Task → Bool
task_named slug t = str_eq t.slug slug

abbrev pub is_done : TaskStatus → Bool
is_done done = true
is_done _ = false

abbrev pub is_tm_done : TmStatus → Bool
is_tm_done tm_done = true
is_tm_done _ = false

-- `index[d]`: the engine answers BLOCKED_DEPS only when every dependency is in the index, so that the
-- KeyError of a missing one is not reached.
abbrev pub task_waits : List Task → String → List (Blocking TaskStatus)
task_waits index d = elim (select_one (task_named d) index) [
  | none ↦ []
  | some t ↦ if is_done t.status then [] else waits_for d t.status ∷ []
]

abbrev pub task_unknown : List Task → String → List (Blocking TaskStatus)
task_unknown index d = if any (task_named d) index then [] else unknown d ∷ []

abbrev pub gather : {S : Type 0} → (String → List (Blocking S)) → List String → List (Blocking S)
gather f [] = []
gather f (d ∷ ds) = f d ++ gather f ds

unfoldable pub blockers : State → Task → List Task → List (Blocking TaskStatus)
blockers error row index = gather (task_unknown index) row.depends_on
blockers blocked_deps row index = gather (task_waits index) row.depends_on
blockers _ row index = []

abbrev pub record_named : String → Record → Bool
record_named slug r = str_eq r.id slug

abbrev pub feature_unknown : List Record → String → List (Blocking TmStatus)
feature_unknown records d = if any (record_named d) records then [] else unknown d ∷ []

abbrev pub feature_waits : List Record → String → List (Blocking TmStatus)
feature_waits records d = elim (select_one (record_named d) records) [
  | none ↦ []
  | some r ↦ if is_tm_done r.status then [] else waits_for d r.status ∷ []
]

unfoldable pub feature_blockers : State → Feature → List Record → List (Blocking TmStatus)
feature_blockers error f records = gather (feature_unknown records) f.depends_on
feature_blockers blocked_deps f records = gather (feature_waits records) f.depends_on
feature_blockers _ f records = []

pub record TaskNode : Type 0 where
  pub row : Task
  pub state : State
  pub blocking : List (Blocking TaskStatus)

pub record FeatureNode : Type 0 where
  pub row : Feature
  pub state : State
  pub blocking : List (Blocking TmStatus)

-- `tm_classify(records, None, None)[slug]["state"]`; `rank_ready` gives the ids of the READY records,
-- the next one first.
module _ (tm_classify : List Record → String → State) (rank_ready : List Record → List String) where
  unfoldable pub classify : List Task → List TaskNode
  unfolding to_records blockers
  classify index =
      map
        (λ t.
          let state = tm_classify (to_records index) t.slug in
          record { row = t; state = state; blocking = blockers state t index })
        index

  unfoldable pub resolve_next : List Task → Option Task
  unfolding to_records
  resolve_next index = elim (rank_ready (to_records index)) [
    | [] ↦ none
    | slug ∷ rest ↦ select_one (task_named slug) index
  ]

  unfoldable pub index_for_feature : Store → String → Result (List Task)
  unfolding resolve_feature list_tasks
  index_for_feature db feature_ref =
      bind (resolve_feature db feature_ref) (λ feature. Result.returned (list_tasks db feature.id))

  unfoldable pub classify_features : Store → String → Result (List FeatureNode)
  unfolding list_features feature_records feature_blockers
  classify_features db project = bind (list_features db project) (λ features.
      let records = feature_records features in
      Result.returned (
        map
          (λ f.
            let state = tm_classify records f.slug in
            record { row = f; state = state; blocking = feature_blockers state f records })
          features))
