-- ===== src/Roadmap/Model.antt =====
-- The writes of src/forgemaster/roadmap/model.py.
--
-- A call gives its result and the store after it. `conn.rollback()` gives back the store before the
-- write, `conn.commit()` the store with it. An id and a time that a call generates are arguments;
-- `facets_of` is `read_bundle_manifest(…).get("facets")`, None for a BundleError.
pub mod Deps
pub mod Unique
use forgemaster.Prelude.{
  String, Bool, true, false, not, ◌&&◌, ◌||◌, Option, none, some, List, [], ◌∷◌, ◌++◌, any, elem,
  str_eq, if◌then◌else◌, truthy, select_one, update,
}
use Prim.Native.String.{◌++◌ as str_append}
use forgemaster.Core.Ids.{is_slug}
use forgemaster.Roadmap.Rows.{
  Project, Feature, planned, Task, todo, Priority, Mode, Store, Result, returned, value_error,
  key_error, bind, split_ref, get_project, feature_at, resolve_feature, list_tasks,
}
use forgemaster.Roadmap.Resolver.{
  Record, State, error, cycle, TaskNode, FeatureNode, classify, classify_features,
}

abbrev pub or_empty : Option (List String) → List String
or_empty none = []
or_empty (some xs) = xs

abbrev pub or_base : Option (List String) → List String
or_base none = "doc" ∷ []
or_base (some xs) = xs

abbrev pub or_generic : Option String → String
or_generic none = "generic"
or_generic (some t) = if truthy t then t else "generic"

-- `a or b` on a list
abbrev pub nonempty_or : List String → List String → List String
nonempty_or [] ys = ys
nonempty_or (x ∷ xs) ys = x ∷ xs

unfoldable pub project_facets : (String → Option (List String)) → Project → List String
project_facets facets_of project =
    nonempty_or
      (or_empty (facets_of (or_generic project.project_type)) ++ or_base (facets_of "generic"))
      ("doc" ∷ [])

-- `title or slug`
abbrev pub title_or : Option String → String → String
title_or none slug = slug
title_or (some t) slug = if truthy t then t else slug

-- `facet is not None and facet not in valid`
abbrev pub bad_facet : Option String → List String → Bool
bad_facet none valid = false
bad_facet (some facet) valid = not (elem facet valid)

pub record FeatureArgs : Type 0 where
  pub new_id : String
  pub now : String
  pub project_slug : String
  pub slug : String
  pub title : Option String
  pub facet : Option String
  pub blueprint : Option String
  pub depends_on : List String

abbrev pub feature_row : FeatureArgs → Project → Feature
feature_row a project = record {
  id = a.new_id;
  project_id = project.id;
  slug = a.slug;
  title = title_or a.title a.slug;
  branch = str_append "feature/" a.slug;
  worktree_path = none;
  status = planned;
  facet = a.facet;
  blueprint = a.blueprint;
  depends_on = a.depends_on;
  created_at = a.now;
}

-- the IntegrityError of an INSERT INTO features
abbrev pub feature_clash : Feature → List Feature → Bool
feature_clash row rows = any (λ f. str_eq f.id row.id || feature_at row.project_id row.slug f) rows

unfoldable pub insert_feature : Feature → Store → Result Feature × Store
insert_feature row db =
    if feature_clash row db.features
    then (value_error, db)
    else (returned row, record db { features = db.features ++ row ∷ [] })

abbrev pub create_feature :
    (String → Option (List String)) → FeatureArgs → Store → Result Project → Result Feature × Store
create_feature facets_of a db (returned project) =
    if bad_facet a.facet (project_facets facets_of project)
    then (value_error, db)
    else insert_feature (feature_row a project) db
create_feature facets_of a db value_error = (value_error, db)
create_feature facets_of a db key_error = (key_error, db)

unfoldable pub add_feature :
    (String → Option (List String)) → FeatureArgs → Store → Result Feature × Store
unfolding get_project insert_feature project_facets
add_feature facets_of a db =
    if is_slug a.slug
    then create_feature facets_of a db (get_project db a.project_slug)
    else (value_error, db)

pub record TaskArgs : Type 0 where
  pub new_id : String
  pub now : String
  pub feature_ref : String
  pub slug : String
  pub title : Option String
  pub depends_on : List String
  pub priority : Option Priority
  pub acceptance : Option String
  pub mode : Option Mode

abbrev pub task_at : String → String → Task → Bool
task_at feature_id slug t = str_eq t.feature_id feature_id && str_eq t.slug slug

abbrev pub task_row : TaskArgs → Priority → Mode → Feature → Task
task_row a priority mode feature = record {
  id = a.new_id;
  feature_id = feature.id;
  slug = a.slug;
  title = title_or a.title a.slug;
  status = todo;
  depends_on = a.depends_on;
  priority = priority;
  acceptance = a.acceptance;
  mode = mode;
  created_at = a.now;
}

abbrev pub task_clash : Task → List Task → Bool
task_clash row rows = any (λ t. str_eq t.id row.id || task_at row.feature_id row.slug t) rows

unfoldable pub insert_task : Task → Store → Result Task × Store
insert_task row db =
    if task_clash row db.tasks
    then (value_error, db)
    else (returned row, record db { tasks = db.tasks ++ row ∷ [] })

abbrev pub create_task : TaskArgs → Store → Priority → Mode → Result Feature → Result Task × Store
create_task a db priority mode (returned feature) =
    insert_task (task_row a priority mode feature) db
create_task a db priority mode value_error = (value_error, db)
create_task a db priority mode key_error = (key_error, db)

-- A priority and a mode outside their vocabularies are None here.
abbrev pub check_task : TaskArgs → Store → Option Priority → Option Mode → Result Task × Store
check_task a db none mode = (value_error, db)
check_task a db (some priority) none = (value_error, db)
check_task a db (some priority) (some mode) =
    create_task a db priority mode (resolve_feature db a.feature_ref)

unfoldable pub add_task : TaskArgs → Store → Result Task × Store
unfolding resolve_feature insert_task
add_task a db = if is_slug a.slug then check_task a db a.priority a.mode else (value_error, db)

abbrev pub with_feature_deps : List String → Feature → Feature
with_feature_deps deps f = record f { depends_on = deps }

abbrev pub with_task_deps : List String → Task → Task
with_task_deps deps t = record t { depends_on = deps }

-- UPDATE features SET depends_on WHERE id
abbrev pub write_feature_deps : List String → String → Store → Store
write_feature_deps deps id db = record db {
  features = update (λ f. str_eq f.id id) (with_feature_deps deps) db.features;
}

abbrev pub write_task_deps : List String → String → String → Store → Store
write_task_deps deps feature_id slug db = record db {
  tasks = update (task_at feature_id slug) (with_task_deps deps) db.tasks;
}

abbrev pub project_of : String → String
project_of ref = elim (split_ref ref) [ none ↦ ref | some (p, f) ↦ p ]

abbrev pub refused : State → Bool
refused error = true
refused cycle = true
refused _ = false

module _ (tm_classify : List Record → String → State) (rank_ready : List Record → List String) where
  abbrev pub feature_node : String → Result (List FeatureNode) → Option FeatureNode
  feature_node slug (returned nodes) = select_one (λ n. str_eq n.row.slug slug) nodes
  feature_node slug value_error = none
  feature_node slug key_error = none

  abbrev pub task_node : String → List Task → Option TaskNode
  task_node slug index =
      select_one (λ n. str_eq n.row.slug slug) (classify tm_classify rank_ready index)

  abbrev pub nodes_after : String → Store → Result (List FeatureNode)
  nodes_after ref written = classify_features tm_classify rank_ready written (project_of ref)

  -- The judgement of the engine on the uncommitted write: rollback or commit.
  abbrev pub settle_feature :
      List String → Feature → Store → Store → Option FeatureNode → Result Feature × Store
  settle_feature deps feature db written none = (key_error, db)
  settle_feature deps feature db written (some node) =
      if refused node.state
      then (value_error, db)
      else (returned (with_feature_deps deps feature), written)

  abbrev pub edit_feature : String → List String → Store → Result Feature → Result Feature × Store
  edit_feature ref deps db (returned feature) =
      let written = write_feature_deps deps feature.id db in
      settle_feature deps feature db written (feature_node feature.slug (nodes_after ref written))
  edit_feature ref deps db value_error = (value_error, db)
  edit_feature ref deps db key_error = (key_error, db)

  unfoldable pub set_feature_deps : String → List String → Store → Result Feature × Store
  unfolding resolve_feature
  set_feature_deps ref deps db = edit_feature ref deps db (resolve_feature db ref)

  abbrev pub settle_task : List String → Store → Store → Option TaskNode → Result Task × Store
  settle_task deps db written none = (key_error, db)
  settle_task deps db written (some node) =
      if refused node.state
      then (value_error, db)
      else (returned (with_task_deps deps node.row), written)

  abbrev pub edit_task : String → List String → Store → Feature → Option Task → Result Task × Store
  edit_task slug deps db feature none = (key_error, db)
  edit_task slug deps db feature (some t) =
      let written = write_task_deps deps feature.id slug db in
      settle_task deps db written (task_node slug (list_tasks written feature.id))

  abbrev pub edit_task_of : String → List String → Store → Result Feature → Result Task × Store
  edit_task_of slug deps db (returned feature) =
      edit_task slug deps db feature (select_one (task_at feature.id slug) db.tasks)
  edit_task_of slug deps db value_error = (value_error, db)
  edit_task_of slug deps db key_error = (key_error, db)

  unfoldable pub set_task_deps : String → String → List String → Store → Result Task × Store
  unfolding resolve_feature
  set_task_deps feature_ref slug deps db =
      edit_task_of slug deps db (resolve_feature db feature_ref)
