-- ===== src/Examples/Roadmap.antt =====
-- A project with two features, and an engine that knows unknown dependencies.
use forgemaster.Prelude.{
  String, ◌≡◌, ◌⊎◌, refl, Bool, true, false, Option, none, some, List, [], ◌∷◌, any, str_eq,
  select_one, if◌then◌else◌, update, select,
}
use forgemaster.Core.Ids.{is_slug, slug_match}
use forgemaster.Roadmap.Rows.{
  Feature, planned, active, Task, todo, p1, headless, Store, Result, returned, resolve_feature,
  get_project, list_features, split_ref, order_by_slug,
}
use forgemaster.Roadmap.Resolver.{
  Record, State, state_ready, error, record_named, classify_features, feature_records,
  feature_blockers,
}
use forgemaster.Roadmap.Model.{
  FeatureArgs, TaskArgs, add_feature, set_feature_deps, set_task_deps, insert_feature,
  project_facets,
}
use forgemaster.Roadmap.Model.Deps.{IsRefusal, FeatureEdit, set_feature_deps_atomic}
use forgemaster.Roadmap.Model.Unique.{IsUnique}

abbrev missing_one : List Record → List String → Bool
missing_one records [] = false
missing_one records (d ∷ ds) = if any (record_named d) records then missing_one records ds else true

abbrev state_of : List Record → Option Record → State
state_of records none = error
state_of records (some r) = if missing_one records r.depends_on then error else state_ready

abbrev pub engine : List Record → String → State
engine records slug = state_of records (select_one (record_named slug) records)

abbrev pub ids_of : List Record → List String
ids_of [] = []
ids_of (r ∷ rs) = r.id ∷ ids_of rs

abbrev pub socle : Feature
socle = record {
  id = "f1";
  project_id = "p1";
  slug = "socle";
  title = "Socle";
  branch = "feature/socle";
  worktree_path = none;
  status = active;
  facet = none;
  blueprint = none;
  depends_on = [];
  created_at = "2026-07-01";
}

abbrev pub api : Feature
api = record socle {
  id = "f2";
  slug = "api";
  title = "Api";
  branch = "feature/api";
  status = planned;
  depends_on = "socle" ∷ [];
}

abbrev pub first_task : Task
first_task = record {
  id = "t1";
  feature_id = "f2";
  slug = "routes";
  title = "Routes";
  status = todo;
  depends_on = [];
  priority = p1;
  acceptance = none;
  mode = headless;
  created_at = "2026-07-02";
}

abbrev pub db : Store
db = record {
  projects =
      record {
        id = "p1";
        slug = "demo";
        project_type = none;
        sot_path = "/srv/demo";
        credential_ref = none;
      }
      ∷ [];
  features = socle ∷ api ∷ [];
  tasks = first_task ∷ [];
}

dangling_refused : (set_feature_deps engine ids_of "demo/api" ("nowhere" ∷ []) db).1 ≡ db
unfolding set_feature_deps resolve_feature get_project split_ref classify_features list_features
    feature_records feature_blockers order_by_slug select select_one update
dangling_refused = refl

abbrev edited : Result Feature × Store
edited = set_feature_deps engine ids_of "demo/api" ([]) db

set_feature_deps_atomic_example :
    (IsRefusal edited.0 × (edited.1 ≡ db))
    ⊎ FeatureEdit engine ids_of "demo/api" [] db (resolve_feature db "demo/api") edited.0 edited.1
set_feature_deps_atomic_example = set_feature_deps_atomic engine ids_of "demo/api" [] db edited refl

abbrev edited_task : Result Task × Store
edited_task = set_task_deps engine ids_of "demo/api" "routes" ("models" ∷ []) db

abbrev facets : String → Option (List String)
facets kind = if str_eq kind "generic" then some ("doc" ∷ "code" ∷ []) else none

abbrev web : FeatureArgs
web = record {
  new_id = "f3";
  now = "2026-07-03";
  project_slug = "demo";
  slug = "web";
  title = none;
  facet = some "code";
  blueprint = none;
  depends_on = "api" ∷ [];
}

abbrev models : TaskArgs
models = record {
  new_id = "t2";
  now = "2026-07-03";
  feature_ref = "demo/api";
  slug = "models";
  title = none;
  depends_on = [];
  priority = some p1;
  acceptance = none;
  mode = some headless;
}

db-IsUnique : IsUnique db
db-IsUnique = (((refl, tt), (tt, tt)), (tt, tt))

abbrev web_row : Feature
web_row = record {
  id = "f3";
  project_id = "p1";
  slug = "web";
  title = "web";
  branch = "feature/web";
  worktree_path = none;
  status = planned;
  facet = some "code";
  blueprint = none;
  depends_on = "api" ∷ [];
  created_at = "2026-07-03";
}

abbrev with_web : Store
with_web = record db { features = socle ∷ api ∷ web_row ∷ [] }

web_added : add_feature facets web db ≡ (returned web_row, with_web)
unfolding add_feature is_slug slug_match get_project insert_feature project_facets select_one
web_added = refl
