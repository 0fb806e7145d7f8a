-- ===== src/Roadmap/Model/Unique.antt =====
-- `add_feature` and `add_task` of src/forgemaster/roadmap/model.py and the constraints of the tables.
use forgemaster.Prelude.{
  String, ◌≡◌, refl, true, false, ◌||◌, none, some, Option, List, [], ◌∷◌, arith, Bool-cases, inl,
  inr, str_eq, AllPairs, AllPairs-insert, any_none, select_one, select_one-append_none, sym, ap,
  ◌∙◌, eq_iff,
}
use forgemaster.Core.Ids.{is_slug}
use forgemaster.Roadmap.Rows.{
  Project, Feature, Task, Priority, Mode, Store, Result, returned, value_error, key_error,
  get_project, resolve_feature, feature_at,
}
use forgemaster.Roadmap.Model.{
  FeatureArgs, feature_row, feature_clash, insert_feature, create_feature, add_feature, TaskArgs,
  task_at, task_row, task_clash, insert_task, create_task, check_task, add_task, bad_facet,
  project_facets,
}

abbrev pub FeaturesDiffer : Feature → Feature → Type 0
FeaturesDiffer a b = (str_eq a.id b.id || feature_at b.project_id b.slug a) ≡ false

abbrev pub TasksDiffer : Task → Task → Type 0
TasksDiffer a b = (str_eq a.id b.id || task_at b.feature_id b.slug a) ≡ false

-- PRIMARY KEY (id), UNIQUE (project_id, slug) and UNIQUE (feature_id, slug)
abbrev pub IsUnique : Store → Type 0
IsUnique db = AllPairs FeaturesDiffer db.features × AllPairs TasksDiffer db.tasks

insert_feature-IsUnique :
    (row : Feature) (db : Store) → IsUnique db → IsUnique (insert_feature row db).1
unfolding insert_feature
insert_feature-IsUnique row db h = elim (Bool-cases (feature_clash row db.features)) [
  | inl clash ↦ rw clash h
  | inr free ↦ rw free (
    AllPairs-insert FeaturesDiffer db.features row
        (any_none (λ f. str_eq f.id row.id || feature_at row.project_id row.slug f) db.features
          free)
        h.0,
    h.1,
  )
]

insert_task-IsUnique : (row : Task) (db : Store) → IsUnique db → IsUnique (insert_task row db).1
unfolding insert_task
insert_task-IsUnique row db h = elim (Bool-cases (task_clash row db.tasks)) [
  | inl clash ↦ rw clash h
  | inr free ↦ rw free (
    h.0,
    AllPairs-insert TasksDiffer db.tasks row
        (any_none (λ t. str_eq t.id row.id || task_at row.feature_id row.slug t) db.tasks free) h.1,
  )
]

module _ (facets_of : String → Option (List String)) where
  create_feature-IsUnique :
      (a : FeatureArgs) (db : Store) (r : Result Project)
      → IsUnique db
      → IsUnique (create_feature facets_of a db r).1
  create_feature-IsUnique a db (returned project) h =
      let kept = insert_feature-IsUnique (feature_row a project) db h in ground (arith, kept)
  create_feature-IsUnique a db value_error h = h
  create_feature-IsUnique a db key_error h = h

  -- `add_feature` keeps the ids and the slugs within a project unique, whether it adds the row or
  -- raises.
  pub add_feature-IsUnique :
      (a : FeatureArgs) (db : Store) → IsUnique db → IsUnique (add_feature facets_of a db).1
  unfolding add_feature
  add_feature-IsUnique a db h =
      let kept = create_feature-IsUnique a db (get_project db a.project_slug) h in
      ground (arith, kept)

create_task-IsUnique :
    (a : TaskArgs) (db : Store) (priority : Priority) (mode : Mode) (r : Result Feature)
    → IsUnique db
    → IsUnique (create_task a db priority mode r).1
create_task-IsUnique a db priority mode (returned feature) h =
    insert_task-IsUnique (task_row a priority mode feature) db h
create_task-IsUnique a db priority mode value_error h = h
create_task-IsUnique a db priority mode key_error h = h

check_task-IsUnique :
    (a : TaskArgs) (db : Store) (priority : Option Priority) (mode : Option Mode)
    → IsUnique db
    → IsUnique (check_task a db priority mode).1
check_task-IsUnique a db none mode h = h
check_task-IsUnique a db (some priority) none h = h
check_task-IsUnique a db (some priority) (some mode) h =
    create_task-IsUnique a db priority mode (resolve_feature db a.feature_ref) h

-- `add_task` keeps the ids and the slugs within a feature unique, whether it adds the row or raises.
pub add_task-IsUnique : (a : TaskArgs) (db : Store) → IsUnique db → IsUnique (add_task a db).1
unfolding add_task
add_task-IsUnique a db h =
    let kept = check_task-IsUnique a db a.priority a.mode h in ground (arith, kept)

no_clash_slug :
    (row : Feature) (rows : List Feature)
    → feature_clash row rows ≡ false
    → select_one (feature_at row.project_id row.slug) rows ≡ none
unfolding select_one
no_clash_slug row [] h = refl
no_clash_slug row (f ∷ fs) h = ground (arith, no_clash_slug row fs)

found_there : (row : Feature) → feature_at row.project_id row.slug row ≡ true
found_there row = ground (arith, eq_iff row.project_id row.project_id, eq_iff row.slug row.slug)

insert_feature_found :
    (row f : Feature) (db after : Store)
    → insert_feature row db ≡ (returned f, after)
    → (f ≡ row) × (select_one (feature_at row.project_id row.slug) after.features ≡ some row)
unfolding insert_feature
insert_feature_found row f db after e = elim (Bool-cases (feature_clash row db.features)) [
  | inl clash ↦
      let e' = rw clash at e in let wrong = ap (λ o. o.0) e' in absurd (ground (arith, wrong))
  | inr free ↦
      let e' = sym (rw free at e) in
      let same = ap (λ o. o.0) e' in
      let at_end =
        select_one-append_none (feature_at row.project_id row.slug) db.features row
          (no_clash_slug row db.features free) in
      (ground (arith, same), rw (ap (λ o. o.1) e') (at_end ∙ (rw (found_there row) refl)))
]

module _ (facets_of : String → Option (List String)) where
  -- What a call of `add_feature` that returns has done.
  abbrev pub FeatureAdded : FeatureArgs → Result Project → Feature → Store → Type 0
  FeatureAdded a found f after =
      (project : Project) × (found ≡ returned project)
      × (bad_facet a.facet (project_facets facets_of project) ≡ false)
      × (f ≡ feature_row a project)
      × (select_one (feature_at project.id a.slug) after.features ≡ some f)

  create_feature_found :
      (a : FeatureArgs) (db : Store) (r : Result Project) (f : Feature) (after : Store)
      → create_feature facets_of a db r ≡ (returned f, after)
      → FeatureAdded a r f after
  create_feature_found a db (returned project) f after e =
      elim (Bool-cases (bad_facet a.facet (project_facets facets_of project))) [
        | inl bad ↦
            let e' = rw bad at e in let wrong = ap (λ o. o.0) e' in absurd (ground (arith, wrong))
        | inr good ↦
            let (same, found) =
              insert_feature_found (feature_row a project) f db after (rw good at e) in
            (project, refl, good, same, found ∙ ap some (sym same))
      ]
  create_feature_found a db value_error f after e =
      let wrong = ap (λ o. o.0) e in absurd (ground (arith, wrong))
  create_feature_found a db key_error f after e =
      let wrong = ap (λ o. o.0) e in absurd (ground (arith, wrong))

  -- When `add_feature` returns, the project exists, the slug is one, the facet is None or one of the
  -- project's, and the row that it returns, a planned feature, is what its project and slug then find.
  pub add_feature_found :
      (a : FeatureArgs) (db : Store) (f : Feature) (after : Store)
      → add_feature facets_of a db ≡ (returned f, after)
      → (is_slug a.slug ≡ true) × FeatureAdded a (get_project db a.project_slug) f after
  unfolding add_feature
  add_feature_found a db f after e = elim (Bool-cases (is_slug a.slug)) [
    | inl good ↦
        (good, create_feature_found a db (get_project db a.project_slug) f after (rw good at e))
    | inr bad ↦
        let e' = rw bad at e in let wrong = ap (λ o. o.0) e' in absurd (ground (arith, wrong))
  ]
