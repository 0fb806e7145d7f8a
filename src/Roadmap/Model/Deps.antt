-- ===== src/Roadmap/Model/Deps.antt =====
-- `set_feature_deps` and `set_task_deps` of src/forgemaster/roadmap/model.py.
use forgemaster.Prelude.{
  sym, ap, String, ◌≡◌, ◌⊎◌, ◌≢◌, refl, false, none, some, Option, List, arith, Bool-cases, inl,
  inr, select_one,
}
use forgemaster.Roadmap.Rows.{
  Feature, Task, Store, Result, returned, value_error, key_error, resolve_feature, list_tasks,
}
use forgemaster.Roadmap.Resolver.{Record, State, error, cycle, TaskNode, FeatureNode}
use forgemaster.Roadmap.Model.{
  set_feature_deps, set_task_deps, write_feature_deps, write_task_deps, with_feature_deps,
  with_task_deps, feature_node, task_node, nodes_after, settle_feature, edit_feature, settle_task,
  edit_task, edit_task_of, refused, task_at,
}

abbrev pub IsRefusal : {A : Type 0} → Result A → Type 0
IsRefusal r = (r ≡ value_error) ⊎ (r ≡ key_error)

not_refused : (s : State) → refused s ≡ false → (s ≢ error) × (s ≢ cycle)
not_refused s h = (λ e. ground (arith, e), λ e. ground (arith, e))

module _ (tm_classify : List Record → String → State) (rank_ready : List Record → List String) where
  -- What a call of `set_feature_deps` that returns has done.
  abbrev pub FeatureEdit :
      String → List String → Store → Result Feature → Result Feature → Store → Type 0
  FeatureEdit ref deps db found r after =
      (feature : Feature) × (node : FeatureNode) × (found ≡ returned feature)
      × (r ≡ returned (with_feature_deps deps feature))
      × (after ≡ write_feature_deps deps feature.id db)
      × (feature_node tm_classify rank_ready feature.slug
            (nodes_after tm_classify rank_ready ref after)
          ≡ some node)
      × (node.state ≢ error)
      × (node.state ≢ cycle)

  settle_feature_lem :
      (ref : String) (deps : List String) (db : Store) (feature : Feature) (o : Option FeatureNode)
      → feature_node tm_classify rank_ready feature.slug
          (nodes_after tm_classify rank_ready ref (write_feature_deps deps feature.id db))
        ≡ o
      → (out : Result Feature × Store)
      → settle_feature tm_classify rank_ready deps feature db
          (write_feature_deps deps feature.id db)
          o
        ≡ out
      → (IsRefusal out.0 × (out.1 ≡ db)) ⊎ FeatureEdit ref deps db (returned feature) out.0 out.1
  settle_feature_lem ref deps db feature none seen out e =
      inl (inr (ap (λ o. o.0) (sym e)), ap (λ o. o.1) (sym e))
  settle_feature_lem ref deps db feature (some node) seen out e =
      elim (Bool-cases (refused node.state)) [
        | inl bad ↦
            let e' = rw bad at e in inl (inl (ap (λ o. o.0) (sym e')), ap (λ o. o.1) (sym e'))
        | inr good ↦
            let e' = sym (rw good at e) in
            let (not_error, not_cycle) = not_refused node.state good in
            let after = ap (λ o. o.1) e' in
            inr (feature, node, refl, ap (λ o. o.0) e', after, rw after seen, not_error, not_cycle)
      ]

  edit_feature_lem :
      (ref : String) (deps : List String) (db : Store) (r : Result Feature)
      → (out : Result Feature × Store) → edit_feature tm_classify rank_ready ref deps db r ≡ out
      → (IsRefusal out.0 × (out.1 ≡ db)) ⊎ FeatureEdit ref deps db r out.0 out.1
  edit_feature_lem ref deps db (returned feature) out e =
      let written = write_feature_deps deps feature.id db in
      settle_feature_lem ref deps db feature
        (feature_node tm_classify rank_ready feature.slug
          (nodes_after tm_classify rank_ready ref written))
        refl out e
  edit_feature_lem ref deps db value_error out e =
      inl (inl (ap (λ o. o.0) (sym e)), ap (λ o. o.1) (sym e))
  edit_feature_lem ref deps db key_error out e =
      inl (inr (ap (λ o. o.0) (sym e)), ap (λ o. o.1) (sym e))

  -- `set_feature_deps` raises and leaves the store as it was, or it returns, the store has the new
  -- dependencies of that one row, and the engine calls the graph of the new store neither ERROR nor
  -- CYCLE at the feature.
  pub set_feature_deps_atomic :
      (ref : String) (deps : List String) (db : Store) (out : Result Feature × Store)
      → set_feature_deps tm_classify rank_ready ref deps db ≡ out
      → (IsRefusal out.0 × (out.1 ≡ db))
        ⊎ FeatureEdit ref deps db (resolve_feature db ref) out.0 out.1
  unfolding set_feature_deps
  set_feature_deps_atomic ref deps db out e =
      edit_feature_lem ref deps db (resolve_feature db ref) out e

  -- What a call of `set_task_deps` that returns has done.
  abbrev pub TaskEdit : String → List String → Store → Result Feature → Result Task → Store → Type 0
  TaskEdit slug deps db found r after =
      (feature : Feature) × (node : TaskNode) × (found ≡ returned feature)
      × (r ≡ returned (with_task_deps deps node.row))
      × (after ≡ write_task_deps deps feature.id slug db)
      × (task_node tm_classify rank_ready slug (list_tasks after feature.id) ≡ some node)
      × (node.state ≢ error)
      × (node.state ≢ cycle)

  settle_task_lem :
      (slug : String) (deps : List String) (db : Store) (feature : Feature) (o : Option TaskNode)
      → task_node tm_classify rank_ready slug
          (list_tasks (write_task_deps deps feature.id slug db) feature.id)
        ≡ o
      → (out : Result Task × Store)
      → settle_task tm_classify rank_ready deps db (write_task_deps deps feature.id slug db) o ≡ out
      → (IsRefusal out.0 × (out.1 ≡ db)) ⊎ TaskEdit slug deps db (returned feature) out.0 out.1
  settle_task_lem slug deps db feature none seen out e =
      inl (inr (ap (λ o. o.0) (sym e)), ap (λ o. o.1) (sym e))
  settle_task_lem slug deps db feature (some node) seen out e =
      elim (Bool-cases (refused node.state)) [
        | inl bad ↦
            let e' = rw bad at e in inl (inl (ap (λ o. o.0) (sym e')), ap (λ o. o.1) (sym e'))
        | inr good ↦
            let e' = sym (rw good at e) in
            let (not_error, not_cycle) = not_refused node.state good in
            let after = ap (λ o. o.1) e' in
            inr (feature, node, refl, ap (λ o. o.0) e', after, rw after seen, not_error, not_cycle)
      ]

  edit_task_lem :
      (slug : String) (deps : List String) (db : Store) (feature : Feature) (t : Option Task)
      → (out : Result Task × Store) → edit_task tm_classify rank_ready slug deps db feature t ≡ out
      → (IsRefusal out.0 × (out.1 ≡ db)) ⊎ TaskEdit slug deps db (returned feature) out.0 out.1
  edit_task_lem slug deps db feature none out e =
      inl (inr (ap (λ o. o.0) (sym e)), ap (λ o. o.1) (sym e))
  edit_task_lem slug deps db feature (some t) out e =
      let written = write_task_deps deps feature.id slug db in
      settle_task_lem slug deps db feature
        (task_node tm_classify rank_ready slug (list_tasks written feature.id)) refl out e

  edit_task_of_lem :
      (slug : String) (deps : List String) (db : Store) (r : Result Feature)
      → (out : Result Task × Store) → edit_task_of tm_classify rank_ready slug deps db r ≡ out
      → (IsRefusal out.0 × (out.1 ≡ db)) ⊎ TaskEdit slug deps db r out.0 out.1
  edit_task_of_lem slug deps db (returned feature) out e =
      edit_task_lem slug deps db feature (select_one (task_at feature.id slug) db.tasks) out e
  edit_task_of_lem slug deps db value_error out e =
      inl (inl (ap (λ o. o.0) (sym e)), ap (λ o. o.1) (sym e))
  edit_task_of_lem slug deps db key_error out e =
      inl (inr (ap (λ o. o.0) (sym e)), ap (λ o. o.1) (sym e))

  -- `set_task_deps` raises and leaves the store as it was, or it returns, the store has the new
  -- dependencies of that slug in that feature alone, and the engine calls the feature's graph in the
  -- new store neither ERROR nor CYCLE at the task.
  pub set_task_deps_atomic :
      (ref slug : String) (deps : List String) (db : Store) (out : Result Task × Store)
      → set_task_deps tm_classify rank_ready ref slug deps db ≡ out
      → (IsRefusal out.0 × (out.1 ≡ db))
        ⊎ TaskEdit slug deps db (resolve_feature db ref) out.0 out.1
  unfolding set_task_deps
  set_task_deps_atomic ref slug deps db out e =
      edit_task_of_lem slug deps db (resolve_feature db ref) out e
