-- ===== src/Dispatch/Orchestrator/Discovery.antt =====
-- What `_discoverable_features` of src/forgemaster/dispatch/orchestrator.py gives.
use forgemaster.Prelude.{
  String, ◌≡◌, false, Option, none, some, List, [], ◌∷◌, arith, All, Bool-cases, inl, inr, elem,
  map,
}
use forgemaster.Roadmap.Rows.{Task, Store, Result, returned, value_error, key_error, bind}
use forgemaster.Roadmap.Resolver.{
  Record, State, FeatureNode, classify_features, index_for_feature, resolve_next,
}
use forgemaster.Dispatch.Orchestrator.{
  Key, key_of, key_leb, insert_key, sort_keys, skipped, cons_opt, next_key, ranked, slugs_of,
  discoverable_features, ref_of,
}

module _ (in_flight failed : List String) where
  -- neither in flight nor excluded
  abbrev pub IsFree : String → Type 0
  IsFree slug = (elem slug in_flight ≡ false) × (elem slug failed ≡ false)

  abbrev FreeKey : Key → Type 0
  FreeKey k = IsFree k.slug

  abbrev FreeKeys : Result (List Key) → Type 0
  FreeKeys (returned ks) = All FreeKey ks
  FreeKeys value_error = Unit
  FreeKeys key_error = Unit

  -- What a call that returns has given.
  abbrev pub AllFree : Result (List String) → Type 0
  AllFree (returned slugs) = All IsFree slugs
  AllFree value_error = Unit
  AllFree key_error = Unit

  insert_key_free :
      (k : Key) (ks : List Key) → FreeKey k → All FreeKey ks → All FreeKey (insert_key k ks)
  insert_key_free k [] hk h = (hk, tt)
  insert_key_free k (x ∷ xs) hk h = elim (Bool-cases (key_leb k x)) [
    | inl before ↦ rw before (hk, h)
    | inr after ↦ rw after (h.0, insert_key_free k xs hk h.1)
  ]

  sort_keys_free : (ks : List Key) → All FreeKey ks → All FreeKey (sort_keys ks)
  unfolding sort_keys
  sort_keys_free [] h = tt
  sort_keys_free (k ∷ ks) h = insert_key_free k (sort_keys ks) h.0 (sort_keys_free ks h.1)

  slugs-IsFree : (ks : List Key) → All FreeKey ks → All IsFree (map (λ k. k.slug) ks)
  slugs-IsFree [] h = tt
  slugs-IsFree (k ∷ ks) h = (h.0, slugs-IsFree ks h.1)

  slugs_of_free :
      (tm_classify : List Record → String → State) (rank_ready : List Record → List String)
      (r : Result (List Key))
      → FreeKeys r
      → AllFree (slugs_of tm_classify rank_ready r)
  slugs_of_free tm_classify rank_ready (returned ks) h =
      slugs-IsFree (sort_keys ks) (sort_keys_free ks h)
  slugs_of_free tm_classify rank_ready value_error h = tt
  slugs_of_free tm_classify rank_ready key_error h = tt

  key_of_free :
      (slug : String) (t : Option Task) (ks : List Key)
      → IsFree slug
      → All FreeKey ks
      → All FreeKey (cons_opt (key_of slug t) ks)
  key_of_free slug none ks hs h = h
  key_of_free slug (some t) ks hs h = (hs, h)

  module _ (tm_classify : List Record → String → State)
      (rank_ready : List Record → List String) where
    next_key_free :
        (slug : String) (index : List Task) (ks : List Key)
        → IsFree slug
        → All FreeKey ks
        → All FreeKey (cons_opt (next_key tm_classify rank_ready slug index) ks)
    next_key_free slug [] ks hs h = h
    next_key_free slug (t ∷ ts) ks hs h =
        key_of_free slug (resolve_next tm_classify rank_ready (t ∷ ts)) ks hs h

    rest_free :
        (slug : String) (index : List Task) (rest : Result (List Key))
        → IsFree slug
        → FreeKeys rest
        → FreeKeys
            (bind rest (λ ks. returned (cons_opt (next_key tm_classify rank_ready slug index) ks)))
    rest_free slug index (returned ks) hs h = next_key_free slug index ks hs h
    rest_free slug index value_error hs h = tt
    rest_free slug index key_error hs h = tt

    index_free :
        (slug : String) (index : Result (List Task)) (rest : Result (List Key))
        → IsFree slug
        → FreeKeys rest
        → FreeKeys (
            bind index (λ i.
              bind rest (λ ks. returned (cons_opt (next_key tm_classify rank_ready slug i) ks))))
    index_free slug (returned i) rest hs h = rest_free slug i rest hs h
    index_free slug value_error rest hs h = tt
    index_free slug key_error rest hs h = tt

    not_skipped : (n : FeatureNode) → skipped in_flight failed n ≡ false → IsFree n.row.slug
    not_skipped n h = (ground (arith, h), ground (arith, h))

    ranked_free :
        (db : Store) (project : String) (ns : List FeatureNode)
        → FreeKeys (ranked tm_classify rank_ready db project in_flight failed ns)
    unfolding ranked
    ranked_free db project [] = tt
    ranked_free db project (n ∷ ns) =
        let rest = ranked_free db project ns in
        elim (Bool-cases (skipped in_flight failed n)) [
          | inl over ↦ rw over rest
          | inr kept ↦ rw kept (
              index_free n.row.slug
                (index_for_feature tm_classify rank_ready db (ref_of project n.row.slug))
                (ranked tm_classify rank_ready db project in_flight failed ns) (not_skipped n kept)
                rest)
        ]

    nodes_free :
        (db : Store) (project : String) (r : Result (List FeatureNode))
        → AllFree (
            bind r (λ nodes.
              slugs_of tm_classify rank_ready
                (ranked tm_classify rank_ready db project in_flight failed nodes)))
    nodes_free db project (returned nodes) =
        slugs_of_free tm_classify rank_ready
          (ranked tm_classify rank_ready db project in_flight failed nodes)
          (ranked_free db project nodes)
    nodes_free db project value_error = tt
    nodes_free db project key_error = tt

    -- No feature that `_discoverable_features` returns is in flight or excluded, whatever the engine
    -- answers.
    pub discoverable_features_free :
        (db : Store) (project : String)
        → AllFree (discoverable_features tm_classify rank_ready db project in_flight failed)
    unfolding discoverable_features
    discoverable_features_free db project =
        nodes_free db project (classify_features tm_classify rank_ready db project)
