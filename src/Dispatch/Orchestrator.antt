-- ===== src/Dispatch/Orchestrator.antt =====
-- src/forgemaster/dispatch/orchestrator.py: the report of one run, the alert that a blocking report
-- raises, and which features can be dispatched now.
--
-- `worker.dispatch_next` is the argument of `dispatch_one`: what it raised or reported.
pub mod Drain
pub mod Limits
pub mod Single
pub mod Discovery
pub mod Summary
pub mod Sets
pub mod Progress
use forgemaster.Prelude.{
  ℕ, String, Bool, true, false, not, ◌&&◌, ◌||◌, Option, none, some, List, [], ◌∷◌, ◌++◌, ◌==◌, ltb,
  elem, map, str_eq, if◌then◌else◌, truthy,
}
use forgemaster.Prelude.Text.{Text, codes}
use Prim.Native.String.{◌++◌ as str_append}
use forgemaster.Db.Alerts.{
  Kind, gate_red, worker_failed, rate_limited, interrupted, interview_hold, socle_hold, Severity,
  blocker, warn, Alert, Emission, emit_alert,
}
use forgemaster.Roadmap.Rows.{
  FeatureStatus, merged, cancelled, Task, Priority, p0, p1, p2, p3, Store, Result, returned, bind,
  text_leb,
}
use forgemaster.Roadmap.Resolver.{
  Record, State, error, cycle, blocked_deps, FeatureNode, classify_features, index_for_feature,
  resolve_next,
}

pub record Report : Type 0 where
  pub feature : String
  pub task : Option String
  pub ok : Bool
  pub needs_redrain : Bool
  pub reason : String
  pub needs_terminal : Bool
  pub is_rate_limited : Bool
  pub is_interrupted : Bool

-- What `dispatch_next` reports; a missing `result` has false flags.
pub record WorkerReport : Type 0 where
  pub task : Option String
  pub dispatched : Bool
  pub result_ok : Bool
  pub result_rate_limited : Bool
  pub result_interrupted : Bool
  pub needs_terminal : Bool
  pub reason : Option String

pub data WorkerOutcome : Type 0 where
  git_op_error : String → WorkerOutcome
  reported : WorkerReport → WorkerOutcome

abbrev pub reason_or : String → Option String → String
reason_or d none = d
reason_or d (some r) = r

unfoldable pub dispatch_one : String → WorkerOutcome → Report
dispatch_one feature (git_op_error text) = record {
  feature = feature;
  task = none;
  ok = false;
  needs_redrain = true;
  reason = text;
  needs_terminal = false;
  is_rate_limited = false;
  is_interrupted = false;
}
dispatch_one feature (reported r) = record {
  feature = feature;
  task = r.task;
  ok = r.dispatched && r.result_ok;
  needs_redrain = false;
  reason = reason_or "?" r.reason;
  needs_terminal = r.needs_terminal;
  is_rate_limited = r.result_rate_limited;
  is_interrupted = r.result_interrupted;
}

-- "<project>/<slug>"
abbrev pub ref_of : String → String → String
ref_of project slug = str_append project (str_append "/" slug)

-- `reason or default`
abbrev pub text_or : String → String → String
text_or s d = if truthy s then s else d

-- One call of `emit_alert` on the feature `slug`, with its id and its time.
abbrev pub emission : String → String → String → String → Kind → Severity → String → Emission
emission new_id ts project slug kind severity reason = record {
  new_id = new_id;
  ts = ts;
  project = project;
  feature_ref = ref_of project slug;
  feature = slug;
  kind = kind;
  reason = reason;
  tier = none;
  severity = severity;
  findings = none;
}

-- `_emit_report_alert`: the alert of a report, None when the run is fine.
unfoldable pub report_alert : String → String → String → String → Report → Option Emission
report_alert new_id ts project slug r =
    if r.needs_terminal
    then some (
        emission new_id ts project slug interview_hold warn
          "interview terminale requise (task interactive, non-headless)")
    else if r.is_rate_limited
    then some (
        emission new_id ts project slug rate_limited warn
          "plafond rate-limit 5 h de l'org atteint — tenue, re-runnable après reset")
    else if r.is_interrupted
    then some (
        emission new_id ts project slug interrupted warn
          "interrompue par un signal externe (teardown/OOM/session) — re-runnable")
    else if r.needs_redrain
    then some (
        emission new_id ts project slug worker_failed blocker (
          str_append
            "base périmée non réalignable (fondations en conflit) — re-drain requis : `forgemaster redrain "
            (str_append (ref_of project slug) "`")))
    else if r.ok
    then none
    else some (
        emission new_id ts project slug worker_failed blocker
          (text_or r.reason "run worker en échec"))

abbrev pub emit_opt : Bool → Option Emission → List Alert → List Alert
emit_opt reachable none rows = rows
emit_opt reachable (some e) rows = emit_alert reachable e rows

abbrev pub inert : FeatureStatus → Bool
inert merged = true
inert cancelled = true
inert _ = false

-- _BLOCKED_FEATURE_STATES
abbrev pub blocked_state : State → Bool
blocked_state blocked_deps = true
blocked_state error = true
blocked_state cycle = true
blocked_state _ = false

abbrev pub rank : Priority → ℕ
rank p0 = 0
rank p1 = 1
rank p2 = 2
rank p3 = 3

-- (priority, created_at, slug)
pub record Key : Type 0 where
  pub prio : ℕ
  pub created : Text
  pub slug : String

abbrev pub text_same : Text → Text → Bool
text_same s t = text_leb s t && text_leb t s

-- the order of the tuples
abbrev pub key_leb : Key → Key → Bool
key_leb a b =
    if a.prio == b.prio
    then (if text_same a.created b.created
        then text_leb (codes a.slug) (codes b.slug)
        else text_leb a.created b.created)
    else ltb a.prio b.prio

abbrev pub insert_key : Key → List Key → List Key
insert_key k [] = k ∷ []
insert_key k (x ∷ xs) = let rest = insert_key k xs in if key_leb k x then k ∷ (x ∷ xs) else x ∷ rest

unfoldable pub sort_keys : List Key → List Key
sort_keys [] = []
sort_keys (k ∷ ks) = insert_key k (sort_keys ks)

abbrev pub key_of : String → Option Task → Option Key
key_of slug none = none
key_of slug (some t) =
    some (record {
      prio = rank t.priority;
      created = codes (text_or t.created_at "9999");
      slug = slug;
    })

-- passed over: inert, in flight, excluded, or behind a feature that is not merged
abbrev pub skipped : List String → List String → FeatureNode → Bool
skipped in_flight failed n =
    (inert n.row.status || (elem n.row.slug in_flight || elem n.row.slug failed))
    || blocked_state n.state

abbrev pub cons_opt : Option Key → List Key → List Key
cons_opt none ks = ks
cons_opt (some k) ks = k ∷ ks

module _ (tm_classify : List Record → String → State) (rank_ready : List Record → List String) where
  abbrev pub next_key : String → List Task → Option Key
  next_key slug [] = none
  next_key slug (t ∷ ts) = key_of slug (resolve_next tm_classify rank_ready (t ∷ ts))

  -- The body of the loop on one feature, with its inter-feature state beside it.
  unfoldable pub ranked :
      Store → String → List String → List String → List FeatureNode → Result (List Key)
  ranked db project in_flight failed [] = returned []
  ranked db project in_flight failed (n ∷ ns) =
      let rest = ranked db project in_flight failed ns in
      if skipped in_flight failed n
      then rest
      else bind (index_for_feature tm_classify rank_ready db (ref_of project n.row.slug))
          (λ index. bind rest (λ ks. returned (cons_opt (next_key n.row.slug index) ks)))

  abbrev pub slugs_of : Result (List Key) → Result (List String)
  slugs_of r = bind r (λ ks. returned (map (λ k. k.slug) (sort_keys ks)))

  unfoldable pub discoverable_features :
      Store → String → List String → List String → Result (List String)
  unfolding ranked
  discoverable_features db project in_flight failed =
      bind (classify_features tm_classify rank_ready db project)
        (λ nodes. slugs_of (ranked db project in_flight failed nodes))
