-- ===== src/Db/Alerts.antt =====
-- src/forgemaster/db/alerts.py: the alerts of a drain, with their life open, acked, resolved.
--
-- The table is the list of its rows. The partial unique index ux_alerts_open is the conflict test of
-- the UPSERT. `reachable` says whether SQLite accepts the statement: the two writes of the drain
-- swallow sqlite3.Error.
pub mod Dedup
pub mod Life
use forgemaster.Prelude.{
  ℕ, String, Bool, true, false, not, ◌&&◌, ◌||◌, Option, none, some, List, [], ◌∷◌, ◌++◌, ◌==◌,
  str_eq, if◌then◌else◌, any, select_one, update,
}

pub data Kind : Type 0 where
  gate_red worker_failed rate_limited interrupted socle_hold interview_hold review_findings : Kind

-- The place of a kind in the CHECK of the schema.
abbrev pub code : Kind → ℕ
code gate_red = 0
code worker_failed = 1
code rate_limited = 2
code interrupted = 3
code socle_hold = 4
code interview_hold = 5
code review_findings = 6

abbrev pub kind_eq : Kind → Kind → Bool
kind_eq a b = code a == code b

pub data Severity : Type 0 where
  blocker warn info : Severity

pub data Tier : Type 0 where
  tier0 tier1 tier15 native : Tier

pub data AlertStatus : Type 0 where
  opened acked resolved : AlertStatus

abbrev pub is_open : AlertStatus → Bool
is_open opened = true
is_open _ = false

pub record Alert : Type 0 where
  pub id : String
  pub project : String
  pub feature_ref : String
  pub feature : String
  pub kind : Kind
  pub tier : Option Tier
  pub severity : Severity
  pub reason : String
  pub findings : Option String
  pub status : AlertStatus
  pub created_at : String
  pub updated_at : String
  pub resolved_at : Option String

abbrev pub of_key : String → String → Kind → Alert → Bool
of_key project feature_ref kind a =
    str_eq a.project project && (str_eq a.feature_ref feature_ref && kind_eq a.kind kind)

-- An open row of the same project, feature and kind: what ux_alerts_open forbids twice.
abbrev pub open_at : String → String → Kind → Alert → Bool
open_at project feature_ref kind a = is_open a.status && of_key project feature_ref kind a

-- ON CONFLICT … DO UPDATE SET: `created_at`, the id and the feature of the old row stay.
abbrev pub refresh : Alert → Alert → Alert
refresh new old = record old {
  reason = new.reason;
  tier = new.tier;
  severity = new.severity;
  findings = new.findings;
  updated_at = new.updated_at;
}

-- The arguments of `emit_alert`, with the id and the time that it generates.
pub record Emission : Type 0 where
  pub new_id : String
  pub ts : String
  pub project : String
  pub feature_ref : String
  pub feature : String
  pub kind : Kind
  pub reason : String
  pub tier : Option Tier
  pub severity : Severity
  pub findings : Option String

-- the VALUES of the INSERT
abbrev pub fresh_row : Emission → Alert
fresh_row e = record {
  id = e.new_id;
  project = e.project;
  feature_ref = e.feature_ref;
  feature = e.feature;
  kind = e.kind;
  tier = e.tier;
  severity = e.severity;
  reason = e.reason;
  findings = e.findings;
  status = opened;
  created_at = e.ts;
  updated_at = e.ts;
  resolved_at = none;
}

abbrev pub emit_target : Emission → Alert → Bool
emit_target e = open_at e.project e.feature_ref e.kind

-- `emit_alert`. A clash of the primary key is an sqlite3.Error too.
unfoldable pub emit_alert : Bool → Emission → List Alert → List Alert
emit_alert reachable e rows =
    if not reachable || any (λ a. str_eq a.id e.new_id) rows
    then rows
    else if any (emit_target e) rows
    then update (emit_target e) (refresh (fresh_row e)) rows
    else rows ++ fresh_row e ∷ []

abbrev pub kind_in : List Kind → Kind → Bool
kind_in [] k = false
kind_in (x ∷ xs) k = kind_eq k x || kind_in xs k

-- `if kinds: sql += " AND kind IN (…)"`: None and the empty tuple mean every kind.
abbrev pub wanted : List Kind → Kind → Bool
wanted [] k = true
wanted (x ∷ xs) k = kind_in (x ∷ xs) k

abbrev pub resolve_target : String → String → List Kind → Alert → Bool
resolve_target project feature_ref kinds a =
    str_eq a.project project
    && (str_eq a.feature_ref feature_ref && (is_open a.status && wanted kinds a.kind))

abbrev pub close : String → Alert → Alert
close ts a = record a { status = resolved; resolved_at = some ts }

unfoldable pub resolve_alerts :
    Bool → String → String → List Kind → String → List Alert → List Alert
resolve_alerts reachable project feature_ref kinds ts rows =
    if reachable then update (resolve_target project feature_ref kinds) (close ts) rows else rows

pub data AckResult : Type 0 where
  row : Alert → AckResult
  key_error : AckResult

abbrev pub answer : Option Alert → AckResult
answer none = key_error
answer (some a) = row a

abbrev pub acknowledge : Alert → Alert
acknowledge a = record a { status = acked }

-- `ack_alert`: the answer, and the table after it.
unfoldable pub ack_alert : String → List Alert → AckResult × List Alert
ack_alert alert_id rows =
    let rows' = update (λ a. str_eq a.id alert_id && is_open a.status) acknowledge rows in
    elim (select_one (λ a. str_eq a.id alert_id) rows) [
      | none ↦ (key_error, rows)
      | some a ↦
          if is_open a.status
          then (answer (select_one (λ x. str_eq x.id alert_id) rows'), rows')
          else (row a, rows)
    ]
