-- ===== src/Db/Alerts/Dedup.antt =====
-- The key of the open alerts of src/forgemaster/db/alerts.py, over any sequence of calls.
use forgemaster.Prelude.{
  String, ◌≡◌, refl, Bool, true, false, not, ◌&&◌, ◌||◌, List, [], ◌∷◌, arith, str_eq, eq_iff, ◌⊎◌,
  inl, inr, Bool-cases, any, any_none, AllPairs, AllPairs-update, AllPairs-insert, All-map, update,
}
use forgemaster.Db.Alerts.{
  Kind, Alert, is_open, open_at, refresh, Emission, fresh_row, emit_target, emit_alert,
  resolve_target, close, resolve_alerts, acknowledge, ack_alert,
}

-- Both rows are open and have one key.
abbrev pub duplicates : Alert → Alert → Bool
duplicates a b = is_open a.status && open_at a.project a.feature_ref a.kind b

abbrev pub IsDeduped : List Alert → Type 0
IsDeduped = AllPairs (λ a b. duplicates a b ≡ false)

-- The alerts stay without duplicates whatever is emitted, also when the same blockage comes back.
pub emit_alert-IsDeduped :
    (reachable : Bool) (e : Emission) (rows : List Alert)
    → IsDeduped rows
    → IsDeduped (emit_alert reachable e rows)
unfolding emit_alert
emit_alert-IsDeduped reachable e rows u =
    elim (Bool-cases (not reachable || any (λ a. str_eq a.id e.new_id) rows)) [
      | inl lost ↦ rw lost u
      | inr fine ↦ elim (Bool-cases (any (emit_target e) rows)) [
        | inl old ↦
            rw (fine, old)
              (AllPairs-update (emit_target e) (λ a b. duplicates a b ≡ false)
                (refresh (fresh_row e)) rows (λ x y h. h) (λ x y h. h) u)
        | inr none_open ↦
            rw (fine, none_open)
              (AllPairs-insert (λ a b. duplicates a b ≡ false) rows (fresh_row e)
                (All-map (λ a. emit_target e a ≡ false) (λ a. duplicates a (fresh_row e) ≡ false)
                  (λ a h. ground (
                    arith,
                    eq_iff a.project e.project,
                    eq_iff e.project a.project,
                    eq_iff a.feature_ref e.feature_ref,
                    eq_iff e.feature_ref a.feature_ref,
                  ))
                  rows (any_none (emit_target e) rows none_open))
                u)
      ]
    ]

pub resolve_alerts-IsDeduped :
    (reachable : Bool) (project feature_ref : String) (kinds : List Kind) (ts : String)
    (rows : List Alert)
    → IsDeduped rows
    → IsDeduped (resolve_alerts reachable project feature_ref kinds ts rows)
unfolding resolve_alerts
resolve_alerts-IsDeduped false project feature_ref kinds ts rows u = u
resolve_alerts-IsDeduped true project feature_ref kinds ts rows u =
    AllPairs-update (resolve_target project feature_ref kinds) (λ a b. duplicates a b ≡ false)
      (close ts) rows (λ x y h. refl) (λ x y h. ground arith) u

abbrev pub ack_target : String → Alert → Bool
ack_target alert_id a = str_eq a.id alert_id && is_open a.status

-- An acknowledgement leaves the table alone, or writes `acked` into the row of that id.
pub ack_alert_cases :
    (alert_id : String) (rows : List Alert)
    → ((ack_alert alert_id rows).1 ≡ rows)
      ⊎ ((ack_alert alert_id rows).1 ≡ update (ack_target alert_id) acknowledge rows)
unfolding ack_alert
ack_alert_cases alert_id rows = ground arith

pub ack_alert-IsDeduped :
    (alert_id : String) (rows : List Alert) → IsDeduped rows → IsDeduped (ack_alert alert_id rows).1
ack_alert-IsDeduped alert_id rows u = elim (ack_alert_cases alert_id rows) [
  | inl same ↦ rw same u
  | inr written ↦ rw written (
      AllPairs-update (ack_target alert_id) (λ a b. duplicates a b ≡ false) acknowledge rows
        (λ x y h. refl) (λ x y h. ground arith) u)
]

-- The table of alerts after a sequence of writes.
pub data Write : Type 0 where
  emit : Bool → Emission → Write
  resolve : Bool → String → String → List Kind → String → Write
  ack : String → Write

unfoldable pub perform : Write → List Alert → List Alert
perform (emit reachable e) rows = emit_alert reachable e rows
perform (resolve reachable project feature_ref kinds ts) rows =
    resolve_alerts reachable project feature_ref kinds ts rows
perform (ack alert_id) rows = (ack_alert alert_id rows).1

unfoldable pub perform_all : List Write → List Alert → List Alert
unfolding perform
perform_all [] rows = rows
perform_all (w ∷ ws) rows = perform_all ws (perform w rows)

perform-IsDeduped : (w : Write) (rows : List Alert) → IsDeduped rows → IsDeduped (perform w rows)
unfolding perform
perform-IsDeduped (emit reachable e) rows u = emit_alert-IsDeduped reachable e rows u
perform-IsDeduped (resolve reachable project feature_ref kinds ts) rows u =
    resolve_alerts-IsDeduped reachable project feature_ref kinds ts rows u
perform-IsDeduped (ack alert_id) rows u = ack_alert-IsDeduped alert_id rows u

-- Whatever is emitted, resolved and acknowledged, in any order and with any statement lost, no
-- project has two open alerts of one kind for one feature.
pub perform_all-IsDeduped :
    (ws : List Write) (rows : List Alert) → IsDeduped rows → IsDeduped (perform_all ws rows)
unfolding perform_all
perform_all-IsDeduped [] rows u = u
perform_all-IsDeduped (w ∷ ws) rows u =
    perform_all-IsDeduped ws (perform w rows) (perform-IsDeduped w rows u)
