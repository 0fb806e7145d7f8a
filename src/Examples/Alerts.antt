-- ===== src/Examples/Alerts.antt =====
-- A red gate that comes back, for the alerts of src/forgemaster/db/alerts.py.
use forgemaster.Prelude.{true, none, List, [], ◌∷◌}
use forgemaster.Db.Alerts.{Alert, Emission, gate_red, blocker, fresh_row}
use forgemaster.Db.Alerts.Dedup.{
  IsDeduped, Write, emit, resolve, ack, perform_all, perform_all-IsDeduped,
}

abbrev red_gate : Emission
red_gate = record {
  new_id = "1";
  ts = "2026-01-01";
  project = "shop";
  feature_ref = "shop/cart";
  feature = "cart";
  kind = gate_red;
  reason = "Tier-0";
  tier = none;
  severity = blocker;
  findings = none;
}

abbrev later : Emission
later = record red_gate { new_id = "2"; ts = "2026-01-02"; reason = "Tier-1" }

abbrev one_open : List Alert
one_open = fresh_row red_gate ∷ []

abbrev script : List Write
script =
    emit true red_gate
    ∷ emit true later
    ∷ ack "1"
    ∷ emit true later
    ∷ resolve true "shop" "shop/cart" [] "2026-01-03"
    ∷ []

perform_all-IsDeduped_example : IsDeduped (perform_all script [])
perform_all-IsDeduped_example = perform_all-IsDeduped script [] tt
