-- ===== src/Db/Alerts/Life.antt =====
-- What an emission, a resolution and an acknowledgement do to the open alerts.
use forgemaster.Prelude.{
  String, ◌≡◌, ◌≢◌, ◌⊎◌, refl, Bool, true, false, none, some, List, [], ◌∷◌, ◌++◌, arith, str_eq,
  eq_iff, inl, inr, ◌∙◌, ==_iff, Bool-cases, any, select_one, select_one_sound, update,
  select_one-update, select_one-update_out, select_one-update_ne, if◌then◌else◌,
}
use forgemaster.Db.Alerts.Dedup.{ack_target}
use forgemaster.Db.Alerts.{
  Kind, code, kind_eq, Alert, is_open, open_at, refresh, Emission, fresh_row, emit_target,
  emit_alert, wanted, kind_in, resolve_target, close, resolve_alerts, acknowledge, ack_alert, row,
  key_error,
}

any_absent : {A : Type 0} (p : A → Bool) (xs : List A) → select_one p xs ≡ none → any p xs ≡ false
unfolding select_one
any_absent p [] h = refl
any_absent p (x ∷ xs) h = ground (arith, any_absent p xs)

any_found :
    {A : Type 0} (p : A → Bool) (xs : List A) (x : A) → select_one p xs ≡ some x → any p xs ≡ true
unfolding select_one
any_found p [] x h = absurd (cc)
any_found p (y ∷ ys) x h = ground (arith, any_found p ys x)

kind_in_cong :
    (kinds : List Kind) (a b : Kind) → kind_eq a b ≡ true → kind_in kinds a ≡ kind_in kinds b
kind_in_cong [] a b h = refl
kind_in_cong (k ∷ ks) a b h =
    let rest = kind_in_cong ks a b h in
    let same : code a ≡ code b = (==_iff (code a) (code b)).0 h in rw (rest, same)

wanted_cong :
    (kinds : List Kind) (a b : Kind) → kind_eq a b ≡ true → wanted kinds a ≡ wanted kinds b
wanted_cong [] a b h = refl
wanted_cong (k ∷ ks) a b h = kind_in_cong (k ∷ ks) a b h

-- A blockage that comes back is the alert that is open already, with its first date, brought up to
-- date.
pub emit_alert_again :
    (e : Emission) (rows : List Alert) (old : Alert)
    → any (λ a. str_eq a.id e.new_id) rows ≡ false
    → select_one (emit_target e) rows ≡ some old
    → select_one (emit_target e) (emit_alert true e rows) ≡ some (refresh (fresh_row e) old)
unfolding emit_alert
emit_alert_again e rows old fresh found =
    let open_already = any_found (emit_target e) rows old found in
    rw (fresh, open_already)
      (select_one-update (emit_target e) (emit_target e) (refresh (fresh_row e)) rows (λ x h. refl)
        ∙ rw found (ground (arith, select_one_sound (emit_target e) rows old found)))

-- A blockage that is new is one more row, open, with the date of the call.
pub emit_alert_new :
    (e : Emission) (rows : List Alert)
    → any (λ a. str_eq a.id e.new_id) rows ≡ false
    → select_one (emit_target e) rows ≡ none
    → emit_alert true e rows ≡ rows ++ fresh_row e ∷ []
unfolding emit_alert
emit_alert_new e rows fresh absent = rw (fresh, any_absent (emit_target e) rows absent)

-- After a resolution no alert of the feature is open, of the kinds asked for.
pub resolve_alerts_closes :
    (project feature_ref : String) (kinds : List Kind) (ts : String) (rows : List Alert)
    → select_one
        (resolve_target project feature_ref kinds)
        (resolve_alerts true project feature_ref kinds ts rows)
      ≡ none
unfolding resolve_alerts
resolve_alerts_closes project feature_ref kinds ts rows =
    select_one-update_out (resolve_target project feature_ref kinds)
      (resolve_target project feature_ref kinds) (close ts) rows (λ x. ground arith)

-- A resolution leaves the open alert of every other feature or project, and of a kind that was not asked for, as it was.
pub resolve_alerts_frame :
    (project feature_ref : String) (kinds : List Kind) (ts : String) (rows : List Alert)
    (project' feature_ref' : String) (kind' : Kind)
    → (project ≢ project') ⊎ (feature_ref ≢ feature_ref') ⊎ (wanted kinds kind' ≡ false)
    → select_one
        (open_at project' feature_ref' kind')
        (resolve_alerts true project feature_ref kinds ts rows)
      ≡ select_one (open_at project' feature_ref' kind') rows
unfolding resolve_alerts
resolve_alerts_frame project feature_ref kinds ts rows project' feature_ref' kind' d =
    select_one-update_ne (resolve_target project feature_ref kinds)
      (open_at project' feature_ref' kind') (close ts) rows
      (λ a h. ground (
        arith,
        eq_iff a.project project,
        eq_iff a.feature_ref feature_ref,
        eq_iff a.project project',
        eq_iff a.feature_ref feature_ref',
        wanted_cong kinds a.kind kind',
      ))
      (λ a h. refl)

module _ (alert_id : String) (rows : List Alert) (a : Alert)
    (found : select_one (λ x. str_eq x.id alert_id) rows ≡ some a) where
  written_row :
      is_open a.status ≡ true
      → select_one (λ x. str_eq x.id alert_id) (update (ack_target alert_id) acknowledge rows)
        ≡ some (acknowledge a)
  written_row o =
      select_one-update (ack_target alert_id) (λ x. str_eq x.id alert_id) acknowledge rows
        (λ x h. refl)
      ∙ rw found (ground (arith, select_one_sound (λ x. str_eq x.id alert_id) rows a found))

  ack_alert_open :
      is_open a.status ≡ true
      → ack_alert alert_id rows
        ≡ (row (acknowledge a), update (ack_target alert_id) acknowledge rows)
  unfolding ack_alert
  ack_alert_open o = let read = written_row o in rw (found, o, read, ack_alert)

  ack_alert_shut : is_open a.status ≡ false → ack_alert alert_id rows ≡ (row a, rows)
  unfolding ack_alert
  ack_alert_shut o = rw (found, o, ack_alert)

-- The row that an acknowledgement answers with.
abbrev pub shown : Alert → Alert
shown a = if is_open a.status then acknowledge a else a

-- An acknowledgement of a known alert answers with its row, acked if it was open; a second one
-- answers the same and changes nothing.
pub ack_alert_twice :
    (alert_id : String) (rows : List Alert) (a : Alert)
    → select_one (λ x. str_eq x.id alert_id) rows ≡ some a
    → ((ack_alert alert_id rows).0 ≡ row (shown a))
      × (ack_alert alert_id (ack_alert alert_id rows).1
          ≡ (row (shown a), (ack_alert alert_id rows).1))
ack_alert_twice alert_id rows a found = elim (Bool-cases (is_open a.status)) [
  | inl o ↦
      rw (ack_alert_open alert_id rows a found o, o)
        (
          refl,
          ack_alert_shut alert_id (update (ack_target alert_id) acknowledge rows) (acknowledge a)
              (written_row alert_id rows a found o) refl,
        )
  | inr o ↦ let once = ack_alert_shut alert_id rows a found o in rw (once, o) (refl, once)
]

-- The id is unknown: KeyError, and the table as it was.
pub ack_alert_unknown :
    (alert_id : String) (rows : List Alert)
    → select_one (λ x. str_eq x.id alert_id) rows ≡ none
    → ack_alert alert_id rows ≡ (key_error, rows)
unfolding ack_alert
ack_alert_unknown alert_id rows h = rw (h, ack_alert)
