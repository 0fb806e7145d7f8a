-- ===== src/Dispatch/Ports/Release.antt =====
-- `release` of src/forgemaster/dispatch/ports.py.
use forgemaster.Prelude.{
  String, ◌≡◌, ◌≢◌, ◌⊎◌, subst, sym, true, false, none, some, List, [], ◌∷◌, inl, inr, arith,
  str_eq, eq_iff, All, All-map, All-select_one, AllPairs-delete, select_one, select_one_sound,
  delete, select_one-delete_covered, select_one-delete_ne, Option-cases, Bool-cases,
}
use forgemaster.Dispatch.Ports.{Reservation, has_key, clash, release}
use forgemaster.Dispatch.Ports.Reserve.{IsUnique}

-- Two rows with one key, or with one id, clash.
clash_of_key :
    (project purpose : String) (a b : Reservation)
    → clash a b ≡ false
    → has_key project purpose a ≡ true
    → has_key project purpose b ≡ false
clash_of_key project purpose a b free k = ground (
  arith,
  eq_iff a.project project,
  eq_iff a.purpose purpose,
  eq_iff b.project project,
  eq_iff b.purpose purpose,
  eq_iff a.project b.project,
  eq_iff a.purpose b.purpose,
)

clash_of_id : (a b : Reservation) → clash a b ≡ false → str_eq b.id a.id ≡ false
clash_of_id a b free = ground (arith, eq_iff a.id b.id, eq_iff b.id a.id)

module _ (project purpose : String) (row : Reservation) where
  same_row :
      (rows : List Reservation)
      → IsUnique rows
      → select_one (has_key project purpose) rows ≡ some row
      → All (λ x. has_key project purpose x ≡ true → str_eq x.id row.id ≡ true) rows
  unfolding select_one
  same_row [] u e = tt
  same_row (x ∷ xs) u e = elim (Bool-cases (has_key project purpose x)) [
    | inr other ↦ (λ k. absurd (cc), same_row xs u.1 (rw other at e))
    | inl key ↦
        let here : x ≡ row = ground arith in
        (
          λ k. ground (arith, eq_iff x.id row.id),
          All-map (λ y. clash x y ≡ false) _
              (λ y free k. absurd (cc (clash_of_key project purpose x y free key))) xs u.0,
        )
  ]

  other_row :
      (project' purpose' : String) (rows : List Reservation)
      → IsUnique rows
      → select_one (has_key project purpose) rows ≡ some row
      → has_key project' purpose' row ≡ false
      → All (λ x. str_eq x.id row.id ≡ true → has_key project' purpose' x ≡ false) rows
  unfolding select_one
  other_row project' purpose' [] u e n = tt
  other_row project' purpose' (x ∷ xs) u e n = elim (Bool-cases (has_key project purpose x)) [
    | inr other ↦
        let e' : select_one (has_key project purpose) xs ≡ some row = rw other at e in
        let free =
          All-select_one (has_key project purpose) (λ y. clash x y ≡ false) xs row u.0 e' in
        (
          λ k. ground (arith, clash_of_id x row free, eq_iff x.id row.id, eq_iff row.id x.id),
          other_row project' purpose' xs u.1 e' n,
        )
    | inl key ↦
        let here : x ≡ row = ground arith in
        (
          λ k. ground arith,
          All-map (λ y. clash x y ≡ false) _ (λ y free k. ground (arith, clash_of_id x y free)) xs
              u.0,
        )
  ]

release_absent :
    (project purpose : String) (rows : List Reservation)
    → select_one (has_key project purpose) rows ≡ none
    → release project purpose rows ≡ (none, rows)
unfolding release
release_absent project purpose rows e = rw (e, release)

release_present :
    (project purpose : String) (rows : List Reservation) (row : Reservation)
    → select_one (has_key project purpose) rows ≡ some row
    → release project purpose rows ≡ (some row, delete (λ r. str_eq r.id row.id) rows)
unfolding release
release_present project purpose rows row e = rw (e, release)

-- After a release the table has no row for the key, so a second release finds none and changes
-- nothing.
pub release_twice :
    (project purpose : String) (rows : List Reservation)
    → IsUnique rows
    → release project purpose (release project purpose rows).1
      ≡ (none, (release project purpose rows).1)
release_twice project purpose rows u =
    elim (Option-cases (select_one (has_key project purpose) rows)) [
      | inl e ↦
          let gone = release_absent project purpose rows e in
          subst (λ out. release project purpose out.1 ≡ (none, out.1)) (sym gone) gone
      | inr (row, e) ↦ rw (release_present project purpose rows row e) (
          release_absent project purpose _ (
            select_one-delete_covered (has_key project purpose) (λ r. str_eq r.id row.id) rows
              (same_row project purpose row rows u e)))
    ]

-- A release leaves the reservation of every other project and purpose as it was.
pub release_frame :
    (project purpose project' purpose' : String) (rows : List Reservation)
    → IsUnique rows
    → (project ≢ project') ⊎ (purpose ≢ purpose')
    → select_one (has_key project' purpose') (release project purpose rows).1
      ≡ select_one (has_key project' purpose') rows
unfolding release
release_frame project purpose project' purpose' rows u d =
    elim (Option-cases (select_one (has_key project purpose) rows)) [
      | inl e ↦ rw (e, release)
      | inr (row, e) ↦
          rw (e, release)
            (select_one-delete_ne (has_key project' purpose') (λ r. str_eq r.id row.id) rows
              (other_row project purpose row project' purpose' rows u e (apart row e)))
    ]
  where
    apart :
        (row : Reservation)
        → select_one (has_key project purpose) rows ≡ some row
        → has_key project' purpose' row ≡ false
    apart row e = ground (
      arith,
      select_one_sound (has_key project purpose) rows row e,
      eq_iff row.project project,
      eq_iff row.purpose purpose,
      eq_iff row.project project',
      eq_iff row.purpose purpose',
    )

pub release-IsUnique :
    (project purpose : String) (rows : List Reservation)
    → IsUnique rows
    → IsUnique (release project purpose rows).1
unfolding release
release-IsUnique project purpose rows u =
    elim (Option-cases (select_one (has_key project purpose) rows)) [
      | inl e ↦ rw (e, release) u
      | inr (row, e) ↦
          rw (e, release)
            (AllPairs-delete (λ r. str_eq r.id row.id) (λ a b. clash a b ≡ false) rows u)
    ]
