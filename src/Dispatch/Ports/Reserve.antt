-- ===== src/Dispatch/Ports/Reserve.antt =====
-- `reserve` and `release` of src/forgemaster/dispatch/ports.py over the reservation table.
use forgemaster.Prelude.{
  ℕ, zero, suc, String, ◌≡◌, refl, false, none, some, List, [], ◌∷◌, ◌++◌, subst, ◌∙◌, ◌⊎◌, inl,
  inr, arith, AllPairs, AllPairs-insert, any_none, select_one, select_one-append_none, Option-cases,
  Bool-cases, any,
}
use text.Mathlib.TextPositions.{eq_refl}
use forgemaster.Dispatch.Ports.{
  Reservation, Probe, PortRange, PortResult, ok, pool_exhausted, has_key, clash, insert, Stamp,
  Race, free_port, row_at, reserve_loop, reserve, max_race_retry,
}

-- No two rows share their id, their port, or their project and purpose.
abbrev pub IsUnique : List Reservation → Type 0
IsUnique = AllPairs (λ old new. clash old new ≡ false)

insert-IsUnique :
    (row : Reservation) (rows rows' : List Reservation)
    → insert row rows ≡ some rows'
    → IsUnique rows
    → IsUnique rows'
unfolding insert
insert-IsUnique row rows rows' h u = elim (Bool-cases (any (λ old. clash old row) rows)) [
  | inl met ↦ absurd (ground arith)
  | inr free ↦
      let grown : rows ++ row ∷ [] ≡ rows' = ground arith in
      subst IsUnique grown (
        AllPairs-insert (λ old new. clash old new ≡ false) rows row
          (any_none (λ old. clash old row) rows free) u)
]

no_clash_key :
    (row : Reservation) (rows : List Reservation)
    → any (λ old. clash old row) rows ≡ false
    → select_one (has_key row.project row.purpose) rows ≡ none
unfolding select_one
no_clash_key row [] h = refl
no_clash_key row (x ∷ xs) h = ground (arith, no_clash_key row xs)

-- After an accepted INSERT the key of the new row is found at the new row.
pub select_one-insert :
    (row : Reservation) (rows rows' : List Reservation)
    → insert row rows ≡ some rows'
    → select_one (has_key row.project row.purpose) rows' ≡ some row
unfolding insert
select_one-insert row rows rows' h = elim (Bool-cases (any (λ old. clash old row) rows)) [
  | inl met ↦ absurd (ground arith)
  | inr free ↦
      let grown : rows' ≡ rows ++ row ∷ [] = ground arith in
      let absent = no_clash_key row rows free in
      rw grown (
        select_one-append_none (has_key row.project row.purpose) rows row absent
        ∙ ground (arith, eq_refl row.project, eq_refl row.purpose))
]

pub PortResult-cases : (r : PortResult ℕ) → (r ≡ pool_exhausted) ⊎ ((port : ℕ) × (r ≡ ok port))
PortResult-cases (ok port) = inr (port, refl)
PortResult-cases pool_exhausted = inl refl

module _ (range : PortRange) (probe : Probe) (stamp : Stamp) (race : Race)
    (project purpose : String) where
  -- What is to be shown of an invariant `P` of the table and a postcondition `Q` of `reserve`.
  record Rule (P : List Reservation → Type 0)
      (Q : PortResult Reservation × List Reservation → Type 0) : Type 0 where
    fair : (k : ℕ) (rows : List Reservation) → P rows → P (race k rows)
    stop : (rows : List Reservation) → P rows → Q (pool_exhausted, rows)
    found :
        (rows : List Reservation) (row : Reservation)
        → P rows
        → select_one (has_key project purpose) rows ≡ some row
        → Q (ok row, rows)
    added :
        (seen rows rows' : List Reservation) (port : ℕ)
        → P rows
        → free_port seen range probe ≡ ok port
        → insert (row_at range probe stamp race project purpose port) rows ≡ some rows'
        → Q (ok (row_at range probe stamp race project purpose port), rows')

  reserve_ind :
      {P : List Reservation → Type 0} {Q : PortResult Reservation × List Reservation → Type 0}
      (rule : Rule P Q) (left : ℕ) (rows : List Reservation)
      → P rows
      → Q (reserve_loop range probe stamp race project purpose left rows)
  unfolding reserve_loop
  reserve_ind rule zero rows p = rule.stop rows p
  reserve_ind rule (suc left) rows p =
      elim (Option-cases (select_one (has_key project purpose) rows)) [
        | inr (row, e) ↦ rw (e, reserve_loop) (rule.found rows row p e)
        | inl e ↦ elim (PortResult-cases (free_port rows range probe)) [
          | inl f ↦ rw (e, f, reserve_loop) (rule.stop rows p)
          | inr (port, f) ↦
              elim (Option-cases
                (insert (row_at range probe stamp race project purpose port) (race left rows))) [
                  | inl g ↦
                      rw (e, f, g, reserve_loop)
                        (reserve_ind rule left (race left rows) (rule.fair left rows p))
                  | inr (rows', g) ↦
                      rw (e, f, g, reserve_loop)
                        (rule.added rows (race left rows) rows' port (rule.fair left rows p) f g)
                ]
        ]
      ]

  -- `reserve` keeps ids, ports and keys unique in the table, when what other connections commit
  -- between its read and its write does.
  pub reserve-IsUnique :
      (rows : List Reservation)
      → ((k : ℕ) (rows : List Reservation) → IsUnique rows → IsUnique (race k rows))
      → IsUnique rows
      → IsUnique (reserve range probe stamp race project purpose rows).1
  unfolding reserve
  reserve-IsUnique rows fair u = reserve_ind rule max_race_retry rows u
    where
      rule : Rule IsUnique (λ out. IsUnique out.1)
      rule = record {
        fair = fair;
        stop = λ rows p. p;
        found = λ rows row p e. p;
        added = λ seen rows rows' port p f g. insert-IsUnique _ rows rows' g p;
      }

  abbrev Held : PortResult Reservation × List Reservation → Type 0
  Held (ok row, rows) = select_one (has_key project purpose) rows ≡ some row
  Held (pool_exhausted, rows) = Unit

  reserve-Held :
      (rows : List Reservation) → Held (reserve range probe stamp race project purpose rows)
  unfolding reserve
  reserve-Held rows = reserve_ind {P = λ rows. Unit} rule max_race_retry rows tt
    where
      rule : Rule (λ rows. Unit) Held
      rule = record {
        fair = λ k rows p. tt;
        stop = λ rows p. tt;
        found = λ rows row p e. e;
        added = λ seen rows rows' port p f g. select_one-insert _ rows rows' g;
      }

-- A reservation that was made is the answer of every later call for the same project and purpose,
-- whatever the range, the probe and the races of that call: same row, table unchanged.
pub reserve_again :
    (range range' : PortRange) (probe probe' : Probe) (stamp stamp' : Stamp) (race race' : Race)
    (project purpose : String) (rows rows' : List Reservation) (row : Reservation)
    → reserve range probe stamp race project purpose rows ≡ (ok row, rows')
    → reserve range' probe' stamp' race' project purpose rows' ≡ (ok row, rows')
unfolding reserve reserve_loop
reserve_again range range' probe probe' stamp stamp' race race' project purpose rows rows' row h =
    let held : select_one (has_key project purpose) rows' ≡ some row =
      subst (Held range probe stamp race project purpose) h
        (reserve-Held range probe stamp race project purpose rows) in
    rw (held, reserve_loop)
