-- ===== src/Dispatch/Ports/Answer.antt =====
-- What `reserve` of src/forgemaster/dispatch/ports.py answers, and when it gives up.
use forgemaster.Prelude.{
  ℕ, zero, suc, ◌≤◌, String, ◌≡◌, ◌⊎◌, refl, true, false, none, some, List, [], ◌∷◌, ◌++◌, All, any,
  inl, inr, arith, select_one, Option-cases, Bool-cases,
}
use forgemaster.Dispatch.Ports.{
  Reservation, Probe, PortRange, PortResult, ok, pool_exhausted, has_key, clash, insert, Stamp,
  Race, free_port, row_at, reserve_loop, reserve, max_race_retry,
}
use forgemaster.Dispatch.Ports.Free.{blocked, ports_of, free_port-ok, free_port_full}
use forgemaster.Dispatch.Ports.Reserve.{
  IsUnique, reserve-IsUnique, select_one-insert, PortResult-cases,
}

insert_append :
    (row : Reservation) (rows rows' : List Reservation)
    → insert row rows ≡ some rows'
    → rows' ≡ rows ++ row ∷ []
unfolding insert
insert_append row rows rows' h = elim (Bool-cases (any (λ old. clash old row) rows)) [
  | inl met ↦ absurd (ground arith)
  | inr free ↦ ground arith
]

module _ (range : PortRange) (probe : Probe) (stamp : Stamp) (race : Race)
    (project purpose : String) where
  -- A port of the range, neither reserved in the table nor seen busy.
  abbrev pub IsOpen : List Reservation → ℕ → Type 0
  IsOpen rows port = (range.lo ≤ port) × (port ≤ range.hi) × (blocked rows probe port ≡ false)

  -- The table as the call found it, or as other connections left it.
  abbrev pub IsUntouched : List Reservation → List Reservation → Type 0
  IsUntouched rows rows' =
      (rows' ≡ rows) ⊎ ((k : ℕ) × (seen : List Reservation) × (rows' ≡ race k seen))

  -- In each round the key had no row; and either every port was reserved or busy, which ends the search,
  -- or the row for an open port was refused, after what other connections had written meanwhile.
  abbrev pub IsRefused : ℕ → List Reservation → Type 0
  IsRefused zero rows = Unit
  IsRefused (suc left) rows =
      (select_one (has_key project purpose) rows ≡ none)
      × (All (λ r. blocked rows probe r ≡ true) (ports_of range)
          ⊎ ((port : ℕ) × IsOpen rows port
              × (insert (row_at range probe stamp race project purpose port) (race left rows)
                  ≡ none)
              × IsRefused left (race left rows)))

  -- The row that is answered is the one held for the key: one that was there, or a new one, at the end of
  -- the table, for a port that was open in the table read. No answer is an exhausted pool.
  abbrev pub IsAnswer : ℕ → List Reservation → PortResult Reservation × List Reservation → Type 0
  IsAnswer left rows (ok row, rows') =
      (select_one (has_key project purpose) rows' ≡ some row)
      × (IsUntouched rows rows'
          ⊎ ((k : ℕ) × (seen : List Reservation) × IsOpen seen row.port
              × (rows' ≡ race k seen ++ row ∷ [])))
  IsAnswer left rows (pool_exhausted, rows') = IsUntouched rows rows' × IsRefused left rows

  -- A round later, the table that the round began with is one that other connections left.
  later-IsUntouched :
      (left : ℕ) (rows rows' : List Reservation)
      → IsUntouched (race left rows) rows'
      → IsUntouched rows rows'
  later-IsUntouched left rows rows' (inl e) = inr (left, rows, e)
  later-IsUntouched left rows rows' (inr u) = inr u

  later-IsAnswer :
      (left port : ℕ) (rows : List Reservation) (out : PortResult Reservation × List Reservation)
      → select_one (has_key project purpose) rows ≡ none
      → IsOpen rows port
      → insert (row_at range probe stamp race project purpose port) (race left rows) ≡ none
      → IsAnswer left (race left rows) out
      → IsAnswer (suc left) rows out
  later-IsAnswer left port rows (ok row, rows') e o g (held, inl u) =
      (held, inl (later-IsUntouched left rows rows' u))
  later-IsAnswer left port rows (ok row, rows') e o g (held, inr new) = (held, inr new)
  later-IsAnswer left port rows (pool_exhausted, rows') e o g (u, refused) =
      (later-IsUntouched left rows rows' u, (e, inr (port, o, g, refused)))

  reserve_loop-IsAnswer :
      (left : ℕ) (rows : List Reservation)
      → IsAnswer left rows (reserve_loop range probe stamp race project purpose left rows)
  unfolding reserve_loop
  reserve_loop-IsAnswer zero rows = (inl refl, tt)
  reserve_loop-IsAnswer (suc left) rows =
      elim (Option-cases (select_one (has_key project purpose) rows)) [
        | inr (row, e) ↦ rw (e, reserve_loop) (e, inl (inl refl))
        | inl e ↦ elim (PortResult-cases (free_port rows range probe)) [
          | inl f ↦ rw (e, f, reserve_loop) (inl refl, (e, inl (free_port_full rows range probe f)))
          | inr (port, f) ↦
              let clear = free_port-ok rows range probe port f in
              elim (Option-cases
                (insert (row_at range probe stamp race project purpose port) (race left rows))) [
                  | inl g ↦
                      rw (e, f, g, reserve_loop)
                        (later-IsAnswer left port rows _ e clear g
                          (reserve_loop-IsAnswer left (race left rows)))
                  | inr (rows', g) ↦
                      rw (e, f, g, reserve_loop)
                        (
                          select_one-insert _ (race left rows) rows' g,
                          inr (left, rows, clear, insert_append _ (race left rows) rows' g),
                        )
                ]
        ]
      ]

  -- When what other connections commit meanwhile keeps ids, ports and keys unique in the table, reserve
  -- keeps them so. The row that it answers is the one held for the key, one that was there or a new one,
  -- for a port of the range that is neither reserved in the table it read nor seen busy. It gives up,
  -- writing nothing, only on a full range, or after it lost five rounds to other connections.
  pub reserve-IsAnswer :
      (rows : List Reservation)
      → ((k : ℕ) (rows : List Reservation) → IsUnique rows → IsUnique (race k rows))
      → IsUnique rows
      → IsUnique (reserve range probe stamp race project purpose rows).1
        × IsAnswer 5 rows (reserve range probe stamp race project purpose rows)
  unfolding reserve
  reserve-IsAnswer rows fair u = (
    reserve-IsUnique range probe stamp race project purpose rows fair u,
    reserve_loop-IsAnswer max_race_retry rows,
  )
