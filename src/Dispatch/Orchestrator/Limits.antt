-- ===== src/Dispatch/Orchestrator/Limits.antt =====
-- The features in flight in the loop of `run_project` of src/forgemaster/dispatch/orchestrator.py.
use forgemaster.Prelude.{
  if_both, All, All-append, All-delete, ℕ, String, ◌≡◌, ◌≤◌, Bool, false, Option, some, List, [],
  ◌∷◌, arith, Bool-cases, inl, inr, leb, length, length-append, elem, str_eq, eq_iff, delete, suc,
}
use forgemaster.Dispatch.Orchestrator.{Report}
use forgemaster.Dispatch.Orchestrator.Drain.{
  Drain, add, excluded, start, behind_socle, submit, settle, settle_all, Turn, again, stopped,
  Round, submitted, turn, drain_of, at_least_one, drain_loop, settled, wait_for, go_on,
}

length-add_le : (x : String) (xs : List String) → length (add x xs) ≤ suc (length xs)
length-add_le x xs = ground (arith, length-append xs (x ∷ []))

length-delete_le : (p : String → Bool) (xs : List String) → length (delete p xs) ≤ length xs
unfolding delete
length-delete_le p [] = omega arith
length-delete_le p (x ∷ xs) = ground (arith, length-delete_le p xs)

submit-length :
    (socle : Option String) (max_parallel : ℕ) (slugs : List String) (d : Drain)
    → length d.in_flight ≤ max_parallel
    → length (submit socle max_parallel slugs d).in_flight ≤ max_parallel
unfolding submit
submit-length socle n [] d h = h
submit-length socle n (slug ∷ slugs) d h =
    let held = record d { held_for_socle = add slug d.held_for_socle } in
    let sent = record d { in_flight = add slug d.in_flight } in
    ground (
      arith,
      submit-length socle n slugs held h,
      submit-length socle n slugs sent,
      length-add_le slug d.in_flight,
    )

settle-length :
    (slug : String) (report : Report) (d : Drain)
    → length (settle slug report d).in_flight ≤ length d.in_flight
unfolding settle
settle-length slug report d = ground (arith, length-delete_le (str_eq slug) d.in_flight)

settle_all-length :
    (done : List (String × Report)) (d : Drain)
    → length (settle_all done d).in_flight ≤ length d.in_flight
unfolding settle_all
settle_all-length [] d = omega arith
settle_all-length ((slug, report) ∷ done) d =
    omega (arith, settle_all-length done (settle slug report d), settle-length slug report d)

-- What holds of the start of every round, and of the end of the run, when the two parts of a round
-- keep it.
module _ (P : Drain → Type 0) (socle : Option String) (n : ℕ) where
  wait_for_keeps :
      (xs : List String) (round : Round) (s : Drain)
      → P s
      → P (settled round s)
      → P (drain_of (wait_for xs round s))
  wait_for_keeps [] round s h k = h
  wait_for_keeps (x ∷ xs) round s h k =
      if_both (λ t. P (drain_of t)) (settled round s).rate_hit (stopped (settled round s))
        (again (settled round s)) k k

  turn_keeps :
      (round : Round) (d : Drain)
      → P d
      → (P d → P (submitted socle (at_least_one n) round d))
      → ((s : Drain) → P s → P (settled round s))
      → P (drain_of (turn socle (at_least_one n) round d))
  unfolding turn
  turn_keeps round d h sub set =
      let s = submitted socle (at_least_one n) round d in
      if_both (λ t. P (drain_of t)) round.abort_requested (stopped d) (wait_for s.in_flight round s)
        h (wait_for_keeps s.in_flight round s (sub h) (set s (sub h)))

  go_on_keeps :
      (t : Turn) (next : Drain → Turn)
      → P (drain_of t)
      → ((d : Drain) → P d → P (drain_of (next d)))
      → P (drain_of (go_on t next))
  go_on_keeps (again d) next h k = k d h
  go_on_keeps (stopped d) next h k = h

  pub drain_loop_keeps :
      (rounds : List Round) (d : Drain)
      → ((round : Round) (e : Drain) → P e → P (submitted socle (at_least_one n) round e))
      → ((round : Round) (s : Drain) → P s → P (settled round s))
      → P d
      → P (drain_of (drain_loop socle n rounds d))
  unfolding drain_loop
  drain_loop_keeps [] d sub set h = h
  drain_loop_keeps (round ∷ rounds) d sub set h =
      go_on_keeps (turn socle (at_least_one n) round d) (λ e. drain_loop socle n rounds e)
        (turn_keeps round d h (sub round d) (set round))
        (λ e k. drain_loop_keeps rounds e sub set k)

-- The features at work when the run has made `rounds` and the round `next` has submitted, before any of
-- them is done: the most that is in flight in that round.
abbrev pub at_work : Option String → ℕ → List Round → Round → List String
at_work socle n rounds next =
    (submitted socle (at_least_one n) next (drain_of (drain_loop socle n rounds start))).in_flight

-- However many rounds a run makes, whatever they discover and in whatever order the workers end, no
-- more features are in flight, once a round has submitted, than `max(1, max_parallel)`.
pub drain_loop_bound :
    (socle : Option String) (n : ℕ) (rounds : List Round) (next : Round)
    → length (at_work socle n rounds next) ≤ at_least_one n
drain_loop_bound socle n rounds next =
    let sub = λ (round : Round) (d : Drain) (h : length d.in_flight ≤ at_least_one n).
      submit-length socle (at_least_one n) (round.discovered d.in_flight (excluded d)) d h in
    sub next (drain_of (drain_loop socle n rounds start)) (
      drain_loop_keeps (λ d. length d.in_flight ≤ at_least_one n) socle n rounds start sub
        (λ round s h. omega (arith, settle_all-length (round.finished s.in_flight) s, h))
        (omega arith))

add-All : (P : String → Type 0) (x : String) (xs : List String) → P x → All P xs → All P (add x xs)
add-All P x xs hx h = elim (Bool-cases (elem x xs)) [
  | inl there ↦ rw there h
  | inr new ↦ rw new (All-append P xs (x ∷ []) h (hx, tt))
]

-- A property of the features in flight that a submission may add and a deletion keeps.
module _ (P : List String → Type 0) (socle : Option String) where
  submit_keeps :
      (n : ℕ) (slugs : List String) (d : Drain)
      → ((x : String) (xs : List String) → behind_socle socle x ≡ false → P xs → P (add x xs))
      → P d.in_flight
      → P (submit socle n slugs d).in_flight
  unfolding submit
  submit_keeps n [] d grow h = h
  submit_keeps n (slug ∷ slugs) d grow h =
      let held = record d { held_for_socle = add slug d.held_for_socle } in
      let sent = record d { in_flight = add slug d.in_flight } in
      elim (Bool-cases (behind_socle socle slug)) [
        | inl behind ↦ rw behind (submit_keeps n slugs held grow h)
        | inr free ↦ elim (Bool-cases (leb n (length d.in_flight))) [
          | inl full ↦ rw (free, full) h
          | inr room ↦
              rw (free, room) (submit_keeps n slugs sent grow (grow slug d.in_flight free h))
        ]
      ]

  settle_keeps :
      (slug : String) (report : Report) (d : Drain)
      → ((p : String → Bool) (xs : List String) → P xs → P (delete p xs))
      → P d.in_flight
      → P (settle slug report d).in_flight
  unfolding settle
  settle_keeps slug report d shrink h = ground (arith, shrink (str_eq slug) d.in_flight h)

  settle_all_keeps :
      (done : List (String × Report)) (d : Drain)
      → ((p : String → Bool) (xs : List String) → P xs → P (delete p xs))
      → P d.in_flight
      → P (settle_all done d).in_flight
  unfolding settle_all
  settle_all_keeps [] d shrink h = h
  settle_all_keeps ((slug, report) ∷ done) d shrink h =
      settle_all_keeps done (settle slug report d) shrink (settle_keeps slug report d shrink h)

  flight_keeps :
      (n : ℕ) (rounds : List Round) (next : Round)
      → ((x : String) (xs : List String) → behind_socle socle x ≡ false → P xs → P (add x xs))
      → ((p : String → Bool) (xs : List String) → P xs → P (delete p xs))
      → P []
      → P (at_work socle n rounds next)
  flight_keeps n rounds next grow shrink h =
      let sub = λ (round : Round) (d : Drain) (k : P d.in_flight).
        submit_keeps (at_least_one n) (round.discovered d.in_flight (excluded d)) d grow k in
      sub next (drain_of (drain_loop socle n rounds start)) (
        drain_loop_keeps (λ d. P d.in_flight) socle n rounds start sub
          (λ round s k. settle_all_keeps (round.finished s.in_flight) s shrink k) h)

-- While the socle of the project is not merged, no feature but the socle is in flight.
pub drain_loop_socle :
    (socle : String) (n : ℕ) (rounds : List Round) (next : Round)
    → All (λ slug. slug ≡ socle) (at_work (some socle) n rounds next)
drain_loop_socle socle n rounds next =
    flight_keeps (All (λ slug. slug ≡ socle)) (some socle) n rounds next
      (λ x xs free h. add-All (λ slug. slug ≡ socle) x xs (ground (arith, eq_iff x socle)) h)
      (λ p xs h. All-delete p (λ slug. slug ≡ socle) xs h) tt
