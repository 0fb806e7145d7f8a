-- ===== src/Dispatch/Orchestrator/Progress.antt =====
-- What the rounds of the loop of `run_project` of src/forgemaster/dispatch/orchestrator.py bring on.
use text.Mathlib.TextPositions.{eq_refl}
use forgemaster.Prelude.{
  ℕ, suc, String, ◌+◌, ◌≡◌, ◌≤◌, refl, Bool, true, false, ◌||◌, Option, List, [], ◌∷◌, arith,
  Bool-cases, inl, inr, leb, length, elem, str_eq, eq_iff, All, if◌then◌else◌, sym, ap, ◌∙◌, subst,
}
use forgemaster.Dispatch.Orchestrator.{Report}
use forgemaster.Dispatch.Orchestrator.Drain.{
  Drain, add, excluded, start, behind_socle, submit, settle, settle_all, Turn, again, stopped,
  Round, submitted, turn, at_least_one, drain_loop, settled, wait_for, go_on,
}
use forgemaster.Dispatch.Orchestrator.Sets.{
  elem-add, elem-delete, IsDistinct, elem-excluded, length-excluded, length-add_ge, progress,
  achieved, IsApart, settle-achieved, settle-in_flight, settle-IsApart,
}

abbrev pub slugs_of : List (String × Report) → List String
slugs_of [] = []
slugs_of ((slug, report) ∷ done) = slug ∷ slugs_of done

settle_all-achieved :
    (done : List (String × Report)) (d : Drain)
    → IsApart d
    → IsDistinct (slugs_of done)
    → ((x : String) → elem x (slugs_of done) ≡ true → elem x d.in_flight ≡ true)
    → achieved d + length done ≤ achieved (settle_all done d) × IsApart (settle_all done d)
unfolding settle_all
settle_all-achieved [] d apart distinct flying = (omega arith, apart)
settle_all-achieved ((slug, report) ∷ done) d apart distinct flying =
    let d' = settle slug report d in
    let out : elem slug (excluded d) ≡ false = apart slug (flying slug (rw (eq_refl slug) refl)) in
    let still : (x : String) → elem x (slugs_of done) ≡ true → elem x d'.in_flight ≡ true = λ x h.
      ap (elem x) (settle-in_flight slug report d)
      ∙ elem-delete x slug d.in_flight
      ∙ ground (arith, flying x, h, distinct.0, eq_iff slug x, eq_iff x slug) in
    let later = settle_all-achieved done d' (settle-IsApart slug report d apart) distinct.1 still in
    (omega (arith, settle-achieved slug report d out, later.0), later.1)

-- The slugs that are new to a state: neither in flight nor excluded.
abbrev IsNew : List String → Drain → Type 0
IsNew slugs d =
    (x : String)
    → elem x slugs ≡ true
    → (elem x d.in_flight ≡ false) × (elem x (excluded d) ≡ false)

abbrev hold : String → Drain → Drain
hold slug d = record d { held_for_socle = add slug d.held_for_socle }

abbrev send : String → Drain → Drain
send slug d = record d { in_flight = add slug d.in_flight }

elem-excluded-hold :
    (x slug : String) (d : Drain)
    → elem x (excluded (hold slug d)) ≡ (str_eq x slug || elem x (excluded d))
elem-excluded-hold x slug d =
    ground
      (arith, elem-excluded x d, elem-excluded x (hold slug d), elem-add x slug d.held_for_socle)

hold-IsApart :
    (slug : String) (d : Drain) → elem slug d.in_flight ≡ false → IsApart d → IsApart (hold slug d)
hold-IsApart slug d h apart x flies =
    ground (arith, elem-excluded-hold x slug d, apart x flies, eq_iff x slug, flies, h)

send-IsApart :
    (slug : String) (d : Drain) → elem slug (excluded d) ≡ false → IsApart d → IsApart (send slug d)
send-IsApart slug d h apart x flies =
    ground (arith, elem-add x slug d.in_flight, apart x, eq_iff x slug, flies, h)

hold-achieved : (slug : String) (d : Drain) → achieved d ≤ achieved (hold slug d)
hold-achieved slug d =
    omega
      (arith, length-excluded d, length-excluded (hold slug d), length-add_ge slug d.held_for_socle)

IsNew-hold :
    (slug : String) (slugs : List String) (d : Drain)
    → elem slug slugs ≡ false
    → IsNew (slug ∷ slugs) d
    → IsNew slugs (hold slug d)
IsNew-hold slug slugs d once fresh x h =
    let here : (str_eq x slug || elem x slugs) ≡ true = ground (arith, h) in
    (
      (fresh x here).0,
      ground (arith, elem-excluded-hold x slug d, (fresh x here).1, eq_iff x slug, h, once),
    )

IsNew-send :
    (slug : String) (slugs : List String) (d : Drain)
    → elem slug slugs ≡ false
    → IsNew (slug ∷ slugs) d
    → IsNew slugs (send slug d)
IsNew-send slug slugs d once fresh x h =
    let here : (str_eq x slug || elem x slugs) ≡ true = ground (arith, h) in
    (
      ground (arith, elem-add x slug d.in_flight, (fresh x here).0, eq_iff x slug, h, once),
      (fresh x here).1,
    )

submit-achieved :
    (socle : Option String) (n : ℕ) (slugs : List String) (d : Drain)
    → IsApart d
    → IsDistinct slugs
    → IsNew slugs d
    → (achieved d ≤ achieved (submit socle n slugs d)) × IsApart (submit socle n slugs d)
unfolding submit
submit-achieved socle n [] d apart once fresh = (omega arith, apart)
submit-achieved socle n (slug ∷ slugs) d apart once fresh =
    let new = fresh slug (rw (eq_refl slug) refl) in
    elim (Bool-cases (behind_socle socle slug)) [
      | inl behind ↦
          let later =
            submit-achieved socle n slugs (hold slug d) (hold-IsApart slug d new.0 apart) once.1
              (IsNew-hold slug slugs d once.0 fresh) in
          rw behind (omega (arith, hold-achieved slug d, later.0), later.1)
      | inr free ↦ elim (Bool-cases (leb n (length d.in_flight))) [
        | inl full ↦ rw (free, full) (omega arith, apart)
        | inr room ↦
            let later =
              submit-achieved socle n slugs (send slug d) (send-IsApart slug d new.1 apart) once.1
                (IsNew-send slug slugs d once.0 fresh) in
            rw (free, room) later
      ]
    ]

-- What a round may rely on: the discovery finds each feature once, and none that is in flight or
-- excluded; the wait ends with some of the workers in flight, each once.
pub record IsFair (round : Round) : Type 0 where
  pub finds_once : (flight out : List String) → IsDistinct (round.discovered flight out)
  pub finds_new :
      (flight out : List String) (x : String)
      → elem x (round.discovered flight out) ≡ true
      → (elem x flight ≡ false) × (elem x out ≡ false)
  pub ends_some : (x : String) (xs : List String) → 1 ≤ length (round.finished (x ∷ xs))
  pub ends_once : (flight : List String) → IsDistinct (slugs_of (round.finished flight))
  pub ends_flying :
      (flight : List String) (x : String)
      → elem x (slugs_of (round.finished flight)) ≡ true
      → elem x flight ≡ true

again-inj : {a b : Drain} → again a ≡ again b → a ≡ b
again-inj h = cc

unstopped :
    (b : Bool) (d : Drain) (t : Turn) (e : Drain)
    → (if b then stopped d else t) ≡ again e
    → t ≡ again e
unstopped true d t e h = absurd (cc)
unstopped false d t e h = h

wait_for-again :
    (xs : List String) (round : Round) (s e : Drain)
    → wait_for xs round s ≡ again e
    → (settled round s ≡ e) × (y : String) × (ys : List String) × (xs ≡ y ∷ ys)
wait_for-again [] round s e h = absurd (cc)
wait_for-again (x ∷ xs) round s e h =
    (again-inj (unstopped (settled round s).rate_hit (settled round s) _ e h), x, xs, refl)

turn-achieved :
    (socle : Option String) (n : ℕ) (round : Round) (d e : Drain)
    → IsFair round
    → IsApart d
    → turn socle n round d ≡ again e
    → (suc (achieved d) ≤ achieved e) × IsApart e
unfolding turn
turn-achieved socle n round d e fair apart h =
    let s = submitted socle n round d in
    let sent =
      submit-achieved socle n (round.discovered d.in_flight (excluded d)) d apart
        (fair.finds_once d.in_flight (excluded d)) (fair.finds_new d.in_flight (excluded d)) in
    let on = wait_for-again s.in_flight round s e (unstopped round.abort_requested d _ e h) in
    let some_end : 1 ≤ length (round.finished s.in_flight) =
      subst (λ f. 1 ≤ length (round.finished f)) (sym on.3) (fair.ends_some on.1 on.2) in
    let ended =
      settle_all-achieved (round.finished s.in_flight) s sent.1 (fair.ends_once s.in_flight)
        (fair.ends_flying s.in_flight) in
    subst (λ t. (suc (achieved d) ≤ achieved t) × IsApart t) on.0
      (omega (arith, sent.0, some_end, ended.0), ended.1)

go_on-again :
    (t : Turn) (next : Drain → Turn) (e : Drain)
    → go_on t next ≡ again e
    → (m : Drain) × (t ≡ again m) × (next m ≡ again e)
go_on-again (again m) next e h = (m, refl, h)
go_on-again (stopped m) next e h = absurd (cc)

drain_loop-achieved :
    (socle : Option String) (n : ℕ) (rounds : List Round) (d e : Drain)
    → All IsFair rounds
    → IsApart d
    → drain_loop socle n rounds d ≡ again e
    → achieved d + length rounds ≤ achieved e
unfolding drain_loop
drain_loop-achieved socle n [] d e fair apart h =
    subst (λ t. achieved d + 0 ≤ achieved t) (again-inj h) (omega arith)
drain_loop-achieved socle n (round ∷ rounds) d e fair apart h =
    let on = go_on-again (turn socle (at_least_one n) round d) _ e h in
    let first = turn-achieved socle (at_least_one n) round d on.0 fair.0 apart on.1 in
    omega (arith, first.0, drain_loop-achieved socle n rounds on.0 e fair.1 first.1 on.2)

-- A run that goes on after its rounds has, for each of them, a report of a task that went on or a feature
-- that is excluded from then on: what is left to do and to exclude bounds the rounds that it makes.
pub drain_loop-progress :
    (socle : Option String) (n : ℕ) (rounds : List Round) (e : Drain)
    → All IsFair rounds
    → drain_loop socle n rounds start ≡ again e
    → length rounds ≤ progress e.reports + length (excluded e)
unfolding progress
drain_loop-progress socle n rounds e fair h =
    omega (arith, drain_loop-achieved socle n rounds start e fair (λ x flies. absurd (cc)) h)
