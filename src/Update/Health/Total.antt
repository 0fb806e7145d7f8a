-- ===== src/Update/Health/Total.antt =====
-- The loop of `_wait_health` of src/forgemaster/apply_update.py ends, and what its answer rests on.
use forgemaster.Prelude.{
  ℕ, zero, suc, ◌+◌, ◌-◌, ◌≤◌, ◌<◌, ◌≡◌, ◌≢◌, refl, false, arith, ltb, ◌==◌, Bool-cases, inl, inr,
  ◌⊎◌, ap,
}
use forgemaster.Update.Health.{
  Answer, status, http_error, no_connection, is_unservable, Health, ready, unservable, ended,
  silent, out_of_fuel, Probe, Step, decided, wait, attempt, next, wait_health,
}

-- a request takes time
abbrev pub TakesTime : Probe → Type 0
TakesTime p = (t : ℕ) → 1 ≤ p.lasts t

attempt-decides : (a : Answer) (ms : ℕ) (h : Health) → attempt a ms ≡ decided h → h ≢ out_of_fuel
unfolding attempt
attempt-decides (status code) ms h e k = elim (Bool-cases (code == 200)) [
  | inl c ↦ absurd (let g : decided ready ≡ decided h = rw c at e in cc)
  | inr c ↦ absurd (let g : wait ms ≡ decided h = rw c at e in cc)
]
attempt-decides (http_error code body) ms h e k = elim (Bool-cases (is_unservable code body)) [
  | inl c ↦ absurd (let g : decided unservable ≡ decided h = rw c at e in cc)
  | inr c ↦ absurd (let g : wait (ms + 500) ≡ decided h = rw c at e in cc)
]
attempt-decides no_connection ms h e k = absurd (cc)

attempt-waits : (a : Answer) (ms w : ℕ) → attempt a ms ≡ wait w → ms ≤ w
unfolding attempt
attempt-waits (status code) ms w e = ground arith
attempt-waits (http_error code body) ms w e = ground arith
attempt-waits no_connection ms w e = ground arith

next-total :
    (s : Step) (loop : ℕ → Health)
    → ((h : Health) → s ≡ decided h → h ≢ out_of_fuel)
    → ((w : ℕ) → s ≡ wait w → loop w ≢ out_of_fuel)
    → next s loop ≢ out_of_fuel
next-total (decided h) loop d l = d h refl
next-total (wait w) loop d l = l w refl

-- A request that takes time brings the deadline nearer, so fuel for every millisecond that is left is
-- enough for the loop to come to an answer.
pub wait_health-total :
    (fuel : ℕ) (p : Probe) (deadline now : ℕ)
    → TakesTime p
    → deadline - now < fuel
    → wait_health fuel p deadline now ≢ out_of_fuel
unfolding wait_health
wait_health-total zero p deadline now takes enough = absurd (omega (arith, enough))
wait_health-total (suc fuel) p deadline now takes enough = elim (Bool-cases (ltb now deadline)) [
  | inr late ↦ rw late (λ e. absurd (cc))
  | inl early ↦ elim (Bool-cases (p.has_ended now)) [
    | inl dead ↦ rw (early, dead) (λ e. absurd (cc))
    | inr lives ↦
        let before : now < deadline = ground (arith, early) in
        rw (early, lives)
          (next-total (attempt (p.answers now) (p.lasts now)) _
            (attempt-decides (p.answers now) (p.lasts now))
            (λ w e. wait_health-total fuel p deadline (now + w) takes (
              omega (
                arith,
                enough,
                before,
                takes now,
                attempt-waits (p.answers now) (p.lasts now) w e,
              ))))
  ]
]

attempt-ready : (a : Answer) (ms : ℕ) → attempt a ms ≡ decided ready → a ≡ status 200
unfolding attempt
attempt-ready (status code) ms e = ground arith
attempt-ready (http_error code body) ms e = ground arith
attempt-ready no_connection ms e = absurd (cc)

-- The instance served before the deadline, when no end of the process was seen.
abbrev pub Served : Probe → ℕ → ℕ → Type 0
Served p deadline now =
    (t : ℕ) × (now ≤ t) × (t < deadline) × (p.has_ended t ≡ false) × (p.answers t ≡ status 200)

next-ready :
    (s : Step) (loop : ℕ → Health)
    → next s loop ≡ ready
    → (s ≡ decided ready) ⊎ ((w : ℕ) × (s ≡ wait w) × (loop w ≡ ready))
next-ready (decided h) loop e = inl (ap decided e)
next-ready (wait w) loop e = inr (w, refl, e)

-- Ready means that a request that was sent before the deadline was answered with 200.
pub wait_health-Served :
    (fuel : ℕ) (p : Probe) (deadline now : ℕ)
    → wait_health fuel p deadline now ≡ ready
    → Served p deadline now
unfolding wait_health
wait_health-Served zero p deadline now e = absurd (cc)
wait_health-Served (suc fuel) p deadline now e = elim (Bool-cases (ltb now deadline)) [
  | inr late ↦ absurd (let g : silent ≡ ready = rw late at e in cc)
  | inl early ↦ elim (Bool-cases (p.has_ended now)) [
    | inl dead ↦ absurd (let g : ended ≡ ready = rw (early, dead) at e in cc)
    | inr lives ↦
        let before : now < deadline = ground (arith, early) in
        elim (next-ready (attempt (p.answers now) (p.lasts now)) _ (rw (early, lives) at e)) [
          | inl d ↦ (now, omega arith, before, lives, attempt-ready (p.answers now) (p.lasts now) d)
          | inr (w, _, l) ↦
              let later = wait_health-Served fuel p deadline (now + w) l in
              (later.0, omega (arith, later.1), later.2, later.3, later.4)
        ]
  ]
]
