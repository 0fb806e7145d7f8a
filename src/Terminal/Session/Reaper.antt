-- ===== src/Terminal/Session/Reaper.antt =====
-- `reap` of src/forgemaster/terminal/registry.py and the sessions that are attached.
use forgemaster.Prelude.{
  ℕ, String, ◌≡◌, refl, Bool, true, false, Option, none, some, List, [], ◌∷◌, ◌++◌, arith, All,
  Bool-cases, inl, inr, str_eq, eq_iff, select_one, delete, ap, ◌∙◌,
}
use forgemaster.Terminal.Session.{
  PtySession, Registry, at_project, session_of, get, same_session, pop_found, pop, expired_at,
  expired, reap_loop, reap,
}

expired_entry : ℕ → ℕ → String × PtySession → Bool
expired_entry now ttl e = expired now ttl e.1

select_other :
    (p q : String) (xs : List (String × PtySession))
    → str_eq q p ≡ false
    → select_one (at_project p) (delete (at_project q) xs) ≡ select_one (at_project p) xs
unfolding select_one delete
select_other p q [] h = refl
select_other p q (x ∷ xs) h =
    ground (arith, select_other p q xs h, eq_iff x.0 p, eq_iff x.0 q, eq_iff q p)

pop_found_other :
    (p q : String) (s : Option PtySession) (r : Registry) (cur : Option PtySession)
    → str_eq q p ≡ false
    → get p (pop_found q s r cur) ≡ get p r
unfolding get
pop_found_other p q s r none h = refl
pop_found_other p q s r (some cur) h = elim (Bool-cases (same_session s cur)) [
  | inl same ↦ rw same (ap session_of (select_other p q r.sessions h))
  | inr other ↦ rw other refl
]

-- Every entry of the project is the session s: a dict has one.
abbrev pub IsOnly : String → PtySession → List (String × PtySession) → Type 0
IsOnly p s es = All (λ e. str_eq e.0 p ≡ true → e.1 ≡ s) es

attached_stays : (now ttl : ℕ) (s : PtySession) → s.detached_at ≡ none → expired now ttl s ≡ false
attached_stays now ttl s h = ap (expired_at now ttl s) h

reap_loop_attached :
    (now ttl : ℕ) (p : String) (s : PtySession) (es : List (String × PtySession)) (r : Registry)
    → s.detached_at ≡ none
    → IsOnly p s es
    → get p (reap_loop now ttl es r).1 ≡ get p r
unfolding reap_loop pop
reap_loop_attached now ttl p s [] r h only = refl
reap_loop_attached now ttl p s ((q, x) ∷ es) r h only = elim (Bool-cases (expired now ttl x)) [
  | inr spared ↦ rw spared (reap_loop_attached now ttl p s es r h only.1)
  | inl due ↦ elim (Bool-cases (str_eq q p)) [
    | inl same ↦
        let stays : expired now ttl x ≡ false =
          ap (expired now ttl) (only.0 same) ∙ attached_stays now ttl s h in
        absurd (ground (arith, due, stays))
    | inr other ↦
        let closed_one : Registry = record r { closed = r.closed ++ x.serial ∷ [] } in
        rw due (
          reap_loop_attached now ttl p s es (pop q (some x) closed_one) h only.1
          ∙ pop_found_other p q (some x) closed_one (get q closed_one) other)
  ]
]

-- A session that is attached is not reaped: after any reap, at any time and with any TTL, its project
-- still has it.
pub reap_attached :
    (now ttl : ℕ) (p : String) (s : PtySession) (r : Registry)
    → IsOnly p s r.sessions
    → get p r ≡ some s
    → s.detached_at ≡ none
    → get p (reap now ttl r).1 ≡ some s
unfolding reap
reap_attached now ttl p s r only found h =
    reap_loop_attached now ttl p s r.sessions r h only ∙ found
