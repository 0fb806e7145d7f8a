-- ===== src/Db/Proposals/Consent.antt =====
-- The consent that the table of src/forgemaster/db/proposals.py keeps, and the calls that gave it.
use forgemaster.Prelude.{
  ℕ, ◌≡◌, refl, String, Bool, true, false, Option, none, some, List, [], ◌∷◌, ◌++◌, arith, elem,
  str_eq, any, ◌&&◌, ◌⊎◌, inl, inr, Bool-cases, sym, subst, select_one,
}
use mathlib.Core.List.{append-nil, append_assoc}
use text.Mathlib.TextPositions.{eq_refl}
use forgemaster.Prelude.Text.{Text, text_eq, text_eq_sound, text_eq_refl}
use forgemaster.Db.Proposals.{
  Proposal, decidables, lire, Call, announce, choose, revoke, perform_all,
}
use forgemaster.Db.Proposals.Refine.{
  on_announce, on_choice, on_revocation, step, steps, lire-perform_all,
}

-- The user answered `state` to the proposal of this version with this SHA.
unfoldable pub is_answer : Text → Text → String → Call → Bool
is_answer v sha state (choose w s t ts) = text_eq w v && (text_eq s sha && str_eq t state)
is_answer v sha state _ = false

-- A cell is a proposal without a decision, or the answer that one of the calls gave.
abbrev pub IsConsented : Text → List Call → Option Proposal → Type 0
IsConsented w past none = Unit
IsConsented w past (some p) =
    ((p.state ≡ "proposed") × (p.decided_at ≡ none)) ⊎ (any (is_answer w p.sha p.state) past ≡ true)

any-append_left : (q : Call → Bool) (xs ys : List Call) → any q xs ≡ true → any q (xs ++ ys) ≡ true
any-append_left q [] ys h = absurd (cc)
any-append_left q (x ∷ xs) ys h = ground (arith, any-append_left q xs ys)

any-append_last :
    (q : Call → Bool) (xs : List Call) (y : Call) → q y ≡ true → any q (xs ++ y ∷ []) ≡ true
any-append_last q [] y h = rw h refl
any-append_last q (x ∷ xs) y h = ground (arith, any-append_last q xs y h)

-- An older answer is still an answer.
older :
    (w : Text) (past : List Call) (call : Call) (o : Option Proposal)
    → IsConsented w past o
    → IsConsented w (past ++ call ∷ []) o
older w past call none h = tt
older w past call (some p) (inl h) = inl h
older w past call (some p) (inr h) =
    inr (any-append_left (is_answer w p.sha p.state) past (call ∷ []) h)

on_announce-IsConsented :
    (w v sha : Text) (ts : ℕ) (past : List Call) (o : Option Proposal)
    → IsConsented w past o
    → IsConsented w past (on_announce v sha ts o)
on_announce-IsConsented w v sha ts past none h = inl (refl, refl)
on_announce-IsConsented w v sha ts past (some p) h = elim (Bool-cases (text_eq p.sha sha)) [
  | inl e ↦ rw e h
  | inr e ↦ rw e (inl (refl, refl))
]

on_choice-IsConsented :
    (w v sha : Text) (state : String) (ts : ℕ) (past : List Call) (o : Option Proposal)
    → text_eq v w ≡ true
    → IsConsented w past o
    → IsConsented w (past ++ choose v sha state ts ∷ []) (on_choice sha state ts o)
unfolding is_answer
on_choice-IsConsented w v sha state ts past none e h = tt
on_choice-IsConsented w v sha state ts past (some p) e h =
    elim (Bool-cases (elem state decidables)) [
      | inr d ↦ rw d (older w past (choose v sha state ts) (some p) h)
      | inl d ↦ elim (Bool-cases (text_eq p.sha sha)) [
        | inr s ↦ rw (d, s) (older w past (choose v sha state ts) (some p) h)
        | inl s ↦
            let same : text_eq sha p.sha ≡ true =
              rw (text_eq_sound p.sha sha s) (text_eq_refl sha) in
            let answer : is_answer w p.sha state (choose v sha state ts) ≡ true =
              rw (e, same, eq_refl state) refl in
            rw (d, s)
              (inr (any-append_last (is_answer w p.sha state) past (choose v sha state ts) answer))
      ]
    ]

on_revocation-IsConsented :
    (w : Text) (ts : ℕ) (past : List Call) (o : Option Proposal)
    → IsConsented w past o
    → IsConsented w past (on_revocation ts o)
on_revocation-IsConsented w ts past none h = tt
on_revocation-IsConsented w ts past (some p) h = elim (Bool-cases (str_eq p.state "declined")) [
  | inl e ↦ rw e (inl (refl, refl))
  | inr e ↦ rw e h
]

step-IsConsented :
    (w : Text) (call : Call) (past : List Call) (o : Option Proposal)
    → IsConsented w past o
    → IsConsented w (past ++ call ∷ []) (step w call o)
unfolding step
step-IsConsented w (announce true v sha ts) past o h = older w past (announce true v sha ts) o h
step-IsConsented w (announce false v sha ts) past o h = elim (Bool-cases (text_eq v w)) [
  | inl e ↦ rw e (
      older w past (announce false v sha ts) (on_announce v sha ts o)
        (on_announce-IsConsented w v sha ts past o h))
  | inr e ↦ rw e (older w past (announce false v sha ts) o h)
]
step-IsConsented w (choose v sha state ts) past o h = elim (Bool-cases (text_eq v w)) [
  | inl e ↦ rw e (on_choice-IsConsented w v sha state ts past o e h)
  | inr e ↦ rw e (older w past (choose v sha state ts) o h)
]
step-IsConsented w (revoke v ts) past o h = elim (Bool-cases (text_eq v w)) [
  | inl e ↦
      rw e
        (older w past (revoke v ts) (on_revocation ts o) (on_revocation-IsConsented w ts past o h))
  | inr e ↦ rw e (older w past (revoke v ts) o h)
]

steps-IsConsented :
    (w : Text) (calls past : List Call) (o : Option Proposal)
    → IsConsented w past o
    → IsConsented w (past ++ calls) (steps w calls o)
unfolding steps
steps-IsConsented w [] past o h = rw (append-nil past) h
steps-IsConsented w (call ∷ calls) past o h = rw⁻¹ (append_assoc past (call ∷ []) calls) (
    steps-IsConsented w calls (past ++ call ∷ []) (step w call o)
      (step-IsConsented w call past o h))

-- Whatever was announced, answered and revoked, in any order: a version's row is a proposal without a
-- decision, or its state is one that the user answered to this very version with this very SHA.
pub perform_all-IsConsented :
    (w : Text) (calls : List Call) → IsConsented w calls (lire w (perform_all calls []))
unfolding lire select_one
perform_all-IsConsented w calls =
    subst (IsConsented w calls) (sym (lire-perform_all w calls []))
      (steps-IsConsented w calls [] none tt)
