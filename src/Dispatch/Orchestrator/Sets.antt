-- ===== src/Dispatch/Orchestrator/Sets.antt =====
-- The sets of the loop of `run_project` of src/forgemaster/dispatch/orchestrator.py, and what one report
-- makes of them.

use forgemaster.Prelude.{
  ℕ, suc, String, ◌+◌, ◌≡◌, ◌≤◌, refl, Bool, true, false, not, ◌&&◌, ◌||◌, List, [], ◌∷◌, ◌++◌,
  arith, Bool-cases, inl, inr, length, length-append, elem, str_eq, eq_iff, delete, if◌then◌else◌,
  sym, ap, ◌∙◌,
}
use forgemaster.Dispatch.Orchestrator.{Report}
use forgemaster.Dispatch.Orchestrator.Drain.{Drain, add, excluded, settle}

pub elem-append : (x : String) (xs ys : List String) → elem x (xs ++ ys) ≡ (elem x xs || elem x ys)
elem-append x [] ys = refl
elem-append x (y ∷ xs) ys = ground (arith, elem-append x xs ys)

pub elem-add : (x y : String) (xs : List String) → elem x (add y xs) ≡ (str_eq x y || elem x xs)
elem-add x y xs = ground (arith, elem-append x xs (y ∷ []), eq_iff x y)

pub elem-delete :
    (x y : String) (xs : List String)
    → elem x (delete (str_eq y) xs) ≡ (elem x xs && not (str_eq y x))
unfolding delete
elem-delete x y [] = refl
elem-delete x y (z ∷ xs) = ground (arith, elem-delete x y xs, eq_iff y z, eq_iff x z, eq_iff y x)

-- no text twice
abbrev pub IsDistinct : List String → Type 0
IsDistinct [] = Unit
IsDistinct (x ∷ xs) = (elem x xs ≡ false) × IsDistinct xs

-- The membership in the set of the excluded, one set after another.
pub elem-excluded :
    (x : String) (d : Drain)
    → elem x (excluded d) ≡ (
        (((elem x d.failed || elem x d.needs_interview) || elem x d.held_for_socle)
          || elem x d.rate_limited)
        || elem x d.interrupted)
elem-excluded x d = simp elem-append

-- The five sets together, with the repeats across them.
pub length-excluded :
    (d : Drain)
    → length (excluded d)
      ≡ length d.failed
        + length d.needs_interview
        + length d.held_for_socle
        + length d.rate_limited
        + length d.interrupted
length-excluded d = simp length-append

pub length-add_new :
    (x : String) (xs : List String) → elem x xs ≡ false → length (add x xs) ≡ suc (length xs)
length-add_new x xs h = rw h (omega (arith, length-append xs (x ∷ [])))

pub length-add_ge : (x : String) (xs : List String) → length xs ≤ length (add x xs)
length-add_ge x xs = ground (arith, length-append xs (x ∷ []))

-- A report that excludes nothing: the task of its feature went on.
abbrev pub is_progress : Report → Bool
is_progress r = not r.needs_terminal && (not r.is_rate_limited && (not r.is_interrupted && r.ok))

unfoldable pub progress : List Report → ℕ
progress [] = 0
progress (r ∷ rs) = if is_progress r then suc (progress rs) else progress rs

pub progress-append : (rs qs : List Report) → progress (rs ++ qs) ≡ progress rs + progress qs
unfolding progress
progress-append [] qs = omega arith
progress-append (r ∷ rs) qs = ground (arith, progress-append rs qs)

-- The reports that made a task go on, and the features excluded.
abbrev pub achieved : Drain → ℕ
achieved d = progress d.reports + length (excluded d)

-- No feature in flight is excluded.
abbrev pub IsApart : Drain → Type 0
IsApart d = (x : String) → elem x d.in_flight ≡ true → elem x (excluded d) ≡ false

-- What one report makes of the sets: one more excluded, or one more progress.
pub settle-excluded :
    (slug : String) (report : Report) (d : Drain) (x : String)
    → elem x (excluded (settle slug report d)) ≡ true
    → (str_eq x slug || elem x (excluded d)) ≡ true
unfolding settle
settle-excluded slug report d x h = ground (
  arith,
  elem-excluded x d,
  elem-excluded x (settle slug report d),
  elem-add x slug d.failed,
  elem-add x slug d.needs_interview,
  elem-add x slug d.rate_limited,
  elem-add x slug d.interrupted,
)

pub settle-achieved :
    (slug : String) (report : Report) (d : Drain)
    → elem slug (excluded d) ≡ false
    → suc (achieved d) ≤ achieved (settle slug report d)
unfolding settle progress
settle-achieved slug report d h = ground (
  arith,
  elem-excluded slug d,
  length-excluded d,
  length-excluded (settle slug report d),
  progress-append d.reports (report ∷ []),
  length-add_new slug d.failed,
  length-add_new slug d.needs_interview,
  length-add_new slug d.rate_limited,
  length-add_new slug d.interrupted,
)

pub settle-in_flight :
    (slug : String) (report : Report) (d : Drain)
    → (settle slug report d).in_flight ≡ delete (str_eq slug) d.in_flight
unfolding settle
settle-in_flight slug report d = ground arith

pub settle-IsApart :
    (slug : String) (report : Report) (d : Drain) → IsApart d → IsApart (settle slug report d)
settle-IsApart slug report d apart x flies =
    let there : (elem x d.in_flight && not (str_eq slug x)) ≡ true =
      sym (elem-delete x slug d.in_flight)
      ∙ ap (elem x) (sym (settle-in_flight slug report d))
      ∙ flies in
    elim (Bool-cases (elem x (excluded (settle slug report d)))) [
      | inr out ↦ out
      | inl e ↦
          let either = settle-excluded slug report d x e in
          ground (arith, there, either, apart x, eq_iff x slug, eq_iff slug x)
    ]
