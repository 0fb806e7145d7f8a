-- ===== src/Prelude/Tables.antt =====
-- A table of the store is the list of its rows. A WHERE clause is a test on rows.
use mathlib.Core.Path.{◌≡◌, refl, subst}
use mathlib.Core.Bool.{Bool, true, false}
use mathlib.Core.Logic.{inl, inr}
use mathlib.Core.List.{List, [], ◌∷◌, ◌++◌}
use mathlib.Core.Option.{Option, none, some}
use native.Mathlib.Omega.{arith}
use forgemaster.Prelude.Tests.{if◌then◌else◌, Bool-cases}
use forgemaster.Prelude.Lists.{All, AllPairs, All-append, All-map, any}

module _ {ℓ} {A : Type ℓ} (p : A → Bool) where
  -- SELECT * FROM rows WHERE p
  unfoldable pub select : List A → List A
  select [] = []
  select (x ∷ xs) = let rest = select xs in if p x then x ∷ rest else rest

  -- the first row that the query fetches
  unfoldable pub select_one : List A → Option A
  select_one [] = none
  select_one (x ∷ xs) = if p x then some x else select_one xs

  -- DELETE FROM rows WHERE p
  unfoldable pub delete : List A → List A
  delete [] = []
  delete (x ∷ xs) = let rest = delete xs in if p x then rest else x ∷ rest

  -- UPDATE rows SET f WHERE p
  unfoldable pub update : (A → A) → List A → List A
  update f [] = []
  update f (x ∷ xs) = (if p x then f x else x) ∷ update f xs

  pub select_one_sound : (xs : List A) (x : A) → select_one xs ≡ some x → p x ≡ true
  unfolding select_one
  select_one_sound [] x h = absurd (cc)
  select_one_sound (y ∷ ys) x h = ground (arith, select_one_sound ys x)

  pub select_one-delete : (xs : List A) → select_one (delete xs) ≡ none
  unfolding select_one delete
  select_one-delete [] = refl
  select_one-delete (x ∷ xs) = ground (arith, select_one-delete xs)

  pub select_one-append_none :
      (xs : List A) (x : A)
      → select_one xs ≡ none
      → select_one (xs ++ x ∷ []) ≡ (if p x then some x else none)
  unfolding select_one
  select_one-append_none [] x h = refl
  select_one-append_none (y ∷ ys) x h = ground (arith, select_one-append_none ys x)

  -- the row fetched has what every row has
  pub All-select_one {κ} :
      (P : A → Type κ) (xs : List A) (x : A) → All P xs → select_one xs ≡ some x → P x
  unfolding select_one
  All-select_one P [] x h e = absurd (cc)
  All-select_one P (y ∷ ys) x h e = elim (Bool-cases (p y)) [
    | inl t ↦ let same : y ≡ x = ground arith in subst P same h.0
    | inr f ↦ All-select_one P ys x h.1 (rw f at e)
  ]

  pub All-delete {κ} : (P : A → Type κ) (xs : List A) → All P xs → All P (delete xs)
  unfolding delete
  All-delete P [] h = h
  All-delete P (x ∷ xs) h = elim (Bool-cases (p x)) [
    | inl e ↦ rw e (All-delete P xs h.1)
    | inr e ↦ rw e (h.0, All-delete P xs h.1)
  ]

  pub AllPairs-delete {κ} :
      (R : A → A → Type κ) (xs : List A) → AllPairs R xs → AllPairs R (delete xs)
  unfolding delete
  AllPairs-delete R [] h = h
  AllPairs-delete R (x ∷ xs) h = elim (Bool-cases (p x)) [
    | inl e ↦ rw e (AllPairs-delete R xs h.1)
    | inr e ↦ rw e (All-delete (R x) xs h.0, AllPairs-delete R xs h.1)
  ]

  pub All-update {κ} :
      (P : A → Type κ) (f : A → A) (xs : List A)
      → ((x : A) → P x → P (f x))
      → All P xs
      → All P (update f xs)
  unfolding update
  All-update P f [] k h = h
  All-update P f (x ∷ xs) k h = elim (Bool-cases (p x)) [
    | inl e ↦ rw e (k x h.0, All-update P f xs k h.1)
    | inr e ↦ rw e (h.0, All-update P f xs k h.1)
  ]

  -- A write that keeps the relation on either side keeps it throughout the table.
  pub AllPairs-update {κ} :
      (R : A → A → Type κ) (f : A → A) (xs : List A)
      → ((x y : A) → R x y → R (f x) y)
      → ((x y : A) → R x y → R x (f y))
      → AllPairs R xs
      → AllPairs R (update f xs)
  unfolding update
  AllPairs-update R f [] kl kr h = h
  AllPairs-update R f (x ∷ xs) kl kr h = elim (Bool-cases (p x)) [
    | inl e ↦ rw e (
      All-update (R (f x)) f xs (kr (f x)) (All-map (R x) (R (f x)) (kl x) xs h.0),
      AllPairs-update R f xs kl kr h.1,
    )
    | inr e ↦ rw e (All-update (R x) f xs (kr x) h.0, AllPairs-update R f xs kl kr h.1)
  ]

module _ {ℓ} {A : Type ℓ} (p q : A → Bool) where
  -- A DELETE that takes every row of a query leaves that query empty.
  pub select_one-delete_covered :
      (xs : List A) → All (λ x. p x ≡ true → q x ≡ true) xs → select_one p (delete q xs) ≡ none
  unfolding select_one delete
  select_one-delete_covered [] h = refl
  select_one-delete_covered (x ∷ xs) h = ground (arith, h.0, select_one-delete_covered xs h.1)

  -- A DELETE that takes no row of a query leaves its answer alone.
  pub select_one-delete_ne :
      (xs : List A)
      → All (λ x. q x ≡ true → p x ≡ false) xs
      → select_one p (delete q xs) ≡ select_one p xs
  unfolding select_one delete
  select_one-delete_ne [] h = refl
  select_one-delete_ne (x ∷ xs) h = ground (arith, h.0, select_one-delete_ne xs h.1)

module _ {ℓ} {A : Type ℓ} (p q : A → Bool) (f : A → A) where
  -- what the UPDATE makes of one row
  abbrev pub written : A → A
  written x = if p x then f x else x

  abbrev pub written_opt : Option A → Option A
  written_opt none = none
  written_opt (some x) = some (written x)

  -- An UPDATE that keeps a query's test writes into the row that the query finds.
  pub select_one-update :
      (xs : List A)
      → ((x : A) → p x ≡ true → q (f x) ≡ q x)
      → select_one q (update p f xs) ≡ written_opt (select_one q xs)
  unfolding select_one update
  select_one-update [] k = refl
  select_one-update (x ∷ xs) k = ground (arith, k x, select_one-update xs k)

  -- An UPDATE that makes every row of a query fail its test empties the query.
  pub select_one-update_out :
      (xs : List A) → ((x : A) → q (written x) ≡ false) → select_one q (update p f xs) ≡ none
  unfolding select_one update
  select_one-update_out [] k = refl
  select_one-update_out (x ∷ xs) k = ground (arith, k x, select_one-update_out xs k)

  -- An UPDATE of rows outside a query, before and after, leaves its answer alone.
  pub select_one-update_ne :
      (xs : List A)
      → ((x : A) → p x ≡ true → q x ≡ false)
      → ((x : A) → p x ≡ true → q (f x) ≡ false)
      → select_one q (update p f xs) ≡ select_one q xs
  unfolding select_one update
  select_one-update_ne [] k l = refl
  select_one-update_ne (x ∷ xs) k l = ground (arith, k x, l x, select_one-update_ne xs k l)

module _ {ℓ κ} {A : Type ℓ} (R : A → A → Type κ) where
  -- A row goes in at the end when it is related to every row that is there.
  pub AllPairs-insert :
      (xs : List A) (x : A) → All (λ y. R y x) xs → AllPairs R xs → AllPairs R (xs ++ x ∷ [])
  AllPairs-insert [] x hx h = (tt, tt)
  AllPairs-insert (y ∷ ys) x hx h =
      (All-append (R y) ys (x ∷ []) h.0 (hx.0, tt), AllPairs-insert ys x hx.1 h.1)

-- No row fits a test that `any` answers with false.
pub any_none {ℓ} :
    {A : Type ℓ} (p : A → Bool) (xs : List A) → any p xs ≡ false → All (λ x. p x ≡ false) xs
any_none p [] h = tt
any_none p (x ∷ xs) h = elim (Bool-cases (p x)) [
  | inl e ↦ absurd (cc)
  | inr e ↦ (e, any_none p xs (rw e at h))
]
