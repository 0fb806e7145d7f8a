-- ===== src/Update/Wheels/Retention.antt =====
-- What `prune_wheels` of src/forgemaster/update.py leaves in the area.
use forgemaster.Prelude.{
  ℕ, zero, suc, ◌+◌, ◌≤◌, ◌≡◌, refl, List, [], ◌∷◌, length, take, arith, Bool-cases, inl, inr,
  select, ap,
}
use forgemaster.Update.Wheels.{Place, Deposit, is_used, prune_wheels}

-- The directories whose wheel a run in flight uses are still there.
prune_wheels_spares :
    (keep : ℕ) (used : List Place) (area : List Deposit)
    → select (is_used used) (prune_wheels keep used area) ≡ select (is_used used) area
unfolding prune_wheels select
prune_wheels_spares keep used [] = refl
prune_wheels_spares (suc keep) used (d ∷ area) = elim (Bool-cases (is_used used d)) [
  | inl e ↦ rw e (ap (λ t. d ∷ t) (prune_wheels_spares keep used area))
  | inr e ↦ rw e (prune_wheels_spares keep used area)
]
prune_wheels_spares zero used (d ∷ area) = elim (Bool-cases (is_used used d)) [
  | inl e ↦ rw (e, e) (ap (λ t. d ∷ t) (prune_wheels_spares zero used area))
  | inr e ↦ rw e (prune_wheels_spares zero used area)
]

-- The bound: the `keep` newest and those in use.
prune_wheels_bound :
    (keep : ℕ) (used : List Place) (area : List Deposit)
    → length (prune_wheels keep used area) ≤ keep + length (select (is_used used) area)
unfolding prune_wheels select
prune_wheels_bound keep used [] = omega arith
prune_wheels_bound (suc keep) used (d ∷ area) = elim (Bool-cases (is_used used d)) [
  | inl e ↦ rw e (omega (arith, prune_wheels_bound keep used area))
  | inr e ↦ rw e (omega (arith, prune_wheels_bound keep used area))
]
prune_wheels_bound zero used (d ∷ area) = elim (Bool-cases (is_used used d)) [
  | inl e ↦ rw e (omega (arith, prune_wheels_bound zero used area))
  | inr e ↦ rw e (prune_wheels_bound zero used area)
]

prune_wheels-take :
    (keep : ℕ) (used : List Place) (area : List Deposit)
    → take keep (prune_wheels keep used area) ≡ take keep area
unfolding prune_wheels
prune_wheels-take zero used area = refl
prune_wheels-take (suc keep) used [] = refl
prune_wheels-take (suc keep) used (d ∷ area) = ap (λ t. d ∷ t) (prune_wheels-take keep used area)

-- The retention keeps the newest directories as they were, spares every directory whose wheel a run in
-- flight names, in their order, and leaves no more than these two kinds together.
pub prune_wheels_lem :
    (keep : ℕ) (used : List Place) (area : List Deposit)
    → (take keep (prune_wheels keep used area) ≡ take keep area)
      × (select (is_used used) (prune_wheels keep used area) ≡ select (is_used used) area)
      × (length (prune_wheels keep used area) ≤ keep + length (select (is_used used) area))
prune_wheels_lem keep used area = (
  prune_wheels-take keep used area,
  prune_wheels_spares keep used area,
  prune_wheels_bound keep used area,
)
